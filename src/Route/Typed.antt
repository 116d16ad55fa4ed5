-- ===== src/Route/Typed.antt =====
-- The route that is resolved along a chain has the type that belongs to its channel.
use threlium.Prelude.{
  ◌≡◌, refl, sym, ap, ◌∙◌, true, false, inl, inr, Option, none, some, List, [], ◌∷◌, is_empty, ok,
  ◌>>=◌, >>=-eq-ok, ok-injective, Bool-cases,
}
use threlium.Prelude.Text.{Text, codes, text_eq_iff, strip}
use threlium.Prelude.Wire.{parse}
use threlium.Prelude.Json.{Json, str, Fields, get_or_null, is_text, obj}
use threlium.Irt.Snapshot.{Snapshot}
use threlium.Irt.Filter.{has_route_tag}
use threlium.Route.Wire.{
  IngressRoute, email_route, telegram_route, matrix_route, isomorph_route, channel_of, RouteLib,
  EmailIngressRoute, TelegramIngressRoute, MatrixIngressRoute, IsomorphIngressRoute, decoded,
  route_of_dict, ingress_route_from_json_str, normalize_ingress_route_dict, to_ingress_route,
  parse_route_from_optional_header,
}
use threlium.Route.Resolve.{
  BridgeIngressChannel, email, telegram, matrix, isomorph, slug_of, ResolvedRoute, is_type,
  resolve_tagged, try_resolve_from_snapshot, route_from_irt_snapshots,
}

-- What msgspec says of a struct that it decodes: its field has the value of the key.
pub record RouteLaws (lib : RouteLib) : Type 0 where
  pub email_channel :
      (norm : Fields) (r : EmailIngressRoute)
      → lib.decode_email norm ≡ some r
      → get_or_null (codes "channel") norm ≡ str r.channel
  pub telegram_channel :
      (norm : Fields) (r : TelegramIngressRoute)
      → lib.decode_telegram norm ≡ some r
      → get_or_null (codes "channel") norm ≡ str r.channel
  pub matrix_channel :
      (norm : Fields) (r : MatrixIngressRoute)
      → lib.decode_matrix norm ≡ some r
      → get_or_null (codes "channel") norm ≡ str r.channel
  pub isomorph_channel :
      (norm : Fields) (r : IsomorphIngressRoute)
      → lib.decode_isomorph norm ≡ some r
      → get_or_null (codes "channel") norm ≡ str r.channel

-- A route of the type that belongs to its channel.
abbrev pub IsRouteOf : BridgeIngressChannel → IngressRoute → Type 0
IsRouteOf c route = (is_type c route ≡ true) × (channel_of route ≡ slug_of c)

is_text-str : (v : Json) (t : Text) → is_text v t ≡ true → v ≡ str t
unfolding is_text
is_text-str (str s) t h = ap str ((text_eq_iff s t).0 h)
is_text-str _ t h = cc

str-injective : {a b : Text} → str a ≡ str b → a ≡ b
str-injective h = cc

decoded-some :
    {A : Type 0} (route : A → IngressRoute) (o : Option A) {ing : IngressRoute}
    → decoded route o ≡ ok ing
    → (r : A) × (o ≡ some r) × (ing ≡ route r)
decoded-some route none h = cc
decoded-some route (some r) h = (r, refl, sym (ok-injective h))

module _ (lib : RouteLib) (laws : RouteLaws lib) where
  -- One branch of the choice by the channel.
  branch :
      {A : Type 0} (c : BridgeIngressChannel) (route : A → IngressRoute) (o : Option A)
      (norm : Fields)
      → ((r : A) → is_type c (route r) ≡ true)
      → ((r : A) → o ≡ some r → get_or_null (codes "channel") norm ≡ str (channel_of (route r)))
      → is_text (get_or_null (codes "channel") norm) (slug_of c) ≡ true
      → {ing : IngressRoute} → decoded route o ≡ ok ing
      → IsRouteOf c ing
  branch c route o norm typed law h e =
      let (r, found, same) = decoded-some route o e in
      let key = is_text-str (get_or_null (codes "channel") norm) (slug_of c) h in
      rw same (typed r, str-injective (sym (law r found) ∙ key))

  route_of_dict-IsRouteOf :
      (norm : Fields) {ing : IngressRoute}
      → route_of_dict lib norm ≡ ok ing
      → (c : BridgeIngressChannel) × IsRouteOf c ing
  unfolding route_of_dict slug_of channel_of is_type
  route_of_dict-IsRouteOf norm h =
      let ch = get_or_null (codes "channel") norm in
      elim (Bool-cases (is_text ch (codes "email"))) [
        | inl t ↦ (
          email,
          branch email email_route (lib.decode_email norm) norm (λ r. refl)
              (laws.email_channel norm) t (rw t at h),
        )
        | inr f ↦ elim (Bool-cases (is_text ch (codes "telegram"))) [
          | inl t ↦ (
            telegram,
            branch telegram telegram_route (lib.decode_telegram norm) norm (λ r. refl)
                (laws.telegram_channel norm) t (rw (f, t) at h),
          )
          | inr g ↦ elim (Bool-cases (is_text ch (codes "matrix"))) [
            | inl t ↦ (
              matrix,
              branch matrix matrix_route (lib.decode_matrix norm) norm (λ r. refl)
                  (laws.matrix_channel norm) t (rw (f, g, t) at h),
            )
            | inr k ↦ elim (Bool-cases (is_text ch (codes "isomorph"))) [
              | inl t ↦ (
                isomorph,
                branch isomorph isomorph_route (lib.decode_isomorph norm) norm (λ r. refl)
                    (laws.isomorph_channel norm) t (rw (f, g, k, t) at h),
              )
              | inr l ↦ let x = rw (f, g, k, l) at h in cc
            ]
          ]
        ]
      ]

  json-IsRouteOf :
      (json : Option Json) (raw : Text) {ing : IngressRoute}
      → lib.decode_json raw ≡ json
      → ingress_route_from_json_str lib raw ≡ ok ing
      → (c : BridgeIngressChannel) × IsRouteOf c ing
  unfolding ingress_route_from_json_str
  json-IsRouteOf (some (obj probe)) raw e h =
      let h' = rw (e, ingress_route_from_json_str) at h in
      let (norm, n, rest) = >>=-eq-ok (normalize_ingress_route_dict probe) _ h' in
      route_of_dict-IsRouteOf norm rest
  json-IsRouteOf _ raw e h = let x = rw (e, ingress_route_from_json_str) at h in cc

  to_ingress_route-IsRouteOf :
      (wire : Text) {ing : IngressRoute}
      → to_ingress_route lib wire ≡ ok ing
      → (c : BridgeIngressChannel) × IsRouteOf c ing
  unfolding to_ingress_route
  to_ingress_route-IsRouteOf wire h =
      let (raw, d, rest) = >>=-eq-ok (lib.decode_base62 wire) _ h in
      json-IsRouteOf (lib.decode_json raw) raw refl rest

  -- A resolved route with its type, and the channel that the router reads of it.
  abbrev pub IsResolved : ResolvedRoute → Type 0
  IsResolved resolved =
      (c : BridgeIngressChannel) × IsRouteOf c resolved.api_payload
      × (resolved.channel ≡ parse (some (slug_of c)))

  tagged_header :
      (snap : Snapshot) (header : Option Text) {resolved : ResolvedRoute}
      → snap.header_route ≡ header
      → resolve_tagged lib snap ≡ ok resolved
      → IsResolved resolved
  unfolding resolve_tagged parse_route_from_optional_header
  tagged_header snap none e h = let x = rw (e, resolve_tagged) at h in cc
  tagged_header snap (some wire) {resolved} e h = elim (Bool-cases (is_empty (strip wire))) [
    | inl blank ↦ let x = rw (e, resolve_tagged, blank) at h in cc
    | inr there ↦
        let (route, found, rest) =
          >>=-eq-ok (to_ingress_route lib (strip wire) >>= λ route. ok (some route)) _
            (rw (e, resolve_tagged, there) at h) in
        let (ing, decoded_it, same) = >>=-eq-ok (to_ingress_route lib (strip wire)) _ found in
        let (c, good) = to_ingress_route-IsRouteOf (strip wire) decoded_it in
        let rest' = rw (← ok-injective same) at rest in
        rw (← ok-injective rest') (c, good, ap (λ t. parse (some t)) good.1)
  ]

  pub chain-IsResolved :
      (chain : List Snapshot) {resolved : ResolvedRoute}
      → route_from_irt_snapshots lib chain ≡ ok resolved
      → IsResolved resolved
  unfolding route_from_irt_snapshots try_resolve_from_snapshot
  chain-IsResolved [] h = cc
  chain-IsResolved (snap ∷ chain) h = elim (Bool-cases (has_route_tag snap)) [
    | inr other ↦ chain-IsResolved chain (rw other at h)
    | inl tagged ↦
        let (found, f, rest) =
          >>=-eq-ok (resolve_tagged lib snap >>= λ resolved. ok (some resolved)) _
            (rw tagged at h) in
        let (resolved', r, same) = >>=-eq-ok (resolve_tagged lib snap) _ f in
        let rest' = rw (← ok-injective same) at rest in
        rw (← ok-injective rest') (tagged_header snap snap.header_route refl r)
  ]

  -- A letter that is not tagged does not change the route of its chain.
  pub route-untagged :
      (snap : Snapshot) (chain : List Snapshot)
      → has_route_tag snap ≡ false
      → route_from_irt_snapshots lib (snap ∷ chain) ≡ route_from_irt_snapshots lib chain
  unfolding route_from_irt_snapshots try_resolve_from_snapshot
  route-untagged snap chain h = rw h refl

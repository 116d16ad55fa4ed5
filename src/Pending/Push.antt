-- ===== src/Pending/Push.antt =====
-- `handle_push` of threlium/bridges/isomorph/push.py: what a push to the bridge does to the registry.
use mathlib.Core.Path.{subst}
use threlium.Prelude.{
  ℕ, Bool, true, false, not, ◌&&◌, ◌||◌, ◌≡◌, refl, sym, ap, ◌∙◌, ◌⊎◌, inl, inr, Bool-cases, Option,
  none, some, [], any, is_empty, if◌then◌else◌, Result, ok, ◌>>=◌, >>=-eq-ok, ok-injective,
}
use threlium.Prelude.Text.{Text, codes, text_eq, text_eq_iff, text_key}
use threlium.Prelude.Dict.{Dict, get}
use threlium.Pending.Registry.{Payload, resolved, is_done, State, bucket_of, resolve}
use threlium.Pending.Isolation.{waits, resolve-waits}

-- `PushResult`, by its status
pub record PushResult : Type 0 where
  pub status : ℕ

-- `hmac.compare_digest`, which raises on texts that are not ASCII, and the decoding of a payload.
pub record PushLib : Type 0 where
  pub compare_digest : Text → Text → Result Bool
  pub decode_payload : Text → Option Payload

-- `client_host in _LOCALHOST`, or no host
unfoldable pub is_accepted_host : Option Text → Bool
unfolding text_eq
is_accepted_host none = true
is_accepted_host (some host) =
    text_eq host (codes "127.0.0.1")
    || text_eq host (codes "::1")
    || text_eq host (codes "localhost")

-- `headers.get(_PUSH_SECRET_HEADER, "")`
unfoldable pub presented_of : Dict Text Text → Text
unfolding get
presented_of headers = elim (get (codes "x-threlium-push-secret") headers) [
  | none ↦ []
  | some v ↦ v
]

-- `PushResult(status=403, …)`
abbrev pub refusal : State → PushResult × State
refusal s = (record { status = 403 }, s)

module _ (lib : PushLib) where
  -- The part behind the checks.
  unfoldable pub take_payload : Text → State → PushResult × State
  take_payload body s = elim (lib.decode_payload body) [
    | none ↦ (record { status = 400 }, s)
    | some payload ↦
        (record { status = if (resolve payload s).1 then 200 else 204 }, (resolve payload s).0)
  ]

  -- `not push_secret or not hmac.compare_digest(presented, push_secret)`
  unfoldable pub is_bad_secret : Text → Text → Result Bool
  is_bad_secret presented push_secret =
      if is_empty push_secret
      then ok true
      else (lib.compare_digest presented push_secret >>= λ same. ok (not same))

  unfoldable pub handle_push :
      Text → Dict Text Text → Option Text → Text → State → Result (PushResult × State)
  handle_push body headers client_host push_secret s =
      if not (is_accepted_host client_host)
      then ok (refusal s)
      else (is_bad_secret (presented_of headers) push_secret >>= λ bad.
          if bad then ok (refusal s) else ok (take_payload body s))

-- No host of the client is known, or it is one of the three names of the host itself.
abbrev pub IsUnknownOrLocal : Option Text → Type 0
IsUnknownOrLocal client_host =
    (client_host ≡ none)
    ⊎ ((client_host ≡ some (codes "127.0.0.1"))
        ⊎ ((client_host ≡ some (codes "::1")) ⊎ (client_host ≡ some (codes "localhost"))))

-- What hmac says of itself: only texts that are the same compare as such.
pub record PushLaws (lib : PushLib) : Type 0 where
  pub same_text : (a b : Text) → lib.compare_digest a b ≡ ok true → a ≡ b

-- A push that is refused, and leaves the registry as it is.
abbrev pub IsRefused : PushResult → State → State → Type 0
IsRefused result s t = ((result.status ≡ 403) ⊎ (result.status ≡ 400)) × (t ≡ s)

-- A push with the secret, whose payload each future gets that waits for it, and no other.
abbrev pub IsTaken : PushLib → Text → Dict Text Text → Text → PushResult → State → State → Type 0
IsTaken lib body headers push_secret result s t =
    (payload : Payload) × (is_empty push_secret ≡ false)
    × (presented_of headers ≡ push_secret)
    × (lib.decode_payload body ≡ some payload)
    × ((i : ℕ)
        → t.futures i ≡ (
            if waits i (bucket_of payload.ingress_mid s) && not (is_done (s.futures i))
            then resolved payload
            else s.futures i))
    × (result.status ≡ (
        if any (λ e. not (is_done (s.futures e.future))) (bucket_of payload.ingress_mid s)
        then 200
        else 204))

accepted-host :
    (client_host : Option Text) → is_accepted_host client_host ≡ true → IsUnknownOrLocal client_host
unfolding is_accepted_host
accepted-host none h = inl refl
accepted-host (some host) h = elim (Bool-cases (text_eq host (codes "127.0.0.1"))) [
  | inl t ↦ inr (inl (ap some ((text_eq_iff host (codes "127.0.0.1")).0 t)))
  | inr f ↦ elim (Bool-cases (text_eq host (codes "::1"))) [
    | inl t ↦ inr (inr (inl (ap some ((text_eq_iff host (codes "::1")).0 t))))
    | inr g ↦ inr (inr (inr (ap some ((text_eq_iff host (codes "localhost")).0 (rw (f, g) at h)))))
  ]
]

module _ (lib : PushLib) (laws : PushLaws lib) where
  take_payload-IsTaken :
      (body : Text) (headers : Dict Text Text) (push_secret : Text) (s : State)
      → is_empty push_secret ≡ false
      → presented_of headers ≡ push_secret
      → IsRefused (take_payload lib body s).0 s (take_payload lib body s).1
        ⊎ IsTaken lib body headers push_secret
            (take_payload lib body s).0
            s
            (take_payload lib body s).1
  unfolding take_payload
  take_payload-IsTaken body headers push_secret s there same =
      by_payload (lib.decode_payload body) refl
    where
      by_payload :
          (decoded : Option Payload)
          → lib.decode_payload body ≡ decoded
          → IsRefused (take_payload lib body s).0 s (take_payload lib body s).1
            ⊎ IsTaken lib body headers push_secret
                (take_payload lib body s).0
                s
                (take_payload lib body s).1
      by_payload none e = rw (take_payload, e) (inl (inr refl, refl))
      by_payload (some payload) e =
          let (futures, buckets, delivered) = resolve-waits payload s in
          rw (take_payload, e)
            (inr (payload, there, same, refl, futures, ap (λ b. if b then 200 else 204) delivered))

  is_bad_secret-good :
      (presented push_secret : Text)
      → is_bad_secret lib presented push_secret ≡ ok false
      → (is_empty push_secret ≡ false) × (presented ≡ push_secret)
  unfolding is_bad_secret
  is_bad_secret-good presented push_secret h = elim (Bool-cases (is_empty push_secret)) [
    | inl missing ↦ let x = rw missing at h in cc
    | inr there ↦
        let (same, c, rest) =
          >>=-eq-ok (lib.compare_digest presented push_secret) _ (rw there at h) in
        (there, laws.same_text presented push_secret (c ∙ ap ok (is_same same (ok-injective rest))))
  ]
    where
      is_same : (b : Bool) → not b ≡ false → b ≡ true
      is_same true e = refl
      is_same false e = cc

  -- If hmac compares only texts that are the same as such, then a push that is answered is either
  -- refused, with 403 or 400, and leaves the registry as it is; or its client is 127.0.0.1, ::1,
  -- localhost or not known, it has the secret, which is not empty, and a payload, each future that
  -- waits for its message and is not done gets the payload, every other future stays as it is, and
  -- the answer is 200 where some future got it and 204 where none did.
  pub handle_push-IsTaken :
      (body : Text) (headers : Dict Text Text) (client_host : Option Text) (push_secret : Text)
      (s : State) {result : PushResult} {t : State}
      → handle_push lib body headers client_host push_secret s ≡ ok (result, t)
      → IsRefused result s t
        ⊎ (IsUnknownOrLocal client_host × IsTaken lib body headers push_secret result s t)
  unfolding handle_push
  handle_push-IsTaken body headers client_host push_secret s {result} {t} h =
      elim (Bool-cases (is_accepted_host client_host)) [
        | inr remote ↦ refused (rw remote at h)
        | inl near ↦
            let (bad, b, rest) =
              >>=-eq-ok (is_bad_secret lib (presented_of headers) push_secret) _ (rw near at h) in
            by_secret near bad b rest
      ]
    where
      refused :
          ok (refusal s) ≡ ok (result, t)
          → IsRefused result s t
            ⊎ (IsUnknownOrLocal client_host × IsTaken lib body headers push_secret result s t)
      refused e =
          inl (
            inl (ap (λ p. p.0.status) (sym (ok-injective e))),
            ap (λ p. p.1) (sym (ok-injective e)),
          )

      by_secret :
          is_accepted_host client_host ≡ true
          → (bad : Bool) → is_bad_secret lib (presented_of headers) push_secret ≡ ok bad
          → (if bad then ok (refusal s) else ok (take_payload lib body s)) ≡ ok (result, t)
          → IsRefused result s t
            ⊎ (IsUnknownOrLocal client_host × IsTaken lib body headers push_secret result s t)
      by_secret near true b e = refused e
      by_secret near false b e =
          let (there, same) = is_bad_secret-good (presented_of headers) push_secret b in
          let pair = ok-injective e in
          elim (subst (λ p. IsRefused p.0 s p.1 ⊎ IsTaken lib body headers push_secret p.0 s p.1)
            pair (take_payload-IsTaken body headers push_secret s there same)) [
              | inl no_payload ↦ inl no_payload
              | inr taken ↦ inr (accepted-host client_host near, taken)
            ]

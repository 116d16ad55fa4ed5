-- ===== src/Engine/Durable.antt =====
-- No letter is settled before its answer is delivered, whatever ends a call and whatever the calls
-- do to one another.
use threlium.Prelude.{
  ℕ, ◌≡◌, refl, sym, ◌∙◌, Bool, true, false, not, ◌&&◌, any, none, List, [], ◌∷◌, ◌⊎◌, inl, inr,
  All, is_empty, arith, ok, Bool-cases, raise_if, ok-injective, >>=-eq-ok, lookup_error,
}
use threlium.Prelude.Text.{Text}
use threlium.Prelude.Among.{Among, All-get, All-replace_at, All-append, All-imp, All-map}
use threlium.Stage.Names.{value}
use threlium.Stage.Address.{MailLib}
use threlium.Engine.Run.{StageLib}
use threlium.Engine.Store.{
  Letter, IndexLib, IndexLaws, settle_recovery_for_stage, recovered_letter, update_first, settled,
  prepare_settle_target, nm_settle, half_settled, first_letter,
}
use threlium.Engine.System.{
  Call, begun, recovered, found, returned, delivered, ended, System, IsNew, Step, Reach, arrive,
  begin, recover, idle, find, run, terminal, run_fdm, settle, half_settle, crash, here, next,
}

-- A run of the letter's stage has returned, and fdm has taken what it returned, if there was
-- anything to take.
abbrev pub IsAnswered : System → Text → Type 0
IsAnswered s inner =
    (out : Text) × Among (inner, out) s.results × ((is_empty out ≡ true) ⊎ Among out s.sent)

-- A letter that is not unread, or whose file has the flag `S`, is answered.
abbrev pub IsSafe : System → Letter → Type 0
IsSafe s l = (l.seen ≡ true → IsAnswered s l.inner) × (l.unread ≡ false → IsAnswered s l.inner)

-- What a call holds is true.
abbrev pub IsJust : System → Call → Type 0
IsJust s (begun stage scope) = Unit {0}
IsJust s (recovered stage scope) = Unit {0}
IsJust s (found stage inner content) = Unit {0}
IsJust s (returned inner out) = Among (inner, out) s.results
IsJust s (delivered inner) = IsAnswered s inner
IsJust s ended = Unit {0}

pub record IsDurable (s : System) : Type 0 where
  pub safe : All (IsSafe s) s.letters
  pub just : All (IsJust s) s.calls

-- What is answered stays answered while the logs grow, and what a call holds stays true.
module _ (s t : System) (results : (p : Text × Text) → Among p s.results → Among p t.results)
    (sent : (out : Text) → Among out s.sent → Among out t.sent) where
  grown-IsAnswered : (inner : Text) → IsAnswered s inner → IsAnswered t inner
  grown-IsAnswered inner (out, returned_it, inl no_answer) =
      (out, results (inner, out) returned_it, inl no_answer)
  grown-IsAnswered inner (out, returned_it, inr taken) =
      (out, results (inner, out) returned_it, inr (sent out taken))

  grown-IsSafe : (l : Letter) → IsSafe s l → IsSafe t l
  grown-IsSafe l h = (λ e. grown-IsAnswered l.inner (h.0 e), λ e. grown-IsAnswered l.inner (h.1 e))

  grown-IsJust : (c : Call) → IsJust s c → IsJust t c
  grown-IsJust (returned inner out) h = results (inner, out) h
  grown-IsJust (delivered inner) h = grown-IsAnswered inner h
  grown-IsJust _ h = tt

pub new-IsSafe : (s : System) (l : Letter) → IsNew l → IsSafe s l
new-IsSafe s l n = (λ e. cc, λ e. cc)

module _ (mail : MailLib) (index : IndexLib) (laws : IndexLaws index) where
  recovered_letter-IsSafe :
      (s : System) (stage : Text) (l : Letter)
      → IsSafe s l
      → IsSafe s (recovered_letter index stage l)
  unfolding recovered_letter
  recovered_letter-IsSafe s stage l h =
      elim (Bool-cases (index.in_folder stage l && l.unread && l.in_cur)) [
        | inr f ↦ rw f h
        | inl t ↦ rw t (
          λ e. rw (laws.from_inner l) (h.0 (sym (laws.from_seen l) ∙ e)),
          λ e. rw (laws.from_inner l) (h.0 (seen_of (sym (laws.from_unread l) ∙ e))),
        )
      ]
    where
      seen_of : {b : Bool} → not b ≡ false → b ≡ true
      seen_of {b} e = ground arith

  -- A letter that is answered may be settled, in full or in part.
  update_first-IsSafe :
      (s : System) (inner : Text) (f : Letter → Letter)
      → ((l : Letter) → (f l).inner ≡ l.inner)
      → IsAnswered s inner
      → (letters : List Letter) → All (IsSafe s) letters
      → All (IsSafe s) (update_first (index.has_id inner) f letters)
  unfolding update_first
  update_first-IsSafe s inner f keep a [] h = tt
  update_first-IsSafe s inner f keep a (l ∷ letters) h = elim (Bool-cases (index.has_id inner l)) [
    | inr no_match ↦ rw no_match (h.0, update_first-IsSafe s inner f keep a letters h.1)
    | inl match ↦
        let same : (f l).inner ≡ inner = keep l ∙ laws.id_inner inner l match in
        rw match ((λ e. rw same a, λ e. rw same a), h.1)
  ]

  settled_inner : (l : Letter) → (settled index l).inner ≡ l.inner
  settled_inner l = laws.to_inner (record l { unread = false })

  first_letter-any :
      (p : Letter → Bool) (letters : List Letter)
      → any p letters ≡ false
      → first_letter p letters ≡ none
  unfolding first_letter
  first_letter-any p [] h = refl
  first_letter-any p (l ∷ letters) h = ground (arith, first_letter-any p letters)

  -- The second `db.find` finds what the first one has found: the recovery behind it is not reached.
  prepare_settle_target-same :
      (inner : Text) (letters : List Letter) {prepared : List Letter}
      → prepare_settle_target index inner letters ≡ ok prepared
      → prepared ≡ letters
  unfolding prepare_settle_target
  prepare_settle_target-same inner letters h =
      elim (Bool-cases (any (index.has_id inner) letters)) [
        | inl there ↦ sym (ok-injective (rw there at h))
        | inr missing ↦
            let no_result =
              rw (missing, first_letter-any (index.has_id inner) letters missing) at h in
            cc
      ]

  nm_settle-IsSafe :
      (s : System) (inner : Text) {letters' : List Letter}
      → IsAnswered s inner
      → nm_settle index inner s.letters ≡ ok letters'
      → All (IsSafe s) s.letters
      → All (IsSafe s) letters'
  unfolding nm_settle
  nm_settle-IsSafe s inner a e h =
      let (prepared, p, rest) = >>=-eq-ok (prepare_settle_target index inner s.letters) _ e in
      let (passed, q, out) =
        >>=-eq-ok (raise_if (not (any (index.has_id inner) prepared)) lookup_error) _ rest in
      rw (← ok-injective out, prepare_settle_target-same inner s.letters p)
        (update_first-IsSafe s inner (settled index) settled_inner a s.letters h)

  half_settled-IsSafe :
      (s : System) (inner : Text)
      → IsAnswered s inner
      → All (IsSafe s) s.letters
      → All (IsSafe s) (half_settled index inner s.letters)
  unfolding half_settled
  half_settled-IsSafe s inner a h = update_first-IsSafe s inner _ settled_inner a s.letters h

  Step-IsDurable :
      (lib : ℕ → StageLib) {s t : System} → Step mail index lib s t → IsDurable s → IsDurable t
  unfolding settle_recovery_for_stage
  Step-IsDurable lib {s} (arrive fresh n) d = record {
    safe =
        All-append (IsSafe s) s.letters fresh d.safe
          (All-imp (IsSafe s) IsNew (new-IsSafe s) fresh n);
    just = d.just;
  }
  Step-IsDurable lib (begin stage scope) d = record { safe = d.safe; just = (tt, d.just) }
  Step-IsDurable lib {s} (recover i stage scope e) d = record {
    safe =
        All-map (IsSafe s) (recovered_letter index (value stage))
          (recovered_letter-IsSafe s (value stage)) s.letters d.safe;
    just = All-replace_at (IsJust s) s.calls i (recovered stage scope) tt d.just;
  }
  Step-IsDurable lib {s} (idle i stage scope e n) d = record {
    safe = d.safe;
    just = All-replace_at (IsJust s) s.calls i ended tt d.just;
  }
  Step-IsDurable lib {s} (find i stage scope l e f) d = record {
    safe = d.safe;
    just = All-replace_at (IsJust s) s.calls i (found stage l.inner l.content) tt d.just;
  }
  Step-IsDurable lib {s} {t} (run i time stage inner content out e r) d = record {
    safe =
        All-imp (IsSafe t) (IsSafe s) (grown-IsSafe s t (λ p m. inr m) (λ o m. m)) s.letters d.safe;
    just =
        All-replace_at (IsJust t) s.calls i (returned inner out) (inl refl) (
          All-imp (IsJust t) (IsJust s) (grown-IsJust s t (λ p m. inr m) (λ o m. m)) s.calls
            d.just);
  }
  Step-IsDurable lib {s} (terminal i inner out e empty) d = record {
    safe = d.safe;
    just =
        All-replace_at (IsJust s) s.calls i (delivered inner)
          (out, All-get (IsJust s) s.calls i e d.just, inl empty) d.just;
  }
  Step-IsDurable lib {s} {t} (run_fdm i inner out fresh e full n) d = record {
    safe =
        All-append (IsSafe t) s.letters fresh
          (All-imp (IsSafe t) (IsSafe s) (grown-IsSafe s t (λ p m. m) (λ o m. inr m)) s.letters
            d.safe)
          (All-imp (IsSafe t) IsNew (new-IsSafe t) fresh n);
    just =
        All-replace_at (IsJust t) s.calls i (delivered inner)
          (out, All-get (IsJust s) s.calls i e d.just, inr (inl refl))
          (All-imp (IsJust t) (IsJust s) (grown-IsJust s t (λ p m. m) (λ o m. inr m)) s.calls
            d.just);
  }
  Step-IsDurable lib {s} (settle i inner letters' e ok_settle) d = record {
    safe = nm_settle-IsSafe s inner (All-get (IsJust s) s.calls i e d.just) ok_settle d.safe;
    just = All-replace_at (IsJust s) s.calls i ended tt d.just;
  }
  Step-IsDurable lib {s} (half_settle i inner e) d = record {
    safe = half_settled-IsSafe s inner (All-get (IsJust s) s.calls i e d.just) d.safe;
    just = All-replace_at (IsJust s) s.calls i ended tt d.just;
  }
  Step-IsDurable lib {s} (crash i) d = record {
    safe = d.safe;
    just = All-replace_at (IsJust s) s.calls i ended tt d.just;
  }

  pub Reach-IsDurable :
      (lib : ℕ → StageLib) {s t : System} → IsDurable s → Reach mail index lib s t → IsDurable t
  Reach-IsDurable lib d here = d
  Reach-IsDurable lib d (next r step) = Step-IsDurable lib step (Reach-IsDurable lib d r)

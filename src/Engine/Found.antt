-- ===== src/Engine/Found.antt =====
-- What the invariant of the engine means for a letter: it is settled only when it is answered, and
-- found again as long as it is not.
use threlium.Prelude.{
  ℕ, ◌≡◌, refl, ap, ◌∙◌, Bool, true, false, not, ◌&&◌, any, some, List, [], ◌∷◌, ◌⊎◌, inl, inr, map,
  All, arith, Bool-cases,
}
use threlium.Prelude.Text.{Text}
use threlium.Prelude.Among.{Among, All-among, All-imp}
use threlium.Stage.Names.{FsmStage, value, rfc822_mailbox}
use threlium.Stage.Address.{MailLib}
use threlium.Engine.Run.{StageLib}
use threlium.Engine.Store.{
  Letter, IndexLib, IndexLaws, settle_recovery_for_stage, recovered_letter, find_unread_in_thread,
  first_letter, is_waiting,
}
use threlium.Engine.System.{System, IsNew, Reach}
use threlium.Engine.Durable.{IsAnswered, IsSafe, IsDurable, new-IsSafe, Reach-IsDurable}

-- The engine before its first call.
pub record IsFresh (s : System) : Type 0 where
  pub new_letters : All IsNew s.letters
  pub no_calls : s.calls ≡ []

IsFresh-IsDurable : (s : System) → IsFresh s → IsDurable s
IsFresh-IsDurable s f = record {
  safe = All-imp (IsSafe s) IsNew (new-IsSafe s) s.letters f.new_letters;
  just = rw f.no_calls tt;
}

first_letter-some :
    (p : Letter → Bool) (letters : List Letter)
    → any p letters ≡ true
    → (l : Letter) × (first_letter p letters ≡ some l) × (p l ≡ true)
unfolding first_letter
first_letter-some p [] h = cc
first_letter-some p (l ∷ letters) h = elim (Bool-cases (p l)) [
  | inl yes_it ↦ rw yes_it (l, refl, yes_it)
  | inr other ↦ rw other (first_letter-some p letters (rw other at h))
]

any-map :
    (p : Letter → Bool) (f : Letter → Letter) (letters : List Letter) {l : Letter}
    → Among l letters
    → p (f l) ≡ true
    → any p (map f letters) ≡ true
any-map p f [] m h = absurd m
any-map p f (x ∷ letters) (inl e) h = let h' : p (f x) ≡ true = rw (← e) h in rw h' refl
any-map p f (x ∷ letters) (inr m) h = elim (Bool-cases (p (f x))) [
  | inl t ↦ rw t refl
  | inr n ↦ rw n (any-map p f letters m h)
]

all_true : {a b c : Bool} → a ≡ true → b ≡ true → c ≡ true → (a && b && c) ≡ true
all_true p q r = ground arith

module _ (mail : MailLib) (index : IndexLib) (laws : IndexLaws index) (lib : ℕ → StageLib) where
  -- Where notmuch keeps its laws, in every state that the engine reaches from one without calls whose
  -- letters are all new, a letter that is no longer unread, or whose file has the flag `S`, is
  -- answered: a run of its stage has returned, and fdm has taken what it returned, if there was
  -- anything to take.
  pub Reach-IsAnswered :
      {s t : System}
      → IsFresh s
      → Reach mail index lib s t
      → (l : Letter) → Among l t.letters
      → (l.unread ≡ false) ⊎ (l.seen ≡ true)
      → IsAnswered t l.inner
  Reach-IsAnswered {s} {t} f r l m (inl gone) =
      (All-among (IsSafe t) t.letters m
          (Reach-IsDurable mail index laws lib (IsFresh-IsDurable s f) r).safe).1
        gone
  Reach-IsAnswered {s} {t} f r l m (inr flag) =
      (All-among (IsSafe t) t.letters m
          (Reach-IsDurable mail index laws lib (IsFresh-IsDurable s f) r).safe).0
        flag

  recovered-is_waiting :
      (folder : Text) (stage : FsmStage) (scope : Text) (l : Letter)
      → l.unread ≡ true
      → l.seen ≡ false
      → index.in_thread scope l ≡ true
      → index.is_to (rfc822_mailbox stage) l ≡ true
      → is_waiting index stage scope (recovered_letter index folder l) ≡ true
  unfolding recovered_letter
  recovered-is_waiting folder stage scope l u n h k =
      elim (Bool-cases (index.in_folder folder l && l.unread && l.in_cur)) [
        | inr f ↦ rw f (all_true u h k)
        | inl t ↦ rw t (
            all_true (laws.from_unread l ∙ ap not n) (laws.from_thread scope l ∙ h)
              (laws.from_to (rfc822_mailbox stage) l ∙ k))
      ]

  -- Where notmuch keeps its laws, in every state that the engine reaches from one without calls whose
  -- letters are all new, a letter that is not answered is waited for: a call for its stage and its
  -- thread finds, after its recovery, an unread letter of that stage and thread.
  pub find_unread_in_thread-waiting :
      {s t : System}
      → IsFresh s
      → Reach mail index lib s t
      → (l : Letter) → Among l t.letters
      → ¬ IsAnswered t l.inner
      → (stage : FsmStage) (scope : Text) → index.in_thread scope l ≡ true
      → index.is_to (rfc822_mailbox stage) l ≡ true
      → (waiting : Letter) × (find_unread_in_thread index stage scope
            (settle_recovery_for_stage index (value stage) t.letters)
          ≡ some waiting)
        × (is_waiting index stage scope waiting ≡ true)
  unfolding find_unread_in_thread settle_recovery_for_stage
  find_unread_in_thread-waiting {s} {t} f r l m open_letter stage scope h k =
      let unread : l.unread ≡ true = still l.unread (λ e. Reach-IsAnswered f r l m (inl e)) in
      let unseen : l.seen ≡ false = unflagged l.seen (λ e. Reach-IsAnswered f r l m (inr e)) in
      let letters = map (recovered_letter index (value stage)) t.letters in
      first_letter-some (is_waiting index stage scope) (index.unsorted letters) (
        laws.any_unsorted (is_waiting index stage scope) letters
        ∙ any-map (is_waiting index stage scope) (recovered_letter index (value stage)) t.letters m
            (recovered-is_waiting (value stage) stage scope l unread unseen h k))
    where
      still : (b : Bool) → (b ≡ false → IsAnswered t l.inner) → b ≡ true
      still true a = refl
      still false a = absurd (open_letter (a refl))

      unflagged : (b : Bool) → (b ≡ true → IsAnswered t l.inner) → b ≡ false
      unflagged false a = refl
      unflagged true a = absurd (open_letter (a refl))

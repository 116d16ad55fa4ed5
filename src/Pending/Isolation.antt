-- ===== src/Pending/Isolation.antt =====
-- What a push and the end of a connection do to the other connections.
use threlium.Prelude.{
  ℕ, ◌+◌, ◌==◌, ltb, ◌≡◌, refl, ap, ◌∙◌, Bool, true, not, ◌&&◌, ◌||◌, List, [], ◌∷◌, arith, any,
  select, is_empty, if◌then◌else◌, Bool-cases, inl, inr,
}
use threlium.Prelude.Text.{Text, text_key, text_eq, text_eq_iff}
use threlium.Prelude.Dict.{get-set, get-remove}
use threlium.Pending.Registry.{
  Payload, Future, cancelled, resolved, is_done, Waiter, State, put, bucket_of, deliver, resolve,
  cancel_own, write_bucket, discard, forget,
}

-- A waiter of the future at `i` is among the entries.
unfoldable pub waits : ℕ → List Waiter → Bool
waits i entries = any (λ e. e.future == i) entries

deliver-futures :
    (payload : Payload) (futures : ℕ → Future) (delivered : ℕ) (entries : List Waiter) (i : ℕ)
    → (deliver payload futures delivered entries).0 i
      ≡ (if waits i entries && not (is_done (futures i)) then resolved payload else futures i)
unfolding deliver waits
deliver-futures payload futures delivered [] i = refl
deliver-futures payload futures delivered (entry ∷ entries) i =
    elim (Bool-cases (is_done (futures entry.future))) [
      | inl t ↦ ground (arith, deliver-futures payload futures delivered entries i, t)
      | inr f ↦ ground (
        arith,
        deliver-futures payload (put futures entry.future (resolved payload)) (delivered + 1)
            entries i,
        f,
      )
    ]

-- The buckets of a state in which one has been written.
bucket-write_bucket :
    (mid other : Text) (bucket : List Waiter) (s t : State)
    → t.by_id ≡ write_bucket mid bucket s.by_id
    → bucket_of other t ≡ (if text_eq mid other then bucket else bucket_of other s)
unfolding bucket_of write_bucket
bucket-write_bucket mid other [] s t h = elim (Bool-cases (text_eq mid other)) [
  | inl y ↦ rw (bucket_of, h, get-remove mid other s.by_id, y) refl
  | inr n ↦ rw (bucket_of, h, get-remove mid other s.by_id, n) refl
]
bucket-write_bucket mid other (w ∷ bucket) s t h = elim (Bool-cases (text_eq mid other)) [
  | inl y ↦ rw (bucket_of, h, get-set mid other (w ∷ bucket) s.by_id, y) refl
  | inr n ↦ rw (bucket_of, h, get-set mid other (w ∷ bucket) s.by_id, n) refl
]

deliver-count :
    (payload : Payload) (futures : ℕ → Future) (delivered : ℕ) (entries : List Waiter)
    → ltb 0 (deliver payload futures delivered entries).1
      ≡ (ltb 0 delivered || any (λ e. not (is_done (futures e.future))) entries)
unfolding deliver
deliver-count payload futures delivered [] = ground arith
deliver-count payload futures delivered (entry ∷ entries) =
    elim (Bool-cases (is_done (futures entry.future))) [
      | inl t ↦ ground (arith, deliver-count payload futures delivered entries, t)
      | inr f ↦ ground (
        arith,
        deliver-count payload (put futures entry.future (resolved payload)) (delivered + 1) entries,
        f,
      )
    ]

-- The waiters of a bucket without those of a future.
unfoldable pub others : ℕ → List Waiter → List Waiter
others fut bucket = select (λ e. not (e.future == fut)) bucket

cancel_own-others :
    (fut : ℕ) (futures : ℕ → Future) (bucket : List Waiter)
    → (cancel_own fut futures bucket).1 ≡ others fut bucket
unfolding cancel_own others
cancel_own-others fut futures [] = refl
cancel_own-others fut futures (entry ∷ bucket) = elim (Bool-cases (entry.future == fut)) [
  | inl t ↦ rw t (
      cancel_own-others fut
        (if is_done (futures entry.future) then futures else put futures entry.future cancelled)
        bucket)
  | inr f ↦ rw f (ap (◌∷◌ entry) (cancel_own-others fut futures bucket))
]

cancel_own-futures :
    (fut : ℕ) (futures : ℕ → Future) (bucket : List Waiter) (i : ℕ)
    → (cancel_own fut futures bucket).0 i
      ≡ (if waits i bucket && i == fut && not (is_done (futures i)) then cancelled else futures i)
unfolding cancel_own waits
cancel_own-futures fut futures [] i = refl
cancel_own-futures fut futures (entry ∷ bucket) i = elim (Bool-cases (entry.future == fut)) [
  | inl t ↦ elim (Bool-cases (is_done (futures entry.future))) [
    | inl d ↦ rw (t, d) (cancel_own-futures fut futures bucket i ∙ ground (arith, t, d))
    | inr d ↦
        rw (t, d)
          (cancel_own-futures fut (put futures entry.future cancelled) bucket i
            ∙ ground (arith, t, d))
  ]
  | inr f ↦ rw f (cancel_own-futures fut futures bucket i ∙ ground (arith, f))
]

empty-nil : (bucket : List Waiter) → is_empty bucket ≡ true → [] ≡ bucket
empty-nil [] h = refl
empty-nil (w ∷ bucket) h = cc

empty_bucket :
    (mid other : Text) (fut : ℕ) (s : State)
    → is_empty (bucket_of mid s) ≡ true
    → bucket_of other s
      ≡ (if text_eq mid other then others fut (bucket_of mid s) else bucket_of other s)
unfolding others
empty_bucket mid other fut s h = elim (Bool-cases (text_eq mid other)) [
  | inl t ↦ rw (t, ← (text_eq_iff mid other).0 t, ← empty-nil (bucket_of mid s) h) refl
  | inr f ↦ rw f refl
]

-- A push answers every connection that waits for its message, and no other. Each future of the
-- bucket that is not done gets the payload, every other future stays as it is; the bucket is gone
-- and the other buckets stay; and `resolve` returns whether some future got the payload.
pub resolve-waits :
    (payload : Payload) (s : State)
    → ((i : ℕ)
        → (resolve payload s).0.futures i ≡ (
            if waits i (bucket_of payload.ingress_mid s) && not (is_done (s.futures i))
            then resolved payload
            else s.futures i))
      × ((other : Text)
          → bucket_of other (resolve payload s).0
            ≡ (if text_eq payload.ingress_mid other then [] else bucket_of other s))
      × ((resolve payload s).1
          ≡ any (λ e. not (is_done (s.futures e.future))) (bucket_of payload.ingress_mid s))
unfolding resolve
resolve-waits payload s = (
  deliver-futures payload s.futures 0 (bucket_of payload.ingress_mid s),
  (λ other.
      bucket-write_bucket payload.ingress_mid other [] s (resolve payload s).0
        (unfold write_bucket in refl)),
  deliver-count payload s.futures 0 (bucket_of payload.ingress_mid s),
)

-- A connection that ends takes out its own future and no other. `discard` cancels its future where
-- it waits in the bucket and is not done, and leaves every other future as it is; the bucket keeps
-- the waiters of the other futures, and the other buckets stay.
pub discard-others :
    (mid : Text) (fut : ℕ) (s : State)
    → ((i : ℕ)
        → (discard mid fut s).futures i ≡ (
            if waits i (bucket_of mid s) && i == fut && not (is_done (s.futures i))
            then cancelled
            else s.futures i))
      × ((other : Text)
          → bucket_of other (discard mid fut s)
            ≡ (if text_eq mid other then others fut (bucket_of mid s) else bucket_of other s))
unfolding discard waits
discard-others mid fut s = elim (Bool-cases (is_empty (bucket_of mid s))) [
  | inl t ↦
      rw (discard, t)
        (
          (λ i. rw (← empty-nil (bucket_of mid s) t) refl),
          (λ other. empty_bucket mid other fut s t),
        )
  | inr f ↦
      rw (discard, f)
        (
          cancel_own-futures fut s.futures (bucket_of mid s),
          (λ other.
              bucket-write_bucket mid other (others fut (bucket_of mid s)) s
                (record s {
                  futures = (cancel_own fut s.futures (bucket_of mid s)).0;
                  by_id = write_bucket mid (cancel_own fut s.futures (bucket_of mid s)).1 s.by_id;
                })
                (ap (λ bucket. write_bucket mid bucket s.by_id)
                  (cancel_own-others fut s.futures (bucket_of mid s)))),
        )
]

-- `forget` takes out the waiters of a future as `discard` does, and changes no future.
pub forget-others :
    (mid : Text) (fut : ℕ) (s : State)
    → ((i : ℕ) → (forget mid fut s).futures i ≡ s.futures i)
      × ((other : Text)
          → bucket_of other (forget mid fut s)
            ≡ (if text_eq mid other then others fut (bucket_of mid s) else bucket_of other s))
unfolding forget others
forget-others mid fut s = elim (Bool-cases (is_empty (bucket_of mid s))) [
  | inl t ↦ rw (forget, t) ((λ i. refl), (λ other. empty_bucket mid other fut s t))
  | inr f ↦
      rw (forget, f)
        (
          (λ i. refl),
          (λ other.
              bucket-write_bucket mid other (others fut (bucket_of mid s)) s
                (record s { by_id = write_bucket mid (others fut (bucket_of mid s)) s.by_id })
                refl),
        )
]

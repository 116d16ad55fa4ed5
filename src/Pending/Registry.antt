-- ===== src/Pending/Registry.antt =====
-- `IsomorphPendingRegistry`: its futures are objects on a heap, since a waiter and the registry share
-- them.
use threlium.Prelude.{
  ℕ, suc, ◌+◌, ◌==◌, ltb, Bool, true, false, not, none, some, List, [], ◌∷◌, ◌++◌, select, is_empty,
  if◌then◌else◌,
}
use threlium.Prelude.Text.{Text, text_key}
use threlium.Prelude.Dict.{Dict, get, set, remove}

pub record Payload : Type 0 where
  pub ingress_mid : Text
  pub body : Text

-- `asyncio.Future`
pub data Future : Type 0 where
  waiting cancelled : Future
  resolved : Payload → Future

abbrev pub is_done : Future → Bool
is_done waiting = false
is_done cancelled = true
is_done (resolved payload) = true

-- `_Pending`; `future` is the place of the future on the heap.
pub record Waiter : Type 0 where
  pub future : ℕ
  pub api_surface : Text
  pub stream : Bool
  pub request_id : Text

-- The heap, with the place of the next future, and `_by_id`.
pub record State : Type 0 where
  pub next : ℕ
  pub futures : ℕ → Future
  pub by_id : Dict Text (List Waiter)

abbrev pub put : (ℕ → Future) → ℕ → Future → ℕ → Future
put futures i value j = if i == j then value else futures j

-- `_by_id.get(ingress_mid)`, empty where there is no bucket.
unfoldable pub bucket_of : Text → State → List Waiter
unfolding get
bucket_of ingress_mid s = elim (get ingress_mid s.by_id) [ none ↦ [] | some bucket ↦ bucket ]

-- `register`; `request_id` is what `uuid4` gives.
unfoldable pub register : Text → Text → Bool → Text → State → State × ℕ
unfolding bucket_of set
register ingress_mid api_surface stream request_id s =
    let w : Waiter = record {
      future = s.next;
      api_surface = api_surface;
      stream = stream;
      request_id = request_id;
    } in
    (
      record {
        next = suc s.next;
        futures = put s.futures s.next waiting;
        by_id = set ingress_mid (bucket_of ingress_mid s ++ w ∷ []) s.by_id;
      },
      s.next,
    )

-- The loop of `resolve`, with `delivered`.
unfoldable pub deliver : Payload → (ℕ → Future) → ℕ → List Waiter → (ℕ → Future) × ℕ
deliver payload futures delivered [] = (futures, delivered)
deliver payload futures delivered (entry ∷ entries) =
    let skip = deliver payload futures delivered entries in
    let hit =
      deliver payload (put futures entry.future (resolved payload)) (delivered + 1) entries in
    if is_done (futures entry.future) then skip else hit

unfoldable pub resolve : Payload → State → State × Bool
unfolding bucket_of remove deliver
resolve payload s =
    let (futures, delivered) = deliver payload s.futures 0 (bucket_of payload.ingress_mid s) in
    (record s { futures = futures; by_id = remove payload.ingress_mid s.by_id }, ltb 0 delivered)

-- The loop of `discard`. An entry is an object of its own, so `bucket.remove(entry)` takes out the
-- entry that the loop stands at.
unfoldable pub cancel_own : ℕ → (ℕ → Future) → List Waiter → (ℕ → Future) × List Waiter
cancel_own fut futures [] = (futures, [])
cancel_own fut futures (entry ∷ bucket) =
    let own =
      cancel_own fut
        (if is_done (futures entry.future) then futures else put futures entry.future cancelled)
        bucket in
    let other = cancel_own fut futures bucket in
    if entry.future == fut then own else (other.0, entry ∷ other.1)

-- A bucket is written back, or taken out where it is empty.
unfoldable pub write_bucket : Text → List Waiter → Dict Text (List Waiter) → Dict Text (List Waiter)
unfolding set remove
write_bucket ingress_mid [] by_id = remove ingress_mid by_id
write_bucket ingress_mid (w ∷ bucket) by_id = set ingress_mid (w ∷ bucket) by_id

unfoldable pub discard : Text → ℕ → State → State
unfolding bucket_of cancel_own write_bucket
discard ingress_mid fut s =
    if is_empty (bucket_of ingress_mid s)
    then s
    else let (futures, bucket) = cancel_own fut s.futures (bucket_of ingress_mid s) in
      record s { futures = futures; by_id = write_bucket ingress_mid bucket s.by_id }

unfoldable pub forget : Text → ℕ → State → State
unfolding bucket_of write_bucket
forget ingress_mid fut s = if is_empty (bucket_of ingress_mid s) then s else record s {
  by_id =
      write_bucket ingress_mid (select (λ e. not (e.future == fut)) (bucket_of ingress_mid s))
        s.by_id;
}

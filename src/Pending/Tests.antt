-- ===== src/Pending/Tests.antt =====
-- Runs of the registry, with two connections that wait for one message.
use threlium.Prelude.{
  refl, ◌⊎◌, some, ◌∷◌, ok, ok-injective, ℕ, ◌==◌, ◌≡◌, false, not, ◌&&◌, [], any, if◌then◌else◌,
}
use threlium.Prelude.Text.{Text, codes, text_eq, text_eq_iff}
use threlium.Pending.Registry.{
  Payload, cancelled, resolved, is_done, State, bucket_of, register, resolve, discard, deliver,
}
use threlium.Prelude.Dict.{Dict, get, set, remove}
use threlium.Pending.Push.{
  PushLib, PushLaws, is_accepted_host, IsUnknownOrLocal, presented_of, is_bad_secret, take_payload,
  handle_push, IsRefused, IsTaken, handle_push-IsTaken,
}
use threlium.Pending.Isolation.{waits, others, resolve-waits, discard-others}

abbrev nobody : State
nobody = record { next = 0; futures = λ i. cancelled; by_id = [] }

abbrev two_waiters : State
two_waiters =
    (register (codes "m") (codes "chat") false (codes "r2")
      (register (codes "m") (codes "chat") false (codes "r1") nobody).0).0

abbrev answer : Payload
answer = record { ingress_mid = codes "m"; body = codes "b" }

resolve-waits_example :
    ((i : ℕ)
      → (resolve answer two_waiters).0.futures i ≡ (
          if waits i (bucket_of (codes "m") two_waiters) && not (is_done (two_waiters.futures i))
          then resolved answer
          else two_waiters.futures i))
    × ((other : Text)
        → bucket_of other (resolve answer two_waiters).0
          ≡ (if text_eq (codes "m") other then [] else bucket_of other two_waiters))
    × ((resolve answer two_waiters).1
        ≡ any
            (λ e. not (is_done (two_waiters.futures e.future)))
            (bucket_of (codes "m") two_waiters))
resolve-waits_example = resolve-waits answer two_waiters

discard-others_example :
    ((i : ℕ)
      → (discard (codes "m") 0 two_waiters).futures i ≡ (
          if waits i (bucket_of (codes "m") two_waiters)
            && i == 0
            && not (is_done (two_waiters.futures i))
          then cancelled
          else two_waiters.futures i))
    × ((other : Text)
        → bucket_of other (discard (codes "m") 0 two_waiters) ≡ (
            if text_eq (codes "m") other
            then others 0 (bucket_of (codes "m") two_waiters)
            else bucket_of other two_waiters))
discard-others_example = discard-others (codes "m") 0 two_waiters

abbrev from_bridge : PushLib
from_bridge = record {
  compare_digest = λ a b. ok (text_eq a b);
  decode_payload = λ body. some (record { ingress_mid = codes "m"; body = body });
}

from_bridge-PushLaws : PushLaws from_bridge
from_bridge-PushLaws = record { same_text = λ a b h. (text_eq_iff a b).0 (ok-injective h) }

abbrev headers : Dict Text Text
headers = (codes "x-threlium-push-secret", codes "s") ∷ []

abbrev pushed : State
pushed = (resolve answer two_waiters).0

push_taken :
    handle_push from_bridge (codes "b") headers (some (codes "127.0.0.1")) (codes "s") two_waiters
    ≡ ok (record { status = 200 }, pushed)
unfolding handle_push is_accepted_host presented_of is_bad_secret take_payload text_eq resolve
    register get set bucket_of deliver remove
push_taken = refl

handle_push-IsTaken_example :
    IsRefused (record { status = 200 }) two_waiters pushed
    ⊎ (IsUnknownOrLocal (some (codes "127.0.0.1"))
        × IsTaken from_bridge
            (codes "b")
            headers
            (codes "s")
            (record { status = 200 })
            two_waiters
            pushed)
handle_push-IsTaken_example =
    handle_push-IsTaken from_bridge from_bridge-PushLaws (codes "b") headers
      (some (codes "127.0.0.1")) (codes "s") two_waiters push_taken

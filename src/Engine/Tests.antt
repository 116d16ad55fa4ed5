-- ===== src/Engine/Tests.antt =====
-- Runs of the engine: a letter to `ingress` whose handler answers with a letter to `enrich`.
use threlium.Prelude.{ℕ, ◌≡◌, refl, true, false, not, some, [], ◌∷◌, inl, ok, raise, runtime_error}
use threlium.Prelude.Text.{Text, codes, text_eq, text_eq_iff}
use threlium.Stage.Names.{ingress, enrich, reasoning, rfc822_mailbox, value}
use threlium.Stage.Address.{MailLib}
use threlium.Engine.Run.{StageLib, run_stage}
use threlium.Engine.Store.{
  Letter, IndexLib, IndexLaws, find_unread_in_thread, settle_recovery_for_stage, nm_settle,
  is_waiting,
}
use threlium.Engine.System.{
  System, recovered, found, delivered, ended, Reach, begin, recover, find, run, run_fdm, settle,
  crash, here, next,
}
use threlium.Engine.Durable.{IsAnswered}
use threlium.Engine.Found.{IsFresh, Reach-IsAnswered, find_unread_in_thread-waiting}

abbrev plain_mail : MailLib
plain_mail = record { lower = λ t. t; casefold = λ t. t; getaddresses = λ t. t ∷ [] }

-- A message is the text of its `To`.
abbrev stages : ℕ → StageLib
stages time = record {
  Message = Text;
  email_message_from_bytes = λ b. b;
  empty_message = [];
  message_id_header = λ m. some (codes "<a@localhost>");
  to_addresses = λ m. m ∷ [];
  serialize_rfc822_for_wire = λ m. m;
  litellm_route_correlation = false;
  build_litellm_correlation_headers = λ m. ok [];
  handler = λ stage corr m. ok (some (rfc822_mailbox enrich));
}

run_ingress :
    run_stage plain_mail (stages 0) ingress (codes "ingress@localhost")
    ≡ ok (codes "enrich@localhost")
unfolding run_stage rfc822_mailbox
run_ingress = refl

run_misrouted :
    run_stage plain_mail (stages 0) reasoning (codes "ingress@localhost") ≡ raise runtime_error
unfolding run_stage rfc822_mailbox
run_misrouted = refl

abbrev flags : IndexLib
flags = record {
  from_maildir_flags = λ l. record l { unread = not l.seen };
  to_maildir_flags = λ l. record l { seen = not l.unread; in_cur = not l.unread };
  in_folder = λ stage l. true;
  is_to = λ mailbox l. text_eq l.content mailbox;
  in_thread = λ thread l. text_eq l.thread thread;
  has_id = λ inner l. text_eq l.inner inner;
  unsorted = λ letters. letters;
}

flags-IndexLaws : IndexLaws flags
flags-IndexLaws = record {
  from_inner = λ l. refl;
  from_seen = λ l. refl;
  from_unread = λ l. refl;
  to_inner = λ l. refl;
  from_thread = λ thread l. refl;
  from_to = λ mailbox l. refl;
  any_unsorted = λ p letters. refl;
  id_inner = λ inner l h. (text_eq_iff l.inner inner).0 h;
}

abbrev letter : Letter
letter = record {
  inner = codes "a";
  thread = codes "7";
  content = codes "ingress@localhost";
  in_cur = false;
  seen = false;
  unread = true;
}

abbrev settled_letter : Letter
settled_letter = record letter { in_cur = true; seen = true; unread = false }

abbrev start : System
start = record { letters = letter ∷ []; calls = []; results = []; sent = [] }

start-IsFresh : IsFresh start
start-IsFresh = record { new_letters = ((refl, refl), tt); no_calls = refl }

abbrev waiting : System
waiting = record start { calls = recovered ingress (codes "7") ∷ [] }

abbrev searched : System
searched = record start { calls = found ingress (codes "a") (codes "ingress@localhost") ∷ [] }

abbrev answered : System
answered = record {
  letters = letter ∷ [];
  calls = delivered (codes "a") ∷ [];
  results = (codes "a", codes "enrich@localhost") ∷ [];
  sent = codes "enrich@localhost" ∷ [];
}

abbrev closed : System
closed = record answered { letters = settled_letter ∷ []; calls = ended ∷ [] }

reaches_search : Reach plain_mail flags stages start searched
unfolding settle_recovery_for_stage find_unread_in_thread rfc822_mailbox text_eq value
reaches_search =
    next (next (next here (begin ingress (codes "7"))) (recover 0 ingress (codes "7") refl))
      (find 0 ingress (codes "7") letter refl refl)

reaches_end : Reach plain_mail flags stages start closed
unfolding run_stage nm_settle text_eq rfc822_mailbox
reaches_end =
    next
      (next
        (next reaches_search (
          run 0 0 ingress (codes "a") (codes "ingress@localhost") (codes "enrich@localhost") refl
            refl))
        (run_fdm 0 (codes "a") (codes "enrich@localhost") [] refl refl tt))
      (settle 0 (codes "a") (settled_letter ∷ []) refl refl)

Reach-IsAnswered_example : IsAnswered closed (codes "a")
Reach-IsAnswered_example =
    Reach-IsAnswered plain_mail flags flags-IndexLaws stages start-IsFresh reaches_end
      settled_letter (inl refl) (inl refl)

-- A call that has found the letter ends before its handler returns; the next one finds it again.
find_unread_in_thread-waiting_example :
    (l : Letter) × (find_unread_in_thread flags ingress
        (codes "7")
        (settle_recovery_for_stage flags (value ingress) (letter ∷ []))
      ≡ some l)
    × (is_waiting flags ingress (codes "7") l ≡ true)
unfolding text_eq rfc822_mailbox
find_unread_in_thread-waiting_example =
    find_unread_in_thread-waiting plain_mail flags flags-IndexLaws stages start-IsFresh
      (next reaches_search (crash 0)) letter (inl refl) (λ answer. answer.1) ingress (codes "7")
      refl refl

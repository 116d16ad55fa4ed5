-- ===== src/Engine/System.antt =====
-- `process_thread_message` of threlium/runners/engine/fsm.py as the steps of its calls, in any
-- number of threads of the engine. Between two steps any other call may make one, new letters may
-- come in, and a call may end by an exception or with the whole process.
use threlium.Prelude.{
  ℕ, ◌≡◌, true, false, none, some, List, ◌∷◌, ◌++◌, get_elem?, replace_at, All, is_empty, ok,
}
use threlium.Prelude.Text.{Text}
use threlium.Stage.Names.{FsmStage, value}
use threlium.Stage.Address.{MailLib}
use threlium.Engine.Run.{StageLib, run_stage}
use threlium.Engine.Store.{
  Letter, IndexLib, settle_recovery_for_stage, find_unread_in_thread, nm_settle, half_settled,
}

-- How far a call has come, with what it holds.
pub data Call : Type 0 where
  begun : FsmStage → Text → Call
  recovered : FsmStage → Text → Call
  found : FsmStage → Text → Text → Call
  returned : Text → Text → Call
  delivered : Text → Call
  ended : Call

-- The index, the calls, what `_run_stage` has returned for which letter, and what fdm has taken.
pub record System : Type 0 where
  pub letters : List Letter
  pub calls : List Call
  pub results : List (Text × Text)
  pub sent : List Text

-- A letter as fdm and `notmuch insert` put it down.
abbrev pub IsNew : Letter → Type 0
IsNew l = (l.unread ≡ true) × (l.seen ≡ false)

-- The call `i` goes on as `c`.
abbrev pub goes_on : System → ℕ → Call → System
goes_on s i c = record s { calls = replace_at s.calls i c }

-- A handler may answer anew each time it is called: `lib` has the answers of the time `t`.
module _ (mail : MailLib) (index : IndexLib) (lib : ℕ → StageLib) where
  pub data Step (s : System) : System → Type 0 where
    -- letters from the bridges and from the handlers
    arrive :
        (fresh : List Letter) → All IsNew fresh → Step s (record s { letters = s.letters ++ fresh })
    begin :
        (stage : FsmStage) (scope : Text)
        → Step s (record s { calls = begun stage scope ∷ s.calls })
    recover :
        (i : ℕ) (stage : FsmStage) (scope : Text)
        → get_elem? s.calls i ≡ some (begun stage scope)
        → Step s (record (goes_on s i (recovered stage scope)) {
          letters = settle_recovery_for_stage index (value stage) s.letters;
        })
    idle :
        (i : ℕ) (stage : FsmStage) (scope : Text)
        → get_elem? s.calls i ≡ some (recovered stage scope)
        → find_unread_in_thread index stage scope s.letters ≡ none
        → Step s (goes_on s i ended)
    find :
        (i : ℕ) (stage : FsmStage) (scope : Text) (l : Letter)
        → get_elem? s.calls i ≡ some (recovered stage scope)
        → find_unread_in_thread index stage scope s.letters ≡ some l
        → Step s (goes_on s i (found stage l.inner l.content))
    run :
        (i t : ℕ) (stage : FsmStage) (inner content out : Text)
        → get_elem? s.calls i ≡ some (found stage inner content)
        → run_stage mail (lib t) stage content ≡ ok out
        → Step s (record (goes_on s i (returned inner out)) { results = (inner, out) ∷ s.results })
    -- `if out`
    terminal :
        (i : ℕ) (inner out : Text)
        → get_elem? s.calls i ≡ some (returned inner out)
        → is_empty out ≡ true
        → Step s (goes_on s i (delivered inner))
    run_fdm :
        (i : ℕ) (inner out : Text) (fresh : List Letter)
        → get_elem? s.calls i ≡ some (returned inner out)
        → is_empty out ≡ false
        → All IsNew fresh
        → Step s (record (goes_on s i (delivered inner)) {
          letters = s.letters ++ fresh;
          sent = out ∷ s.sent;
        })
    settle :
        (i : ℕ) (inner : Text) (letters' : List Letter)
        → get_elem? s.calls i ≡ some (delivered inner)
        → nm_settle index inner s.letters ≡ ok letters'
        → Step s (record (goes_on s i ended) { letters = letters' })
    -- the process ends inside `nm_settle`
    half_settle :
        (i : ℕ) (inner : Text)
        → get_elem? s.calls i ≡ some (delivered inner)
        → Step s (record (goes_on s i ended) { letters = half_settled index inner s.letters })
    -- an exception, or the end of the process, at any point
    crash : (i : ℕ) → Step s (goes_on s i ended)

  pub data Reach (s : System) : System → Type 0 where
    here : Reach s s
    next : {t u : System} → Reach s t → Step t u → Reach s u

-- ===== src/Lib.antt =====
-- threlium: a model of the deterministic core of the agent, and its properties.
--
-- The program is a state machine whose states are mailboxes. A stage takes a letter, reads the
-- letters before it along `In-Reply-To`, and emits one letter to the next stage. What a turn has
-- done so far is nowhere stored: the task ledger, the response buffer and the frame of a subagent
-- are computed from the chain of letters each time. The model follows that. A chain is a list of
-- snapshots from a letter to the root of its thread, and a stage is a function of the chain and of
-- what it reads of its own letter. The paths below are under
-- ansible/roles/threlium/files/scripts/threlium/.
--
-- The parts:
--   Prelude     what Python's lists, texts, dictionaries and exceptions are in the model, and the
--               bases of the value objects (types/_core.py, in Prelude/Wire).
--   Stage       the closed set of stages and the parsers of their addresses (types/fsm_stage.py).
--   Irt         the chain of ancestors (irt_chain.py, in Irt/Snapshot and Irt/Chain), its walk with
--               the frames of subagents cut out (thread_context_filter.py, in Irt/Filter), the depth
--               of a letter (irt_subagent_classifier.py, in Irt/Depth). Irt/Frame describes a frame
--               without counters.
--   Task        the task ledger (types/task_ledger.py and task/): statuses, content ids, operations,
--               their collection from a frame, the reduction and the gate that it puts before an
--               answer; the stage that takes operations in (states/tasks_upsert.py, in
--               Task/Upsert). Task/Events takes the operations apart into events on single subtasks.
--   Response    the response buffer (response/): operations, collection, application, summary; the
--               stages around it (states/response_edit.py and states/response_finalize.py).
--               Response/Buffer describes the buffer as an array.
--   Hop         the hop budget (types/hop_cap.py) on the text of its header, and as a stack.
--   Reasoning   the routes that the model may take (states/reasoning.py, types/reasoning_routes.py),
--               the gate after formal reasoning (formal_reason_gate.py) and the loop of `_decide`.
--   Summary     the rounds that summarise a history that is too long: its parts, from the units of a
--               task (summarize_pack.py, in Summary/History) to the packing (in Summary/Pack), the
--               loop (in Summary/Rounds) and the stage (states/summarize_context.py, in
--               Summary/Context).
--   Pending     the registry of the connections that wait for an answer
--               (bridges/isomorph/pending.py), with its futures on a heap, and the push that answers
--               them (bridges/isomorph/push.py).
--   Invisible   the marks at the end of a messenger's text (invisible_task_mid.py).
--   Engine      the run of a stage (runners/engine/fsm.py, in Engine/Run), what the engine does to the
--               index of notmuch (nm.py, in Engine/Store), the steps of its concurrent calls
--               (`process_thread_message`, in Engine/System), and the line protocol between a worker
--               unit and the engine (enginewire.py, runners/engine/, runners/engine_submit/, in
--               Engine/Wire).
--   Emit        the managed headers of a simple step (fsm_emit_semantic.py, in Emit/Patch) and the
--               builder of a step's letter (fsm_emit.py, in Emit/Step).
--   Route       the typed routes (types/identity.py, types/ingress.py, in Route/Wire), their
--               resolution along the chain (ingress_route_resolve.py, in Route/Resolve) and the
--               router of the answers (states/egress_router.py, in Route/Router).
--   Isomorph    the ids of the bridge (bridges/isomorph/snowflake_mid.py, in Isomorph/Mid), the split
--               of a client's history (bridges/isomorph/history.py) and the stage that pushes an
--               answer (states/egress_isomorph.py, in Isomorph/Egress).
--   Cli         the payload of a command (cli_fsm.py, in Cli/Payload and Cli/Policy), the stages that
--               judge it (states/cli_intent.py), run it (states/cli_exec.py) and take the answer of
--               its user (states/cli_resume.py), and the way of that answer from ingress to the
--               question (types/ingress_hitl.py, in Cli/Hitl; states/ingress.py, in Cli/Ingress).
--   Chunk       the chunks of a document for the retrieval library (lightrag_chunking.py).
-- A function has the name that it has in the source, without a leading underscore; `main` of a
-- stage has the stage's name in front. A loop is a function of its own over its variables.
--
-- How they interact: Response and Task collect their operations from the walk of Irt; the answer of
-- response_finalize asks the gate of Task and the budget of Hop; Reasoning asks the budget and the
-- gate for the routes. Engine runs the handlers of the stages between its search and its
-- settlement. Route asks Irt for the chain and the depth, and Emit for the headers of the letter
-- that goes out; Isomorph takes its route from Route, and writes its marks by Invisible. Cli finds
-- the command that an answer is about in the chain of Irt, and what cli_intent and cli_resume hand
-- on is what cli_exec reads.
--
-- Values: a Python text is the list of its code points, a value object that wraps a text is that
-- text, an `int` that can be negative is an integer, and an exception is a value of `Result`. A
-- dictionary is a list of pairs in insertion order.
--
-- Loops and fuel: the loop of `_materialize_irt_chain` and the `while True` of `_decide` run on
-- fuel, as does the `while` of summarize_context. Enough fuel is more rounds than the index has
-- messages, than `length_max_attempts + 13`, and than the history has parts, and a result says so
-- for each. The loop over the windows of a part has as many rounds as the part has tokens, which is
-- enough since a step is at least 1. All other loops run over lists. The calls of the engine have
-- no fuel: they are a step relation, in which any call may go on, fail, or be left where it is.
--
-- Parameters, which stand for code that is not in the repository or that only passes data to it:
-- the mail library (`MailLib`, the parts of a letter in `TaskLib`, `ResponseLib` and
-- `FormalReasonLib`), the JSON codec, SHA-256, the index of notmuch, `int` and `str` of numbers,
-- the templates, the tokenizer, the completion of the language model, the validation of a tool's
-- arguments, the operations of notmuch on a letter's tags, the bytes of messages and the handlers
-- that Engine runs (`StageLib`), base 62, and the typed decoding of msgspec (`WireLib`, `RouteLib`,
-- `MidLib`), Python's functions on shell words and paths (`CliLib`), `subprocess.run` (`ExecLib`),
-- and hmac's comparison (`PushLib`). The distillation of ingress, which asks the language model, is
-- an argument of `ingress_main`.
--
-- Not modelled: the enrichment of a context, the start and end of the engine's processes, the MIME
-- structure of messages, the other bridges to messengers and mail, the clients of language models,
-- the calls of the retrieval library, the formal reasoning engine, settings, templates and logging.
-- They are I/O or stand on third-party code.
pub mod Prelude
pub mod Invisible
pub mod Pending
pub mod Summary
pub mod Task
pub mod Stage
pub mod Irt
pub mod Response
pub mod Hop
pub mod Reasoning
pub mod Engine
pub mod Emit
pub mod Route
pub mod Isomorph
pub mod Cli
pub mod Chunk

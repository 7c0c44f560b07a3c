-- ===== src/Kernel/Turn/Exits.antt =====
-- loop_/turn.rs: the exits of a turn, and `Kernel::run_turn`. `State::turn` is not bounded here.
use grist_agent.Prelude.{
  ℕ, ◌+◌, Bool, true, false, not, Option, none, some, List, [], ◌∷◌, map, keep, Result, ok, err,
}
use grist_agent.Prelude.Exec.{pure, raise, gets, modify, ◌>>=◌, ◌>>◌}
use grist_agent.Prelude.OrdMap
use grist_agent.Prelude.OrdMap.{OrdMap}
use grist_agent.Prelude.Order.{nat_order, list_order}
use grist_agent.Prelude.Text.{Text, codes, same}
use grist_agent.Task.{Task}
use grist_agent.State.{SessionStatus, running, idle, done, failed, State}
use grist_agent.Tool.{ToolCall}
use grist_agent.Event.{LoopPhase, CheckpointReason, turn_scope}
use grist_agent.Event
use grist_agent.Kernel.{
  Kernel, KernelError, not_running, is_done, turn_failed, internal, log, abort, with_stable,
  set_status, terminate_session_processes, checkpoint,
}
use grist_agent.Kernel.Lifecycle.{drain_inbox_end_of_turn}
use grist_agent.Kernel.Turn.{
  Session, Method, Shared, Abort, fail, cancelled, fatal, Failure, Cancellation, with_kernel, lift,
}
use grist_agent.Kernel.Turn.Outputs.{call_task_id, cancelled_output, append_tool_output}
use grist_agent.Kernel.Turn.Requests.{allow_compaction, run_compaction}
use grist_agent.Kernel.Turn.Body.{TurnOutcome, cancelled_turn, fails, turn_body}

abbrev pub Call : Type 0 → Type 0
Call A = Method KernelError A

abbrev pub as_is : KernelError → KernelError
as_is e = e

-- `abort_to_kernel`
unfoldable pub abort_to_kernel : Abort → KernelError
abort_to_kernel (fatal e) = e
abort_to_kernel (fail f) = internal f.message
abort_to_kernel (cancelled c) = internal (codes "cancelled")

-- `map_err`, of a method.
abbrev pub mapped_error : {E F A : Type 0} → (E → F) → Result E A × Session → Result F A × Session
mapped_error f (ok a, s) = (ok a, s)
mapped_error f (err e, s) = (err (f e), s)

unfoldable pub map_error : {E F A : Type 0} → (E → F) → Method E A → Method F A
map_error f m s = mapped_error f (m s)

abbrev is_in_flight : Option Text → Text → Bool
is_in_flight none id = false
is_in_flight (some i) id = same id i

abbrev skipped : Cancellation → List Text
skipped c =
    keep (λ id. not (is_in_flight c.in_flight id)) (map (λ call. call.tool_use_id) c.unanswered)

abbrev has_key : Text → OrdMap Text Task → Bool
has_key id m = elim (OrdMap.get id m) [ none ↦ false | some t ↦ true ]

module _ (sh : Shared) where
  -- The answers to the calls that a cancelled turn leaves.
  unfoldable pub answer_cancelled : ℕ → List ToolCall → Call Unit
  unfolding map_error append_tool_output cancelled_output abort_to_kernel
  answer_cancelled turn [] = pure tt
  answer_cancelled turn (call ∷ calls) = do
    modify (with_kernel (abort (call_task_id turn call.tool_use_id)))
    map_error abort_to_kernel (append_tool_output sh turn call cancelled_output 0 none)
    answer_cancelled turn calls

  -- `Kernel::cancel_turn`
  unfoldable pub cancel_turn : Cancellation → Call TurnOutcome
  unfolding answer_cancelled lift
  cancel_turn c = do
    turn ← gets (λ s. s.kernel.state.stable.turn)
    lift as_is (
        log (
          Event.cancelled (record {
            turn = turn;
            scope = turn_scope;
            tool_use_id = c.in_flight;
            task_id = none;
            phase = c.phase;
            signalled = false;
            skipped_tool_use_ids = skipped c;
          })))
    answer_cancelled turn c.unanswered
    lift as_is (drain_inbox_end_of_turn sh.externals)
    modify (with_kernel (set_status idle))
    lift as_is (checkpoint sh.externals CheckpointReason.cancel)
    pure cancelled_turn

  abbrev pub abort_ids : List Text → Kernel → Kernel
  abort_ids [] k = k
  abort_ids (id ∷ ids) k = abort_ids ids (abort id k)

  -- The tasks that the discarded turn started.
  abbrev pub started_ids : State → Kernel → List Text
  started_ids snapshot k =
      keep (λ id. not (has_key id snapshot.stable.pending_tasks))
        (OrdMap.keys k.state.stable.pending_tasks)

  -- Their wakers are dropped, and the state put back.
  abbrev pub rolled_back : State → Kernel → Kernel
  rolled_back snapshot k =
      terminate_session_processes
        (record (abort_ids (started_ids snapshot k) k) { state = snapshot })

  -- `Kernel::fail_turn`
  unfoldable pub fail_turn : State → Failure → Call TurnOutcome
  unfolding lift
  fail_turn snapshot f = do
    turn ← gets (λ s. s.kernel.state.stable.turn)
    modify (with_kernel (rolled_back snapshot))
    lift as_is (
        log (
          Event.turn_failed (record {
            turn = turn;
            error_class = f.class;
            attempts = f.attempts;
            message = sh.redact_text f.message;
            middleware = f.middleware;
            hook = f.hook;
          })))
    cause ← gets (λ s. sh.externals.last_seq s.kernel.events)
    lift as_is (drain_inbox_end_of_turn sh.externals)
    modify (with_kernel (set_status failed))
    lift as_is (checkpoint sh.externals CheckpointReason.failure)
    hash ← gets (λ s. s.kernel.checkpoint_hash)
    lift as_is (
        log (
          Event.session_failed (record {
            turn = turn;
            cause_seq = cause;
            error_class = f.class;
            checkpoint_hash = hash;
            resumable = true;
          })))
    modify (with_kernel (λ k. record k { last_error_class = some f.class }))
    pure (fails f.class)

  -- The start of a turn: its number, and its token.
  abbrev pub turn_started : Session → Session
  turn_started s =
      let k = with_stable (λ st. record st { turn = st.turn + 1 }) s.kernel in
      record s {
        kernel = record k {
          turn_token = elim k.turn_token [ none ↦ some k.session_cancelled | some t ↦ some t ];
        };
        emitter = record s.emitter { turn = k.state.stable.turn };
      }

  -- After the body: a fresh token if the session still runs.
  abbrev pub turn_over : Session → Session
  turn_over s = allow_compaction false (record s {
    kernel = record s.kernel {
      turn_token = elim s.kernel.state.stable.session_status [
        | running ↦ some s.kernel.session_cancelled
        | _ ↦ none
      ];
    };
  })

  abbrev pub exit_turn : State → Abort → Call TurnOutcome
  exit_turn snapshot (fatal e) = raise e
  exit_turn snapshot (fail f) = fail_turn snapshot f
  exit_turn snapshot (cancelled c) = cancel_turn c

  abbrev pub after_body :
      State → Result Abort TurnOutcome × Session → Result KernelError TurnOutcome × Session
  after_body snapshot (ok outcome, s) = (ok outcome, turn_over s)
  after_body snapshot (err a, s) = exit_turn snapshot a (turn_over s)

  abbrev run_started : Session → Result KernelError TurnOutcome × Session
  run_started s = after_body s.kernel.state (turn_body sh s)

  abbrev pub run_turn_from : SessionStatus → Call TurnOutcome
  run_turn_from done s = (err is_done, s)
  run_turn_from running s = run_started (turn_started s)
  run_turn_from other s = (err (not_running other), s)

  -- `Kernel::run_turn`
  unfoldable pub run_turn : Call TurnOutcome
  unfolding turn_body cancel_turn fail_turn
  run_turn s = run_turn_from s.kernel.state.stable.session_status s

  abbrev compact_error : Abort → KernelError
  compact_error (fatal e) = e
  compact_error (fail f) = turn_failed f.message
  compact_error (cancelled c) = internal (codes "compaction cancelled")

  abbrev pub compact_from : SessionStatus → Text → Call Unit
  compact_from done strategy = raise is_done
  compact_from other strategy = do
    turn ← gets (λ s. s.kernel.state.stable.turn)
    map_error compact_error
        (run_compaction sh strategy (gets (λ s. s.kernel.session_cancelled)) turn)

  -- `Kernel::compact`
  unfoldable pub compact : Text → Call Unit
  unfolding map_error run_compaction
  compact strategy s = compact_from s.kernel.state.stable.session_status strategy s

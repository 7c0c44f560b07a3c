-- ===== src/Kernel/Tasks.antt =====
-- crates/kernel/src/loop_/tasks.rs: task updates and task cancellation.
use grist_agent.Prelude.{
  ℕ, ◌/◌, ◌^◌, Bool, true, false, ◌||◌, Option, none, some, [], ◌∷◌, ◌++◌, if◌then◌else◌, Result,
  ok, err,
}
use grist_agent.Prelude.Exec.{pure, raise, gets, ◌>>=◌, ◌>>◌}
use grist_agent.Prelude.OrdMap
use grist_agent.Prelude.Order.{nat_order, list_order}
use grist_agent.Prelude.Text.{Text, codes}
use grist_agent.Content.{
  Value, string, object, member, end, TaskStatus, pending, running, succeeded, failed, cancelled,
  task_result, ToolResultContent, json, Message, user,
}
use grist_agent.Task.{Task, TaskUpdate, TaskOutcome, is_terminal, is_open}
use grist_agent.Event.{
  AppliedPoint, at_ignored, TaskUpdatePayload, LoopPhase, task_scope, kernel_warning,
}
use grist_agent.Event
use grist_agent.Kernel.{
  Kernel, Action, Externals, KernelError, internal, with_stable, log, abort, push_message,
}

pub data Applied : Type 0 where
  ignored progress terminal : Applied

-- Why an update is ignored: the class of its warning and the reason.
unfoldable pub ignored_as : Option TaskStatus → TaskUpdate → Option (Text × Text)
unfolding is_terminal
ignored_as none u = some (codes "task_update_unknown", codes "unknown_task")
ignored_as (some s) u =
    if is_terminal s
    then some (codes "task_update_ignored", codes "terminal")
    else if is_terminal u.status
    then elim u.outcome [
      | none ↦ some (codes "task_update_invalid", codes "missing_outcome")
      | some o ↦ none
    ]
    else none

abbrev pub status_of : Option Task → Option TaskStatus
status_of none = none
status_of (some t) = some t.status

abbrev pub status_text : TaskStatus → Text
status_text pending = codes "pending"
status_text running = codes "running"
status_text succeeded = codes "succeeded"
status_text failed = codes "failed"
status_text cancelled = codes "cancelled"

-- `as_secs`
abbrev pub as_secs : Option ℕ → Option ℕ
as_secs none = none
as_secs (some d) = some (d / 10 ^ 9)

abbrev pub task_update_payload :
    ℕ → Option TaskStatus → TaskUpdate → AppliedPoint → Option Text → TaskUpdatePayload
task_update_payload turn from_status u at reason = record {
  turn = turn;
  task_id = u.id;
  from_status = from_status;
  status = u.status;
  outcome = u.outcome;
  eta_secs = as_secs u.eta;
  check_hint = u.check_hint;
  waker = u.source;
  applied = record { turn = turn; at = at };
  ignored_reason = reason;
}

-- The warning and the ignored `task_update`.
abbrev pub ignore : Option TaskStatus → TaskUpdate → Text × Text → Action Applied
ignore from_status u (class, reason) = do
  turn ← gets (λ k. k.state.stable.turn)
  log (
      Event.warning (
        kernel_warning turn class
          (codes "task update for " ++ (u.id ++ (codes " ignored: " ++ reason)))
          (some (
            object (
              member (codes "status") (string (status_text u.status))
                (member (codes "task_id") (string u.id) end))))))
  log (Event.task_update (task_update_payload turn from_status u at_ignored (some reason)))
  pure ignored

abbrev pub or_else {ℓ} : {A : Type ℓ} → Option A → Option A → Option A
or_else none b = b
or_else (some a) b = some a

-- The writes of the estimate and the hint.
abbrev pub refresh : TaskUpdate → Task → Task
refresh u t = record t { eta = or_else u.eta t.eta; check_hint = or_else u.check_hint t.check_hint }

abbrev pub not_succeeded : TaskStatus → Bool
not_succeeded succeeded = false
not_succeeded _ = true

abbrev pub set_task : Text → Task → Kernel → Kernel
set_task id t =
    with_stable (λ st. record st { pending_tasks = OrdMap.adjust id (λ _. t) st.pending_tasks })

-- The synthetic result that a terminal transition appends.
abbrev pub result_message : Task → TaskStatus → ToolResultContent → Bool → Message
result_message t status content is_error = record {
  role = user;
  content = task_result t.id t.tool_use_id status content is_error ∷ [];
}

abbrev pub finish : TaskUpdate → Task → Option TaskOutcome → Action Applied
finish u t none k = (err (internal (codes "outcome checked above")), set_task u.id t k)
finish u t (some outcome) k = (
  ok terminal,
  abort u.id (
      push_message
        (result_message t u.status outcome.content (outcome.is_error || not_succeeded u.status))
        (set_task u.id
          (record t {
            status = u.status;
            completed_turn = some k.state.stable.turn;
            outcome = some outcome;
          })
          k)),
)

-- The match on the new status, on the refreshed task.
abbrev pub advance : TaskStatus → TaskUpdate → Task → Action Applied
advance pending u t k = (ok progress, set_task u.id t k)
advance running u t k = (ok progress, set_task u.id (record t { status = running }) k)
advance succeeded u t k = finish u t u.outcome k
advance failed u t k = finish u t u.outcome k
advance cancelled u t k = finish u t u.outcome k

abbrev pub apply_to : Option Task → TaskUpdate → Action Applied
apply_to none u = raise (internal (codes "task vanished"))
apply_to (some t) u = advance u.status u (refresh u t)

abbrev pub accept : Option TaskStatus → TaskUpdate → AppliedPoint → Action Applied
accept from_status u at = do
  turn ← gets (λ k. k.state.stable.turn)
  task ← gets (λ k. OrdMap.get u.id k.state.stable.pending_tasks)
  applied ← apply_to task u
  log (Event.task_update (task_update_payload turn from_status u at none))
  pure applied

abbrev pub settle :
    Option (Text × Text) → Option TaskStatus → TaskUpdate → AppliedPoint → Action Applied
settle none from_status u at = accept from_status u at
settle (some why) from_status u at = ignore from_status u why

abbrev pub apply_redacted : Option TaskUpdate → AppliedPoint → Action Applied
apply_redacted none at k = (err (internal (codes "redaction")), k)
apply_redacted (some u) at k =
    let from_status = status_of (OrdMap.get u.id k.state.stable.pending_tasks) in
    settle (ignored_as from_status u) from_status u at k

-- `Kernel::apply_task_update`
unfoldable pub apply_task_update : Externals → TaskUpdate → AppliedPoint → Action Applied
unfolding log ignored_as kernel_warning
apply_task_update ext u at = apply_redacted (ext.redact_update u) at

abbrev pub cancelled_outcome : Value → TaskOutcome
cancelled_outcome content = record {
  content = json content;
  is_error = true;
  artifact_handles = [];
}

abbrev pub cancel_found : Text → Value → Option Task → Kernel → Bool × Kernel
cancel_found id content none k = (false, k)
cancel_found id content (some t) k =
    if is_open t
    then (
      true,
      push_message (result_message t cancelled (json content) true) (
          set_task id
            (record t {
              status = cancelled;
              completed_turn = some k.state.stable.turn;
              outcome = some (cancelled_outcome content);
            })
            k),
    )
    else (false, k)

-- `Kernel::cancel_task_in_state`
unfoldable pub cancel_task_in_state : Text → Value → Kernel → Bool × Kernel
unfolding is_open
cancel_task_in_state id content k =
    cancel_found id content (OrdMap.get id k.state.stable.pending_tasks) (abort id k)

abbrev pub cancelled_marker : Value
cancelled_marker = object (member (codes "cancelled") (Value.boolean true) end)

abbrev pub log_cancelled_task : Text → LoopPhase → Action Unit
log_cancelled_task id phase = do
  turn ← gets (λ k. k.state.stable.turn)
  log (
      Event.cancelled (record {
        turn = turn;
        scope = task_scope;
        tool_use_id = none;
        task_id = some id;
        phase = phase;
        signalled = false;
        skipped_tool_use_ids = [];
      }))

abbrev pub report_cancel : Text → LoopPhase → Bool × Kernel → Result KernelError Bool × Kernel
report_cancel id phase (false, k) = (ok false, k)
report_cancel id phase (true, k) = (do log_cancelled_task id phase; pure true) k

-- `Kernel::apply_cancel_task`
unfoldable pub apply_cancel_task : Text → LoopPhase → Action Bool
unfolding cancel_task_in_state log
apply_cancel_task id phase k = report_cancel id phase (cancel_task_in_state id cancelled_marker k)

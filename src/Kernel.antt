-- ===== src/Kernel.antt =====
-- crates/kernel/src/loop_/mod.rs and loop_/support.rs: the session's kernel as one state. The
-- inbox is the queue that the handles fill; the event log is the list of bodies that it took, and
-- `log_faults` says which of the next appends fail.
pub mod Lifecycle
pub mod Answers
pub mod Answered
pub mod Delivery
pub mod Chain
pub mod Drains
pub mod Ending
pub mod Mode
pub mod Registry
pub mod Retry
pub mod Spill
pub mod Turn
pub mod Writes
pub mod Waking
pub mod Status
pub mod Transitions
pub mod Tasks
use grist_agent.Prelude.{
  ℕ, Bool, true, false, not, ◌||◌, Option, none, some, List, [], ◌∷◌, ◌++◌, map, keep, length,
  if◌then◌else◌, Result, ok, err,
}
use grist_agent.Prelude.Exec.{Exec, pure, raise, gets, modify, ◌>>=◌, ◌>>◌}
use grist_agent.Prelude.Order.{nat_order, list_order}
use grist_agent.Prelude.Sort.{sort}
use grist_agent.Prelude.Text.{Text, codes, same}
use grist_agent.Content.{Value, Message}
use grist_agent.Task.{Task, TaskUpdate}
use grist_agent.State.{
  SessionStatus, created, running, idle, suspended, done, failed, Stable, State, open_tasks,
}
use grist_agent.Event.{
  EventBody, AppliedPoint, at_created, at_idle, at_suspended, at_failed, at_end_of_turn,
  CheckpointReason,
}
use grist_agent.Event
use grist_agent.Sandbox.{PolicyError}
use grist_agent.Log.Errors.{LogError, closed, RestoreError}

pub data KernelError : Type 0 where
  not_running : SessionStatus → KernelError
  is_done nothing_to_wait_for : KernelError
  duplicate_tool invalid_tool_name duplicate_middleware reserved_priority : Text → KernelError
  tool_exceeds_grants : Text → PolicyError → KernelError
  missing_session_command : Text → KernelError
  spill_cap_out_of_range : ℕ → KernelError
  no_checkpoint : KernelError
  restore_error : RestoreError → KernelError
  log_error : LogError → KernelError
  hash_error : KernelError
  turn_failed internal : Text → KernelError

-- `Inbound`
pub data Inbound : Type 0 where
  user_message : Message → Inbound
  task_update : TaskUpdate → Inbound
  cancel_task : Text → Inbound

-- What the kernel is given: the redactor's effect on a message and on an update (`none`: the
-- redacted JSON no longer deserializes), and the digest of the canonical JSON of a state without
-- its volatile fields (`none`: it cannot be canonicalized). The log numbers its lines, and may add
-- lines of its own: `last_seq` is the number of its last line, or 0.
pub record Externals : Type 0 where
  pub redact_message : Message → Option Message
  pub redact_update : TaskUpdate → Option TaskUpdate
  pub digest : Stable → Option Text
  pub last_seq : List EventBody → ℕ

-- `Kernel`, with the parts that its handles share: the mirrored status, the cancellation tokens
-- (a token is whether it was cancelled) and the ids of the live wakers.
pub record Kernel : Type 0 where
  pub state : State
  pub checkpoint_hash : Text
  pub inbox : List Inbound
  pub status : SessionStatus
  pub turn_token : Option Bool
  pub session_cancelled : Bool
  pub wakers : List Text
  pub session_procs : List Text
  pub last_error_class : Option Text
  pub events : List EventBody
  pub log_faults : List Bool

abbrev pub Action : Type 0 → Type 0
Action A = Exec Kernel KernelError A

abbrev pub with_stable : (Stable → Stable) → Kernel → Kernel
with_stable f k = record k { state = record k.state { stable = f k.state.stable } }

-- `Logger::log`
abbrev pub append : List Bool → EventBody → Action Unit
append [] body k = (ok tt, record k { events = k.events ++ body ∷ [] })
append (false ∷ faults) body k =
    (ok tt, record k { events = k.events ++ body ∷ []; log_faults = faults })
append (true ∷ faults) body k = (err (log_error closed), record k { log_faults = faults })

unfoldable pub log : EventBody → Action Unit
log body k = append k.log_faults body k

-- `Kernel::set_status`: the mirror follows, and the turn token exists exactly while `Running`.
unfoldable pub set_status : SessionStatus → Kernel → Kernel
set_status s k = record (with_stable (λ st. record st { session_status = s }) k) {
  status = s;
  turn_token = elim s [
    | running ↦ elim k.turn_token [ none ↦ some k.session_cancelled | some t ↦ some t ]
    | _ ↦ none
  ];
}

-- `Registrar::abort`
abbrev pub abort : Text → Kernel → Kernel
abort id k = record k { wakers = keep (λ w. not (same w id)) k.wakers }

-- `terminate_session_processes`
abbrev pub terminate_session_processes : Kernel → Kernel
terminate_session_processes k = record k { session_procs = [] }

abbrev pub push_message : Message → Kernel → Kernel
push_message m = with_stable (λ st. record st { messages = st.messages ++ m ∷ [] })

-- `applied_point`
unfoldable pub applied_point : SessionStatus → AppliedPoint
applied_point created = at_created
applied_point idle = at_idle
applied_point suspended = at_suspended
applied_point failed = at_failed
applied_point running = at_end_of_turn
applied_point done = at_end_of_turn

pub record Suspension : Type 0 where
  pub pending_task_ids : List Text
  pub in_process_wakers : ℕ
  pub checkpoint_hash : Text

-- `Kernel::suspension`
unfoldable pub suspension : Kernel → Suspension
suspension k = record {
  pending_task_ids =
      sort (λ a b. not (list_order.lt b a)) (map (λ t. t.id) (open_tasks k.state.stable));
  in_process_wakers = length (keep (λ t. t.in_process_waker) (open_tasks k.state.stable));
  checkpoint_hash = k.checkpoint_hash;
}

module _ (ext : Externals) where
  abbrev write_checkpoint : CheckpointReason → Option Text → Action Unit
  write_checkpoint reason none = raise hash_error
  write_checkpoint reason (some hash) = do
    k ← gets (λ k. k)
    log (
        Event.checkpoint (record {
          turn = k.state.stable.turn;
          reason = reason;
          session_status = k.state.stable.session_status;
          state_hash = hash;
          state = k.state;
        }))
    modify (λ k. record k { checkpoint_hash = hash })

  -- `Kernel::checkpoint`
  unfoldable pub checkpoint : CheckpointReason → Action Unit
  unfolding log
  checkpoint reason k = write_checkpoint reason (ext.digest k.state.stable) k

  abbrev add_user_message : AppliedPoint → Option Message → Action Unit
  add_user_message point none = raise (internal (codes "redaction"))
  add_user_message point (some msg) = do
    turn ← gets (λ k. k.state.stable.turn)
    log (
        Event.user_message (record {
          turn = turn;
          applied = record { turn = turn; at = point };
          content = msg.content;
        }))
    modify (push_message msg)

  -- `Kernel::apply_user_message`
  unfoldable pub apply_user_message : Message → AppliedPoint → Action Unit
  unfolding log
  apply_user_message msg point = add_user_message point (ext.redact_message msg)

-- ===== src/Kernel/Lifecycle.antt =====
-- crates/kernel/src/loop_/mod.rs: the lifecycle methods between turns, and the inbox.
use grist_agent.Prelude.{
  ℕ, ◌%◌, ◌^◌, Bool, true, false, ◌&&◌, ◌||◌, Option, none, some, List, [], ◌∷◌, map, if◌then◌else◌,
  ok, err,
}
use grist_agent.Prelude.Exec.{pure, raise, gets, modify, ◌>>=◌, ◌>>◌}
use grist_agent.Prelude.Text.{Text, codes}
use grist_agent.Content.{Message}
use grist_agent.Task.{Task, TaskUpdate, WakerSource}
use grist_agent.State.{SessionStatus, running, idle, suspended, done, failed, open_tasks}
use grist_agent.Event.{
  AppliedPoint, at_end_of_turn, LoopPhase, idle_phase, CheckpointReason, ResumeCauseKind,
  by_task_update, by_user_message, by_operator, explicit, ended_by_user,
}
use grist_agent.Event
use grist_agent.Kernel.{
  Kernel, Action, Externals, not_running, is_done, nothing_to_wait_for, internal, Inbound, log,
  set_status, terminate_session_processes, applied_point, Suspension, suspension, checkpoint,
  apply_user_message,
}
use grist_agent.Kernel.Tasks.{
  Applied, ignored, progress, terminal, apply_task_update, cancel_task_in_state, cancelled_marker,
  log_cancelled_task, apply_cancel_task,
}

-- `ResumeCause`
pub data ResumeCause : Type 0 where
  cause_update : TaskUpdate → ResumeCause
  cause_message : Message → ResumeCause
  cause_operator cause_recovery : ResumeCause

-- The local flags of `apply_inbound_batch`.
pub record Flags : Type 0 where
  pub any_user : Bool
  pub changed : Bool
  pub terminal_update : Bool

abbrev pub no_flags : Flags
no_flags = record { any_user = false; changed = false; terminal_update = false }

abbrev pub flag_update : Applied → Flags → Flags
flag_update ignored f = f
flag_update progress f = record f { changed = true }
flag_update terminal f = record f { changed = true; terminal_update = true }

abbrev pub flag_cancel : Bool → Flags → Flags
flag_cancel false f = f
flag_cancel true f = record f { changed = true; terminal_update = true }

abbrev pub kernel_version : Text
kernel_version = codes "0.0.0"

abbrev pub event_schema_version : ℕ
event_schema_version = 1

module _ (ext : Externals) where
  -- One item of the batch.
  unfoldable pub apply_inbound : AppliedPoint → Inbound → Flags → Action Flags
  apply_inbound point (Inbound.user_message m) f = do
    apply_user_message ext m point
    pure (record f { any_user = true; changed = true })
  apply_inbound point (Inbound.task_update u) f = do
    applied ← apply_task_update ext u point
    pure (flag_update applied f)
  apply_inbound point (Inbound.cancel_task id) f = do
    found ← apply_cancel_task id idle_phase
    pure (flag_cancel found f)

  unfoldable pub apply_items : AppliedPoint → List Inbound → Flags → Action Flags
  apply_items point [] f = pure f
  apply_items point (i ∷ is) f = do g ← apply_inbound point i f; apply_items point is g

  -- The end of the batch: the transition and the checkpoint.
  unfoldable pub close_batch : SessionStatus → Flags → Action Unit
  close_batch from f = do
    modify (λ k.
        if f.any_user || (f.terminal_update && elim from [ suspended ↦ true | _ ↦ false ])
        then set_status running k
        else k)
    if f.changed
        then checkpoint ext
            (if f.any_user then CheckpointReason.user_input else CheckpointReason.task_updated)
        else pure tt

  -- `Kernel::apply_inbound_batch`: the inbox is emptied first.
  unfoldable pub apply_inbound_batch : Inbound → SessionStatus → Action Unit
  apply_inbound_batch first from = do
    items ← gets (λ k. first ∷ k.inbox)
    modify (λ k. record k { inbox = [] })
    f ← apply_items (applied_point from) items no_flags
    close_batch from f

  abbrev pub apply_first : List Inbound → SessionStatus → Action Bool
  apply_first [] from = pure false
  apply_first (i ∷ is) from = do
    modify (λ k. record k { inbox = is })
    apply_inbound_batch i from
    pure true

  abbrev pub apply_queued_from : SessionStatus → Action Bool
  apply_queued_from done k = (err is_done, k)
  apply_queued_from running k = (ok false, k)
  apply_queued_from from k = apply_first k.inbox from k

  -- `Kernel::apply_queued_input`
  unfoldable pub apply_queued_input : Action Bool
  apply_queued_input k = apply_queued_from k.state.stable.session_status k

  -- One item at the turn boundary: the handling of its three kinds.
  unfoldable pub drain_one : Inbound → Bool → Action Bool
  drain_one (Inbound.user_message m) any_user = do
    apply_user_message ext m at_end_of_turn
    pure true
  drain_one (Inbound.task_update u) any_user = do
    apply_task_update ext u at_end_of_turn
    pure any_user
  drain_one (Inbound.cancel_task id) any_user = do apply_cancel_task id idle_phase; pure any_user

  -- The loop of `Kernel::drain_inbox_end_of_turn` over what the inbox holds.
  unfoldable pub drain_items : List Inbound → Bool → Action Bool
  drain_items [] any_user = pure any_user
  drain_items (i ∷ is) any_user = do
    modify (λ k. record k { inbox = is })
    any ← drain_one i any_user
    drain_items is any

  unfoldable pub drain_inbox_end_of_turn : Action Bool
  drain_inbox_end_of_turn k = drain_items k.inbox false k

  abbrev pub suspend_open : List Task → Action Suspension
  suspend_open [] = raise nothing_to_wait_for
  suspend_open (t ∷ ts) = do
    modify terminate_session_processes
    modify (set_status suspended)
    checkpoint ext CheckpointReason.suspend
    s ← gets suspension
    turn ← gets (λ k. k.state.stable.turn)
    log (
        Event.suspended (record {
          turn = turn;
          reason = explicit;
          pending_task_ids = s.pending_task_ids;
          in_process_wakers = s.in_process_wakers % 2 ^ 32;
          checkpoint_hash = s.checkpoint_hash;
        }))
    pure s

  abbrev pub suspend_from : SessionStatus → Action Suspension
  suspend_from done k = (err is_done, k)
  suspend_from running k = suspend_open (open_tasks k.state.stable) k
  suspend_from idle k = suspend_open (open_tasks k.state.stable) k
  suspend_from s k = (err (not_running s), k)

  -- `Kernel::suspend`
  unfoldable pub suspend : Action Suspension
  suspend k = suspend_from k.state.stable.session_status k

  abbrev pub resume_with :
      SessionStatus → ResumeCauseKind → Option WakerSource → Action Unit → Action Unit
  resume_with from cause waker apply = do
    k ← gets (λ k. k)
    log (
        Event.resumed (record {
          from_checkpoint_hash = k.checkpoint_hash;
          from_checkpoint_seq = ext.last_seq k.events;
          from_status = from;
          cause = cause;
          waker = waker;
          new_process = false;
          kernel_version = kernel_version;
          event_schema_version = event_schema_version;
        }))
    apply
    modify (set_status running)
    checkpoint ext CheckpointReason.resume

  abbrev pub resume_cause : SessionStatus → ResumeCause → Action Unit
  resume_cause from (cause_update u) =
      resume_with from by_task_update (some u.source)
        (do apply_task_update ext u (applied_point from); pure tt)
  resume_cause from (cause_message m) =
      resume_with from by_user_message none (apply_user_message ext m (applied_point from))
  resume_cause from cause_operator = resume_with from by_operator none (pure tt)
  resume_cause from cause_recovery =
      raise (internal (codes "ResumeCause::Recovery is only valid for Kernel::open"))

  abbrev pub resume_from : SessionStatus → ResumeCause → Action Unit
  resume_from done cause = raise is_done
  resume_from suspended cause = resume_cause suspended cause
  resume_from failed cause = resume_cause failed cause
  resume_from s cause = raise (not_running s)

  -- `Kernel::resume`
  unfoldable pub resume : ResumeCause → Action Unit
  resume cause k = resume_from k.state.stable.session_status cause k

  -- The loop of `Kernel::end` over the open tasks.
  unfoldable pub cancel_all : List Text → Action Unit
  cancel_all [] = pure tt
  cancel_all (id ∷ ids) = do
    modify (λ k. (cancel_task_in_state id cancelled_marker k).1)
    log_cancelled_task id idle_phase
    cancel_all ids

  -- Cancelling the session token cancels its children.
  abbrev pub cancel_session : Kernel → Kernel
  cancel_session k = record k {
    session_cancelled = true;
    turn_token = elim k.turn_token [ none ↦ none | some t ↦ some true ];
  }

  abbrev abort_all : Kernel → Kernel
  abort_all k = record k { wakers = [] }

  abbrev pub end_open : Action Unit
  end_open = do
    modify cancel_session
    modify terminate_session_processes
    modify abort_all
    open_ids ← gets (λ k. map (λ t. t.id) (open_tasks k.state.stable))
    cancel_all open_ids
    modify (set_status done)
    checkpoint ext CheckpointReason.ended
    k ← gets (λ k. k)
    log (
        Event.session_ended (record {
          turn = k.state.stable.turn;
          by = ended_by_user;
          checkpoint_hash = k.checkpoint_hash;
          cancelled_task_ids = open_ids;
        }))

  abbrev pub end_from : SessionStatus → Action Unit
  end_from done = raise is_done
  end_from _ = end_open

  -- `Kernel::end`
  unfoldable pub end_session : Action Unit
  end_session k = end_from k.state.stable.session_status k

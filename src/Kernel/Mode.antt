-- ===== src/Kernel/Mode.antt =====
-- loop_/mod.rs: what the methods of the kernel do to the status, its mirror and the tokens.
use grist_agent.Prelude.{
  ◌≡◌, refl, inl, inr, Bool, true, false, Option, none, some, List, [], ◌∷◌, Bool-cases,
}
use grist_agent.Prelude.Exec.{Keeps, Keeps-pure, Keeps-raise, Keeps-gets, Keeps-modify, Keeps-bind}
use grist_agent.Prelude.Text.{Text}
use grist_agent.Content.{Message, Value, TaskStatus, pending, running, succeeded, failed, cancelled}
use grist_agent.Task.{Task, TaskUpdate, TaskOutcome, is_open}
use grist_agent.State.{SessionStatus}
use grist_agent.Event.{EventBody, AppliedPoint, LoopPhase, CheckpointReason}
use grist_agent.Kernel.{
  Kernel, Externals, append, log, set_status, write_checkpoint, checkpoint, add_user_message,
  apply_user_message,
}
use grist_agent.Kernel.Tasks.{
  settle, ignore, apply_to, refresh, advance, finish, apply_redacted, apply_task_update,
  cancel_found, cancel_task_in_state, report_cancel, log_cancelled_task, apply_cancel_task,
  cancelled_marker,
}

-- The part of the kernel that the status machine reads and writes.
pub record Mode : Type 0 where
  pub status : SessionStatus
  pub mirror : SessionStatus
  pub turn_token : Option Bool
  pub session_cancelled : Bool

abbrev pub mode : Kernel → Mode
mode k = record {
  status = k.state.stable.session_status;
  mirror = k.status;
  turn_token = k.turn_token;
  session_cancelled = k.session_cancelled;
}

-- `set_status` on that part.
abbrev pub entered : SessionStatus → Mode → Mode
entered s m = record m {
  status = s;
  mirror = s;
  turn_token = elim s [
    | SessionStatus.running ↦ elim m.turn_token [
      | none ↦ some m.session_cancelled
      | some t ↦ some t
    ]
    | _ ↦ none
  ];
}

pub mode-set_status : (s : SessionStatus) (k : Kernel) → mode (set_status s k) ≡ entered s (mode k)
unfolding set_status
mode-set_status s k = refl

module _ (Q : Mode → Type 0) where
  -- A property of the mode.
  abbrev pub In : Kernel → Type 0
  In k = Q (mode k)

  append-Keeps :
      (faults : List Bool) (body : EventBody) (k : Kernel) → In k → In (append faults body k).1
  append-Keeps [] body k h = h
  append-Keeps (false ∷ fs) body k h = h
  append-Keeps (true ∷ fs) body k h = h

  pub log-Keeps : (body : EventBody) → Keeps In (log body)
  unfolding log
  log-Keeps body = record { at = λ k h. append-Keeps k.log_faults body k h }

  module _ (ext : Externals) where
    write_checkpoint-Keeps :
        (reason : CheckpointReason) (hash : Option Text)
        → Keeps In (write_checkpoint ext reason hash)
    write_checkpoint-Keeps reason none = Keeps-raise _
    write_checkpoint-Keeps reason (some hash) =
        Keeps-bind _ _ (Keeps-gets _)
          λ k. Keeps-bind _ _ (log-Keeps _) λ _. Keeps-modify _ (λ s h. h)

    pub checkpoint-Keeps : (reason : CheckpointReason) → Keeps In (checkpoint ext reason)
    unfolding checkpoint
    checkpoint-Keeps reason = record {
      at = λ k h. (write_checkpoint-Keeps reason (ext.digest k.state.stable)).at k h;
    }

    add_user_message-Keeps :
        (point : AppliedPoint) (msg : Option Message) → Keeps In (add_user_message ext point msg)
    add_user_message-Keeps point none = Keeps-raise _
    add_user_message-Keeps point (some msg) =
        Keeps-bind _ _ (Keeps-gets _)
          λ turn. Keeps-bind _ _ (log-Keeps _) λ _. Keeps-modify _ (λ s h. h)

    pub apply_user_message-Keeps :
        (msg : Message) (point : AppliedPoint) → Keeps In (apply_user_message ext msg point)
    unfolding apply_user_message
    apply_user_message-Keeps msg point = add_user_message-Keeps point (ext.redact_message msg)

  ignore-Keeps :
      (from : Option TaskStatus) (u : TaskUpdate) (why : Text × Text) → Keeps In (ignore from u why)
  ignore-Keeps from u (class, reason) =
      Keeps-bind _ _ (Keeps-gets _)
        λ turn. Keeps-bind _ _ (log-Keeps _) λ _. Keeps-bind _ _ (log-Keeps _) λ _. Keeps-pure _

  finish-Keeps : (u : TaskUpdate) (t : Task) (o : Option TaskOutcome) → Keeps In (finish u t o)
  finish-Keeps u t none = record { at = λ k h. h }
  finish-Keeps u t (some o) = record { at = λ k h. h }

  advance-Keeps : (s : TaskStatus) (u : TaskUpdate) (t : Task) → Keeps In (advance s u t)
  advance-Keeps pending u t = record { at = λ k h. h }
  advance-Keeps running u t = record { at = λ k h. h }
  advance-Keeps succeeded u t = record { at = (finish-Keeps u t u.outcome).at }
  advance-Keeps failed u t = record { at = (finish-Keeps u t u.outcome).at }
  advance-Keeps cancelled u t = record { at = (finish-Keeps u t u.outcome).at }

  apply_to-Keeps : (t : Option Task) (u : TaskUpdate) → Keeps In (apply_to t u)
  apply_to-Keeps none u = Keeps-raise _
  apply_to-Keeps (some t) u = advance-Keeps u.status u (refresh u t)

  settle-Keeps :
      (why : Option (Text × Text)) (from : Option TaskStatus) (u : TaskUpdate) (at : AppliedPoint)
      → Keeps In (settle why from u at)
  settle-Keeps none from u at = Keeps-bind _ _ (Keeps-gets _) λ turn.
      Keeps-bind _ _ (Keeps-gets _) λ task.
        Keeps-bind _ _ (apply_to-Keeps task u)
          λ applied. Keeps-bind _ _ (log-Keeps _) λ _. Keeps-pure _
  settle-Keeps (some why) from u at = ignore-Keeps from u why

  apply_redacted-Keeps :
      (u : Option TaskUpdate) (at : AppliedPoint) → Keeps In (apply_redacted u at)
  apply_redacted-Keeps none at = record { at = λ k h. h }
  apply_redacted-Keeps (some u) at = record { at = λ k h. (settle-Keeps _ _ u at).at k h }

  pub apply_task_update-Keeps :
      (ext : Externals) (u : TaskUpdate) (at : AppliedPoint) → Keeps In (apply_task_update ext u at)
  unfolding apply_task_update
  apply_task_update-Keeps ext u at = apply_redacted-Keeps (ext.redact_update u) at

  cancel_found-In :
      (id : Text) (content : Value) (t : Option Task) (k : Kernel)
      → In k
      → In (cancel_found id content t k).1
  cancel_found-In id content none k h = h
  cancel_found-In id content (some t) k h = elim (Bool-cases (is_open t)) [
    | inl o ↦ rw o h
    | inr c ↦ rw c h
  ]

  pub cancel_task_in_state-In :
      (id : Text) (content : Value) (k : Kernel) → In k → In (cancel_task_in_state id content k).1
  unfolding cancel_task_in_state
  cancel_task_in_state-In id content k h = cancel_found-In id content _ _ h

  pub log_cancelled_task-Keeps :
      (id : Text) (phase : LoopPhase) → Keeps In (log_cancelled_task id phase)
  log_cancelled_task-Keeps id phase = Keeps-bind _ _ (Keeps-gets _) λ turn. log-Keeps _

  report_cancel-In :
      (id : Text) (phase : LoopPhase) (r : Bool × Kernel) → In r.1 → In (report_cancel id phase r).1
  report_cancel-In id phase (false, k) h = h
  report_cancel-In id phase (true, k) h =
      (Keeps-bind _ _ (log_cancelled_task-Keeps id phase) (λ _. Keeps-pure true)).at k h

  pub apply_cancel_task-Keeps :
      (id : Text) (phase : LoopPhase) → Keeps In (apply_cancel_task id phase)
  unfolding apply_cancel_task
  apply_cancel_task-Keeps id phase = record {
    at = λ k h. report_cancel-In id phase _ (cancel_task_in_state-In id cancelled_marker k h);
  }

-- ===== src/Kernel/Transitions.antt =====
-- loop_/mod.rs: the status transitions of the lifecycle methods.
use grist_agent.Prelude.{Bool, true, false, Option, none, some, List, [], ◌∷◌, if◌then◌else◌}
use grist_agent.Prelude.Exec.{
  ◌>>=◌, Keeps, Keeps-pure, Keeps-raise, Keeps-gets, Keeps-if, Keeps-modify, Keeps-bind,
}
use grist_agent.Prelude.Text.{Text}
use grist_agent.Task.{Task, WakerSource}
use grist_agent.State.{SessionStatus, created, running, idle, suspended, done, failed}
use grist_agent.Event.{AppliedPoint, ResumeCauseKind, idle_phase}
use grist_agent.Kernel.{Kernel, Action, Externals, Inbound, set_status}
use grist_agent.Kernel.Tasks.{cancelled_marker}
use grist_agent.Kernel.Lifecycle.{
  ResumeCause, cause_update, cause_message, cause_operator, cause_recovery, Flags, no_flags,
  apply_inbound, apply_items, close_batch, apply_inbound_batch, apply_first, apply_queued_from,
  apply_queued_input, drain_one, drain_items, drain_inbox_end_of_turn, suspend_open, suspend_from,
  suspend, resume_with, resume_cause, resume_from, resume, cancel_all, end_open, end_from,
  end_session,
}
use grist_agent.Kernel.Mode.{
  Mode, mode, entered, In, log-Keeps, checkpoint-Keeps, apply_user_message-Keeps,
  apply_task_update-Keeps, cancel_task_in_state-In, log_cancelled_task-Keeps,
  apply_cancel_task-Keeps,
}

-- The cancellation of the session's token, on the mode.
abbrev pub cancelled_mode : Mode → Mode
cancelled_mode m = record m {
  session_cancelled = true;
  turn_token = elim m.turn_token [ none ↦ none | some t ↦ some true ];
}

module _ (Q : Mode → Type 0) (ext : Externals) where
  apply_inbound-Keeps :
      (at : AppliedPoint) (i : Inbound) (f : Flags) → Keeps (In Q) (apply_inbound ext at i f)
  unfolding apply_inbound
  apply_inbound-Keeps at (Inbound.user_message m) f =
      Keeps-bind _ _ (apply_user_message-Keeps Q ext m at) λ _. Keeps-pure _
  apply_inbound-Keeps at (Inbound.task_update u) f =
      Keeps-bind _ _ (apply_task_update-Keeps Q ext u at) λ _. Keeps-pure _
  apply_inbound-Keeps at (Inbound.cancel_task id) f =
      Keeps-bind _ _ (apply_cancel_task-Keeps Q id idle_phase) λ _. Keeps-pure _

  apply_items-Keeps :
      (at : AppliedPoint) (is : List Inbound) (f : Flags) → Keeps (In Q) (apply_items ext at is f)
  unfolding apply_items
  apply_items-Keeps at [] f = Keeps-pure f
  apply_items-Keeps at (i ∷ is) f =
      Keeps-bind _ _ (apply_inbound-Keeps at i f) λ g. apply_items-Keeps at is g

  drain_one-Keeps : (i : Inbound) (any : Bool) → Keeps (In Q) (drain_one ext i any)
  unfolding drain_one
  drain_one-Keeps (Inbound.user_message m) any =
      Keeps-bind _ _ (apply_user_message-Keeps Q ext m _) λ _. Keeps-pure _
  drain_one-Keeps (Inbound.task_update u) any =
      Keeps-bind _ _ (apply_task_update-Keeps Q ext u _) λ _. Keeps-pure _
  drain_one-Keeps (Inbound.cancel_task id) any =
      Keeps-bind _ _ (apply_cancel_task-Keeps Q id idle_phase) λ _. Keeps-pure _

  drain_items-Keeps : (is : List Inbound) (any : Bool) → Keeps (In Q) (drain_items ext is any)
  unfolding drain_items
  drain_items-Keeps [] any = Keeps-pure any
  drain_items-Keeps (i ∷ is) any =
      Keeps-bind _ _ (Keeps-modify _ (λ s h. h))
        λ _. Keeps-bind _ _ (drain_one-Keeps i any) λ b. drain_items-Keeps is b

  pub drain_inbox-Keeps : Keeps (In Q) (drain_inbox_end_of_turn ext)
  unfolding drain_inbox_end_of_turn
  drain_inbox-Keeps = record { at = λ k h. (drain_items-Keeps k.inbox false).at k h }

  cancel_all-Keeps : (ids : List Text) → Keeps (In Q) (cancel_all ext ids)
  unfolding cancel_all
  cancel_all-Keeps [] = Keeps-pure _
  cancel_all-Keeps (id ∷ ids) =
      Keeps-bind _ _ (Keeps-modify _ (cancel_task_in_state-In Q id cancelled_marker))
        λ _. Keeps-bind _ _ (log_cancelled_task-Keeps Q id idle_phase) λ _. cancel_all-Keeps ids

  module _ (to_running : (m : Mode) → Q m → Q (entered running m)) where
    move_running : (b : Bool) (k : Kernel) → In Q k → In Q (if b then set_status running k else k)
    unfolding set_status
    move_running true k h = to_running (mode k) h
    move_running false k h = h

    close_batch-Keeps : (from : SessionStatus) (f : Flags) → Keeps (In Q) (close_batch ext from f)
    unfolding close_batch
    close_batch-Keeps from f =
        Keeps-bind _ _ (Keeps-modify _ (move_running _))
          λ _. Keeps-if f.changed _ _ (checkpoint-Keeps Q ext _) (Keeps-pure _)

    apply_inbound_batch-Keeps :
        (i : Inbound) (from : SessionStatus) → Keeps (In Q) (apply_inbound_batch ext i from)
    unfolding apply_inbound_batch
    apply_inbound_batch-Keeps i from = Keeps-bind _ _ (Keeps-gets _) λ items.
        Keeps-bind _ _ (Keeps-modify _ (λ s h. h))
          λ _. Keeps-bind _ _ (apply_items-Keeps _ items no_flags) λ f. close_batch-Keeps from f

    pub apply_first-Keeps :
        (is : List Inbound) (from : SessionStatus) → Keeps (In Q) (apply_first ext is from)
    apply_first-Keeps [] from = Keeps-pure _
    apply_first-Keeps (i ∷ is) from =
        Keeps-bind _ _ (Keeps-modify _ (λ s h. h))
          λ _. Keeps-bind _ _ (apply_inbound_batch-Keeps i from) λ _. Keeps-pure _

    apply_queued_from-In :
        (from : SessionStatus) (k : Kernel) → In Q k → In Q (apply_queued_from ext from k).1
    apply_queued_from-In done k h = h
    apply_queued_from-In running k h = h
    apply_queued_from-In created k h = (apply_first-Keeps k.inbox created).at k h
    apply_queued_from-In idle k h = (apply_first-Keeps k.inbox idle).at k h
    apply_queued_from-In suspended k h = (apply_first-Keeps k.inbox suspended).at k h
    apply_queued_from-In failed k h = (apply_first-Keeps k.inbox failed).at k h

    pub apply_queued_input-In : (k : Kernel) → In Q k → In Q (apply_queued_input ext k).1
    unfolding apply_queued_input
    apply_queued_input-In k h = apply_queued_from-In k.state.stable.session_status k h

    resume_with-Keeps :
        (from : SessionStatus) (c : ResumeCauseKind) (w : Option WakerSource) (apply : Action Unit)
        → Keeps (In Q) apply
        → Keeps (In Q) (resume_with ext from c w apply)
    resume_with-Keeps from c w apply ka = Keeps-bind _ _ (Keeps-gets _) λ k.
        Keeps-bind _ _ (log-Keeps Q _) λ _.
          Keeps-bind _ _ ka
            λ _. Keeps-bind _ _ (Keeps-modify _ (move_running true)) λ _. checkpoint-Keeps Q ext _

    pub resume_cause-Keeps :
        (from : SessionStatus) (c : ResumeCause) → Keeps (In Q) (resume_cause ext from c)
    resume_cause-Keeps from (cause_update u) =
        resume_with-Keeps from _ _ _
          (Keeps-bind _ _ (apply_task_update-Keeps Q ext u _) λ _. Keeps-pure _)
    resume_cause-Keeps from (cause_message m) =
        resume_with-Keeps from _ _ _ (apply_user_message-Keeps Q ext m _)
    resume_cause-Keeps from cause_operator = resume_with-Keeps from _ _ _ (Keeps-pure _)
    resume_cause-Keeps from cause_recovery = Keeps-raise _

    resume_from-Keeps :
        (from : SessionStatus) (c : ResumeCause) → Keeps (In Q) (resume_from ext from c)
    resume_from-Keeps done c = Keeps-raise _
    resume_from-Keeps suspended c = resume_cause-Keeps suspended c
    resume_from-Keeps failed c = resume_cause-Keeps failed c
    resume_from-Keeps created c = Keeps-raise _
    resume_from-Keeps running c = Keeps-raise _
    resume_from-Keeps idle c = Keeps-raise _

    pub resume-In : (c : ResumeCause) (k : Kernel) → In Q k → In Q (resume ext c k).1
    unfolding resume
    resume-In c k h = (resume_from-Keeps k.state.stable.session_status c).at k h

  module _ (to_suspended : (m : Mode) → Q m → Q (entered suspended m)) where
    move_suspended : (k : Kernel) → In Q k → In Q (set_status suspended k)
    unfolding set_status
    move_suspended k h = to_suspended (mode k) h

    pub suspend_open-Keeps : (ts : List Task) → Keeps (In Q) (suspend_open ext ts)
    suspend_open-Keeps [] = Keeps-raise _
    suspend_open-Keeps (t ∷ ts) = Keeps-bind _ _ (Keeps-modify _ (λ s h. h)) λ _.
        Keeps-bind _ _ (Keeps-modify _ move_suspended) λ _.
          Keeps-bind _ _ (checkpoint-Keeps Q ext _) λ _. Keeps-bind _ _ (Keeps-gets _) λ s.
            Keeps-bind _ _ (Keeps-gets _) λ turn. Keeps-bind _ _ (log-Keeps Q _) λ _. Keeps-pure _

    suspend_from-In :
        (from : SessionStatus) (k : Kernel) → In Q k → In Q (suspend_from ext from k).1
    suspend_from-In created k h = h
    suspend_from-In running k h = (suspend_open-Keeps _).at k h
    suspend_from-In idle k h = (suspend_open-Keeps _).at k h
    suspend_from-In suspended k h = h
    suspend_from-In done k h = h
    suspend_from-In failed k h = h

    pub suspend-In : (k : Kernel) → In Q k → In Q (suspend ext k).1
    unfolding suspend
    suspend-In k h = suspend_from-In k.state.stable.session_status k h

  module _ (to_done : (m : Mode) → Q m → Q (entered done m))
      (to_cancelled : (m : Mode) → Q m → Q (cancelled_mode m)) where
    move_done : (k : Kernel) → In Q k → In Q (set_status done k)
    unfolding set_status
    move_done k h = to_done (mode k) h

    pub end_open-Keeps : Keeps (In Q) (end_open ext)
    end_open-Keeps = Keeps-bind _ _ (Keeps-modify _ (λ k h. to_cancelled (mode k) h)) λ _.
        Keeps-bind _ _ (Keeps-modify _ (λ k h. h)) λ _.
          Keeps-bind _ _ (Keeps-modify _ (λ k h. h)) λ _. Keeps-bind _ _ (Keeps-gets _) λ ids.
            Keeps-bind _ _ (cancel_all-Keeps ids) λ _.
              Keeps-bind _ _ (Keeps-modify _ move_done) λ _.
                Keeps-bind _ _ (checkpoint-Keeps Q ext _)
                  λ _. Keeps-bind _ _ (Keeps-gets _) λ k. log-Keeps Q _

    end_from-In : (from : SessionStatus) (k : Kernel) → In Q k → In Q (end_from ext from k).1
    unfolding ◌>>=◌
    end_from-In created k h = end_open-Keeps.at k h
    end_from-In running k h = end_open-Keeps.at k h
    end_from-In idle k h = end_open-Keeps.at k h
    end_from-In suspended k h = end_open-Keeps.at k h
    end_from-In done k h = h
    end_from-In failed k h = end_open-Keeps.at k h

    pub end_session-In : (k : Kernel) → In Q k → In Q (end_session ext k).1
    unfolding end_session
    end_session-In k h = end_from-In k.state.stable.session_status k h

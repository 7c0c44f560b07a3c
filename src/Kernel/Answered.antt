-- ===== src/Kernel/Answered.antt =====
-- loop_/tasks.rs and `Kernel::end`: the task operations answer each task once.
use grist_agent.Prelude.{
  ◌≡◌, refl, sym, inl, inr, Bool, true, false, Option, none, some, List, [], ◌∷◌, arith, Bool-cases,
}
use grist_agent.Prelude.Exec.{
  ◌>>=◌, Keeps, Keeps-pure, Keeps-raise, Keeps-gets, Keeps-modify, Keeps-bind, continue-Keeps,
}
use grist_agent.Prelude.OrdMap
use grist_agent.Prelude.OrdMap.{OrdMap}
use grist_agent.Prelude.Order.{nat_order, list_order}
use grist_agent.Prelude.Text.{Text}
use grist_agent.Content.{Value, json, TaskStatus, pending, running, succeeded, failed, cancelled}
use grist_agent.Task.{Task, TaskUpdate, TaskOutcome, is_terminal, is_open}
use grist_agent.State.{
  SessionStatus, created, running as run_status, idle, suspended, done, failed as fail_status,
}
use grist_agent.Event.{EventBody, AppliedPoint, LoopPhase, CheckpointReason, idle_phase}
use grist_agent.Kernel.{Kernel, Externals, append, log, set_status, write_checkpoint, checkpoint}
use grist_agent.Kernel.Tasks.{
  ignored_as, settle, ignore, apply_to, refresh, advance, finish, apply_redacted, status_of,
  apply_task_update, cancel_found, cancel_task_in_state, report_cancel, log_cancelled_task,
  apply_cancel_task, cancelled_marker, cancelled_outcome,
}
use grist_agent.Kernel.Lifecycle.{cancel_all, end_open, end_from, end_session}
use grist_agent.Kernel.Answers.{IsAnswered, AnsweredIn, rewritten-IsAnswered, settled-IsAnswered}

append-Answered :
    (faults : List Bool) (body : EventBody) (k : Kernel)
    → AnsweredIn k
    → AnsweredIn (append faults body k).1
append-Answered [] body k h = h
append-Answered (false ∷ fs) body k h = h
append-Answered (true ∷ fs) body k h = h

pub log-Answered : (body : EventBody) → Keeps AnsweredIn (log body)
unfolding log
log-Answered body = record { at = λ k h. append-Answered k.log_faults body k h }

write_checkpoint-Answered :
    (ext : Externals) (reason : CheckpointReason) (hash : Option Text)
    → Keeps AnsweredIn (write_checkpoint ext reason hash)
write_checkpoint-Answered ext reason none = Keeps-raise _
write_checkpoint-Answered ext reason (some hash) =
    Keeps-bind _ _ (Keeps-gets _)
      λ k. Keeps-bind _ _ (log-Answered _) λ _. Keeps-modify _ (λ s h. h)

checkpoint-Answered :
    (ext : Externals) (reason : CheckpointReason) → Keeps AnsweredIn (checkpoint ext reason)
unfolding checkpoint
checkpoint-Answered ext reason = record {
  at = λ k h. (write_checkpoint-Answered ext reason (ext.digest k.state.stable)).at k h;
}

pub closed_at : (t : Task) → is_terminal t.status ≡ true → is_open t ≡ false
unfolding is_open
closed_at t e = ground arith

pub terminal_cancelled : is_terminal cancelled ≡ true
unfolding is_terminal
terminal_cancelled = refl

-- What an update that is not ignored finds.
accepted_open : (t : Task) (u : TaskUpdate) → ignored_as (some t.status) u ≡ none → is_open t ≡ true
unfolding ignored_as is_open
accepted_open t u h = ground arith

accepted_known : (u : TaskUpdate) → ignored_as none u ≡ none → {A : Type 0} → A
unfolding ignored_as
accepted_known u h = cc

module _ (u : TaskUpdate) (t : Task) (k : Kernel)
    (found : OrdMap.get u.id k.state.stable.pending_tasks ≡ some t)
    (was_open : is_open t ≡ true) where
  finish-Answered :
      is_terminal u.status ≡ true
      → (o : Option TaskOutcome) → AnsweredIn k
      → AnsweredIn (finish u (refresh u t) o k).1
  unfolding is_open
  finish-Answered e none h = rewritten-IsAnswered _ _ u.id t (refresh u t) found refl refl h
  finish-Answered e (some o) h =
      settled-IsAnswered _ _ u.id t _ found refl _ _ _ was_open (ground arith) h

  advance-Answered :
      (s : TaskStatus) → u.status ≡ s → AnsweredIn k → AnsweredIn (advance s u (refresh u t) k).1
  unfolding is_open is_terminal
  advance-Answered pending e h = rewritten-IsAnswered _ _ u.id t (refresh u t) found refl refl h
  advance-Answered running e h =
      rewritten-IsAnswered _ _ u.id t (record (refresh u t) { status = running }) found refl
        (sym was_open) h
  advance-Answered succeeded e h = finish-Answered (rw e refl) u.outcome h
  advance-Answered failed e h = finish-Answered (rw e refl) u.outcome h
  advance-Answered cancelled e h = finish-Answered (rw e refl) u.outcome h

ignore-Answered :
    (from : Option TaskStatus) (u : TaskUpdate) (why : Text × Text)
    → Keeps AnsweredIn (ignore from u why)
ignore-Answered from u (class, reason) =
    Keeps-bind _ _ (Keeps-gets _)
      λ turn. Keeps-bind _ _ (log-Answered _) λ _. Keeps-bind _ _ (log-Answered _) λ _. Keeps-pure _

apply_to-Answered :
    (u : TaskUpdate) (k : Kernel) (o : Option Task)
    → OrdMap.get u.id k.state.stable.pending_tasks ≡ o
    → ignored_as (status_of o) u ≡ none
    → AnsweredIn k
    → AnsweredIn (apply_to o u k).1
apply_to-Answered u k none e a h = accepted_known u a
apply_to-Answered u k (some t) e a h =
    advance-Answered u t k e (accepted_open t u a) u.status refl h

settle-Answered :
    (why : Option (Text × Text)) (u : TaskUpdate) (at : AppliedPoint) (k : Kernel)
    → ignored_as (status_of (OrdMap.get u.id k.state.stable.pending_tasks)) u ≡ why
    → AnsweredIn k
    → AnsweredIn (settle why (status_of (OrdMap.get u.id k.state.stable.pending_tasks)) u at k).1
unfolding ◌>>=◌
settle-Answered none u at k a h =
    continue-Keeps _ _ (λ applied. Keeps-bind _ _ (log-Answered _) λ _. Keeps-pure applied)
      (apply_to-Answered u k _ refl a h)
settle-Answered (some why) u at k a h = (ignore-Answered _ u why).at k h

apply_redacted-Answered :
    (u : Option TaskUpdate) (at : AppliedPoint) → Keeps AnsweredIn (apply_redacted u at)
apply_redacted-Answered none at = record { at = λ k h. h }
apply_redacted-Answered (some u) at = record { at = λ k h. settle-Answered _ u at k refl h }

pub apply_task_update-Answered :
    (ext : Externals) (u : TaskUpdate) (at : AppliedPoint)
    → Keeps AnsweredIn (apply_task_update ext u at)
unfolding apply_task_update
apply_task_update-Answered ext u at = apply_redacted-Answered (ext.redact_update u) at

cancel_found-Answered :
    (id : Text) (content : Value) (t : Option Task) (k : Kernel)
    → OrdMap.get id k.state.stable.pending_tasks ≡ t
    → AnsweredIn k
    → AnsweredIn (cancel_found id content t k).1
cancel_found-Answered id content none k e h = h
cancel_found-Answered id content (some t) k e h = elim (Bool-cases (is_open t)) [
  | inl o ↦ rw o (
      settled-IsAnswered _ _ id t
        (record t {
          status = cancelled;
          completed_turn = some k.state.stable.turn;
          outcome = some (cancelled_outcome content);
        })
        e refl cancelled (json content) true o (closed_at _ terminal_cancelled) h)
  | inr c ↦ rw c h
]

pub cancel_task_in_state-Answered :
    (id : Text) (content : Value) (k : Kernel)
    → AnsweredIn k
    → AnsweredIn (cancel_task_in_state id content k).1
unfolding cancel_task_in_state
cancel_task_in_state-Answered id content k h = cancel_found-Answered id content _ _ refl h

log_cancelled-Answered :
    (id : Text) (phase : LoopPhase) → Keeps AnsweredIn (log_cancelled_task id phase)
log_cancelled-Answered id phase = Keeps-bind _ _ (Keeps-gets _) λ turn. log-Answered _

report_cancel-Answered :
    (id : Text) (phase : LoopPhase) (r : Bool × Kernel)
    → AnsweredIn r.1
    → AnsweredIn (report_cancel id phase r).1
report_cancel-Answered id phase (false, k) h = h
report_cancel-Answered id phase (true, k) h =
    (Keeps-bind _ _ (log_cancelled-Answered id phase) (λ _. Keeps-pure true)).at k h

apply_cancel_task-Answered :
    (id : Text) (phase : LoopPhase) → Keeps AnsweredIn (apply_cancel_task id phase)
unfolding apply_cancel_task
apply_cancel_task-Answered id phase = record {
  at = λ k h.
      report_cancel-Answered id phase _ (cancel_task_in_state-Answered id cancelled_marker k h);
}

cancel_all-Answered : (ext : Externals) (ids : List Text) → Keeps AnsweredIn (cancel_all ext ids)
unfolding cancel_all
cancel_all-Answered ext [] = Keeps-pure _
cancel_all-Answered ext (id ∷ ids) =
    Keeps-bind _ _ (Keeps-modify _ (cancel_task_in_state-Answered id cancelled_marker))
      λ _. Keeps-bind _ _ (log_cancelled-Answered id idle_phase) λ _. cancel_all-Answered ext ids

done-Answered : (k : Kernel) → AnsweredIn k → AnsweredIn (set_status done k)
unfolding set_status
done-Answered k h = h

end_open-Answered : (ext : Externals) → Keeps AnsweredIn (end_open ext)
end_open-Answered ext = Keeps-bind _ _ (Keeps-modify _ (λ k h. h)) λ _.
    Keeps-bind _ _ (Keeps-modify _ (λ k h. h)) λ _. Keeps-bind _ _ (Keeps-modify _ (λ k h. h)) λ _.
      Keeps-bind _ _ (Keeps-gets _) λ ids. Keeps-bind _ _ (cancel_all-Answered ext ids) λ _.
        Keeps-bind _ _ (Keeps-modify _ done-Answered) λ _.
          Keeps-bind _ _ (checkpoint-Answered ext _)
            λ _. Keeps-bind _ _ (Keeps-gets _) λ k. log-Answered _

end_from-Answered :
    (ext : Externals) (from : SessionStatus) (k : Kernel)
    → AnsweredIn k
    → AnsweredIn (end_from ext from k).1
unfolding ◌>>=◌
end_from-Answered ext done k h = h
end_from-Answered ext created k h = (end_open-Answered ext).at k h
end_from-Answered ext run_status k h = (end_open-Answered ext).at k h
end_from-Answered ext idle k h = (end_open-Answered ext).at k h
end_from-Answered ext suspended k h = (end_open-Answered ext).at k h
end_from-Answered ext fail_status k h = (end_open-Answered ext).at k h

-- The conversation answers each task once: while every task is filed under its own id, every
-- terminal task has exactly one `task_result` block in the conversation and every open task or
-- unknown id has none, then this stays so under a task update (with whatever status, outcome,
-- target and redactor), a cancelled task and the end of the session, also when one of them fails
-- half-way.
pub tasks_answered_once :
    (ext : Externals) (u : TaskUpdate) (at : AppliedPoint) (id : Text) (phase : LoopPhase)
    → (k : Kernel) → IsAnswered k.state.stable.pending_tasks k.state.stable.messages
    → AnsweredIn (apply_task_update ext u at k).1
      × AnsweredIn (apply_cancel_task id phase k).1
      × AnsweredIn (end_session ext k).1
unfolding end_session
tasks_answered_once ext u at id phase k h = (
  (apply_task_update-Answered ext u at).at k h,
  (apply_cancel_task-Answered id phase).at k h,
  end_from-Answered ext _ k h,
)

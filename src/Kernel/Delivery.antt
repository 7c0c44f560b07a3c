-- ===== src/Kernel/Delivery.antt =====
-- loop_/tasks.rs `apply_task_update`: what each kind of update does to the session.
use grist_agent.Prelude.{
  ℕ, ◌≡◌, refl, Bool, true, false, not, ◌||◌, Option, none, some, List, [], ◌∷◌, ◌++◌, arith,
  Bool-cases, inl, inr, if◌then◌else◌, keep,
}
use grist_agent.Prelude.Exec.{◌>>=◌, Keeps, Keeps-pure, Keeps-gets, Keeps-bind, continue-Keeps}
use grist_agent.Prelude.OrdMap
use grist_agent.Prelude.OrdMap.{OrdMap}
use grist_agent.Prelude.Order.{nat_order, list_order}
use grist_agent.Prelude.Text.{Text, same}
use grist_agent.Content.{TaskStatus, pending, running, succeeded, failed, cancelled}
use grist_agent.Task.{Task, TaskUpdate, TaskOutcome, is_terminal, is_open}
use grist_agent.State.{State}
use grist_agent.Event.{EventBody, AppliedPoint}
use grist_agent.Kernel.{Kernel, Externals, append, log}
use grist_agent.Kernel.Tasks.{
  ignored_as, ignore, apply_to, refresh, result_message, advance, finish, apply_redacted, status_of,
  apply_task_update, not_succeeded,
}

-- The updates that change nothing: the task is unknown or already terminal, or the update ends the
-- task and brings no outcome.
pub data IsRefused (tasks : OrdMap Text Task) (u : TaskUpdate) : Type 0 where
  unknown : OrdMap.get u.id tasks ≡ none → IsRefused tasks u
  settled : (t : Task) → OrdMap.get u.id tasks ≡ some t → is_open t ≡ false → IsRefused tasks u
  unfinished : is_terminal u.status ≡ true → u.outcome ≡ none → IsRefused tasks u

ignored_unknown : (u : TaskUpdate) → (why : Text × Text) × (ignored_as none u ≡ some why)
unfolding ignored_as
ignored_unknown u = (_, refl)

ignored_settled :
    (t : Task) (u : TaskUpdate)
    → is_open t ≡ false
    → (why : Text × Text) × (ignored_as (some t.status) u ≡ some why)
unfolding ignored_as is_open
ignored_settled t u e = let c : is_terminal t.status ≡ true = ground arith in rw c (_, refl)

ignored_unfinished :
    (s : Option TaskStatus) (u : TaskUpdate)
    → is_terminal u.status ≡ true
    → u.outcome ≡ none
    → (why : Text × Text) × (ignored_as s u ≡ some why)
unfolding ignored_as
ignored_unfinished none u e f = (_, refl)
ignored_unfinished (some s) u e f = elim (Bool-cases (is_terminal s)) [
  | inl y ↦ rw y (_, refl)
  | inr n ↦ rw (n, e, f) (_, refl)
]

refused-ignored :
    (tasks : OrdMap Text Task) (u : TaskUpdate)
    → IsRefused tasks u
    → (why : Text × Text) × (ignored_as (status_of (OrdMap.get u.id tasks)) u ≡ some why)
refused-ignored tasks u (unknown e) = rw e (ignored_unknown u)
refused-ignored tasks u (settled t e c) = rw e (ignored_settled t u c)
refused-ignored tasks u (unfinished e f) = ignored_unfinished _ u e f

-- A property of the state and the wakers, which no line of the log touches.
module _ (Q : State → List Text → Type 0) where
  abbrev Of : Kernel → Type 0
  Of k = Q k.state k.wakers

  append-Of :
      (faults : List Bool) (body : EventBody) (k : Kernel) → Of k → Of (append faults body k).1
  append-Of [] body k h = h
  append-Of (false ∷ fs) body k h = h
  append-Of (true ∷ fs) body k h = h

  log-Of : (body : EventBody) → Keeps Of (log body)
  unfolding log
  log-Of body = record { at = λ k h. append-Of k.log_faults body k h }

  ignore-Of :
      (from : Option TaskStatus) (u : TaskUpdate) (why : Text × Text) → Keeps Of (ignore from u why)
  ignore-Of from u (class, reason) =
      Keeps-bind _ _ (Keeps-gets _)
        λ turn. Keeps-bind _ _ (log-Of _) λ _. Keeps-bind _ _ (log-Of _) λ _. Keeps-pure _

  ignored-Of :
      (r : Option TaskUpdate) (v : TaskUpdate) (at : AppliedPoint) (k : Kernel)
      → r ≡ some v
      → IsRefused k.state.stable.pending_tasks v
      → Of k
      → Of (apply_redacted r at k).1
  ignored-Of r v at k e i h =
      let (why, w) = refused-ignored _ v i in rw (e, w) ((ignore-Of _ v why).at k h)

-- An update that, as redacted, names an unknown or a terminal task, or ends a task without an
-- outcome, leaves the state and the live wakers as they are, whether or not its two lines reach the
-- log: a second terminal update of a task never changes anything.
pub refused_changes_nothing :
    (ext : Externals) (u v : TaskUpdate) (at : AppliedPoint) (k : Kernel)
    → ext.redact_update u ≡ some v
    → IsRefused k.state.stable.pending_tasks v
    → ((apply_task_update ext u at k).1.state ≡ k.state)
      × ((apply_task_update ext u at k).1.wakers ≡ k.wakers)
unfolding apply_task_update
refused_changes_nothing ext u v at k e i =
    ignored-Of (λ s ws. (s ≡ k.state) × (ws ≡ k.wakers)) _ v at k e i (refl, refl)

-- The task that an outcome completes.
abbrev completed : TaskUpdate → TaskOutcome → ℕ → Task → Task
completed u o turn t = record (refresh u t) {
  status = u.status;
  completed_turn = some turn;
  outcome = some o;
}

-- The state and the wakers after the delivery of an outcome to an open task.
pub record IsDelivered (u : TaskUpdate) (t : Task) (o : TaskOutcome) (k : Kernel) (s : State)
    (wakers : List Text) : Type 0 where
  pub tasks :
      (id : Text)
      → OrdMap.get id s.stable.pending_tasks ≡ (
          if same id u.id
          then some (completed u o k.state.stable.turn t)
          else OrdMap.get id k.state.stable.pending_tasks)
  pub answer :
      s.stable.messages
      ≡ k.state.stable.messages
        ++ result_message t u.status o.content (o.is_error || not_succeeded u.status) ∷ []
  pub turn : s.stable.turn ≡ k.state.stable.turn
  pub status : s.stable.session_status ≡ k.state.stable.session_status
  pub waker_gone : wakers ≡ keep (λ w. not (same w u.id)) k.wakers

module _ (u : TaskUpdate) (t : Task) (o : TaskOutcome) (k : Kernel)
    (found : OrdMap.get u.id k.state.stable.pending_tasks ≡ some t) where
  finish-delivers :
      (f : Option TaskOutcome)
      → f ≡ some o
      → IsDelivered u t o k
          (finish u (refresh u t) f k).1.state
          (finish u (refresh u t) f k).1.wakers
  finish-delivers none e = cc
  finish-delivers (some p) e =
      let q : p ≡ o = cc in
      rw q (record {
        tasks = λ id. OrdMap.get-adjust id u.id _ k.state.stable.pending_tasks t found;
        answer = refl;
        turn = refl;
        status = refl;
        waker_gone = refl;
      })

  advance-delivers :
      (s : TaskStatus)
      → is_terminal s ≡ true
      → u.outcome ≡ some o
      → IsDelivered u t o k
          (advance s u (refresh u t) k).1.state
          (advance s u (refresh u t) k).1.wakers
  unfolding is_terminal
  advance-delivers pending e f = cc
  advance-delivers running e f = cc
  advance-delivers succeeded e f = finish-delivers u.outcome f
  advance-delivers failed e f = finish-delivers u.outcome f
  advance-delivers cancelled e f = finish-delivers u.outcome f

accepts :
    (t : Task) (u : TaskUpdate) (o : TaskOutcome)
    → is_open t ≡ true
    → u.outcome ≡ some o
    → ignored_as (some t.status) u ≡ none
unfolding ignored_as is_open
accepts t u o h e = ground (arith)

redacted-delivers :
    (r : Option TaskUpdate) (v : TaskUpdate) (t : Task) (o : TaskOutcome) (at : AppliedPoint)
    → (k : Kernel) → r ≡ some v
    → OrdMap.get v.id k.state.stable.pending_tasks ≡ some t
    → is_open t ≡ true
    → is_terminal v.status ≡ true
    → v.outcome ≡ some o
    → IsDelivered v t o k (apply_redacted r at k).1.state (apply_redacted r at k).1.wakers
unfolding ◌>>=◌
redacted-delivers r v t o at k e found opened ended given =
    rw (e, found, accepts t v o opened given)
      (continue-Keeps {P = Of (IsDelivered v t o k)}
        (apply_to (OrdMap.get v.id k.state.stable.pending_tasks) v k) _
        (λ applied. Keeps-bind _ _ (log-Of (IsDelivered v t o k) _) λ _. Keeps-pure applied)
        (rw found (advance-delivers v t o k found v.status ended given)))

-- An update that, as redacted, ends an open task with an outcome: that task alone becomes terminal
-- with the update's status and outcome and the present turn, one `task_result` that carries the
-- outcome joins the conversation (an error unless the task succeeded), the waker of the task is
-- gone, and turn and session status are as before. This holds also when the log refuses the line.
pub outcome-IsDelivered :
    (ext : Externals) (u v : TaskUpdate) (t : Task) (o : TaskOutcome) (at : AppliedPoint)
    → (k : Kernel) → ext.redact_update u ≡ some v
    → OrdMap.get v.id k.state.stable.pending_tasks ≡ some t
    → is_open t ≡ true
    → is_terminal v.status ≡ true
    → v.outcome ≡ some o
    → IsDelivered v t o k
        (apply_task_update ext u at k).1.state
        (apply_task_update ext u at k).1.wakers
unfolding apply_task_update
outcome-IsDelivered ext u v t o at k = redacted-delivers (ext.redact_update u) v t o at k

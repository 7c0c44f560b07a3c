-- ===== src/Kernel/Drains.antt =====
-- loop_/tasks.rs and the inbox of loop_/mod.rs: a property of the kernel that the writes of a drained
-- inbox keep, one by one, is kept by the drain.
use grist_agent.Prelude.{
  ◌≡◌, refl, inl, inr, Bool, true, false, Option, none, some, List, [], ◌∷◌, ◌++◌, Bool-cases,
}
use grist_agent.Prelude.Exec.{Keeps, Keeps-pure, Keeps-raise, Keeps-gets, Keeps-modify, Keeps-bind}
use grist_agent.Prelude.OrdMap
use grist_agent.Prelude.Order.{nat_order, list_order}
use grist_agent.Prelude.Text.{Text}
use grist_agent.Content.{
  Value, user, Message, TaskStatus, pending, running, succeeded, failed, cancelled,
}
use grist_agent.Task.{Task, TaskUpdate, TaskOutcome, is_open}
use grist_agent.Event.{AppliedPoint, idle_phase, LoopPhase}
use grist_agent.Kernel.{
  Kernel, Externals, Inbound, abort, push_message, add_user_message, apply_user_message,
}
use grist_agent.Kernel.Tasks.{
  settle, ignore, apply_to, refresh, advance, finish, apply_redacted, apply_task_update,
  cancel_found, cancel_task_in_state, report_cancel, apply_cancel_task, cancelled_marker, set_task,
}
use grist_agent.Kernel.Lifecycle.{drain_one, drain_items, drain_inbox_end_of_turn}
use grist_agent.Kernel.Writes.{IsUnlogged, log-Keeps}

-- `P` is kept by the log, a message of the kind `Lets`, a task that is filed anew, an aborted waker
-- and an inbox that is read; the inbox is always of the kind `U`, whose user messages the redactor
-- turns into messages of the kind `Lets`, as the results of tasks are.
pub record IsDrainable (ext : Externals) (U : List Inbound → Type 0) (Lets : Message → Type 0)
    (P : Kernel → Type 0) : Type 0 where
  pub unlogged : IsUnlogged P
  pub results : (m : Message) → m.role ≡ user → Lets m
  pub lets :
      (m n : Message) (is : List Inbound)
      → U (Inbound.user_message m ∷ is)
      → ext.redact_message m ≡ some n
      → Lets n
  pub others : (i : Inbound) (is : List Inbound) → U (i ∷ is) → U is
  pub said : (m : Message) (k : Kernel) → Lets m → P k → P (push_message m k)
  pub filed : (id : Text) (t : Task) (k : Kernel) → P k → P (set_task id t k)
  pub aborted : (id : Text) (k : Kernel) → P k → P (abort id k)
  pub heard : (k : Kernel) → P k → U k.inbox
  pub taken : (is : List Inbound) (k : Kernel) → U is → P k → P (record k { inbox = is })

-- The inbox holds no message but a user's.
abbrev pub FromUser : List Inbound → Type 0
FromUser [] = Unit
FromUser (Inbound.user_message m ∷ is) = (m.role ≡ user) × FromUser is
FromUser (Inbound.task_update u ∷ is) = FromUser is
FromUser (Inbound.cancel_task id ∷ is) = FromUser is

pub FromUser-append : (is js : List Inbound) → FromUser is → FromUser js → FromUser (is ++ js)
FromUser-append [] js h k = k
FromUser-append (Inbound.user_message m ∷ is) js h k = (h.0, FromUser-append is js h.1 k)
FromUser-append (Inbound.task_update u ∷ is) js h k = FromUser-append is js h k
FromUser-append (Inbound.cancel_task id ∷ is) js h k = FromUser-append is js h k

pub FromUser-rest : (i : Inbound) (is : List Inbound) → FromUser (i ∷ is) → FromUser is
FromUser-rest (Inbound.user_message m) is h = h.1
FromUser-rest (Inbound.task_update u) is h = h
FromUser-rest (Inbound.cancel_task id) is h = h

-- The redaction of a message does not change whose it is.
abbrev pub KeepsRole : Externals → Type 0
KeepsRole ext = (m n : Message) → ext.redact_message m ≡ some n → n.role ≡ m.role

module _ {ext : Externals} {U : List Inbound → Type 0} {Lets : Message → Type 0}
    {P : Kernel → Type 0} (d : IsDrainable ext U Lets P) where
  add_user_message-Keeps :
      (point : AppliedPoint) (m : Option Message)
      → ((n : Message) → m ≡ some n → Lets n)
      → Keeps P (add_user_message ext point m)
  add_user_message-Keeps point none h = Keeps-raise _
  add_user_message-Keeps point (some m) h = Keeps-bind _ _ (Keeps-gets _) λ turn.
      Keeps-bind _ _ (log-Keeps d.unlogged _) λ _. Keeps-modify _ (λ k c. d.said m k (h m refl) c)

  finish-Keeps : (u : TaskUpdate) (t : Task) (o : Option TaskOutcome) → Keeps P (finish u t o)
  finish-Keeps u t none = record { at = λ k h. d.filed u.id t k h }
  finish-Keeps u t (some o) = record {
    at = λ k h. d.aborted u.id _ (d.said _ _ (d.results _ refl) (d.filed u.id _ k h));
  }

  advance-Keeps : (s : TaskStatus) (u : TaskUpdate) (t : Task) → Keeps P (advance s u t)
  advance-Keeps pending u t = record { at = λ k h. d.filed u.id t k h }
  advance-Keeps running u t = record { at = λ k h. d.filed u.id _ k h }
  advance-Keeps succeeded u t = record { at = (finish-Keeps u t u.outcome).at }
  advance-Keeps failed u t = record { at = (finish-Keeps u t u.outcome).at }
  advance-Keeps cancelled u t = record { at = (finish-Keeps u t u.outcome).at }

  apply_to-Keeps : (t : Option Task) (u : TaskUpdate) → Keeps P (apply_to t u)
  apply_to-Keeps none u = Keeps-raise _
  apply_to-Keeps (some t) u = advance-Keeps u.status u (refresh u t)

  ignore-Keeps :
      (from : Option TaskStatus) (u : TaskUpdate) (why : Text × Text) → Keeps P (ignore from u why)
  ignore-Keeps from u (class, reason) = Keeps-bind _ _ (Keeps-gets _) λ turn.
      Keeps-bind _ _ (log-Keeps d.unlogged _)
        λ _. Keeps-bind _ _ (log-Keeps d.unlogged _) λ _. Keeps-pure _

  settle-Keeps :
      (why : Option (Text × Text)) (from : Option TaskStatus) (u : TaskUpdate) (at : AppliedPoint)
      → Keeps P (settle why from u at)
  settle-Keeps none from u at = Keeps-bind _ _ (Keeps-gets _) λ turn.
      Keeps-bind _ _ (Keeps-gets _) λ task.
        Keeps-bind _ _ (apply_to-Keeps task u)
          λ applied. Keeps-bind _ _ (log-Keeps d.unlogged _) λ _. Keeps-pure _
  settle-Keeps (some why) from u at = ignore-Keeps from u why

  apply_redacted-Keeps : (u : Option TaskUpdate) (at : AppliedPoint) → Keeps P (apply_redacted u at)
  apply_redacted-Keeps none at = record { at = λ k h. h }
  apply_redacted-Keeps (some u) at = record { at = λ k h. (settle-Keeps _ _ u at).at k h }

  cancel_found_kept :
      (id : Text) (content : Value) (t : Option Task) (k : Kernel)
      → P k
      → P (cancel_found id content t k).1
  cancel_found_kept id content none k h = h
  cancel_found_kept id content (some t) k h = elim (Bool-cases (is_open t)) [
    | inl o ↦ rw o (d.said _ _ (d.results _ refl) (d.filed id _ k h))
    | inr c ↦ rw c h
  ]

  report_cancel_kept :
      (id : Text) (phase : LoopPhase) (r : Bool × Kernel) → P r.1 → P (report_cancel id phase r).1
  report_cancel_kept id phase (false, k) h = h
  report_cancel_kept id phase (true, k) h =
      (Keeps-bind _ _ (Keeps-bind _ _ (Keeps-gets _) λ turn. log-Keeps d.unlogged _)
          (λ _. Keeps-pure true)).at
        k h

  apply_cancel_task-Keeps : (id : Text) (phase : LoopPhase) → Keeps P (apply_cancel_task id phase)
  unfolding apply_cancel_task cancel_task_in_state
  apply_cancel_task-Keeps id phase = record {
    at = λ k h.
        let t = OrdMap.get id k.state.stable.pending_tasks in
        report_cancel_kept id phase (cancel_found id cancelled_marker t (abort id k))
          (cancel_found_kept id cancelled_marker t (abort id k) (d.aborted id k h));
  }

  drain_one-Keeps :
      (i : Inbound) (is : List Inbound) (any : Bool) → U (i ∷ is) → Keeps P (drain_one ext i any)
  unfolding drain_one apply_user_message apply_task_update
  drain_one-Keeps (Inbound.user_message m) is any h =
      Keeps-bind _ _ (add_user_message-Keeps _ (ext.redact_message m) (λ n e. d.lets m n is h e))
        λ _. Keeps-pure _
  drain_one-Keeps (Inbound.task_update u) is any h =
      Keeps-bind _ _ (apply_redacted-Keeps (ext.redact_update u) _) λ _. Keeps-pure _
  drain_one-Keeps (Inbound.cancel_task id) is any h =
      Keeps-bind _ _ (apply_cancel_task-Keeps id idle_phase) λ _. Keeps-pure _

  drain_items-Keeps : (is : List Inbound) (any : Bool) → U is → Keeps P (drain_items ext is any)
  unfolding drain_items
  drain_items-Keeps [] any h = Keeps-pure any
  drain_items-Keeps (i ∷ is) any h =
      Keeps-bind _ _ (Keeps-modify _ (λ s p. d.taken is s (d.others i is h) p)) λ _.
        Keeps-bind _ _ (drain_one-Keeps i is any h) λ b. drain_items-Keeps is b (d.others i is h)

  -- The drain keeps it.
  pub drain_inbox-Keeps : Keeps P (drain_inbox_end_of_turn ext)
  unfolding drain_inbox_end_of_turn
  drain_inbox-Keeps = record { at = λ k h. (drain_items-Keeps k.inbox false (d.heard k h)).at k h }

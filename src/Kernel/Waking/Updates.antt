-- ===== src/Kernel/Waking/Updates.antt =====
-- loop_/tasks.rs `apply_task_update`: an update whose status is not terminal ends no task.
use grist_agent.Prelude.{◌≡◌, refl, Option, none, some, Bool, true, false}
use grist_agent.Prelude.Exec.Ends.{Ends-raise, Ends-any, Ends, Ends-pure, Ends-bind}
use grist_agent.Prelude.OrdMap
use grist_agent.Prelude.Order.{nat_order, list_order}
use grist_agent.Prelude.Text.{Text}
use grist_agent.Event.{AppliedPoint}
use grist_agent.Kernel.{Kernel, KernelError, Externals}
use grist_agent.Content.{TaskStatus, pending, failed, succeeded, cancelled}
use grist_agent.Task.{TaskUpdate, Task, is_terminal}
use grist_agent.Kernel.Tasks.{
  Applied, ignored, progress, terminal, advance, apply_to, settle, refresh, apply_redacted,
  apply_task_update, ignored_as, status_of,
}

abbrev pub ends_task : Option TaskUpdate → Bool
ends_task none = false
ends_task (some u) = is_terminal u.status

abbrev pub is_final : Applied → Bool
is_final ignored = false
is_final progress = false
is_final terminal = true

-- An update that ends no task.
abbrev pub Open : Applied → Kernel → Type 0
Open a k = is_final a ≡ false

abbrev pub Errs : KernelError → Kernel → Type 0
Errs e k = Unit

advance-Open :
    (s : TaskStatus) (u : TaskUpdate) (t : Task)
    → is_terminal s ≡ false
    → Ends (λ k. Unit) (advance s u t) Open Errs
unfolding is_terminal
advance-Open pending u t h = record { from = λ k p. refl }
advance-Open TaskStatus.running u t h = record { from = λ k p. refl }
advance-Open succeeded u t h = cc
advance-Open failed u t h = cc
advance-Open cancelled u t h = cc

apply_to-Open :
    (t : Option Task) (u : TaskUpdate)
    → is_terminal u.status ≡ false
    → Ends (λ k. Unit) (apply_to t u) Open Errs
apply_to-Open none u h = Ends-raise _ (λ k p. tt)
apply_to-Open (some t) u h = advance-Open u.status u (refresh u t) h

settle-Open :
    (why : Option (Text × Text)) (s : Option TaskStatus) (u : TaskUpdate) (at : AppliedPoint)
    → is_terminal u.status ≡ false
    → Ends (λ k. Unit) (settle why s u at) Open Errs
settle-Open none s u at h = Ends-bind _ _ (Ends-any _) λ turn. Ends-bind _ _ (Ends-any _) λ task.
    Ends-bind _ _ (apply_to-Open task u h) λ a. record {
      from = λ k e. (Ends-bind _ _ (Ends-any _) (λ _. Ends-pure {Q = Open} a (λ s p. e))).from k tt;
    }
settle-Open (some why) s u at h = Ends-bind _ _ (Ends-any _) λ turn.
    Ends-bind _ _ (Ends-any _)
      λ _. Ends-bind _ _ (Ends-any _) λ _. Ends-pure {Q = Open} ignored (λ s p. refl)

redacted-Open :
    (u : Option TaskUpdate) (at : AppliedPoint)
    → ends_task u ≡ false
    → Ends (λ k. Unit) (apply_redacted u at) Open Errs
redacted-Open none at h = record { from = λ k p. tt }
redacted-Open (some u) at h = record {
  from = λ k p.
      let s = status_of (OrdMap.get u.id k.state.stable.pending_tasks) in
      (settle-Open (ignored_as s u) s u at h).from k p;
}

pub apply_task_update-Open :
    (ext : Externals) (u : TaskUpdate) (at : AppliedPoint)
    → ends_task (ext.redact_update u) ≡ false
    → Ends (λ k. Unit) (apply_task_update ext u at) Open Errs
unfolding apply_task_update
apply_task_update-Open ext u at h = redacted-Open (ext.redact_update u) at h

-- ===== src/Kernel/Waking.antt =====
-- loop_/mod.rs `apply_inbound_batch`: what wakes a session. Without a user message only a suspended
-- session starts to run, and this one only on an update that ends a task or on a cancelled task.
pub mod Updates
use grist_agent.Prelude.{
  ◌≡◌, refl, Bool, true, false, ◌||◌, ◌&&◌, List, [], ◌∷◌, any, arith, subst, sym, if◌then◌else◌,
  ap, ◌∙◌,
}
use grist_agent.Prelude.Exec.{modify, ◌>>=◌, Keeps-modify, Keeps-bind, Keeps-if, Keeps-pure}
use grist_agent.Prelude.Exec.Ends.{
  Ends-with, Post-kept, Ends, Ends-pure, Ends-gets, Ends-modify, Ends-bind, Ends-known, Ends-Keeps,
}
use grist_agent.State.{SessionStatus, suspended, running}
use grist_agent.Event.{AppliedPoint, idle_phase}
use grist_agent.Kernel.{Kernel, KernelError, Externals, Inbound, set_status}
use grist_agent.Kernel.Tasks.{Applied, ignored, progress, terminal}
use grist_agent.Kernel.Lifecycle.{
  Flags, no_flags, flag_update, flag_cancel, apply_inbound, apply_items, close_batch,
  apply_inbound_batch, apply_first,
}
use grist_agent.Kernel.Mode.{
  Mode, In, checkpoint-Keeps, apply_task_update-Keeps, apply_cancel_task-Keeps,
}
use grist_agent.Kernel.Waking.Updates.{is_final, ends_task, apply_task_update-Open}

abbrev is_user : Inbound → Bool
is_user (Inbound.user_message m) = true
is_user _ = false

abbrev pub has_user : List Inbound → Bool
has_user is = any is_user is

abbrev pub is_suspended : SessionStatus → Bool
is_suspended from = elim from [ suspended ↦ true | _ ↦ false ]

-- What can make a suspended session run: a user message, an update whose status is terminal once the
-- redactor has seen it, and a task that is cancelled.
abbrev pub can_wake : Externals → Inbound → Bool
can_wake ext (Inbound.user_message m) = true
can_wake ext (Inbound.task_update u) = ends_task (ext.redact_update u)
can_wake ext (Inbound.cancel_task id) = true

abbrev wakes : Flags → Bool
wakes f = f.any_user || f.terminal_update

flag_update-wakes :
    (a : Applied) (f : Flags)
    → is_final a ≡ false
    → wakes f ≡ false
    → wakes (flag_update a f) ≡ false
flag_update-wakes ignored f h e = e
flag_update-wakes progress f h e = e
flag_update-wakes terminal f h e = cc

flag_update-user : (a : Applied) (f : Flags) → (flag_update a f).any_user ≡ f.any_user
flag_update-user ignored f = refl
flag_update-user progress f = refl
flag_update-user terminal f = refl

flag_cancel-user : (b : Bool) (f : Flags) → (flag_cancel b f).any_user ≡ f.any_user
flag_cancel-user true f = refl
flag_cancel-user false f = refl

module _ (Q : Mode → Type 0) (ext : Externals) where
  abbrev Anyway : KernelError → Kernel → Type 0
  Anyway e k = In Q k

  -- The flags that a batch raises, and the items that may raise them.
  module _ (raised : Flags → Bool) (calls : Inbound → Bool) where
    abbrev Quiet : Flags → Kernel → Type 0
    Quiet f k = In Q k × (raised f ≡ false)

    abbrev Raises : Type 0
    Raises =
        (at : AppliedPoint) (i : Inbound) (f : Flags)
        → calls i ≡ false
        → raised f ≡ false
        → Ends (In Q) (apply_inbound ext at i f) Quiet Anyway

    abbrev Rests : SessionStatus → Type 0
    Rests from =
        (f : Flags)
        → raised f ≡ false
        → (f.any_user || (f.terminal_update && is_suspended from)) ≡ false

    module _ (item : Raises) where
      apply_items-Quiet :
          (at : AppliedPoint) (is : List Inbound) (f : Flags)
          → any calls is ≡ false
          → raised f ≡ false
          → Ends (In Q) (apply_items ext at is f) Quiet Anyway
      unfolding apply_items
      apply_items-Quiet at [] f h e = Ends-pure f (λ s p. (p, e))
      apply_items-Quiet at (i ∷ is) f h e =
          Ends-bind _ _ (item at i f (ground arith) e)
            λ g. Ends-known _ (λ d. apply_items-Quiet at is g (ground arith) d)

      module _ (fresh : raised no_flags ≡ false) (from : SessionStatus) (rests : Rests from) where
        unmoved :
            (f : Flags) (k : Kernel)
            → raised f ≡ false
            → In Q k
            → In Q (
                if f.any_user || (f.terminal_update && is_suspended from)
                then set_status running k
                else k)
        unmoved f k e h =
            subst (λ c. In Q (if c then set_status running k else k)) (sym (rests f e)) h

        close_batch-Quiet :
            (f : Flags) → raised f ≡ false → Ends (In Q) (close_batch ext from f) (λ _. In Q) Anyway
        unfolding close_batch
        close_batch-Quiet f e = Ends-Keeps _ (
            Keeps-bind _ _ (Keeps-modify _ (λ k h. unmoved f k e h))
              λ _. Keeps-if f.changed _ _ (checkpoint-Keeps Q ext _) (Keeps-pure _))

        batch-Quiet :
            (i : Inbound) (is : List Inbound)
            → any calls (i ∷ is) ≡ false
            → Ends
                (λ k. In Q k × (k.inbox ≡ is))
                (apply_inbound_batch ext i from)
                (λ _. In Q)
                Anyway
        unfolding apply_inbound_batch
        batch-Quiet i is h =
            Ends-bind _ _
              (Ends-gets {Q = λ items k. In Q k × (items ≡ i ∷ is)} (λ k. i ∷ k.inbox)
                (λ k p. (p.0, ap (λ l. i ∷ l) p.1)))
              λ items. Ends-known _ (λ e. Ends-bind _ _ (Ends-modify {Q = In Q} _ (λ k p. p)) λ _.
                Ends-bind _ _ (apply_items-Quiet _ items no_flags (ap (any calls) e ∙ h) fresh)
                  λ f. Ends-known _ (λ d. close_batch-Quiet f d))

        -- A batch without an item that raises a flag keeps the mode.
        first-quiet :
            (is : List Inbound) (k : Kernel)
            → any calls is ≡ false
            → In Q k
            → In Q (apply_first ext is from k).1
        unfolding ◌>>=◌
        first-quiet [] k h p = p
        first-quiet (i ∷ is) k h p = Post-kept (In Q) (apply_first ext (i ∷ is) from k) (
            (Ends-bind {T = λ _. In Q} (modify (λ (k : Kernel). record k { inbox = is })) _
                (Ends-modify {Q = λ k. In Q k × (k.inbox ≡ is)} _ (λ k p. (p, refl)))
                λ _. Ends-bind _ _ (batch-Quiet i is h) λ _. Ends-pure true (λ s q. q)).from
              k p)

  users_raise : Raises (λ f. f.any_user) is_user
  unfolding apply_inbound
  users_raise at (Inbound.user_message m) f h e = cc
  users_raise at (Inbound.task_update u) f h e =
      Ends-bind _ _ (Ends-Keeps _ (apply_task_update-Keeps Q ext u at))
        λ a. Ends-pure _ (λ s p. (p, flag_update-user a f ∙ e))
  users_raise at (Inbound.cancel_task id) f h e =
      Ends-bind _ _ (Ends-Keeps _ (apply_cancel_task-Keeps Q id idle_phase))
        λ b. Ends-pure _ (λ s p. (p, flag_cancel-user b f ∙ e))

  wakers_raise : Raises wakes (can_wake ext)
  unfolding apply_inbound
  wakers_raise at (Inbound.user_message m) f h e = cc
  wakers_raise at (Inbound.task_update u) f h e =
      Ends-bind _ _
        (Ends-with _ (apply_task_update-Keeps Q ext u at) (apply_task_update-Open ext u at h))
        λ a. Ends-pure _ (λ s p. (p.0, flag_update-wakes a f p.1 e))
  wakers_raise at (Inbound.cancel_task id) f h e = cc

  -- Without a user message in the inbox, a batch keeps the mode of a session that is not suspended.
  pub apply_first-quiet :
      (from : SessionStatus) (is : List Inbound) (k : Kernel)
      → is_suspended from ≡ false
      → has_user is ≡ false
      → In Q k
      → In Q (apply_first ext is from k).1
  apply_first-quiet from is k awake h p =
      first-quiet (λ f. f.any_user) is_user users_raise refl from (λ f e. ground arith) is k h p

  -- Without an item that can wake it, a batch keeps the mode of a session.
  pub apply_first-asleep :
      (from : SessionStatus) (is : List Inbound) (k : Kernel)
      → any (can_wake ext) is ≡ false
      → In Q k
      → In Q (apply_first ext is from k).1
  apply_first-asleep from is k h p =
      first-quiet wakes (can_wake ext) wakers_raise refl from (λ f e. ground arith) is k h p

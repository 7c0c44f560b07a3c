-- ===== src/Kernel/Ending/Cancelling.antt =====
-- loop_/mod.rs `Kernel::end`: the loop that cancels the open tasks.
use grist_agent.Prelude.{
  ◌≡◌, refl, sym, subst, ap, inl, inr, Bool, true, false, Option, none, some, List, [], ◌∷◌, ◌++◌,
  Memᴰ, arith, Bool-cases, ok, keep,
}
use mathlib.Core.List.Memᴰ
use grist_agent.Prelude.Exec.{Returns, Returns-pure, Returns-gets, Returns-modify, Returns-bind}
use grist_agent.Prelude.OrdMap
use grist_agent.Prelude.OrdMap.{OrdMap}
use grist_agent.Prelude.Order.{nat_order, list_order}
use grist_agent.Prelude.Text.{Text, same, same_iff}
use grist_agent.Content.{Value}
use grist_agent.Task.{Task, is_open}
use grist_agent.Event.{EventBody, LoopPhase, idle_phase}
use grist_agent.Kernel.{Kernel, Externals, append, log}
use grist_agent.Kernel.Tasks.{
  cancel_found, cancel_task_in_state, log_cancelled_task, cancelled_marker,
}
use grist_agent.Kernel.Lifecycle.{cancel_all}
use grist_agent.Kernel.Answered.{closed_at, terminal_cancelled}

-- The log takes every line.
abbrev pub IsQuiet : Kernel → Type 0
IsQuiet k = k.log_faults ≡ []

-- Every open task is among the given ids; no waker and no session process lives.
pub record IsEnding (ids : List Text) (k : Kernel) : Type 0 where
  pub quiet : IsQuiet k
  pub wakers : k.wakers ≡ []
  pub procs : k.session_procs ≡ []
  pub left :
      (id : Text) (t : Task)
      → OrdMap.get id k.state.stable.pending_tasks ≡ some t
      → is_open t ≡ true
      → Memᴰ id ids

append-quiet :
    (faults : List Bool) (body : EventBody) (k : Kernel)
    → faults ≡ []
    → append faults body k ≡ (ok tt, record k { events = k.events ++ body ∷ [] })
append-quiet [] body k e = refl
append-quiet (b ∷ bs) body k e = cc

-- A line that is taken changes the events alone.
pub log-Returns :
    {P : Kernel → Type 0} (body : EventBody)
    → ((k : Kernel) → P k → IsQuiet k)
    → ((k : Kernel) → P k → P (record k { events = k.events ++ body ∷ [] }))
    → Returns P (log body) (λ _. P)
unfolding log
log-Returns {P} body quiet keeps = record {
  from = λ k p.
      let e = append-quiet k.log_faults body k (quiet k p) in
      (tt, rw e refl, subst P (sym (ap (λ r. r.1) e)) (keeps k p));
}

log-IsEnding :
    (ids : List Text) (body : EventBody) → Returns (IsEnding ids) (log body) (λ _. IsEnding ids)
log-IsEnding ids body =
    log-Returns body (λ k h. h.quiet)
      (λ k h. record { quiet = h.quiet; wakers = h.wakers; procs = h.procs; left = h.left })

abort_none : (p : Text → Bool) (ws : List Text) → ws ≡ [] → keep p ws ≡ []
abort_none p [] e = refl
abort_none p (w ∷ ws) e = cc

drop_head :
    (id : Text) (ids : List Text) (i : Text) → same i id ≡ false → Memᴰ i (id ∷ ids) → Memᴰ i ids
drop_head id ids i n m = elim (Memᴰ.cases_cons m) [
  | inl e ↦ ground (arith, (same_iff i id).1 e)
  | inr r ↦ r
]

-- What is left after an adjustment that closes the task of `id`.
left-adjust :
    (tasks : OrdMap Text Task) (id : Text) (ids : List Text) (t t' : Task)
    → OrdMap.get id tasks ≡ some t
    → is_open t' ≡ false
    → ((i : Text) (s : Task) → OrdMap.get i tasks ≡ some s → is_open s ≡ true → Memᴰ i (id ∷ ids))
    → (i : Text) (s : Task) → OrdMap.get i (OrdMap.adjust id (λ _. t') tasks) ≡ some s
    → is_open s ≡ true
    → Memᴰ i ids
left-adjust tasks id ids t t' found closed left i s e o = elim (Bool-cases (same i id)) [
  | inl y ↦ absurd ground (arith, OrdMap.get-adjust i id (λ _. t') tasks t found)
  | inr n ↦
      drop_head id ids i n
        (left i s (ground (arith, OrdMap.get-adjust i id (λ _. t') tasks t found)) o)
]

cancel_found-IsEnding :
    (id : Text) (ids : List Text) (content : Value) (o : Option Task) (k : Kernel)
    → OrdMap.get id k.state.stable.pending_tasks ≡ o
    → IsEnding (id ∷ ids) k
    → IsEnding ids (cancel_found id content o k).1
cancel_found-IsEnding id ids content none k e h = record {
  quiet = h.quiet;
  wakers = h.wakers;
  procs = h.procs;
  left = λ i s g o. drop_head id ids i (ground (arith, same_iff i id)) (h.left i s g o);
}
cancel_found-IsEnding id ids content (some t) k e h = elim (Bool-cases (is_open t)) [
  | inl o ↦ rw o (record {
    quiet = h.quiet;
    wakers = h.wakers;
    procs = h.procs;
    left = left-adjust _ id ids t _ e (closed_at _ terminal_cancelled) h.left;
  })
  | inr c ↦ rw c (record {
    quiet = h.quiet;
    wakers = h.wakers;
    procs = h.procs;
    left = λ i s g o. drop_head id ids i (ground (arith, same_iff i id)) (h.left i s g o);
  })
]

cancel-IsEnding :
    (id : Text) (ids : List Text) (k : Kernel)
    → IsEnding (id ∷ ids) k
    → IsEnding ids (cancel_task_in_state id cancelled_marker k).1
unfolding cancel_task_in_state
cancel-IsEnding id ids k h =
    cancel_found-IsEnding id ids cancelled_marker _ _ refl
      (record { quiet = h.quiet; wakers = abort_none _ _ h.wakers; procs = h.procs; left = h.left })

log_cancelled-Returns :
    (ids : List Text) (id : Text) (phase : LoopPhase)
    → Returns (IsEnding ids) (log_cancelled_task id phase) (λ _. IsEnding ids)
log_cancelled-Returns ids id phase =
    Returns-bind _ _ (Returns-gets _)
      λ turn. record { from = λ k h. (log-IsEnding ids _).from k h.0 }

pub cancel_all-Returns :
    (ext : Externals) (ids : List Text)
    → Returns (IsEnding ids) (cancel_all ext ids) (λ _. IsEnding [])
unfolding cancel_all
cancel_all-Returns ext [] = Returns-pure _ (λ k h. h)
cancel_all-Returns ext (id ∷ ids) =
    Returns-bind _ _ (Returns-modify _ (cancel-IsEnding id ids)) λ _.
      Returns-bind _ _ (log_cancelled-Returns ids id idle_phase) λ _. cancel_all-Returns ext ids

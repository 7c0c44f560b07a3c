-- ===== src/Kernel/Ending.antt =====
-- loop_/mod.rs `Kernel::end`: it goes through, and what it leaves.
pub mod Cancelling
use grist_agent.Prelude.{
  ◌≡◌, ◌≢◌, refl, sym, subst, ap, inl, inr, Bool, true, false, Option, none, some, List, [], ◌∷◌,
  ◌++◌, map, Memᴰ, arith, Bool-cases, ok, keep, keep_of_member,
}
use mathlib.Core.List.Memᴰ
use grist_agent.Prelude.Exec.{Returns, Returns-pure, Returns-gets, Returns-modify, Returns-bind}
use grist_agent.Prelude.OrdMap
use grist_agent.Prelude.OrdMap.{OrdMap}
use grist_agent.Prelude.Order.{nat_order, list_order}
use grist_agent.Prelude.Text.{Text, same, same_iff}
use grist_agent.Content.{Value}
use grist_agent.Task.{Task, is_open}
use grist_agent.State.{
  SessionStatus, created, running, idle, suspended, done, failed, Stable, open_tasks,
}
use grist_agent.Event.{EventBody, CheckpointReason, LoopPhase, idle_phase}
use grist_agent.Kernel.{Kernel, Externals, append, log, set_status, write_checkpoint, checkpoint}
use grist_agent.Kernel.Tasks.{
  cancel_found, cancel_task_in_state, log_cancelled_task, cancelled_marker,
}
use grist_agent.Kernel.Lifecycle.{cancel_all, end_open, end_from, end_session}
use grist_agent.Kernel.Answered.{closed_at, terminal_cancelled}
use grist_agent.Kernel.Ending.Cancelling.{IsQuiet, IsEnding, log-Returns, cancel_all-Returns}

-- What `end` leaves.
pub record IsEnded (k : Kernel) : Type 0 where
  pub is_quiet : IsQuiet k
  pub is_done : k.state.stable.session_status ≡ done
  pub no_open :
      (id : Text) (t : Task)
      → OrdMap.get id k.state.stable.pending_tasks ≡ some t
      → is_open t ≡ false
  pub no_wakers : k.wakers ≡ []
  pub no_procs : k.session_procs ≡ []

not_in_nil : {id : Text} {A : Type 0} → Memᴰ id [] → A
not_in_nil m = elim m [ ]

done-IsEnded : (k : Kernel) → IsEnding [] k → IsEnded (set_status done k)
unfolding set_status
done-IsEnded k h = record {
  is_quiet = h.quiet;
  is_done = refl;
  no_open =
      λ id t g. elim (Bool-cases (is_open t)) [ inl o ↦ not_in_nil (h.left id t g o) | inr c ↦ c ];
  no_wakers = h.wakers;
  no_procs = h.procs;
}

log-IsEnded : (body : EventBody) → Returns IsEnded (log body) (λ _. IsEnded)
log-IsEnded body =
    log-Returns body (λ k h. h.is_quiet)
      (λ k h. record {
        is_quiet = h.is_quiet;
        is_done = h.is_done;
        no_open = h.no_open;
        no_wakers = h.no_wakers;
        no_procs = h.no_procs;
      })

-- Nothing fails, and every task is filed under its own id.
abbrev IsFiled : Kernel → Type 0
IsFiled k =
    IsQuiet k
    × ((id : Text) (t : Task) → OrdMap.get id k.state.stable.pending_tasks ≡ some t → t.id ≡ id)

get-value :
    (id : Text) (t : Task) (m : OrdMap Text Task)
    → OrdMap.get id m ≡ some t
    → Memᴰ t (OrdMap.values m)
get-value id t [] h = cc
get-value id t ((j, s) ∷ m) h = elim (Bool-cases (same id j)) [
  | inl y ↦ Memᴰ.head (ground arith)
  | inr n ↦ Memᴰ.tail (get-value id t m (ground arith))
]

map-member : (t : Task) (ts : List Task) → Memᴰ t ts → Memᴰ t.id (map (λ s. s.id) ts)
map-member t [] m = elim m [ ]
map-member t (s ∷ ts) (Memᴰ.head e) = Memᴰ.head (ap (λ r. r.id) e)
map-member t (s ∷ ts) (Memᴰ.tail m) = Memᴰ.tail (map-member t ts m)

-- The ids that `end` reads are those of all open tasks.
opens :
    (k : Kernel) (ids : List Text)
    → ((IsFiled k × (k.session_procs ≡ [])) × (k.wakers ≡ []))
      × (map (λ t. t.id) (open_tasks k.state.stable) ≡ ids)
    → IsEnding ids k
unfolding open_tasks
opens k ids (((h, procs), wakers), e) = record {
  quiet = h.0;
  wakers = wakers;
  procs = procs;
  left = λ id t g o.
      rw (sym e, sym (h.1 id t g)) (map-member t _ (keep_of_member is_open (get-value id t _ g) o));
}

module _ (ext : Externals) (hashes : (st : Stable) → (h : Text) × (ext.digest st ≡ some h)) where
  write_checkpoint-Returns :
      (reason : CheckpointReason) (o : Option Text) (h : Text)
      → o ≡ some h
      → Returns IsEnded (write_checkpoint ext reason o) (λ _. IsEnded)
  write_checkpoint-Returns reason none h e = cc
  write_checkpoint-Returns reason (some g) h e = Returns-bind _ _ (Returns-gets _) λ k.
      Returns-bind {Q = λ _. IsEnded} _ _ (record { from = λ s p. (log-IsEnded _).from s p.0 })
        λ _. Returns-modify _ (λ k h. record {
          is_quiet = h.is_quiet;
          is_done = h.is_done;
          no_open = h.no_open;
          no_wakers = h.no_wakers;
          no_procs = h.no_procs;
        })

  checkpoint-Returns :
      (reason : CheckpointReason) → Returns IsEnded (checkpoint ext reason) (λ _. IsEnded)
  unfolding checkpoint
  checkpoint-Returns reason = record {
    from = λ k p.
        let (h, e) = hashes k.state.stable in (write_checkpoint-Returns reason _ h e).from k p;
  }

  end_open-Returns : Returns IsFiled (end_open ext) (λ _. IsEnded)
  end_open-Returns = Returns-bind _ _ (Returns-modify {Q = IsFiled} _ (λ k h. h)) λ _.
      Returns-bind _ _
        (Returns-modify {Q = λ k. IsFiled k × (k.session_procs ≡ [])} _ (λ k h. (h, refl)))
        λ _.
          Returns-bind _ _
            (Returns-modify {Q = λ k. (IsFiled k × (k.session_procs ≡ [])) × (k.wakers ≡ [])} _
              (λ k h. (h, refl)))
            λ _. Returns-bind _ _ (Returns-gets _) λ ids.
              Returns-bind _ _
                (record { from = λ k h. (cancel_all-Returns ext ids).from k (opens k ids h) })
                λ _. Returns-bind _ _ (Returns-modify _ done-IsEnded) λ _.
                  Returns-bind _ _ (checkpoint-Returns _) λ _.
                    Returns-bind _ _ (Returns-gets _)
                      λ k. record { from = λ s p. (log-IsEnded _).from s p.0 }

  end_from-Returns :
      (from : SessionStatus) (k : Kernel)
      → from ≢ done
      → IsFiled k
      → (u : Unit) × ((end_from ext from k).0 ≡ ok u) × IsEnded (end_from ext from k).1
  end_from-Returns done k n h = absurd (n refl)
  end_from-Returns created k n h = end_open-Returns.from k h
  end_from-Returns running k n h = end_open-Returns.from k h
  end_from-Returns idle k n h = end_open-Returns.from k h
  end_from-Returns suspended k n h = end_open-Returns.from k h
  end_from-Returns failed k n h = end_open-Returns.from k h

-- `end` on a session that is not done, where the log takes every line, every state can be hashed
-- and every task is filed under its own id: it returns, and leaves the session done, with no open
-- task, no live waker and no session process.
pub end_session-returns :
    (ext : Externals) (k : Kernel)
    → ((st : Stable) → (h : Text) × (ext.digest st ≡ some h))
    → k.log_faults ≡ []
    → ((id : Text) (t : Task) → OrdMap.get id k.state.stable.pending_tasks ≡ some t → t.id ≡ id)
    → k.state.stable.session_status ≢ done
    → ((end_session ext k).0 ≡ ok tt) × IsEnded (end_session ext k).1
unfolding end_session
end_session-returns ext k hashes quiet filed n =
    let (u, e, q) = end_from-Returns ext hashes k.state.stable.session_status k n (quiet, filed) in
    (e, q)

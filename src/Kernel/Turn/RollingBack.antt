-- ===== src/Kernel/Turn/RollingBack.antt =====
-- loop_/turn.rs `fail_turn`: a failed turn leaves nothing of itself in the state.
use grist_agent.Prelude.{
  Bool, ◌+◌, ◌≡◌, refl, sym, ap, ◌∙◌, subst, some, List, [], ◌∷◌, ◌++◌, Result, ok, err,
  ok-injective,
}
use mathlib.Core.List.{append-nil, append_assoc}
use grist_agent.Prelude.Exec.Ends.{
  Post, Ends, Ends-pure, Ends-raise, Ends-gets, Ends-modify, Ends-bind, Ends-any,
}
use grist_agent.Prelude.OrdMap
use grist_agent.Prelude.Order.{nat_order, list_order}
use grist_agent.Prelude.Text.{Text}
use grist_agent.Content.{Message}
use grist_agent.Task.{Task}
use grist_agent.State.{SessionStatus, created, running, idle, suspended, done, failed, State}
use grist_agent.Kernel.{Kernel, KernelError, Externals, set_status, push_message}
use grist_agent.Kernel.Tasks.{set_task}
use grist_agent.Kernel.Writes.{IsUnlogged, log-Keeps, checkpoint-Keeps}
use grist_agent.Kernel.Drains.{IsDrainable, drain_inbox-Keeps}
use grist_agent.Kernel.Lifecycle.{drain_inbox_end_of_turn}
use grist_agent.Kernel.Turn.{
  lift, lifted, Session, Shared, Abort, fail, cancelled, fatal, Failure, Cancellation,
}
use grist_agent.Kernel.Turn.Body.{
  TurnOutcome, continues, idles, cancelled_turn, suspends, fails, turn_body,
}
use grist_agent.Kernel.Turn.Exits.{
  as_is, cancel_turn, fail_turn, turn_over, turn_started, after_body, run_turn_from, run_turn,
}
use grist_agent.Kernel.Turn.Pairing.{lift-Ends}
use grist_agent.Kernel.Turn.Boundary.{Ended, Ignored, turn_body-Ends}
use grist_agent.Kernel.Turn.Settling.{Any}

-- The state that a turn begins with, and a state in failure.
abbrev pub begun : State → State
begun st = record st { stable = record st.stable { turn = st.stable.turn + 1 } }

abbrev pub in_failure : State → State
in_failure st = record st { stable = record st.stable { session_status = failed } }

-- What the drain of the inbox may do to a state: add messages, and change tasks under their ids.
pub record IsDrained (before after : State) : Type 0 where
  pub added : (ms : List Message) × (after.stable.messages ≡ before.stable.messages ++ ms)
  pub same_tasks : OrdMap.keys after.stable.pending_tasks ≡ OrdMap.keys before.stable.pending_tasks
  pub same_rest : after ≡ record before {
    stable = record before.stable {
      messages = after.stable.messages;
      pending_tasks = after.stable.pending_tasks;
    };
  }

-- A state put back: the one that the turn began with, after the drain of some inbox and in failure.
pub record IsRolledBack (ext : Externals) (before after : State) : Type 0 where
  pub entered : Kernel
  pub put_back : entered.state ≡ begun before
  pub whole : after ≡ in_failure (drain_inbox_end_of_turn ext entered).1.state
  pub drained : IsDrained (begun before) (drain_inbox_end_of_turn ext entered).1.state

module _ (before : State) where
  abbrev Back : Kernel → Type 0
  Back k = IsDrained before k.state

  Back-IsUnlogged : IsUnlogged Back
  Back-IsUnlogged = record { written = λ k es h. h; faulty = λ k fs h. h; hashed = λ k hash h. h }

  push_message-Back : (m : Message) (k : Kernel) → Back k → Back (push_message m k)
  push_message-Back m k h =
      let (ms, same) = h.added in
      record {
        added = (
          ms ++ m ∷ [],
          ap (λ (xs : List Message). xs ++ m ∷ []) same
              ∙ append_assoc before.stable.messages ms (m ∷ []),
        );
        same_tasks = h.same_tasks;
        same_rest =
            ap
              (λ (st : State). record st {
                stable = record st.stable { messages = k.state.stable.messages ++ m ∷ [] };
              })
              h.same_rest;
      }

  set_task-Back : (id : Text) (t : Task) (k : Kernel) → Back k → Back (set_task id t k)
  set_task-Back id t k h = record {
    added = h.added;
    same_tasks = OrdMap.keys-adjust id (λ _. t) k.state.stable.pending_tasks ∙ h.same_tasks;
    same_rest =
        ap
          (λ (st : State). record st {
            stable = record st.stable {
              pending_tasks = (set_task id t k).state.stable.pending_tasks;
            };
          })
          h.same_rest;
  }

  Back-IsDrainable : (ext : Externals) → IsDrainable ext (λ _. Unit) (λ _. Unit) Back
  Back-IsDrainable ext = record {
    unlogged = Back-IsUnlogged;
    results = λ m e. tt;
    lets = λ m n is h e. tt;
    others = λ i is h. tt;
    said = λ m k l h. push_message-Back m k h;
    filed = set_task-Back;
    aborted = λ id k h. h;
    heard = λ k h. tt;
    taken = λ is k u h. h;
  }

  unchanged : (k : Kernel) → k.state ≡ before → Back k
  unchanged k e = record {
    added =
        ([], ap (λ (st : State). st.stable.messages) e ∙ sym (append-nil before.stable.messages));
    same_tasks = ap (λ (st : State). OrdMap.keys st.stable.pending_tasks) e;
    same_rest =
        e
        ∙ ap
            (λ (st : State). record before {
              stable = record before.stable {
                messages = st.stable.messages;
                pending_tasks = st.stable.pending_tasks;
              };
            })
            (sym e);
  }

-- What only logs keeps the state.
state-IsUnlogged : (P : State → Type 0) → IsUnlogged (λ k. P k.state)
state-IsUnlogged P = record { written = λ k es h. h; faulty = λ k fs h. h; hashed = λ k hash h. h }

module _ (sh : Shared) (before : State) where
  -- The state is the one that the drain leaves.
  abbrev Drained : State → Type 0
  Drained st =
      (k : Kernel) × (k.state ≡ begun before)
      × (st ≡ (drain_inbox_end_of_turn sh.externals k).1.state)

  abbrev InFailure : State → Type 0
  InFailure st = (d : State) × Drained d × (st ≡ in_failure d)

  Drained-Post :
      (s : Session) (r : Result KernelError Bool × Kernel)
      → Drained r.1.state
      → Post (λ _ t. Drained t.kernel.state) Any (lifted as_is s r)
  Drained-Post s (ok b, k) h = h
  Drained-Post s (err e, k) h = tt

  drain-Ends :
      Ends
        (λ s. s.kernel.state ≡ begun before)
        (lift as_is (drain_inbox_end_of_turn sh.externals))
        (λ _ t. Drained t.kernel.state)
        Any
  unfolding lift
  drain-Ends = record {
    from =
        λ s h. Drained-Post s (drain_inbox_end_of_turn sh.externals s.kernel) (s.kernel, h, refl);
  }

  -- Only a failed outcome says something of the state before.
  abbrev Failed : TurnOutcome → Session → Type 0
  Failed (fails class) s = InFailure s.kernel.state × (s.kernel.last_error_class ≡ some class)
  Failed _ s = Unit

  fail_turn-Ends : (f : Failure) → Ends (λ _. Unit) (fail_turn sh (begun before) f) Failed Any
  unfolding fail_turn set_status
  fail_turn-Ends f =
      let B = λ (t : Session). t.kernel.state ≡ begun before in
      let F = λ (t : Session). InFailure t.kernel.state in
      Ends-bind _ _ (Ends-any _) λ turn. Ends-bind _ _ (Ends-modify {Q = B} _ (λ t h. refl)) λ _.
        Ends-bind _ _
          (lift-Ends (λ k. k.state ≡ begun before) _ _ (λ e t. tt)
            (log-Keeps (state-IsUnlogged (λ st. st ≡ begun before)) _))
          λ _. Ends-bind _ _ (Ends-gets {Q = λ _. B} _ (λ t h. h)) λ cause.
            Ends-bind _ _ drain-Ends λ _.
              Ends-bind _ _ (Ends-modify {Q = F} _ (λ t h. (t.kernel.state, h, refl))) λ _.
                Ends-bind _ _
                  (lift-Ends (λ k. InFailure k.state) _ _ (λ e t. tt)
                    (checkpoint-Keeps (state-IsUnlogged InFailure) sh.externals _))
                  λ _. Ends-bind _ _ (Ends-gets {Q = λ _. F} _ (λ t h. h)) λ hash.
                    Ends-bind _ _
                      (lift-Ends (λ k. InFailure k.state) _ _ (λ e t. tt)
                        (log-Keeps (state-IsUnlogged InFailure) _))
                      λ _.
                        Ends-bind _ _
                          (Ends-modify {Q = λ t. F t × (t.kernel.last_error_class ≡ some f.class)} _
                            (λ t h. (h, refl)))
                          λ _. Ends-pure _ (λ t h. h)

  cancel_turn-Ends : (c : Cancellation) → Ends (λ _. Unit) (cancel_turn sh c) Failed Any
  unfolding cancel_turn
  cancel_turn-Ends c = Ends-bind _ _ (Ends-any _) λ turn. Ends-bind _ _ (Ends-any _) λ _.
      Ends-bind _ _ (Ends-any _) λ _. Ends-bind _ _ (Ends-any _) λ _.
        Ends-bind _ _ (Ends-any _)
          λ _. Ends-bind _ _ (Ends-any _) λ _. Ends-pure cancelled_turn (λ t h. tt)

  Ended-Failed : (o : TurnOutcome) (s : Session) → Ended o s → Failed o (turn_over sh s)
  Ended-Failed (fails class) s h = elim h [ ]
  Ended-Failed cancelled_turn s h = tt
  Ended-Failed continues s h = tt
  Ended-Failed idles s h = tt
  Ended-Failed (suspends x) s h = tt

  after_body-Post :
      (r : Result Abort TurnOutcome × Session)
      → Post Ended Ignored r
      → Post Failed Any (after_body sh (begun before) r)
  after_body-Post (ok o, s) h = Ended-Failed o s h
  after_body-Post (err (fatal e), s) h =
      (Ends-raise {P = λ _. Unit} {R = Any} {Q = Failed} e (λ s p. tt)).from (turn_over sh s) tt
  after_body-Post (err (fail f), s) h = (fail_turn-Ends f).from _ tt
  after_body-Post (err (cancelled c), s) h = (cancel_turn-Ends c).from _ tt

  Failed-back :
      {class : Text} (r : Result KernelError TurnOutcome × Session)
      → r.0 ≡ ok (fails class)
      → Post Failed Any r
      → IsRolledBack sh.externals before r.1.kernel.state
        × (r.1.kernel.last_error_class ≡ some class)
  Failed-back {class} (ok x, s) e h =
      let ((d, (k, put, came), whole), last) =
        subst (λ (y : TurnOutcome). Failed y s) (ok-injective e) h in
      (
        record {
          entered = k;
          put_back = put;
          whole = whole ∙ ap in_failure came;
          drained =
              (drain_inbox-Keeps (Back-IsDrainable (begun before) sh.externals)).at k
                (unchanged (begun before) k put);
        },
        last,
      )
  Failed-back (err x, s) e h = cc

run_turn_from-Post :
    (sh : Shared) (status : SessionStatus) (s : Session)
    → Post (Failed sh s.kernel.state) Any (run_turn_from sh status s)
run_turn_from-Post sh running s =
    after_body-Post sh s.kernel.state (turn_body sh (turn_started sh s))
      ((turn_body-Ends sh).from _ tt)
run_turn_from-Post sh done s = tt
run_turn_from-Post sh created s = tt
run_turn_from-Post sh idle s = tt
run_turn_from-Post sh suspended s = tt
run_turn_from-Post sh failed s = tt

-- A turn that fails, wherever in it and for whatever cause, puts the state back: the state that it
-- leaves is the one that the turn began with, its number gone on by one, as the drain of an inbox
-- at the end of a turn leaves it, and in failure; and such a drain only adds messages behind the old
-- ones and changes tasks under the old ids, all else is as it was. The class of the error is the
-- kernel's last one.
pub run_turn-IsRolledBack :
    (sh : Shared) (s : Session) {class : Text}
    → (run_turn sh s).0 ≡ ok (fails class)
    → IsRolledBack sh.externals s.kernel.state (run_turn sh s).1.kernel.state
      × ((run_turn sh s).1.kernel.last_error_class ≡ some class)
unfolding run_turn
run_turn-IsRolledBack sh s e =
    Failed-back sh s.kernel.state (run_turn_from sh _ s) e
      (run_turn_from-Post sh s.kernel.state.stable.session_status s)

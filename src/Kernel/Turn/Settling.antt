-- ===== src/Kernel/Turn/Settling.antt =====
-- loop_/turn.rs `run_turn`: the status, its mirror and the token after a turn, and what a suspended
-- or idle session waits for.
use grist_agent.Prelude.{◌≡◌, refl, sym, ap, ◌∙◌, false, none, Result, ok, err, ok-injective, subst}
use grist_agent.Prelude.Exec.Ends.{
  Post, Ends, Ends-pure, Ends-raise, Ends-gets, Ends-modify, Ends-bind, Ends-any,
}
use grist_agent.State.{SessionStatus, created, running, idle, suspended, done, failed, State}
use grist_agent.Kernel.{Kernel, KernelError, suspension, set_status}
use grist_agent.Kernel.Status.{is_running, is_some}
use grist_agent.Kernel.Writes.{IsUnlogged, log-Keeps, checkpoint-Keeps}
use grist_agent.Kernel.Turn.{Session, Shared, Abort, fail, cancelled, fatal, Failure, Cancellation}
use grist_agent.Kernel.Turn.Body.{
  TurnOutcome, continues, idles, cancelled_turn, suspends, fails, turn_body,
}
use grist_agent.Kernel.Turn.Exits.{
  cancel_turn, fail_turn, turn_over, turn_started, after_body, run_turn_from, run_turn,
}
use grist_agent.Kernel.Turn.Pairing.{lift-Ends}
use grist_agent.Kernel.Turn.Boundary.{
  settled_status, WaitsFor, IsSettled, At, Ended, Ignored, turn_body-Ends,
}

-- A session that rests: no turn is about to run.
abbrev Resting : SessionStatus → Kernel → Type 0
Resting s k = At s k × (k.turn_token ≡ none)

Resting-IsUnlogged : (s : SessionStatus) → IsUnlogged (Resting s)
Resting-IsUnlogged s = record {
  written = λ k es h. h;
  faulty = λ k fs h. h;
  hashed = λ k hash h. h;
}

abbrev pub Any : KernelError → Session → Type 0
Any e s = Unit

abbrev pub Settled : TurnOutcome → Session → Type 0
Settled o s = IsSettled o s.kernel

rested-IsSettled :
    (o : TurnOutcome) (k : Kernel)
    → is_running (settled_status o) ≡ false
    → Resting (settled_status o) k
    → WaitsFor o k
    → IsSettled o k
rested-IsSettled o k e h w = record {
  status = h.0.0;
  mirrored = h.0.1;
  token = ap is_some h.1 ∙ sym e;
  waits = w;
}

module _ (sh : Shared) where
  pub cancel_turn-Ends : (c : Cancellation) → Ends (λ _. Unit) (cancel_turn sh c) Settled Any
  unfolding cancel_turn set_status
  cancel_turn-Ends c = Ends-bind _ _ (Ends-any _) λ turn. Ends-bind _ _ (Ends-any _) λ _.
      Ends-bind _ _ (Ends-any _) λ _. Ends-bind _ _ (Ends-any _) λ _.
        Ends-bind _ _ (Ends-modify {Q = λ t. Resting idle t.kernel} _ (λ t h. ((refl, refl), refl)))
          λ _.
            Ends-bind _ _
              (lift-Ends (Resting idle) _ _ (λ e t. tt)
                (checkpoint-Keeps (Resting-IsUnlogged idle) sh.externals _))
              λ _. Ends-pure _ (λ t h. rested-IsSettled cancelled_turn t.kernel refl h tt)

  fail_turn-Ends :
      (snapshot : State) (f : Failure) → Ends (λ _. Unit) (fail_turn sh snapshot f) Settled Any
  unfolding fail_turn set_status
  fail_turn-Ends snapshot f =
      let F = λ (t : Session). Resting failed t.kernel in
      Ends-bind _ _ (Ends-any _) λ turn. Ends-bind _ _ (Ends-any _) λ _.
        Ends-bind _ _ (Ends-any _) λ _. Ends-bind _ _ (Ends-any _) λ cause.
          Ends-bind _ _ (Ends-any _) λ _.
            Ends-bind _ _ (Ends-modify {Q = F} _ (λ t h. ((refl, refl), refl))) λ _.
              Ends-bind _ _
                (lift-Ends (Resting failed) _ _ (λ e t. tt)
                  (checkpoint-Keeps (Resting-IsUnlogged failed) sh.externals _))
                λ _. Ends-bind _ _ (Ends-gets {Q = λ _. F} _ (λ t h. h)) λ hash.
                  Ends-bind _ _
                    (lift-Ends (Resting failed) _ _ (λ e t. tt)
                      (log-Keeps (Resting-IsUnlogged failed) _))
                    λ _.
                      Ends-bind _ _ (Ends-modify {Q = F} _ (λ t h. h)) λ _.
                        Ends-pure _ (λ t h. rested-IsSettled (fails f.class) t.kernel refl h tt)

  -- The token after the body.
  over-IsSettled : (o : TurnOutcome) (s : Session) → Ended o s → IsSettled o (turn_over sh s).kernel
  unfolding suspension
  over-IsSettled continues s h = record {
    status = h.0.0;
    mirrored = h.0.1;
    token = rw h.0.0 refl;
    waits = tt;
  }
  over-IsSettled idles s h = record {
    status = h.0.0;
    mirrored = h.0.1;
    token = rw h.0.0 refl;
    waits = h.1;
  }
  over-IsSettled (suspends x) s h = record {
    status = h.0.0;
    mirrored = h.0.1;
    token = rw h.0.0 refl;
    waits = h.1;
  }
  over-IsSettled (fails class) s h = elim h [ ]
  over-IsSettled cancelled_turn s h = elim h [ ]

  after_body-Post :
      (snapshot : State) (r : Result Abort TurnOutcome × Session)
      → Post Ended Ignored r
      → Post Settled Any (after_body sh snapshot r)
  after_body-Post snapshot (ok o, s) h = over-IsSettled o s h
  after_body-Post snapshot (err (fatal e), s) h =
      (Ends-raise {P = λ _. Unit} {R = Any} {Q = Settled} e (λ s p. tt)).from (turn_over sh s) tt
  after_body-Post snapshot (err (fail f), s) h = (fail_turn-Ends snapshot f).from _ tt
  after_body-Post snapshot (err (cancelled c), s) h = (cancel_turn-Ends c).from _ tt

  run_turn_from-Post :
      (status : SessionStatus) (s : Session) → Post Settled Any (run_turn_from sh status s)
  run_turn_from-Post running s =
      after_body-Post _ (turn_body sh (turn_started sh s)) ((turn_body-Ends sh).from _ tt)
  run_turn_from-Post done s = tt
  run_turn_from-Post created s = tt
  run_turn_from-Post idle s = tt
  run_turn_from-Post suspended s = tt
  run_turn_from-Post failed s = tt

returned-Settled :
    {o : TurnOutcome} (r : Result KernelError TurnOutcome × Session)
    → r.0 ≡ ok o
    → Post Settled Any r
    → IsSettled o r.1.kernel
returned-Settled (ok x, s) e h =
    subst (λ (y : TurnOutcome). IsSettled y s.kernel) (ok-injective e) h
returned-Settled (err x, s) e h = cc

-- Whatever the middleware, the provider and the tools did, also to the status: after a turn that
-- returns, the status, its mirror and the turn token are those of the outcome (a turn that goes on
-- leaves a running session with a token; an idle or cancelled one an idle session, a suspended and a
-- failed one their own status, without a token), an idle outcome means that no task is open, and a
-- suspended one that some are and lists exactly these with the number of their in-process wakers.
pub run_turn-IsSettled :
    (sh : Shared) (s : Session) {o : TurnOutcome}
    → (run_turn sh s).0 ≡ ok o
    → IsSettled o (run_turn sh s).1.kernel
unfolding run_turn
run_turn-IsSettled sh s returned =
    returned-Settled (run_turn_from sh _ s) returned
      (run_turn_from-Post sh s.kernel.state.stable.session_status s)

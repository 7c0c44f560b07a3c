-- ===== src/Kernel/Turn/Conversing.antt =====
-- loop_/turn.rs `run_turn`: a turn and the conversation.
use grist_agent.Prelude.Text.{Text}
use grist_agent.Prelude.{sym, subst, ℕ, ◌≡◌, refl, none, List, [], ◌∷◌, Result, ok, err}
use grist_agent.Prelude.Exec.Ends.{
  Post, Ends, Ends-pure, Ends-raise, Ends-gets, Ends-modify, Ends-bind,
}
use grist_agent.State.{SessionStatus, created, running, idle, suspended, done, failed, State}
use grist_agent.Tool.{ToolCall}
use grist_agent.Kernel.{Kernel, KernelError, set_status, abort}
use grist_agent.Kernel.Drains.{KeepsRole, FromUser}
use grist_agent.Kernel.Writes.{log-Keeps, checkpoint-Keeps}
use grist_agent.Kernel.Turn.{Session, Shared, Abort, fail, cancelled, fatal, Failure, Cancellation}
use grist_agent.Kernel.Turn.Outputs.{cancelled_output, append_tool_output}
use grist_agent.Kernel.Turn.Body.{TurnOutcome}
use grist_agent.Kernel.Turn.Exits.{
  abort_to_kernel, mapped_error, map_error, answer_cancelled, cancel_turn, fail_turn, turn_started,
  abort_ids, started_ids, exit_turn, after_body, run_turn_from, run_turn,
}
use grist_agent.Kernel.Turn.Talk.{Awaits, IsPaired, Said-IsUnlogged, drain_inbox-Keeps}
use grist_agent.Kernel.Turn.Pairing.{Talk, ids_of, Cut, Heard, FromTicks, lift-Talk-Ends}
use grist_agent.Kernel.Turn.Answering.{AllCivil, append_tool_output-Ends}
use grist_agent.Kernel.Turn.Requesting.{Paired}
use grist_agent.Kernel.Turn.Bodies.{turn_body-Ends}

abbrev Any : KernelError → Session → Type 0
Any e s = Unit

mapped_error-Post :
    {A : Type 0} (Q : A → Session → Type 0) (f : Abort → KernelError) (r : Result Abort A × Session)
    → Post Q Cut r
    → Post Q Any (mapped_error f r)
mapped_error-Post Q f (ok a, s) h = h
mapped_error-Post Q f (err e, s) h = tt

module _ (sh : Shared) where
  abort_ids-inbox : (ids : List Text) (k : Kernel) → (abort_ids sh ids k).inbox ≡ k.inbox
  abort_ids-inbox [] k = refl
  abort_ids-inbox (id ∷ ids) k = abort_ids-inbox ids (abort id k)

  append_cancelled-Ends :
      (turn : ℕ) (c : ToolCall) (cs : List ToolCall)
      → Ends
          (Talk (Awaits (ids_of (c ∷ cs))))
          (map_error abort_to_kernel (append_tool_output sh turn c cancelled_output 0 none))
          (λ _. Talk (Awaits (ids_of cs)))
          Any
  unfolding map_error
  append_cancelled-Ends turn c cs = record {
    from = λ s h.
        mapped_error-Post (λ _. Talk (Awaits (ids_of cs))) abort_to_kernel
          (append_tool_output sh turn c cancelled_output 0 none s)
          ((append_tool_output-Ends sh turn c cs c cancelled_output 0 none refl).from s h);
  }

  answer_cancelled-Ends :
      (turn : ℕ) (calls : List ToolCall)
      → Ends (Talk (Awaits (ids_of calls))) (answer_cancelled sh turn calls) (λ _. Paired) Any
  unfolding answer_cancelled
  answer_cancelled-Ends turn [] = Ends-pure tt (λ s p. p)
  answer_cancelled-Ends turn (c ∷ cs) =
      Ends-bind _ _ (Ends-modify {Q = Talk (Awaits (ids_of (c ∷ cs)))} _ (λ s p. p))
        λ _. Ends-bind _ _ (append_cancelled-Ends turn c cs) λ _. answer_cancelled-Ends turn cs

  module _ (same_role : KeepsRole sh.externals) where
    cancel_turn-Ends :
        (c : Cancellation)
        → Ends (Talk (Awaits (ids_of c.unanswered))) (cancel_turn sh c) (λ _. Paired) Any
    unfolding cancel_turn set_status
    cancel_turn-Ends c =
        let W = Awaits (ids_of c.unanswered) in
        Ends-bind _ _ (Ends-gets {Q = λ _. Talk W} (λ s. s.kernel.state.stable.turn) (λ s p. p))
          λ turn.
            Ends-bind _ _ (lift-Talk-Ends W _ _ (λ e t u. tt) (log-Keeps (Said-IsUnlogged W) _))
              λ _. Ends-bind _ _ (answer_cancelled-Ends turn c.unanswered) λ _.
                Ends-bind _ _
                  (lift-Talk-Ends IsPaired _ _ (λ e t u. tt)
                    (drain_inbox-Keeps sh.externals same_role))
                  λ _. Ends-bind _ _ (Ends-modify {Q = Paired} _ (λ s p. p)) λ _.
                    Ends-bind _ _
                      (lift-Talk-Ends IsPaired _ _ (λ e t u. tt)
                        (checkpoint-Keeps (Said-IsUnlogged IsPaired) sh.externals _))
                      λ _. Ends-pure _ (λ s p. p)

    fail_turn-Ends :
        (snapshot : State) (f : Failure)
        → IsPaired snapshot.stable.messages
        → Ends Heard (fail_turn sh snapshot f) (λ _. Paired) Any
    unfolding fail_turn set_status
    fail_turn-Ends snapshot f h =
        Ends-bind _ _ (Ends-gets {Q = λ _. Heard} (λ s. s.kernel.state.stable.turn) (λ s p. p))
          λ turn.
            Ends-bind _ _
              (Ends-modify {Q = Paired} _ (λ s p. (
                h,
                (
                  subst FromUser (sym (abort_ids-inbox (started_ids sh snapshot s.kernel) s.kernel))
                      p.0,
                  p.1,
                ),
              )))
              λ _.
                Ends-bind _ _
                  (lift-Talk-Ends IsPaired _ _ (λ e t u. tt)
                    (log-Keeps (Said-IsUnlogged IsPaired) _))
                  λ _. Ends-bind _ _ (Ends-gets {Q = λ _. Paired} _ (λ s p. p)) λ cause.
                    Ends-bind _ _
                      (lift-Talk-Ends IsPaired _ _ (λ e t u. tt)
                        (drain_inbox-Keeps sh.externals same_role))
                      λ _. Ends-bind _ _ (Ends-modify {Q = Paired} _ (λ s p. p)) λ _.
                        Ends-bind _ _
                          (lift-Talk-Ends IsPaired _ _ (λ e t u. tt)
                            (checkpoint-Keeps (Said-IsUnlogged IsPaired) sh.externals _))
                          λ _. Ends-bind _ _ (Ends-gets {Q = λ _. Paired} _ (λ s p. p)) λ hash.
                            Ends-bind _ _
                              (lift-Talk-Ends IsPaired _ _ (λ e t u. tt)
                                (log-Keeps (Said-IsUnlogged IsPaired) _))
                              λ _.
                                Ends-bind _ _ (Ends-modify {Q = Paired} _ (λ s p. p))
                                  λ _. Ends-pure _ (λ s p. p)

    exit_turn-Post :
        (snapshot : State) (a : Abort) (s : Session)
        → IsPaired snapshot.stable.messages
        → Cut a s
        → Post (λ _. Paired) Any (exit_turn sh snapshot a s)
    exit_turn-Post snapshot (fatal e) s p h =
        (Ends-raise {P = λ _. Unit} {R = Any} {Q = λ _. Paired} e (λ s p. tt)).from s tt
    exit_turn-Post snapshot (fail f) s p h = (fail_turn-Ends snapshot f p).from s h
    exit_turn-Post snapshot (cancelled c) s p h = (cancel_turn-Ends c).from s h

    after_body-Post :
        (snapshot : State) (r : Result Abort TurnOutcome × Session)
        → IsPaired snapshot.stable.messages
        → Post (λ _. Paired) Cut r
        → Post (λ _. Paired) Any (after_body sh snapshot r)
    after_body-Post snapshot (ok o, s) p h = h
    after_body-Post snapshot (err (fatal e), s) p h = exit_turn-Post snapshot (fatal e) _ p h
    after_body-Post snapshot (err (fail f), s) p h = exit_turn-Post snapshot (fail f) _ p h
    after_body-Post snapshot (err (cancelled c), s) p h =
        exit_turn-Post snapshot (cancelled c) _ p h

    run_turn_from-Post :
        (status : SessionStatus) (s : Session)
        → AllCivil sh.chain
        → Paired s
        → Post (λ _. Paired) Any (run_turn_from sh status s)
    run_turn_from-Post running s h p =
        after_body-Post _ _ p.0 ((turn_body-Ends sh same_role h).from (turn_started sh s) p)
    run_turn_from-Post done s h p = tt
    run_turn_from-Post created s h p = tt
    run_turn_from-Post idle s h p = tt
    run_turn_from-Post suspended s h p = tt
    run_turn_from-Post failed s h p = tt

returned-Paired :
    {o : TurnOutcome} (r : Result KernelError TurnOutcome × Session)
    → r.0 ≡ ok o
    → Post (λ _. Paired) Any r
    → Paired r.1
returned-Paired (ok x, s) e h = h
returned-Paired (err x, s) e h = cc

-- A turn keeps the conversation acceptable: when every tool use had its answer, each middleware's
-- hooks are civil, the messages in the inbox and those that arrive during the turn are users'
-- messages, and the redactor keeps the role of a message, then a turn that returns, whatever its
-- outcome (it goes on, is idle, suspended, failed or cancelled at any look at its token), leaves a
-- conversation in which every tool use has its answer, in order.
pub run_turn-IsPaired :
    (sh : Shared) (s : Session) {o : TurnOutcome}
    → AllCivil sh.chain
    → KeepsRole sh.externals
    → FromUser s.kernel.inbox
    → FromTicks s.ticks
    → IsPaired s.kernel.state.stable.messages
    → (run_turn sh s).0 ≡ ok o
    → IsPaired (run_turn sh s).1.kernel.state.stable.messages
unfolding run_turn
run_turn-IsPaired sh s h same_role inbox ticks p returned =
    (returned-Paired (run_turn_from sh _ s) returned (
      run_turn_from-Post sh same_role s.kernel.state.stable.session_status s h
        (p, (inbox, ticks)))).0

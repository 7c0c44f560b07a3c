-- ===== src/Kernel/Turn/Pairing.antt =====
-- loop_/turn.rs: what the steps of a turn do to the conversation, in particular that each call of
-- `run_tool_calls` is answered once, in order, also by what a cancellation leaves over.
use grist_agent.Prelude.{
  ◌≡◌, refl, subst, Bool, Option, none, some, List, [], ◌∷◌, map, Result, ok, err,
}
use grist_agent.Prelude.Exec.{Keeps}
use grist_agent.Prelude.Exec.Ends.{
  Post, Ends, Ends-pure, Ends-raise, Ends-gets, Ends-modify, Ends-if, Ends-bind, Ends-known,
}
use grist_agent.Prelude.Text.{Text}
use grist_agent.Content.{Message}
use grist_agent.Tool.{ToolCall}
use grist_agent.Event.{EventBody, LoopPhase}
use grist_agent.Kernel.{
  KernelError, not_running, is_done, nothing_to_wait_for, duplicate_tool, invalid_tool_name,
  duplicate_middleware, reserved_priority, tool_exceeds_grants, missing_session_command,
  spill_cap_out_of_range, no_checkpoint, restore_error, log_error, hash_error, turn_failed,
  internal, Kernel, Action, log,
}
use grist_agent.Kernel.Drains.{FromUser, FromUser-append}
use grist_agent.Kernel.Writes.{log-Keeps}
use grist_agent.Kernel.Turn.{
  Tick, Session, TurnStep, Shared, Abort, fail, cancelled, fatal, MiddlewareError, HookRun, lifted,
  lift, poll, after_tick, check_cancel, abort_of, log_event, hashed, log_all, flush_emits,
  hook_result, run_hook,
}
use grist_agent.Kernel.Turn.Calls.{unless_cancelled, cancelled_at}
use grist_agent.Kernel.Turn.Talk.{Awaits, IsPaired, Said, Said-IsUnlogged}

-- So do those that arrive at the looks at the token.
abbrev pub FromTicks : List Tick → Type 0
FromTicks [] = Unit
FromTicks (t ∷ ts) = FromUser t.arrived × FromTicks ts

-- All that is in the inbox, or comes into it, is a user's.
abbrev pub Heard : Session → Type 0
Heard s = FromUser s.kernel.inbox × FromTicks s.ticks

abbrev pub Talk : (List Message → Type 0) → Session → Type 0
Talk Q s = Q s.kernel.state.stable.messages × Heard s

abbrev pub ids_of : List ToolCall → List Text
ids_of = map (λ c. c.tool_use_id)

-- Where a turn is cancelled, the calls that it names are those that the conversation waits for.
abbrev pub Cut : Abort → Session → Type 0
Cut (fail f) s = Heard s
Cut (fatal e) s = Unit
Cut (cancelled c) s = Talk (Awaits (ids_of c.unanswered)) s

pub abort_of-Cut : (sh : Shared) (e : KernelError) (s : Session) → Heard s → Cut (abort_of sh e) s
unfolding abort_of
abort_of-Cut sh (not_running x) s h = tt
abort_of-Cut sh is_done s h = tt
abort_of-Cut sh nothing_to_wait_for s h = tt
abort_of-Cut sh (duplicate_tool x) s h = tt
abort_of-Cut sh (invalid_tool_name x) s h = tt
abort_of-Cut sh (duplicate_middleware x) s h = tt
abort_of-Cut sh (reserved_priority x) s h = tt
abort_of-Cut sh (tool_exceeds_grants x e) s h = tt
abort_of-Cut sh (missing_session_command x) s h = tt
abort_of-Cut sh (spill_cap_out_of_range x) s h = tt
abort_of-Cut sh no_checkpoint s h = tt
abort_of-Cut sh (restore_error x) s h = tt
abort_of-Cut sh (log_error x) s h = h
abort_of-Cut sh hash_error s h = h
abort_of-Cut sh (turn_failed x) s h = tt
abort_of-Cut sh (internal x) s h = h

lifted-Post :
    {A E : Type 0} (P : Kernel → Type 0) (R : E → Session → Type 0) (convert : KernelError → E)
    (s : Session) (r : Result KernelError A × Kernel)
    → ((e : KernelError) (t : Session) → R (convert e) t)
    → P r.1
    → Post (λ _ t. P t.kernel) R (lifted convert s r)
lifted-Post P R convert s (ok a, k) tame h = h
lifted-Post P R convert s (err e, k) tame h = tame e (record s { kernel = k })

-- A method of the kernel that keeps a property of the kernel.
pub lift-Ends :
    {A E : Type 0} {R : E → Session → Type 0} (P : Kernel → Type 0) (convert : KernelError → E)
    (m : Action A)
    → ((e : KernelError) (t : Session) → R (convert e) t)
    → Keeps P m
    → Ends (λ s. P s.kernel) (lift convert m) (λ _ s. P s.kernel) R
unfolding lift
lift-Ends {R = R} P convert m tame keeps = record {
  from = λ s h. lifted-Post P R convert s (m s.kernel) tame (keeps.at s.kernel h);
}

after_tick-Talk :
    (Q : List Message → Type 0) (ts : List Tick) (s : Session)
    → s.ticks ≡ ts
    → Talk Q s
    → Talk Q (after_tick ts s)
after_tick-Talk Q [] s e h = h
after_tick-Talk Q (t ∷ ts) s e h =
    let coming : FromTicks (t ∷ ts) = subst FromTicks e h.1.1 in
    (h.0, (FromUser-append s.kernel.inbox t.arrived h.1.0 coming.0, coming.1))

pub poll-Ends :
    {E : Type 0} {R : E → Session → Type 0} (Q : List Message → Type 0)
    → Ends (Talk Q) poll (λ _. Talk Q) R
unfolding poll
poll-Ends Q = record { from = λ s h. after_tick-Talk Q s.ticks s refl h }

pub unless_cancelled-Ends :
    (phase : LoopPhase) (b : Bool) (calls : List ToolCall)
    → Ends
        (Talk (Awaits (ids_of calls)))
        (unless_cancelled phase b calls)
        (λ _. Talk (Awaits (ids_of calls)))
        Cut
unfolding unless_cancelled
unless_cancelled-Ends phase b calls = Ends-bind _ _ (poll-Ends (Awaits (ids_of calls))) λ fired.
    Ends-if fired _ _ (Ends-raise (cancelled_at phase b calls) (λ s h. h)) (Ends-pure tt (λ s h. h))

pub check_cancel-Ends :
    (look : TurnStep Bool) (phase : LoopPhase)
    → Ends (Talk IsPaired) look (λ _. Talk IsPaired) Cut
    → Ends (Talk IsPaired) (check_cancel look phase) (λ _. Talk IsPaired) Cut
unfolding check_cancel
check_cancel-Ends look phase h =
    Ends-bind _ _ h λ fired. Ends-if fired _ _ (Ends-raise _ (λ s h. h)) (Ends-pure tt (λ s h. h))

lifted-Talk-Post :
    {A E : Type 0} (Q : List Message → Type 0) (R : E → Session → Type 0)
    (convert : KernelError → E) (s : Session) (r : Result KernelError A × Kernel)
    → ((e : KernelError) (t : Session) → Heard t → R (convert e) t)
    → FromTicks s.ticks
    → Said Q r.1
    → Post (λ _. Talk Q) R (lifted convert s r)
lifted-Talk-Post Q R convert s (ok a, k) tame ticks h = (h.0, (h.1, ticks))
lifted-Talk-Post Q R convert s (err e, k) tame ticks h =
    tame e (record s { kernel = k }) (h.1, ticks)

-- A method of the kernel that keeps a property of the conversation.
pub lift-Talk-Ends :
    {A E : Type 0} {R : E → Session → Type 0} (Q : List Message → Type 0)
    (convert : KernelError → E) (m : Action A)
    → ((e : KernelError) (t : Session) → Heard t → R (convert e) t)
    → Keeps (Said Q) m
    → Ends (Talk Q) (lift convert m) (λ _. Talk Q) R
unfolding lift
lift-Talk-Ends {R = R} Q convert m tame keeps = record {
  from = λ s h.
      lifted-Talk-Post Q R convert s (m s.kernel) tame h.1.1 (keeps.at s.kernel (h.0, h.1.0));
}

module _ (sh : Shared) (Q : List Message → Type 0) where
  pub log_event-Ends : (body : EventBody) → Ends (Talk Q) (log_event sh body) (λ _. Talk Q) Cut
  unfolding log_event
  log_event-Ends body =
      lift-Talk-Ends Q (abort_of sh) (log body) (abort_of-Cut sh)
        (log-Keeps (Said-IsUnlogged Q) body)

  pub hashed-Ends : (h : Option Text) → Ends (Talk Q) (hashed sh h) (λ _. Talk Q) Cut
  unfolding hashed
  hashed-Ends none = Ends-raise _ (λ s p. abort_of-Cut sh hash_error s p.1)
  hashed-Ends (some h) = Ends-pure h (λ s p. p)

  log_all-Ends : (es : List EventBody) → Ends (Talk Q) (log_all sh es) (λ _. Talk Q) Cut
  unfolding log_all
  log_all-Ends [] = Ends-pure tt (λ s p. p)
  log_all-Ends (e ∷ es) = Ends-bind _ _ (log_event-Ends e) λ _. log_all-Ends es

  flush_emits-Ends : Ends (Talk Q) (flush_emits sh) (λ _. Talk Q) Cut
  unfolding flush_emits
  flush_emits-Ends =
      Ends-bind _ _ (Ends-gets {Q = λ _. Talk Q} _ (λ s p. p))
        λ queue. Ends-bind _ _ (Ends-modify {Q = Talk Q} _ (λ s p. p)) λ _. log_all-Ends queue

module _ (sh : Shared) {V A : Type 0} (L : V → Type 0) (Q : List Message → Type 0) where
  hook_result-Ends :
      (v : V) (r : Result MiddlewareError A)
      → L v
      → Ends (Talk Q) (hook_result sh v r) (λ x s. Talk Q s × L x.1) Cut
  hook_result-Ends v (ok a) l =
      Ends-bind _ _ (flush_emits-Ends sh Q) λ _. Ends-pure (a, v) (λ s p. (p, l))
  hook_result-Ends v (err e) l = Ends-raise _ (λ s p. p.1)

  -- A hook that leaves the conversation in `Q` and what it was lent in `L`.
  pub run_hook-Ends :
      (P : List Message → Type 0) (hook : Session → HookRun V A)
      → ((s : Session) → Talk P s → Q (hook s).state.stable.messages × L (hook s).lent)
      → Ends (Talk P) (run_hook sh hook) (λ x s. Talk Q s × L x.1) Cut
  unfolding run_hook
  run_hook-Ends P hook h =
      Ends-bind _ _
        (Ends-gets {Q = λ run s. Q run.state.stable.messages × L run.lent × Heard s} hook
          (λ s p. let (q, l) = h s p in (q, l, p.1)))
        λ run.
          Ends-bind _ _ (Ends-modify {Q = λ s. Talk Q s × L run.lent} _ (λ s p. ((p.0, p.2), p.1)))
            λ _.
              Ends-known (hook_result sh run.lent run.outcome)
                (hook_result-Ends run.lent run.outcome)

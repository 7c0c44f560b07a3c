-- ===== src/Kernel/Turn/Requesting.antt =====
-- loop_/turn.rs: the request of a turn, the call of the provider, and the conversation.
use grist_agent.Prelude.{
  ℕ, zero, suc, ◌+◌, ◌-◌, Bool, true, false, Option, none, some, List, [], ◌∷◌, inl, inr,
  Bool-cases, Result, ok, err,
}
use grist_agent.Prelude.Exec.Ends.{
  Post, Ends, Ends-pure, Ends-raise, Ends-gets, Ends-modify, Ends-if, Ends-bind, Ends-known,
}
use grist_agent.Prelude.Text.{Text}
use grist_agent.Content.{Message}
use grist_agent.Tool.{ToolDefinition}
use grist_agent.ModelCall.{ModelRequest}
use grist_agent.Kernel.{Kernel, KernelError}
use grist_agent.Kernel.Retry.{
  ProviderError, retryable, Attempt, interrupted, responded, errored, CallFailure, Call, after_line,
  retry_with, handle, call_from, call_with_retry, retry_line,
}
use grist_agent.Kernel.Writes.{log-Keeps, checkpoint-Keeps}
use grist_agent.Kernel.Turn.{Session, TurnStep, Shared, fatal, Middleware, poll}
use grist_agent.Kernel.Turn.Requests.{
  compact_hooks, run_compaction, first_request, before_model_hooks, compacted, check_tools,
  prepared_request,
}
use grist_agent.Kernel.Turn.Body.{call_result, call_model}
use grist_agent.Kernel.Turn.Talk.{IsPaired, Said, Said-IsUnlogged}
use grist_agent.Kernel.Turn.Pairing.{
  Talk, Cut, abort_of-Cut, lift-Talk-Ends, FromTicks, poll-Ends, check_cancel-Ends, log_event-Ends,
  hashed-Ends, run_hook-Ends,
}
use grist_agent.Kernel.Turn.Answering.{AllCivil}

abbrev pub Paired : Session → Type 0
Paired = Talk IsPaired

-- The provider's call only logs.
module _ {R : Type 0} (Q : List Message → Type 0) where
  after_line-Said :
      (again : Call R) (woken : Bool) (r : Result KernelError (Unit {0}) × Kernel)
      → ((k : Kernel) → Said Q k → Said Q (again k).1)
      → Said Q r.1
      → Said Q (after_line again woken r).1
  after_line-Said again true (ok u, k) h p = p
  after_line-Said again false (ok u, k) h p = h k p
  after_line-Said again woken (err e, k) h p = p

  abbrev NextSaid : Option (Call R) → Type 0
  NextSaid none = Unit
  NextSaid (some again) = (k : Kernel) → Said Q k → Said Q (again k).1

  retry_with-Said :
      (next : Option (Call R)) (turn attempt : ℕ) (e : ProviderError) (message : Text) (delay : ℕ)
      (woken : Bool)
      → NextSaid next
      → (k : Kernel) → Said Q k
      → Said Q (retry_with next turn attempt e message delay woken k).1
  retry_with-Said none turn attempt e message delay woken h k p = p
  retry_with-Said (some again) turn attempt e message delay woken h k p =
      after_line-Said again woken _ h
        ((log-Keeps (Said-IsUnlogged Q) (retry_line turn attempt e message delay)).at k p)

  handle-Said :
      (next : Option (Call R)) (turn attempt : ℕ) (a : Attempt R)
      → NextSaid next
      → (k : Kernel) → Said Q k
      → Said Q (handle next turn attempt a k).1
  handle-Said next turn attempt interrupted h k p = p
  handle-Said next turn attempt (responded r) h k p = p
  handle-Said next turn attempt (errored e true message delay woken) h k p = p
  handle-Said next turn attempt (errored e false message delay woken) h k p =
      elim (Bool-cases (retryable e)) [
        | inl y ↦ rw y (retry_with-Said next turn attempt e message delay woken h k p)
        | inr n ↦ rw n p
      ]

  call_from-Said :
      (env : ℕ → Attempt R) (turn left attempt : ℕ) (k : Kernel)
      → Said Q k
      → Said Q (call_from env turn left attempt k).1
  unfolding call_from
  call_from-Said env turn zero attempt k p = handle-Said none turn attempt (env attempt) tt k p
  call_from-Said env turn (suc left) attempt k p =
      handle-Said (some (call_from env turn left (attempt + 1))) turn attempt (env attempt)
        (call_from-Said env turn left (attempt + 1)) k p

call_result-Post :
    {R : Type 0} (sh : Shared) (s : Session) (r : Result CallFailure (R × ℕ) × Kernel)
    → FromTicks s.ticks
    → Said IsPaired r.1
    → Post (λ _. Paired) Cut (call_result sh s r)
call_result-Post sh s (ok x, k) ticks h = (h.0, (h.1, ticks))
call_result-Post sh s (err CallFailure.cancelled, k) ticks h = (h.0, (h.1, ticks))
call_result-Post sh s (err (CallFailure.failed e n), k) ticks h = (h.1, ticks)
call_result-Post sh s (err (CallFailure.log_failed e), k) ticks h = abort_of-Cut sh e _ (h.1, ticks)

pub call_model-Ends :
    (sh : Shared) (turn : ℕ) (req : ModelRequest)
    → Ends Paired (call_model sh turn req) (λ _. Paired) Cut
unfolding call_model call_with_retry
call_model-Ends sh turn req = record {
  from = λ s h. call_result-Post sh s _ h.1.1 (
      call_from-Said IsPaired (sh.attempts s req) turn (sh.max_attempts - 1) 1 s.kernel
        (h.0, h.1.0));
}

module _ (sh : Shared) where
  compact_hooks-Ends :
      (ms : List Middleware) (look : TurnStep Bool)
      → AllCivil ms
      → Ends Paired look (λ _. Paired) Cut
      → Ends Paired (compact_hooks sh look ms) (λ _. Paired) Cut
  unfolding compact_hooks
  compact_hooks-Ends [] look h l = Ends-pure tt (λ s p. p)
  compact_hooks-Ends (m ∷ ms) look h l = Ends-bind _ _ (check_cancel-Ends look _ l) λ _.
      Ends-bind _ _
        (run_hook-Ends sh (λ _. Unit) IsPaired IsPaired m.on_compact
          (λ s p. (h.0.compacts s p, tt)))
        λ r. Ends-known _ (λ _. compact_hooks-Ends ms look h.1 l)

  pub run_compaction-Ends :
      (strategy : Text) (look : TurnStep Bool) (turn : ℕ)
      → AllCivil sh.chain
      → Ends Paired look (λ _. Paired) Cut
      → Ends Paired (run_compaction sh strategy look turn) (λ _. Paired) Cut
  unfolding run_compaction
  run_compaction-Ends strategy look turn h l =
      Ends-bind _ _ (Ends-gets {Q = λ _. Paired} _ (λ s p. p)) λ before.
        Ends-bind _ _ (hashed-Ends sh IsPaired before) λ before_hash.
          Ends-bind _ _ (Ends-gets {Q = λ _. Paired} _ (λ s p. p)) λ messages_before.
            Ends-bind _ _ (compact_hooks-Ends sh.chain look h l) λ _.
              Ends-bind _ _ (Ends-gets {Q = λ _. Paired} _ (λ s p. p)) λ after.
                Ends-bind _ _ (hashed-Ends sh IsPaired after) λ after_hash.
                  Ends-bind _ _ (Ends-gets {Q = λ _. Paired} _ (λ s p. p)) λ messages_after.
                    Ends-bind _ _ (log_event-Ends sh IsPaired _) λ _.
                      lift-Talk-Ends IsPaired fatal _ (λ e t u. tt)
                        (checkpoint-Keeps (Said-IsUnlogged IsPaired) sh.externals _)

  before_model_hooks-Ends :
      (ms : List Middleware) (req : ModelRequest)
      → AllCivil ms
      → Ends Paired (before_model_hooks sh ms req) (λ _. Paired) Cut
  unfolding before_model_hooks
  before_model_hooks-Ends [] req h = Ends-pure req (λ s p. p)
  before_model_hooks-Ends (m ∷ ms) req h =
      Ends-bind _ _ (check_cancel-Ends poll _ (poll-Ends IsPaired)) λ _.
        Ends-bind _ _
          (run_hook-Ends sh (λ _. Unit) IsPaired IsPaired (λ s. m.before_model s req)
            (λ s p. (h.0.asks s req p, tt)))
          λ r. Ends-known _ (λ _. before_model_hooks-Ends ms r.1 h.1)

  compacted-Ends :
      (turn : ℕ) (req : ModelRequest) (strategy : Option Text)
      → AllCivil sh.chain
      → Ends Paired (compacted sh turn req strategy) (λ _. Paired) Cut
  compacted-Ends turn req none h = Ends-pure req (λ s p. p)
  compacted-Ends turn req (some strategy) h =
      Ends-bind _ _ (run_compaction-Ends strategy poll turn h (poll-Ends IsPaired))
        λ _. Ends-gets {Q = λ _. Paired} _ (λ s p. p)

  check_tools-Ends : (ts : List ToolDefinition) → Ends Paired (check_tools sh ts) (λ _. Paired) Cut
  check_tools-Ends [] = Ends-pure tt (λ s p. p)
  check_tools-Ends (t ∷ ts) = Ends-if _ _ _ (check_tools-Ends ts) (Ends-raise _ (λ s p. p.1))

  pub prepared_request-Ends :
      (turn : ℕ) → AllCivil sh.chain → Ends Paired (prepared_request sh turn) (λ _. Paired) Cut
  unfolding prepared_request
  prepared_request-Ends turn h =
      Ends-bind _ _ (Ends-gets {Q = λ _. Paired} (first_request sh turn) (λ s p. p)) λ first.
        Ends-bind _ _ (Ends-modify {Q = Paired} _ (λ s p. p)) λ _.
          Ends-bind _ _ (before_model_hooks-Ends sh.chain first h) λ edited.
            Ends-bind _ _ (Ends-modify {Q = Paired} _ (λ s p. p)) λ _.
              Ends-bind _ _ (Ends-gets {Q = λ _. Paired} (λ s. s.emitter.compaction) (λ s p. p))
                λ asked. Ends-bind _ _ (Ends-modify {Q = Paired} _ (λ s p. p)) λ _.
                  Ends-bind _ _ (compacted-Ends turn edited asked h) λ req.
                    Ends-bind _ _ (check_tools-Ends req.tools) λ _.
                      Ends-bind _ _ (hashed-Ends sh IsPaired _) λ request_hash.
                        Ends-bind _ _ (hashed-Ends sh IsPaired _) λ prompt_hash.
                          Ends-bind _ _ (hashed-Ends sh IsPaired _) λ params_hash.
                            Ends-bind _ _ (Ends-gets {Q = λ _. Paired} _ (λ s p. p))
                              λ checkpoint_hash.
                                Ends-bind _ _ (log_event-Ends sh IsPaired _)
                                  λ _. Ends-pure _ (λ s p. p)

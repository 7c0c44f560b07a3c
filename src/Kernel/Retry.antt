-- ===== src/Kernel/Retry.antt =====
-- crates/kernel/src/loop_/retry.rs and provider.rs: the provider call with retries. What the
-- provider, the timer and the token do at each attempt is a parameter, and so is the delay of the
-- back-off, which the code draws at random.
pub mod Attempts
use grist_agent.Prelude.{
  ℕ, zero, suc, ◌+◌, ◌-◌, Bool, true, false, not, ◌||◌, ◌&&◌, Option, none, some, List, [], ◌∷◌,
  if◌then◌else◌, ◌==◌, Result, ok, err,
}
use grist_agent.Prelude.Text.{Text, codes}
use grist_agent.Event.{EventBody, provider_retry}
use grist_agent.Kernel.{Kernel, KernelError, log}

pub data ProviderError : Type 0 where
  rate_limited : Option ℕ → ProviderError
  server : ℕ → Text → ProviderError
  timeout : ℕ → ProviderError
  transport : Text → ProviderError
  client : ℕ → Text → ProviderError
  auth context_too_long invalid_response : Text → ProviderError
  replay_miss : Text → Text → ProviderError
  was_cancelled : ProviderError

-- `ProviderError::retryable`
unfoldable pub retryable : ProviderError → Bool
retryable (rate_limited after) = true
retryable (timeout d) = true
retryable (transport m) = true
retryable (server status m) = not (status == 501 || status == 505)
retryable _ = false

-- `ProviderError::class`
unfoldable pub error_class : ProviderError → Text
error_class (rate_limited after) = codes "provider_rate_limited"
error_class (server status m) = codes "provider_server"
error_class (timeout d) = codes "provider_timeout"
error_class (transport m) = codes "provider_transport"
error_class (client status m) = codes "provider_client"
error_class (auth m) = codes "provider_auth"
error_class (context_too_long m) = codes "provider_context_too_long"
error_class (invalid_response m) = codes "provider_invalid_response"
error_class (replay_miss c r) = codes "replay_miss"
error_class was_cancelled = codes "cancelled"

-- How an attempt goes: the token fires first, a response, or an error, with whether the token has
-- fired by then, the redacted message, the delay in milliseconds and whether the token fires
-- during the delay.
pub data Attempt (R : Type 0) : Type 0 where
  interrupted : Attempt R
  responded : R → Attempt R
  errored : ProviderError → Bool → Text → ℕ → Bool → Attempt R

pub data CallFailure : Type 0 where
  cancelled : CallFailure
  failed : ProviderError → ℕ → CallFailure
  log_failed : KernelError → CallFailure

abbrev pub Call : Type 0 → Type 0
Call R = Kernel → Result CallFailure (R × ℕ) × Kernel

abbrev pub retry_line : ℕ → ℕ → ProviderError → Text → ℕ → EventBody
retry_line turn attempt error message delay = provider_retry (record {
  turn = turn;
  attempt = attempt;
  error_class = error_class error;
  message = message;
  delay_ms = delay;
})

module _ {R : Type 0} where
  -- After the line: the delay, and the next attempt.
  abbrev pub after_line :
      Call R → Bool → Result KernelError (Unit {0}) × Kernel → Result CallFailure (R × ℕ) × Kernel
  after_line again woken (ok u, k) = if woken then (err cancelled, k) else again k
  after_line again woken (err e, k) = (err (log_failed e), k)

  abbrev pub retry_with : Option (Call R) → ℕ → ℕ → ProviderError → Text → ℕ → Bool → Call R
  retry_with none turn attempt error message delay woken k = (err (failed error attempt), k)
  retry_with (some again) turn attempt error message delay woken k =
      after_line again woken (log (retry_line turn attempt error message delay) k)

  -- The match on the outcome of an attempt; there is a next one if `attempt < max_attempts`.
  abbrev pub handle : Option (Call R) → ℕ → ℕ → Attempt R → Call R
  handle again turn attempt interrupted k = (err cancelled, k)
  handle again turn attempt (responded resp) k = (ok (resp, attempt), k)
  handle again turn attempt (errored error fired message delay woken) k =
      if fired
      then (err cancelled, k)
      else if retryable error
      then retry_with again turn attempt error message delay woken k
      else (err (failed error attempt), k)

  -- The loop, with the attempts that are left after this one.
  unfoldable pub call_from : (ℕ → Attempt R) → ℕ → ℕ → ℕ → Call R
  unfolding log retryable error_class
  call_from env turn zero attempt k = handle none turn attempt (env attempt) k
  call_from env turn (suc left) attempt k =
      handle (some (call_from env turn left (attempt + 1))) turn attempt (env attempt) k

  -- `call_with_retry`
  unfoldable pub call_with_retry : (ℕ → Attempt R) → ℕ → ℕ → Call R
  unfolding call_from
  call_with_retry env turn max_attempts k = call_from env turn (max_attempts - 1) 1 k

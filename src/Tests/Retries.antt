-- ===== src/Tests/Retries.antt =====
-- crates/kernel/src/loop_/retry.rs on a provider that answers at the second attempt.
use grist_agent.Prelude.{ℕ, ◌-◌, ◌≡◌, refl, ◌==◌, if◌then◌else◌, false, none, ok}
use grist_agent.Prelude.Text.{Text, codes}
use grist_agent.Kernel.{log}
use grist_agent.Kernel.Retry.{
  Attempt, responded, errored, rate_limited, retryable, error_class, call_from, call_with_retry,
}
use grist_agent.Kernel.Retry.Attempts.{IsOutcome, call_with_retry-IsOutcome}
use grist_agent.Tests.Sessions.{waiting}

abbrev provider : ℕ → Attempt Text
provider n =
    if n == 1
    then errored (rate_limited none) false (codes "rate limited") 500 false
    else responded (codes "hello")

answers_second : (call_with_retry provider 1 5 waiting).0 ≡ ok (codes "hello", 2)
unfolding call_with_retry call_from log retryable error_class
answers_second = refl

call_with_retry-IsOutcome_example :
    IsOutcome provider 1 1 (5 - 1) waiting (call_with_retry provider 1 5 waiting)
call_with_retry-IsOutcome_example = call_with_retry-IsOutcome provider 1 5 waiting

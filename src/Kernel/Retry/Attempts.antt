-- ===== src/Kernel/Retry/Attempts.antt =====
-- loop_/retry.rs: how many attempts are made, and which retries are logged.
use grist_agent.Prelude.{
  ℕ, zero, suc, ◌+◌, ◌-◌, ◌≤◌, ◌≡◌, refl, sym, ap, ◌∙◌, ◌⊎◌, inl, inr, Bool, true, false, none,
  ◌||◌, ◌&&◌, some, List, [], ◌∷◌, ◌++◌, arith, Bool-cases, Result, ok, err,
}
use mathlib.Core.List.{append_assoc, append-nil}
use grist_agent.Prelude.Text.{Text}
use grist_agent.Event.{EventBody}
use grist_agent.Kernel.{Kernel, append, log}
use grist_agent.Kernel.Retry.{
  ProviderError, retryable, Attempt, interrupted, responded, errored, CallFailure, cancelled,
  failed, log_failed, Call, retry_line, after_line, handle, call_from, call_with_retry,
}

module _ {R : Type 0} (env : ℕ → Attempt R) (turn : ℕ) where
  abbrev line_of : ℕ → Attempt R → List EventBody
  line_of n (errored e fired message delay woken) = retry_line turn n e message delay ∷ []
  line_of n _ = []

  -- The lines of so many failed attempts, from the given one.
  abbrev pub retry_lines : ℕ → ℕ → List EventBody
  retry_lines n zero = []
  retry_lines n (suc c) = line_of n (env n) ++ retry_lines (n + 1) c

  -- An attempt that is followed by another: a retryable error, with no cancellation by then nor
  -- during the delay.
  pub record IsRetried (n : ℕ) : Type 0 where
    pub error : ProviderError
    pub message : Text
    pub delay : ℕ
    pub happened : env n ≡ errored error false message delay false
    pub retry : retryable error ≡ true

  abbrev pub AllRetried : ℕ → ℕ → Type 0
  AllRetried n zero = Unit
  AllRetried n (suc c) = IsRetried n × AllRetried (n + 1) c

  -- A failure at the attempt `m`, where so many attempts were left after the first.
  pub record IsFailure (n left : ℕ) (k k' : Kernel) (error : ProviderError) (m : ℕ) : Type 0 where
    pub retries : ℕ
    pub attempt : m ≡ n + retries
    pub within : retries ≤ left
    pub earlier : AllRetried n retries
    pub happened :
        (message : Text) × (delay : ℕ) × (woken : Bool) × (env m
          ≡ errored error false message delay woken)
    pub final : (retryable error ≡ false) ⊎ (retries ≡ left)
    pub logged : k'.events ≡ k.events ++ retry_lines n retries

  pub record IsAnswer (n left : ℕ) (k k' : Kernel) (resp : R) (m : ℕ) : Type 0 where
    pub retries : ℕ
    pub attempt : m ≡ n + retries
    pub within : retries ≤ left
    pub earlier : AllRetried n retries
    pub response : env m ≡ responded resp
    pub logged : k'.events ≡ k.events ++ retry_lines n retries

  -- The token fired: before the response, by the time of an error, or during a delay.
  abbrev pub stops : Attempt R → Bool
  stops interrupted = true
  stops (responded resp) = false
  stops (errored error fired message delay woken) = fired || (retryable error && woken)

  pub record IsStopped (n left : ℕ) : Type 0 where
    pub retries : ℕ
    pub within : retries ≤ left
    pub earlier : AllRetried n retries
    pub stopped : stops (env (n + retries)) ≡ true

  -- The outcomes of a call.
  abbrev pub IsOutcome : ℕ → ℕ → Kernel → Result CallFailure (R × ℕ) × Kernel → Type 0
  IsOutcome n left k (ok (resp, m), k') = IsAnswer n left k k' resp m
  IsOutcome n left k (err (failed error m), k') = IsFailure n left k k' error m
  IsOutcome n left k (err cancelled, k') = IsStopped n left
  IsOutcome n left k (err (log_failed e), k') = Unit

  -- One more failed attempt in front.
  after_retry :
      (n left : ℕ) (k l : Kernel) (out : Result CallFailure (R × ℕ) × Kernel)
      → IsRetried n
      → l.events ≡ k.events ++ line_of n (env n)
      → IsOutcome (n + 1) left l out
      → IsOutcome n (suc left) k out
  after_retry n left k l (ok (resp, m), k') t e h = record {
    retries = suc h.retries;
    attempt = h.attempt ∙ omega arith;
    within = let w = h.within in omega arith;
    earlier = (t, h.earlier);
    response = h.response;
    logged =
        h.logged ∙ ap (λ es. es ++ retry_lines (n + 1) h.retries) e ∙ append_assoc k.events _ _;
  }
  after_retry n left k l (err (failed error m), k') t e h = record {
    retries = suc h.retries;
    attempt = h.attempt ∙ omega arith;
    within = let w = h.within in omega arith;
    earlier = (t, h.earlier);
    happened = h.happened;
    final = elim h.final [ inl f ↦ inl f | inr g ↦ inr (ap suc g) ];
    logged =
        h.logged ∙ ap (λ es. es ++ retry_lines (n + 1) h.retries) e ∙ append_assoc k.events _ _;
  }
  after_retry n left k l (err cancelled, k') t e h =
      let z : n + suc h.retries ≡ n + 1 + h.retries = omega arith in
      record {
        retries = suc h.retries;
        within = let w = h.within in omega arith;
        earlier = (t, h.earlier);
        stopped = ap (λ m. stops (env m)) z ∙ h.stopped;
      }
  after_retry n left k l (err (log_failed x), k') t e h = tt

  -- The outcome of a last attempt.
  last-IsOutcome :
      (n left : ℕ) (k : Kernel) (error : ProviderError) {message : Text} {delay : ℕ} {woken : Bool}
      → env n ≡ errored error false message delay woken
      → (retryable error ≡ false) ⊎ (left ≡ 0)
      → IsOutcome n left k (err (failed error n), k)
  last-IsOutcome n left k error p h = record {
    retries = zero;
    attempt = omega arith;
    within = omega arith;
    earlier = tt;
    happened = (_, _, _, p);
    final = elim h [ inl f ↦ inl f | inr z ↦ inr (sym z) ];
    logged = sym (append-nil k.events);
  }

  answer-IsOutcome :
      (n left : ℕ) (k : Kernel) (resp : R)
      → env n ≡ responded resp
      → IsOutcome n left k (ok (resp, n), k)
  answer-IsOutcome n left k resp e = record {
    retries = zero;
    attempt = omega arith;
    within = omega arith;
    earlier = tt;
    response = e;
    logged = sym (append-nil k.events);
  }

  halted : (n left : ℕ) (o : Attempt R) → env n ≡ o → stops o ≡ true → IsStopped n left
  halted n left o e h =
      let z : n + zero ≡ n = omega arith in
      record {
        retries = zero;
        within = omega arith;
        earlier = tt;
        stopped = ap (λ m. stops (env m)) z ∙ ap stops e ∙ h;
      }

  no_next :
      (n : ℕ) (o : Attempt R) (k : Kernel) → env n ≡ o → IsOutcome n zero k (handle none turn n o k)
  no_next n interrupted k e = halted n zero _ e refl
  no_next n (responded resp) k e = answer-IsOutcome n zero k resp e
  no_next n (errored error true message delay woken) k e = halted n zero _ e refl
  no_next n (errored error false message delay woken) k e = elim (Bool-cases (retryable error)) [
    | inl y ↦ rw y (last-IsOutcome n zero k error e (inr refl))
    | inr f ↦ rw f (last-IsOutcome n zero k error e (inl f))
  ]

  retried :
      {n : ℕ} (error : ProviderError) (message : Text) (delay : ℕ)
      → env n ≡ errored error false message delay false
      → retryable error ≡ true
      → IsRetried n
  retried error message delay e y = record {
    error = error;
    message = message;
    delay = delay;
    happened = e;
    retry = y;
  }

  module _ (n left : ℕ) (again : Call R)
      (next : (l : Kernel) → IsOutcome (n + 1) left l (again l)) where
    line-IsOutcome :
        (faults : List Bool) (error : ProviderError) (message : Text) (delay : ℕ) (woken : Bool)
        (k : Kernel)
        → env n ≡ errored error false message delay woken
        → retryable error ≡ true
        → IsOutcome n
            (suc left)
            k
            (after_line again woken (append faults (retry_line turn n error message delay) k))
    line-IsOutcome (true ∷ fs) error message delay woken k e y = tt
    line-IsOutcome [] error message delay true k e y = halted n (suc left) _ e (rw y refl)
    line-IsOutcome (false ∷ fs) error message delay true k e y = halted n (suc left) _ e (rw y refl)
    line-IsOutcome [] error message delay false k e y =
        after_retry n left k _ _ (retried error message delay e y)
          (ap (λ o. k.events ++ line_of n o) (sym e)) (next _)
    line-IsOutcome (false ∷ fs) error message delay false k e y =
        after_retry n left k _ _ (retried error message delay e y)
          (ap (λ o. k.events ++ line_of n o) (sym e)) (next _)

    some_next :
        (o : Attempt R) (k : Kernel)
        → env n ≡ o
        → IsOutcome n (suc left) k (handle (some again) turn n o k)
    unfolding log
    some_next interrupted k e = halted n (suc left) _ e refl
    some_next (responded resp) k e = answer-IsOutcome n (suc left) k resp e
    some_next (errored error true message delay woken) k e = halted n (suc left) _ e refl
    some_next (errored error false message delay woken) k e = elim (Bool-cases (retryable error)) [
      | inl y ↦ rw y (line-IsOutcome k.log_faults error message delay woken k e y)
      | inr f ↦ rw f (last-IsOutcome n (suc left) k error e (inl f))
    ]

  call_from-IsOutcome : (left n : ℕ) (k : Kernel) → IsOutcome n left k (call_from env turn left n k)
  unfolding call_from
  call_from-IsOutcome zero n k = no_next n (env n) k refl
  call_from-IsOutcome (suc left) n k =
      some_next n left (call_from env turn left (n + 1)) (λ l. call_from-IsOutcome left (n + 1) l)
        (env n) k refl

-- A call with at most `max_attempts` attempts (one, when that is 0). Every attempt before the last
-- one made had a retryable error and no cancellation. A response is that of the attempt that is
-- reported, a failure the error of the attempt that is reported, which is not retryable or came at
-- the last attempt allowed; in both cases the log has got exactly one `provider_retry` for each
-- earlier attempt, in order. Of a cancelled call, an attempt within the limit was stopped by the
-- token; a call whose line the log refused is not described further.
pub call_with_retry-IsOutcome :
    {R : Type 0} (env : ℕ → Attempt R) (turn max_attempts : ℕ) (k : Kernel)
    → IsOutcome env turn 1 (max_attempts - 1) k (call_with_retry env turn max_attempts k)
unfolding call_with_retry
call_with_retry-IsOutcome env turn max_attempts k =
    call_from-IsOutcome env turn (max_attempts - 1) 1 k

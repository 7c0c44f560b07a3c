-- ===== src/Prelude/Exec/Ends.antt =====
-- What a method leaves when it returns, and what it leaves when it fails.
use mathlib.Core.Bool.{Bool, true, false}
use grist_agent.Prelude.Tests.{if◌then◌else◌}
use grist_agent.Prelude.Results.{Result, ok, err}
use grist_agent.Prelude.Exec.{Exec, Keeps, pure, raise, gets, modify, continue, ◌>>=◌}

abbrev pub Post : {S E A : Type 0} → (A → S → Type 0) → (E → S → Type 0) → Result E A × S → Type 0
Post Q R (ok a, s) = Q a s
Post Q R (err e, s) = R e s

-- Started where `P` holds, the method returns where `Q` holds or fails where `R` holds.
pub record Ends {S E A : Type 0} (P : S → Type 0) (m : Exec S E A) (Q : A → S → Type 0)
    (R : E → S → Type 0) : Type 0 where
  pub from : (s : S) → P s → Post Q R (m s)

continue-Ends :
    {S E A B : Type 0} {R : E → S → Type 0} {Q : A → S → Type 0} {T : B → S → Type 0}
    (r : Result E A × S) (f : A → Exec S E B)
    → ((a : A) → Ends (Q a) (f a) T R)
    → Post Q R r
    → Post T R (continue r f)
continue-Ends (ok a, s) f h p = (h a).from s p
continue-Ends (err e, s) f h p = p

module _ {S E : Type 0} {P : S → Type 0} {R : E → S → Type 0} where
  pub Ends-pure :
      {A : Type 0} {Q : A → S → Type 0} (a : A)
      → ((s : S) → P s → Q a s)
      → Ends P (pure {S = S} {E = E} a) Q R
  unfolding pure
  Ends-pure a h = record { from = h }

  pub Ends-raise :
      {A : Type 0} {Q : A → S → Type 0} (e : E)
      → ((s : S) → P s → R e s)
      → Ends P (raise {S = S} {A = A} e) Q R
  unfolding raise
  Ends-raise e h = record { from = h }

  -- The value read is known to come from a state where `P` holds.
  pub Ends-gets :
      {A : Type 0} {Q : A → S → Type 0} (f : S → A)
      → ((s : S) → P s → Q (f s) s)
      → Ends P (gets {E = E} f) Q R
  unfolding gets
  Ends-gets f h = record { from = h }

  pub Ends-modify :
      {Q : S → Type 0} (f : S → S)
      → ((s : S) → P s → Q (f s))
      → Ends P (modify {E = E} f) (λ _. Q) R
  unfolding modify
  Ends-modify f h = record { from = h }

  pub Ends-if :
      {A : Type 0} {Q : A → S → Type 0} (b : Bool) (m n : Exec S E A)
      → Ends P m Q R
      → Ends P n Q R
      → Ends P (if b then m else n) Q R
  Ends-if true m n hm hn = hm
  Ends-if false m n hm hn = hn

  pub Ends-bind :
      {A B : Type 0} {Q : A → S → Type 0} {T : B → S → Type 0} (m : Exec S E A) (f : A → Exec S E B)
      → Ends P m Q R
      → ((a : A) → Ends (Q a) (f a) T R)
      → Ends P (m >>= f) T R
  unfolding ◌>>=◌
  Ends-bind {Q = Q} m f hm hf = record {
    from = λ s p. continue-Ends {Q = Q} (m s) f hf (hm.from s p);
  }

-- A fact that does not depend on the state is at hand for the rest.
pub Ends-known :
    {S E A L : Type 0} {P : S → Type 0} {Q : A → S → Type 0} {R : E → S → Type 0} (m : Exec S E A)
    → (L → Ends P m Q R)
    → Ends (λ s. P s × L) m Q R
Ends-known m h = record { from = λ s p. (h p.1).from s p.0 }

any_Post :
    {S E A : Type 0} (r : Result E A × S)
    → Post {S = S} {E = E} {A = A} (λ _ _. Unit) (λ _ _. Unit) r
any_Post (ok a, s) = tt
any_Post (err e, s) = tt

-- Of every method, nothing.
pub Ends-any :
    {S E A : Type 0} (m : Exec S E A)
    → Ends {S = S} {E = E} {A = A} (λ _. Unit) m (λ _ _. Unit) (λ _ _. Unit)
Ends-any m = record { from = λ s p. any_Post (m s) }

kept_Post :
    {S E A : Type 0} (P : S → Type 0) (r : Result E A × S) → P r.1 → Post (λ _. P) (λ _. P) r
kept_Post P (ok a, s) h = h
kept_Post P (err e, s) h = h

pub Ends-Keeps :
    {S E A : Type 0} {P : S → Type 0} (m : Exec S E A) → Keeps P m → Ends P m (λ _. P) (λ _. P)
Ends-Keeps {P = P} m k = record { from = λ s p. kept_Post P (m s) (k.at s p) }

with_Post :
    {S E A : Type 0} (P : S → Type 0) (L : A → Type 0) (r : Result E A × S)
    → P r.1
    → Post (λ a _. L a) (λ _ _. Unit) r
    → Post (λ a s. P s × L a) (λ _. P) r
with_Post P L (ok a, s) h l = (h, l)
with_Post P L (err e, s) h l = h

-- What a method keeps, with what is known of its value.
pub Ends-with :
    {S E A : Type 0} {P : S → Type 0} {L : A → Type 0} (m : Exec S E A)
    → Keeps P m
    → Ends {S = S} {E = E} (λ _. Unit) m (λ a _. L a) (λ _ _. Unit)
    → Ends P m (λ a s. P s × L a) (λ _. P)
Ends-with {P = P} {L = L} m k h = record {
  from = λ s p. with_Post P L (m s) (k.at s p) (h.from s tt);
}

-- What holds whether a method returns or fails.
pub Post-kept :
    {S E A : Type 0} (P : S → Type 0) (r : Result E A × S) → Post (λ _. P) (λ _. P) r → P r.1
Post-kept P (ok a, s) h = h
Post-kept P (err e, s) h = h

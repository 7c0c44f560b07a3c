-- ===== src/Prelude/Exec.antt =====
-- Methods on `&mut self` that may fail. What was written before the failure stays written, so the
-- state comes back beside the error too.
pub mod Ends
use mathlib.Core.Bool.{Bool, true, false}
use grist_agent.Prelude.Tests.{if◌then◌else◌}
use mathlib.Core.Path.{◌≡◌, refl}
use grist_agent.Prelude.Results.{Result, ok, err, ok-injective}

abbrev pub Exec {ℓ} : Type ℓ → Type ℓ → Type ℓ → Type ℓ
Exec S E A = S → Result E A × S

pub pure {ℓ} : {S E A : Type ℓ} → A → Exec S E A
pure a s = (ok a, s)

pub raise {ℓ} : {S E A : Type ℓ} → E → Exec S E A
raise e s = (err e, s)

pub gets {ℓ} : {S E A : Type ℓ} → (S → A) → Exec S E A
gets f s = (ok (f s), s)

pub modify {ℓ} : {S E : Type ℓ} → (S → S) → Exec S E Unit
modify f s = (ok tt, f s)

abbrev pub continue {ℓ} : {S E A B : Type ℓ} → Result E A × S → (A → Exec S E B) → Result E B × S
continue (ok a, s) f = f a s
continue (err e, s) f = (err e, s)

-- `m?`, then the rest.
infixl 5 ◌>>=◌ ◌>>◌
-- Unfolding this unfolds `pure`, `raise`, `gets` and `modify` too.
unfoldable pub ◌>>=◌ {ℓ} : {S E A B : Type ℓ} → Exec S E A → (A → Exec S E B) → Exec S E B
unfolding pure raise gets modify
◌>>=◌ m f s = continue (m s) f

abbrev pub ◌>>◌ {ℓ} : {S E A B : Type ℓ} → Exec S E A → Exec S E B → Exec S E B
m >> n = m >>= λ _. n

-- A property that a method keeps, whether it returns or fails.
pub record Keeps {ℓ} {S E A : Type ℓ} (P : S → Type 0) (m : Exec S E A) : Type ℓ where
  pub at : (s : S) → P s → P (m s).1

module _ {ℓ} {S E A : Type ℓ} {P : S → Type 0} where
  pub Keeps-pure : (a : A) → Keeps P (pure {S = S} {E = E} a)
  unfolding pure
  Keeps-pure a = record { at = λ s h. h }

  pub Keeps-raise : (e : E) → Keeps P (raise {S = S} {A = A} e)
  unfolding raise
  Keeps-raise e = record { at = λ s h. h }

  pub Keeps-gets : (f : S → A) → Keeps P (gets {E = E} f)
  unfolding gets
  Keeps-gets f = record { at = λ s h. h }

  pub Keeps-if :
      (test : Bool) (m n : Exec S E A) → Keeps P m → Keeps P n → Keeps P (if test then m else n)
  Keeps-if false m n km kn = kn
  Keeps-if true m n km kn = km

module _ {ℓ} {S E : Type ℓ} {P : S → Type 0} where
  pub Keeps-modify : (f : S → S) → ((s : S) → P s → P (f s)) → Keeps P (modify {E = E} f)
  unfolding modify
  Keeps-modify f h = record { at = h }

module _ {ℓ} {S E A B : Type ℓ} {P : S → Type 0} where
  pub continue-Keeps :
      (r : Result E A × S) (f : A → Exec S E B)
      → ((a : A) → Keeps P (f a))
      → P r.1
      → P (continue r f).1
  continue-Keeps (ok a, s) f kf h = (kf a).at s h
  continue-Keeps (err e, s) f kf h = h

  pub Keeps-bind :
      (m : Exec S E A) (f : A → Exec S E B)
      → Keeps P m
      → ((a : A) → Keeps P (f a))
      → Keeps P (m >>= f)
  unfolding ◌>>=◌
  Keeps-bind m f km kf = record { at = λ s h. continue-Keeps (m s) f kf (km.at s h) }

pub ruleset keeps_rules = (Keeps-pure, Keeps-raise, Keeps-gets, Keeps-if, Keeps-modify, Keeps-bind)

-- A method that, started where `P` holds, returns, with an answer and a state where `Q` holds.
pub record Returns {S E A : Type 0} (P : S → Type 0) (m : Exec S E A) (Q : A → S → Type 0)
    : Type 0 where
  pub from : (s : S) → P s → (a : A) × ((m s).0 ≡ ok a) × Q a (m s).1

module _ {S E A : Type 0} {P : S → Type 0} where
  pub Returns-pure :
      {Q : A → S → Type 0} (a : A) → ((s : S) → P s → Q a s) → Returns P (pure {S = S} {E = E} a) Q
  unfolding pure
  Returns-pure a h = record { from = λ s p. (a, refl, h s p) }

  -- The rest of a block may use that the state read satisfies `P`.
  pub Returns-gets : (f : S → A) → Returns P (gets {E = E} f) (λ a s. P s × (f s ≡ a))
  unfolding gets
  Returns-gets f = record { from = λ s p. (f s, refl, (p, refl)) }

module _ {S E : Type 0} {P : S → Type 0} where
  pub Returns-modify :
      {Q : S → Type 0} (f : S → S)
      → ((s : S) → P s → Q (f s))
      → Returns P (modify {E = E} f) (λ _. Q)
  unfolding modify
  Returns-modify f h = record { from = λ s p. (tt, refl, h s p) }

module _ {S E A B : Type 0} {Q : A → S → Type 0} {R : B → S → Type 0} where
  continue-returns :
      (r : Result E A × S) (f : A → Exec S E B)
      → ((a : A) → Returns (Q a) (f a) R)
      → (a : A) → r.0 ≡ ok a
      → Q a r.1
      → (b : B) × ((continue r f).0 ≡ ok b) × R b (continue r f).1
  continue-returns (ok x, s) f k a e q = let p : x ≡ a = ok-injective e in (k x).from s (rw p q)
  continue-returns (err x, s) f k a e q = cc

  pub Returns-bind :
      {P : S → Type 0} (m : Exec S E A) (f : A → Exec S E B)
      → Returns P m Q
      → ((a : A) → Returns (Q a) (f a) R)
      → Returns P (m >>= f) R
  unfolding ◌>>=◌
  Returns-bind m f h k = record {
    from = λ s p. let (a, e, q) = h.from s p in continue-returns (m s) f k a e q;
  }

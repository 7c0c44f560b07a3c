-- ===== src/Prelude/Order.antt =====
-- The trait `Ord` as the code uses it on keys: a total order with a Boolean equality. Numbers have
-- it, and lists have it lexicographically: `String` (bytes) and `PathBuf` (components) are lists.
use Prim.Native.Nat.{ℕ}
use mathlib.Core.Path.{◌≡◌, refl, ap₂}
use mathlib.Core.Logic.{◌↔◌, inl, inr}
use mathlib.Core.Bool.{Bool, true, false, ◌&&◌}
use mathlib.Core.List.{List, [], ◌∷◌}
use native.Mathlib.Omega.{arith}
use grist_agent.Prelude.Tests.{ltb, ◌==◌ as nat_eqb, if◌then◌else◌, Bool-cases}

pub record Order {ℓ} (A : Type ℓ) : Type ℓ where
  pub lt : A → A → Bool
  pub eqb : A → A → Bool
  pub eqb_iff : (a b : A) → (eqb a b ≡ true) ↔ (a ≡ b)
  pub lt_irrefl : (a : A) → lt a a ≡ false
  pub lt_trans : (a b c : A) → lt a b ≡ true → lt b c ≡ true → lt a c ≡ true
  pub lt_total : (a b : A) → lt a b ≡ false → lt b a ≡ false → a ≡ b

pub nat_eqb_iff : (a b : ℕ) → (nat_eqb a b ≡ true) ↔ (a ≡ b)
nat_eqb_iff a b = ground arith

pub ltb_irrefl : (a : ℕ) → ltb a a ≡ false
ltb_irrefl a = ground arith

pub ltb_trans : (a b c : ℕ) → ltb a b ≡ true → ltb b c ≡ true → ltb a c ≡ true
ltb_trans a b c h k = ground arith

pub ltb_total : (a b : ℕ) → ltb a b ≡ false → ltb b a ≡ false → a ≡ b
ltb_total a b h k = ground arith

instance abbrev pub nat_order : Order ℕ
nat_order = record {
  lt = ltb;
  eqb = nat_eqb;
  eqb_iff = nat_eqb_iff;
  lt_irrefl = ltb_irrefl;
  lt_trans = ltb_trans;
  lt_total = ltb_total;
}

module _ {ℓ} {A : Type ℓ} ⦃o : Order A⦄ where
  pub eqb_refl : (a : A) → o.eqb a a ≡ true
  eqb_refl a = (o.eqb_iff a a).1 refl

  pub lt_ne : (a b : A) → o.lt a b ≡ true → o.eqb a b ≡ false
  lt_ne a b h = elim (Bool-cases (o.eqb a b)) [
    | inl e ↦ let p = (o.eqb_iff a b).0 e in cc (o.lt_irrefl b)
    | inr e ↦ e
  ]

  -- Lexicographic order.
  abbrev pub list_lt : List A → List A → Bool
  list_lt [] [] = false
  list_lt [] (y ∷ ys) = true
  list_lt (x ∷ xs) [] = false
  list_lt (x ∷ xs) (y ∷ ys) = if o.lt x y then true else if o.eqb x y then list_lt xs ys else false

  abbrev pub list_eqb : List A → List A → Bool
  list_eqb [] [] = true
  list_eqb [] (y ∷ ys) = false
  list_eqb (x ∷ xs) [] = false
  list_eqb (x ∷ xs) (y ∷ ys) = o.eqb x y && list_eqb xs ys

  list_sound : (xs ys : List A) → list_eqb xs ys ≡ true → xs ≡ ys
  list_sound [] [] h = refl
  list_sound [] (y ∷ ys) h = cc
  list_sound (x ∷ xs) [] h = cc
  list_sound (x ∷ xs) (y ∷ ys) h =
      ap₂ (◌∷◌) ((o.eqb_iff x y).0 (ground arith)) (list_sound xs ys (ground arith))

  list_refl : (xs : List A) → list_eqb xs xs ≡ true
  list_refl [] = refl
  list_refl (x ∷ xs) = rw (eqb_refl x, list_refl xs)

  pub list_eqb_iff : (xs ys : List A) → (list_eqb xs ys ≡ true) ↔ (xs ≡ ys)
  list_eqb_iff xs ys = (list_sound xs ys, λ e. rw e (list_refl ys))

  pub list_lt_irrefl : (xs : List A) → list_lt xs xs ≡ false
  list_lt_irrefl [] = refl
  list_lt_irrefl (x ∷ xs) = rw (o.lt_irrefl x, eqb_refl x, list_lt_irrefl xs)

  pub list_lt_trans :
      (xs ys zs : List A) → list_lt xs ys ≡ true → list_lt ys zs ≡ true → list_lt xs zs ≡ true
  list_lt_trans [] [] zs h k = cc
  list_lt_trans [] (y ∷ ys) [] h k = cc
  list_lt_trans [] (y ∷ ys) (z ∷ zs) h k = refl
  list_lt_trans (x ∷ xs) [] zs h k = cc
  list_lt_trans (x ∷ xs) (y ∷ ys) [] h k = cc
  list_lt_trans (x ∷ xs) (y ∷ ys) (z ∷ zs) h k =
      ground (
        arith,
        list_lt_trans xs ys zs,
        o.lt_trans x y z,
        o.eqb_iff x y,
        o.eqb_iff y z,
        o.eqb_iff x z,
      )

  pub list_lt_total : (xs ys : List A) → list_lt xs ys ≡ false → list_lt ys xs ≡ false → xs ≡ ys
  list_lt_total [] [] h k = refl
  list_lt_total [] (y ∷ ys) h k = cc
  list_lt_total (x ∷ xs) [] h k = cc
  list_lt_total (x ∷ xs) (y ∷ ys) h k =
      ground (arith, list_lt_total xs ys, o.lt_total x y, o.eqb_iff x y, o.eqb_iff y x)

  instance abbrev pub list_order : Order (List A)
  list_order = record {
    lt = list_lt;
    eqb = list_eqb;
    eqb_iff = list_eqb_iff;
    lt_irrefl = list_lt_irrefl;
    lt_trans = list_lt_trans;
    lt_total = list_lt_total;
  }

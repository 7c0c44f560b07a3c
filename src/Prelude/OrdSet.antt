-- ===== src/Prelude/OrdSet.antt =====
-- `BTreeSet`: a strictly increasing list. Its equality is the equality of the lists.
use mathlib.Core.Path.{◌≡◌, refl, ap₂}
use mathlib.Core.Logic.{inl, inr}
use mathlib.Core.Bool.{Bool, true, false, ◌||◌}
use mathlib.Core.List.{List, [], ◌∷◌}
use native.Mathlib.Omega.{arith}
use grist_agent.Prelude.Tests.{if◌then◌else◌, Bool-cases}
use grist_agent.Prelude.Lists.{any}
use grist_agent.Prelude.Order.{Order, eqb_refl, lt_ne}

module _ {ℓ} {A : Type ℓ} ⦃o : Order A⦄ where
  abbrev pub contains : A → List A → Bool
  contains a = any (o.eqb a)

  abbrev pub insert : A → List A → List A
  insert a [] = a ∷ []
  insert a (x ∷ xs) = if o.lt a x then a ∷ x ∷ xs else if o.eqb a x then x ∷ xs else x ∷ insert a xs

  -- `extend`: inserts the second set's elements into the first.
  abbrev pub union : List A → List A → List A
  union s [] = s
  union s (x ∷ xs) = union (insert x s) xs

  -- `collect::<BTreeSet<_>>()`
  abbrev pub from_list : List A → List A
  from_list = union []

  abbrev pub Above : A → List A → Type 0
  Above a [] = Unit
  Above a (x ∷ xs) = (o.lt a x ≡ true) × Above a xs

  abbrev pub IsSorted : List A → Type 0
  IsSorted [] = Unit
  IsSorted (x ∷ xs) = Above x xs × IsSorted xs

  pub Above-trans : (a b : A) (xs : List A) → o.lt a b ≡ true → Above b xs → Above a xs
  Above-trans a b [] h t = tt
  Above-trans a b (x ∷ xs) h t = (o.lt_trans a b x h t.0, Above-trans a b xs h t.1)

  insert-Above : (a b : A) (xs : List A) → o.lt b a ≡ true → Above b xs → Above b (insert a xs)
  insert-Above a b [] h t = (h, tt)
  insert-Above a b (x ∷ xs) h t = ground (arith, insert-Above a b xs h t.1)

  pub insert-IsSorted : (a : A) (xs : List A) → IsSorted xs → IsSorted (insert a xs)
  insert-IsSorted a [] s = (tt, tt)
  insert-IsSorted a (x ∷ xs) s = elim (Bool-cases (o.lt a x)) [
    | inl below ↦ rw below ((below, Above-trans a x xs below s.0), s)
    | inr over ↦ elim (Bool-cases (o.eqb a x)) [
      | inl same ↦ rw (over, same) s
      | inr other ↦ elim (Bool-cases (o.lt x a)) [
        | inl up ↦ rw (over, other) (insert-Above a x xs up s.0, insert-IsSorted a xs s.1)
        | inr down ↦ let e = o.lt_total a x over down in let t = (o.eqb_iff a x).1 e in cc
      ]
    ]
  ]

  pub union-IsSorted : (s xs : List A) → IsSorted s → IsSorted (union s xs)
  union-IsSorted s [] h = h
  union-IsSorted s (x ∷ xs) h = union-IsSorted (insert x s) xs (insert-IsSorted x s h)

  -- Which elements a set has after an insertion.
  pub contains-insert :
      (b a : A) (xs : List A) → contains b (insert a xs) ≡ (o.eqb b a || contains b xs)
  contains-insert b a [] = refl
  contains-insert b a (x ∷ xs) =
      ground (arith, contains-insert b a xs, o.eqb_iff a x, o.eqb_iff b x, o.eqb_iff b a)

  pub contains-union :
      (b : A) (s xs : List A) → contains b (union s xs) ≡ (contains b s || contains b xs)
  contains-union b s [] = ground arith
  contains-union b s (x ∷ xs) =
      ground (arith, contains-union b (insert x s) xs, contains-insert b x s)

  pub Above-not-contains : (a : A) (xs : List A) → Above a xs → contains a xs ≡ false
  Above-not-contains a [] h = refl
  Above-not-contains a (x ∷ xs) h = ground (arith, lt_ne a x h.0, Above-not-contains a xs h.1)

  -- Two sets with the same elements are equal.
  pub set_ext :
      (xs ys : List A)
      → IsSorted xs
      → IsSorted ys
      → ((a : A) → contains a xs ≡ contains a ys)
      → xs ≡ ys
  set_ext [] [] s t h = refl
  set_ext [] (y ∷ ys) s t h = ground (arith, h y, eqb_refl y)
  set_ext (x ∷ xs) [] s t h = ground (arith, h x, eqb_refl x)
  set_ext (x ∷ xs) (y ∷ ys) s t h = ap₂ (◌∷◌) heads (set_ext xs ys s.1 t.1 tails)
    where
      heads : x ≡ y
      heads = ground (
        arith,
        h x,
        h y,
        eqb_refl x,
        eqb_refl y,
        o.lt_total x y,
        lt_ne x y,
        lt_ne y x,
        Above-not-contains x ys,
        Above-not-contains y xs,
        Above-trans x y ys,
        Above-trans y x xs,
      )

      tails : (a : A) → contains a xs ≡ contains a ys
      tails a = ground (
        arith,
        heads,
        h a,
        o.eqb_iff a x,
        o.eqb_iff a y,
        Above-not-contains x xs,
        Above-not-contains y ys,
      )

  -- Collecting a sorted list into a set gives that list.
  pub union_of_sorted : (xs : List A) → IsSorted xs → union [] xs ≡ xs
  union_of_sorted xs s =
      set_ext (union [] xs) xs (union-IsSorted [] xs tt) s (λ a. contains-union a [] xs)

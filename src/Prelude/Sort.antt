-- ===== src/Prelude/Sort.antt =====
-- `sort` and the stable `sort_by_key`, as insertion from the right.
use mathlib.Core.Logic.{inl, inr}
use mathlib.Core.Bool.{Bool}
use mathlib.Core.List.Memᴰ
use mathlib.Core.List.{List, [], ◌∷◌, Memᴰ}
use Prim.Native.Nat.{suc}
use mathlib.Core.Path.{◌≡◌, ap, refl, ◌∙◌}
use grist_agent.Prelude.Lists.{length}
use grist_agent.Prelude.Tests.{if◌then◌else◌, Bool-cases}

module _ {ℓ} {A : Type ℓ} where
  abbrev pub place : (A → A → Bool) → A → List A → List A
  place le x [] = x ∷ []
  place le x (y ∷ ys) = if le x y then x ∷ y ∷ ys else y ∷ place le x ys

  abbrev pub sort : (A → A → Bool) → List A → List A
  sort le [] = []
  sort le (x ∷ xs) = place le x (sort le xs)

  module _ (le : A → A → Bool) where
    -- Sorting keeps the members, and adds none.
    pub place-member : (a x : A) (ys : List A) → Memᴰ a (place le x ys) → Memᴰ a (x ∷ ys)
    place-member a x [] m = m
    place-member a x (y ∷ ys) m = elim (Bool-cases (le x y)) [
      | inl b ↦ rw b at m
      | inr c ↦ elim (Memᴰ.cases_cons (rw c at m)) [
        | inl e ↦ Memᴰ.tail (Memᴰ.head e)
        | inr r ↦ elim (Memᴰ.cases_cons (place-member a x ys r)) [
          | inl e ↦ Memᴰ.head e
          | inr q ↦ Memᴰ.tail (Memᴰ.tail q)
        ]
      ]
    ]

    pub sort-member : (a : A) (xs : List A) → Memᴰ a (sort le xs) → Memᴰ a xs
    sort-member a [] m = m
    sort-member a (x ∷ xs) m = elim (Memᴰ.cases_cons (place-member a x (sort le xs) m)) [
      | inl q ↦ Memᴰ.head q
      | inr r ↦ Memᴰ.tail (sort-member a xs r)
    ]

    member-place : (a x : A) (ys : List A) → Memᴰ a (x ∷ ys) → Memᴰ a (place le x ys)
    member-place a x [] m = m
    member-place a x (y ∷ ys) m = elim (Bool-cases (le x y)) [
      | inl b ↦ rw b m
      | inr c ↦ rw c (elim (Memᴰ.cases_cons m) [
        | inl e ↦ Memᴰ.tail (member-place a x ys (Memᴰ.head e))
        | inr r ↦ elim (Memᴰ.cases_cons r) [
          | inl e ↦ Memᴰ.head e
          | inr q ↦ Memᴰ.tail (member-place a x ys (Memᴰ.tail q))
        ]
      ])
    ]

    pub member-sort : (a : A) (xs : List A) → Memᴰ a xs → Memᴰ a (sort le xs)
    member-sort a [] m = m
    member-sort a (x ∷ xs) m =
        member-place a x (sort le xs) (elim (Memᴰ.cases_cons m) [
          | inl e ↦ Memᴰ.head e
          | inr r ↦ Memᴰ.tail (member-sort a xs r)
        ])

    length-place : (x : A) (ys : List A) → length (place le x ys) ≡ suc (length ys)
    length-place x [] = refl
    length-place x (y ∷ ys) = elim (Bool-cases (le x y)) [
      | inl b ↦ rw b refl
      | inr c ↦ rw c (ap suc (length-place x ys))
    ]

    pub length-sort : (xs : List A) → length (sort le xs) ≡ length xs
    length-sort [] = refl
    length-sort (x ∷ xs) = length-place x (sort le xs) ∙ ap suc (length-sort xs)

-- ===== src/Redaction/Replacing.antt =====
-- crates/kernel/src/redact.rs: the replacement of one secret.
use grist_agent.Prelude.{
  ℕ, zero, suc, ◌-◌, true, false, [], ◌∷◌, ◌++◌, ◌≡◌, refl, sym, ap, ◌∙◌, subst, arith, length, any,
  ◌==◌, Bool-cases, inl, inr,
}
use mathlib.Core.List.{append_assoc}
use grist_agent.Prelude.Text.{Text, starts_with, has_infix}
use grist_agent.Redaction.{replacement, replace_from}
use grist_agent.Redaction.Markers.{IsPlain, swap, marker-then, part_before}

abbrev pub drop : ℕ → Text → Text
drop zero s = s
drop (suc k) [] = []
drop (suc k) (c ∷ s) = drop k s

dropped : (k : ℕ) (s : Text) → (mid : Text) × (s ≡ mid ++ drop k s)
dropped zero s = ([], refl)
dropped (suc k) [] = ([], refl)
dropped (suc k) (c ∷ s) = let (mid, e) = dropped k s in (c ∷ mid, ap (λ l. c ∷ l) e)

module _ (p by : Text) (c : ℕ) (s : Text) where
  hit :
      starts_with (c ∷ s) p ≡ true
      → replace_from p by 0 (c ∷ s) ≡ by ++ replace_from p by (length p - 1) s
  hit h = rw (replace_from, h)

  missed : starts_with (c ∷ s) p ≡ false → replace_from p by 0 (c ∷ s) ≡ c ∷ replace_from p by 0 s
  missed h = rw (replace_from, h)

module _ (p kind : Text) where
  -- No other plain text comes in.
  pub replace_from-clean :
      (q : Text)
      → IsPlain q
      → has_infix q (replacement kind) ≡ false
      → (k : ℕ) (a s : Text) → has_infix q (a ++ drop k s) ≡ false
      → has_infix q (a ++ replace_from p (replacement kind) k s) ≡ false
  replace_from-clean q plain free zero a [] h = h
  replace_from-clean q plain free (suc k) a [] h = h
  replace_from-clean q plain free (suc k) a (c ∷ s) h = replace_from-clean q plain free k a s h
  replace_from-clean q plain free zero a (c ∷ s) h = elim (Bool-cases (starts_with (c ∷ s) p)) [
    | inl y ↦
        let (mid, e) = dropped (length p - 1) s in
        let cut : has_infix q (a ++ ((c ∷ mid) ++ drop (length p - 1) s)) ≡ false =
          subst (λ l. has_infix q (a ++ c ∷ l) ≡ false) e h in
        let rest = replace_from-clean q plain free (length p - 1) (a ++ replacement kind) s (
          ap (has_infix q) (append_assoc a (replacement kind) (drop (length p - 1) s))
          ∙ swap q kind plain free a (c ∷ mid) (drop (length p - 1) s) cut) in
        ap (λ l. has_infix q (a ++ l)) (hit p (replacement kind) c s y)
        ∙ ap (has_infix q) (sym (append_assoc a (replacement kind) _))
        ∙ rest
    | inr n ↦
        ap (λ l. has_infix q (a ++ l)) (missed p (replacement kind) c s n)
        ∙ ap (has_infix q) (sym (append_assoc a (c ∷ []) _))
        ∙ replace_from-clean q plain free 0 (a ++ c ∷ []) s
            (ap (has_infix q) (append_assoc a (c ∷ []) s) ∙ h)
  ]

module _ (p kind : Text) (plain : IsPlain p) (free : has_infix p (replacement kind) ≡ false) where
  start_kept :
      (r s : Text)
      → any (λ c. c == b'[') r ≡ false
      → starts_with (replace_from p (replacement kind) 0 s) r ≡ true
      → starts_with s r ≡ true
  start_kept r [] n h = h
  start_kept [] (c ∷ s) n h = refl
  start_kept (x ∷ r) (c ∷ s) unopened h = elim (Bool-cases (starts_with (c ∷ s) p)) [
    | inl y ↦
        let e = subst (λ l. starts_with l (x ∷ r) ≡ true) (hit p (replacement kind) c s y) h in
        ground arith
    | inr m ↦
        let e = subst (λ l. starts_with l (x ∷ r) ≡ true) (missed p (replacement kind) c s m) h in
        ground (arith, start_kept r s)
  ]

  -- The text itself is gone.
  pub replace_from-gone :
      (k : ℕ) (s : Text) → has_infix p (replace_from p (replacement kind) k s) ≡ false
  replace_from-gone zero [] = part_before p [] (replacement kind) free
  replace_from-gone (suc k) [] = part_before p [] (replacement kind) free
  replace_from-gone (suc k) (c ∷ s) = replace_from-gone k s
  replace_from-gone zero (c ∷ s) = elim (Bool-cases (starts_with (c ∷ s) p)) [
    | inl y ↦
        ap (has_infix p) (hit p (replacement kind) c s y)
        ∙ marker-then p kind plain free _
        ∙ replace_from-gone (length p - 1) s
    | inr n ↦
        ap (has_infix p) (missed p (replacement kind) c s n)
        ∙ elim (Bool-cases (starts_with (c ∷ replace_from p (replacement kind) 0 s) p)) [
          | inl y ↦
              let e =
                start_kept p (c ∷ s) plain.no_open
                  (ap (λ l. starts_with l p) (missed p (replacement kind) c s n) ∙ y) in
              cc
          | inr m ↦ rw (m, replace_from-gone 0 s)
        ]
  ]

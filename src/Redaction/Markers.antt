-- ===== src/Redaction/Markers.antt =====
-- crates/kernel/src/redact.rs: a text in which a marker stands in place of a span holds no secret
-- that the text did not hold.
use grist_agent.Prelude.{
  ℕ, true, false, ◌||◌, [], ◌∷◌, ◌++◌, ◌≡◌, refl, sym, ap, ◌∙◌, ◌==◌, arith, any, Bool-cases, inl,
  inr,
}
use mathlib.Core.List.{append_assoc}
use grist_agent.Prelude.Text.{Text, codes, starts_with, has_infix}
use grist_agent.Redaction.{replacement}

-- A text without brackets, which stands in no marker but as a part of its words.
pub record IsPlain (q : Text) : Type 0 where
  pub no_open : any (λ c. c == b'[') q ≡ false
  pub no_close : any (λ c. c == b']') q ≡ false

-- A piece that starts a text, and does not hold `z`, starts what stands before `z`.
pub starts_with-cut :
    (q u v : Text) (z : ℕ)
    → any (λ c. c == z) q ≡ false
    → starts_with (u ++ z ∷ v) q ≡ starts_with u q
starts_with-cut [] u v z h = refl
starts_with-cut (x ∷ q) [] v z h = ground arith
starts_with-cut (x ∷ q) (c ∷ u) v z h = ground (arith, starts_with-cut q u v z)

pub starts_with-append : (q u v : Text) → starts_with u q ≡ true → starts_with (u ++ v) q ≡ true
starts_with-append [] u v h = refl
starts_with-append (x ∷ q) [] v h = cc
starts_with-append (x ∷ q) (c ∷ u) v h = ground (arith, starts_with-append q u v)

none_everywhere : (u : Text) → has_infix [] u ≡ true
none_everywhere [] = refl
none_everywhere (c ∷ u) = refl

pub has_infix-before : (q u v : Text) → has_infix q u ≡ true → has_infix q (u ++ v) ≡ true
has_infix-before [] [] [] h = refl
has_infix-before [] [] (c ∷ v) h = refl
has_infix-before (x ∷ q) [] v h = cc
has_infix-before q (c ∷ u) v h =
    ground (arith, has_infix-before q u v, starts_with-append q (c ∷ u) v)

-- A piece without `z` stands before `z` or behind it.
pub has_infix-cut :
    (q u v : Text) (z : ℕ)
    → any (λ c. c == z) q ≡ false
    → has_infix q (u ++ z ∷ v) ≡ (has_infix q u || has_infix q v)
has_infix-cut [] u v z h =
    has_infix-before [] u (z ∷ v) (none_everywhere u) ∙ sym (rw (none_everywhere u))
has_infix-cut (x ∷ q) [] v z h = ground arith
has_infix-cut (x ∷ q) (c ∷ u) v z h =
    ground (arith, has_infix-cut (x ∷ q) u v z, starts_with-cut (x ∷ q) (c ∷ u) v z)

pub has_infix-after : (q u v : Text) → has_infix q v ≡ true → has_infix q (u ++ v) ≡ true
has_infix-after q [] v h = h
has_infix-after q (c ∷ u) v h = ground (arith, has_infix-after q u v)

-- Without a piece, a text has it in no part.
pub part_before : (q u v : Text) → has_infix q (u ++ v) ≡ false → has_infix q u ≡ false
part_before q u v h = elim (Bool-cases (has_infix q u)) [
  | inl y ↦ let e = has_infix-before q u v y in cc
  | inr n ↦ n
]

pub part_after : (q u v : Text) → has_infix q (u ++ v) ≡ false → has_infix q v ≡ false
part_after q u v h = elim (Bool-cases (has_infix q v)) [
  | inl y ↦ let e = has_infix-after q u v y in cc
  | inr n ↦ n
]

marked : (kind c : Text) → replacement kind ++ c ≡ b'[' ∷ ((codes "REDACTED:" ++ kind) ++ b']' ∷ c)
marked kind c = ap (λ l. codes "[REDACTED:" ++ l) (append_assoc kind (codes "]") c)

module _ (q kind : Text) (plain : IsPlain q) where
  around :
      (a c : Text)
      → has_infix q (a ++ (replacement kind ++ c))
        ≡ (has_infix q a || (has_infix q (codes "REDACTED:" ++ kind) || has_infix q c))
  around a c =
      ap (λ l. has_infix q (a ++ l)) (marked kind c)
      ∙ has_infix-cut q a ((codes "REDACTED:" ++ kind) ++ b']' ∷ c) b'[' plain.no_open
      ∙ ap (λ b. has_infix q a || b)
          (has_infix-cut q (codes "REDACTED:" ++ kind) c b']' plain.no_close)

  module _ (free : has_infix q (replacement kind) ≡ false) where
    words_free : has_infix q (codes "REDACTED:" ++ kind) ≡ false
    words_free =
        part_before q (codes "REDACTED:" ++ kind) (codes "]")
          (part_after q (codes "[") ((codes "REDACTED:" ++ kind) ++ codes "]") free)

    -- A marker in place of a span brings nothing in.
    pub swap :
        (a mid c : Text)
        → has_infix q (a ++ (mid ++ c)) ≡ false
        → has_infix q (a ++ (replacement kind ++ c)) ≡ false
    swap a mid c h =
        let before = part_before q a (mid ++ c) h in
        let after = part_after q mid c (part_after q a (mid ++ c) h) in
        around a c ∙ rw (before, words_free, after)

    pub marker-then : (c : Text) → has_infix q (replacement kind ++ c) ≡ has_infix q c
    marker-then c =
        let none_before = part_before q [] (replacement kind) free in
        around [] c ∙ rw (none_before, words_free)

-- ===== src/Log/Effective.antt =====
-- log/mod.rs `reader::effective`: which lines the effective log keeps.
use grist_agent.Prelude.{
  ℕ, ◌≤◌, ◌≡◌, refl, sym, ap, ◌∙◌, ◌↔◌, inl, inr, Bool, true, ◌||◌, List, [], ◌∷◌, Memᴰ, any,
  any-member, any_of_member, keep-member, keep_of_member, arith, Bool-cases, leb,
}
use grist_agent.Prelude.Sort.{place, sort}
use grist_agent.Log.{LogEvent}
use grist_agent.Log.Reader.{voided, in_range, discarded_seqs, is_discarded, effective}

module _ {A : Type 0} (p : A → Bool) (le : A → A → Bool) where
  any-place : (x : A) (xs : List A) → any p (place le x xs) ≡ (p x || any p xs)
  any-place x [] = refl
  any-place x (y ∷ ys) = ground (arith, any-place x ys)

  any-sort : (xs : List A) → any p (sort le xs) ≡ any p xs
  any-sort [] = refl
  any-sort (x ∷ xs) = any-place x (sort le xs) ∙ ap (λ b. p x || b) (any-sort xs)

-- A line of the log voids the number.
pub data IsVoided (events : List LogEvent) (seq : ℕ) : Type 0 where
  voids :
      {from to : ℕ} → Memᴰ (from, to) (voided events) → from ≤ seq → seq ≤ to → IsVoided events seq

discarded-any :
    (events : List LogEvent) (seq : ℕ)
    → is_discarded (discarded_seqs events) seq ≡ any (in_range seq) (voided events)
unfolding is_discarded discarded_seqs
discarded-any events seq = any-sort (in_range seq) _ (voided events)

discarded_iff :
    (events : List LogEvent) (seq : ℕ)
    → (is_discarded (discarded_seqs events) seq ≡ true) ↔ IsVoided events seq
discarded_iff events seq = (
  λ h.
      let ((from, to), m, t) =
        any-member (in_range seq) (voided events) (sym (discarded-any events seq) ∙ h) in
      voids m (ground arith) (ground arith),
  λ v. elim v [
    | voids {from} {to} m a b ↦
        discarded-any events seq
        ∙ any_of_member (in_range seq) m (
            let x : leb from seq ≡ true = ground arith in
            let y : leb seq to ≡ true = ground arith in ground arith)
  ],
)

-- The effective log is exactly the lines of the physical log whose number lies in no range that a
-- `recovered` line of the log voids.
pub effective_iff :
    (events : List LogEvent) (e : LogEvent)
    → Memᴰ e (effective events) ↔ (Memᴰ e events × ¬ IsVoided events e.seq)
unfolding effective
effective_iff events e = (
  λ m.
      let (inside, t) = keep-member _ e events m in
      (inside, λ v. let w = (discarded_iff events e.seq).1 v in absurd (ground arith)),
  λ (m, n). elim (Bool-cases (is_discarded (discarded_seqs events) e.seq)) [
    | inl y ↦ absurd (n ((discarded_iff events e.seq).0 y))
    | inr z ↦ keep_of_member _ m (ground arith)
  ],
)

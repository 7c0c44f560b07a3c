-- ===== src/Redaction/Walking.antt =====
-- crates/kernel/src/redact.rs: the redaction of a JSON value.
use grist_agent.Prelude.{
  ℕ, ◌⊎◌, inl, inr, ◌+◌, ltb, Bool, false, if◌then◌else◌, Bool-cases, some, Option, List, ◌≡◌, refl,
  ap, ◌∙◌, arith,
}
use grist_agent.Prelude.Text.{Text}
use grist_agent.Content.{
  Value, null, boolean, number, string, array, object, Values, nil, cons, Members, end, member,
}
use grist_agent.Redaction.{
  Pattern, Redactor, Captures, spans_of, redact_str, walk, walk_items, walk_members, redact_value,
  ◌>>=◌, u32,
}
use grist_agent.Redaction.Spans.{IsFound}
use grist_agent.Redaction.Secrecy.{redact_str-IsRedacted}

module _ {Regex : Type 0} (captures_iter : Regex → Text → List Captures) (r : Redactor Regex) where
  -- A text and its redaction, or the text where the counter of its replacements reads zero.
  pub record IsSubstituted (s t : Text) : Type 0 where
    pub out : Text
    pub count : ℕ
    pub ends : redact_str captures_iter r s ≡ some (out, count)
    pub chosen : (t ≡ out) ⊎ ((count ≡ 0) × (t ≡ s))

  -- The same value but for its texts; the keys are the same.
  mutual
    pub IsSubstitute : Value → Value → Type 0
    IsSubstitute (string s) w = (t : Text) × (w ≡ string t) × IsSubstituted s t
    IsSubstitute (array vs) w = (ws : Values) × (w ≡ array ws) × AreSubstitutes vs ws
    IsSubstitute (object ms) w = (ns : Members) × (w ≡ object ns) × AreMembers ms ns
    IsSubstitute v w = w ≡ v

    pub AreSubstitutes : Values → Values → Type 0
    AreSubstitutes nil ws = ws ≡ nil
    AreSubstitutes (cons v vs) ws =
        (w : Value) × (rest : Values) × (ws ≡ cons w rest)
        × IsSubstitute v w
        × AreSubstitutes vs rest

    pub AreMembers : Members → Members → Type 0
    AreMembers end ns = ns ≡ end
    AreMembers (member key v ms) ns =
        (w : Value) × (rest : Members) × (ns ≡ member key w rest)
        × IsSubstitute v w
        × AreMembers ms rest

  module _
      (documented : (p : Pattern Regex) (s : Text) → IsFound 0 s (spans_of captures_iter p s)) where
    -- What the walk makes of a text, by the count.
    chosen_by : Text → ℕ → Text × ℕ → Bool → Option (Value × ℕ)
    chosen_by s n p b = some (if b then (string p.0, u32 (n + p.1)) else (string s, n))

    zero_read : (n : ℕ) → ltb 0 n ≡ false → n ≡ 0
    zero_read n h = ground arith

    walked_text :
        (s : Text) (n : ℕ)
        → (w : Value) × (m : ℕ) × (walk captures_iter r (string s) n ≡ some (w, m))
          × IsSubstitute (string s) w
    unfolding walk IsSubstitute chosen_by
    walked_text s n =
        let d = redact_str-IsRedacted captures_iter documented r s in
        let run : walk captures_iter r (string s) n
            ≡ chosen_by s n (d.out, d.count) (ltb 0 d.count) =
          ap (λ o. o >>= λ p. chosen_by s n p (ltb 0 p.1)) d.ends in
        elim (Bool-cases (ltb 0 d.count)) [
          | inl y ↦ (
            string d.out,
            u32 (n + d.count),
            run ∙ ap (chosen_by s n (d.out, d.count)) y,
            (
              d.out,
              refl,
              record { out = d.out; count = d.count; ends = d.ends; chosen = inl refl },
            ),
          )
          | inr z ↦ (
            string s,
            n,
            run ∙ ap (chosen_by s n (d.out, d.count)) z,
            (
              s,
              refl,
              record {
                out = d.out;
                count = d.count;
                ends = d.ends;
                chosen = inr (zero_read d.count z, refl);
              },
            ),
          )
        ]

    mutual
      unfolding walk IsSubstitute

      walked :
          (v : Value) (n : ℕ)
          → (w : Value) × (m : ℕ) × (walk captures_iter r v n ≡ some (w, m)) × IsSubstitute v w
      walked null n = (null, n, refl, refl)
      walked (boolean b) n = (boolean b, n, refl, refl)
      walked (number k) n = (number k, n, refl, refl)
      walked (string s) n = walked_text s n
      walked (array vs) n =
          let (ws, m, e, h) = walked_items vs n in
          (array ws, m, ap (λ o. o >>= λ p. some (array p.0, p.1)) e, (ws, refl, h))
      walked (object ms) n =
          let (ns, m, e, h) = walked_members ms n in
          (object ns, m, ap (λ o. o >>= λ p. some (object p.0, p.1)) e, (ns, refl, h))

      walked_items :
          (vs : Values) (n : ℕ)
          → (ws : Values) × (m : ℕ) × (walk_items captures_iter r vs n ≡ some (ws, m))
            × AreSubstitutes vs ws
      walked_items nil n = (nil, n, refl, refl)
      walked_items (cons v vs) n =
          let (w, m, e, h) = walked v n in
          let (ws, o, f, k) = walked_items vs m in
          (
            cons w ws,
            o,
            ap (λ q. q >>= λ x. walk_items captures_iter r vs x.1 >>= λ y. some (cons x.0 y.0, y.1))
                  e
                ∙ ap (λ q. q >>= λ y. some (cons w y.0, y.1)) f,
            (w, ws, refl, h, k),
          )

      walked_members :
          (ms : Members) (n : ℕ)
          → (ns : Members) × (m : ℕ) × (walk_members captures_iter r ms n ≡ some (ns, m))
            × AreMembers ms ns
      walked_members end n = (end, n, refl, refl)
      walked_members (member key v ms) n =
          let (w, m, e, h) = walked v n in
          let (ns, o, f, k) = walked_members ms m in
          (
            member key w ns,
            o,
            ap
                  (λ q. q >>= λ x.
                    walk_members captures_iter r ms x.1 >>= λ y. some (member key x.0 y.0, y.1))
                  e
                ∙ ap (λ q. q >>= λ y. some (member key w y.0, y.1)) f,
            (w, ns, refl, h, k),
          )

    -- With a regex engine as documented, the redaction of a JSON value ends without a panic, and
    -- the result is the value with each text replaced by its redaction, or kept where the counter
    -- of its replacements, of 32 bits, reads zero; keys, order and everything else are kept.
    pub redact_value-IsSubstitute :
        (v : Value)
        → (w : Value) × (n : ℕ) × (redact_value captures_iter r v ≡ some (w, n)) × IsSubstitute v w
    unfolding redact_value
    redact_value-IsSubstitute v = walked v 0

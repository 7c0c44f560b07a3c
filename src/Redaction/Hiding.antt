-- ===== src/Redaction/Hiding.antt =====
-- crates/kernel/src/redact.rs: a registered secret in the texts that are redacted later.
use grist_agent.Prelude.{ℕ, ◌≤◌, false, List, ◌≡◌, sym, subst, some, Memᴰ}
use grist_agent.Prelude.Text.{Text, byte_len, has_infix}
use grist_agent.Redaction.{
  Pattern, Redactor, Captures, replacement, min_secret_len, register_secret, spans_of, redact_str,
}
use grist_agent.Redaction.Spans.{IsFound}
use grist_agent.Redaction.Secrecy.{IsApart, redact_str-IsRedacted}
use grist_agent.Redaction.Registering.{IsRegistered, register_secret-IsInserted}

module _ {Regex : Type 0} (captures_iter : Regex → Text → List Captures)
    (documented : (p : Pattern Regex) (s : Text) → IsFound 0 s (spans_of captures_iter p s)) where
  -- A value of at least eight bytes, without a bracket and in no marker of the redactor, which is
  -- registered with a redactor whose values are in order: the redaction of any text then ends
  -- without a panic, and its result does not hold the value.
  pub register_secret-hides :
      (v : Text) (r : Redactor Regex)
      → IsRegistered r.known
      → min_secret_len ≤ byte_len v
      → IsApart r v
      → (s : Text)
      → (out : Text) × (n : ℕ) × (redact_str captures_iter (register_secret v r) s ≡ some (out, n))
        × (has_infix v out ≡ false)
  register_secret-hides v r h long apart s =
      let inserted = register_secret-IsInserted v r h in
      let done = redact_str-IsRedacted captures_iter documented (register_secret v r) s in
      let apart_after : IsApart (register_secret v r) v = record {
        plain = apart.plain;
        free = apart.free;
        free_of =
            subst (λ ps. (p : Pattern Regex) → Memᴰ p ps → has_infix v (replacement p.kind) ≡ false)
              (sym inserted.patterns_kept) apart.free_of;
      } in
      (done.out, done.count, done.ends, done.hides v (inserted.new long) apart_after)

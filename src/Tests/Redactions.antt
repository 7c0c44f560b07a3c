-- ===== src/Tests/Redactions.antt =====
-- Runs of the redactor, with a regex engine that finds the one span of a fixed word.
use grist_agent.Prelude.{
  ℕ, true, false, Option, none, some, List, [], ◌∷◌, ◌++◌, ◌≡◌, refl, ◌↔◌, arith, ◌≤◌, ◌==◌, inl,
  inr, Bool-cases, Option-cases,
}
use mathlib.Core.List.Memᴰ
use grist_agent.Prelude.Text.{Text, codes, byte_len, has_infix, strip_prefix}
use grist_agent.Content.{Value, string, array, cons, nil}
use grist_agent.Redaction.{
  Captures, Pattern, Redactor, redact_str, redact_value, register_secret, register_named_secret,
  spans_of, min_secret_len,
}
use grist_agent.Redaction.Spans.{IsFound, finished, present}
use grist_agent.Redaction.Secrecy.{IsRedacted, IsApart, redact_str-IsRedacted}
use grist_agent.Redaction.Walking.{IsSubstitute, redact_value-IsSubstitute}
use grist_agent.Redaction.Hiding.{register_secret-hides}
use grist_agent.Redaction.Registering.{IsInserted, IsRegistered, register-IsInserted}

-- The word at the start of the text, if it stands there.
abbrev at_start : Text → Option Text → List Captures
at_start word none = []
at_start word (some rest) = (λ g. some (record { start = 0; stop = byte_len word })) ∷ []

abbrev word_at_start : Text → Text → List Captures
word_at_start word s = at_start word (strip_prefix word s)

strip_prefix-some : (p s : Text) {r : Text} → strip_prefix p s ≡ some r → s ≡ p ++ r
strip_prefix-some [] s h = cc
strip_prefix-some (x ∷ p) [] h = cc
strip_prefix-some (x ∷ p) (c ∷ s) h = elim (Bool-cases (x == c)) [
  | inl y ↦ let e = strip_prefix-some p s (rw y at h) in let f : x ≡ c = ground arith in cc
  | inr n ↦ let e = rw n at h in cc
]

documented : (p : Pattern Text) (s : Text) → IsFound 0 s (spans_of word_at_start p s)
documented p s = elim (Option-cases (strip_prefix p.re s)) [
  | inl e ↦ rw e finished
  | inr (rest, e) ↦ rw e (
      present [] p.re rest (record { start = 0; stop = byte_len p.re }) (strip_prefix-some p.re s e)
        refl (omega arith) finished)
]

abbrev redactor : Redactor Text
redactor = record {
  known = codes "hunter2hunter2" ∷ [];
  patterns = record { kind = codes "extra"; re = codes "key"; group = 0 } ∷ [];
  short = [];
}

abbrev input : Text
input = codes "key hunter2hunter2"

redact_str_run :
    redact_str word_at_start redactor input ≡ some (codes "[REDACTED:extra] [REDACTED:secret]", 2)
unfolding redact_str
redact_str_run = refl

redact_str-IsRedacted_example : IsRedacted redactor input (redact_str word_at_start redactor input)
redact_str-IsRedacted_example = redact_str-IsRedacted word_at_start documented redactor input

redactor-IsRegistered : IsRegistered redactor.known
redactor-IsRegistered = record {
  long = λ v m. elim (Memᴰ.cases_cons m) [ inl e ↦ rw e (omega arith) | inr r ↦ elim r [ ] ];
  ordered = (λ w m. elim m [ ], tt);
  distinct = (λ w m. elim m [ ], tt);
}

register-IsInserted_example :
    IsInserted
      (codes "longer than hunter2")
      redactor
      (register_secret (codes "longer than hunter2") redactor)
    × IsInserted
        (codes "longer than hunter2")
        redactor
        (register_named_secret (codes "name") (codes "longer than hunter2") redactor).1
    × (((register_named_secret (codes "name") (codes "longer than hunter2") redactor).0 ≡ true)
        ↔ (min_secret_len ≤ byte_len (codes "longer than hunter2")))
register-IsInserted_example =
    register-IsInserted (codes "longer than hunter2") redactor redactor-IsRegistered (codes "name")

redactor-IsApart : IsApart redactor (codes "longer than hunter2")
redactor-IsApart = record {
  plain = record { no_open = refl; no_close = refl };
  free = refl;
  free_of = λ p m. elim (Memᴰ.cases_cons m) [ inl e ↦ rw e refl | inr r ↦ elim r [ ] ];
}

register_secret-hides_example :
    (out : Text) × (n : ℕ) × (redact_str word_at_start
        (register_secret (codes "longer than hunter2") redactor)
        (codes "key longer than hunter2")
      ≡ some (out, n))
    × (has_infix (codes "longer than hunter2") out ≡ false)
register_secret-hides_example =
    register_secret-hides word_at_start documented (codes "longer than hunter2") redactor
      redactor-IsRegistered (omega arith) redactor-IsApart (codes "key longer than hunter2")

redact_value-IsSubstitute_example :
    (w : Value) × (n : ℕ) × (redact_value word_at_start redactor (array (cons (string input) nil))
      ≡ some (w, n))
    × IsSubstitute word_at_start redactor (array (cons (string input) nil)) w
redact_value-IsSubstitute_example =
    redact_value-IsSubstitute word_at_start redactor documented (array (cons (string input) nil))

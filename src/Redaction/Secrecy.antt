-- ===== src/Redaction/Secrecy.antt =====
-- crates/kernel/src/redact.rs: what a redacted text does not hold.
use grist_agent.Prelude.{
  ℕ, false, Option, some, List, [], ◌∷◌, ◌≡◌, refl, ap, ◌∙◌, subst, Bool-cases, inl, inr,
  if◌then◌else◌, Memᴰ, ◌+◌,
}
use mathlib.Core.List.Memᴰ
use grist_agent.Prelude.Text.{Text, codes, has_infix}
use grist_agent.Redaction.{
  Pattern, Redactor, Captures, replacement, replace_from, matches_from, redact_known, spans_of,
  redact_pattern, redact_patterns, redact_str, start_pass, u32, ◌>>=◌,
}
use grist_agent.Redaction.Markers.{IsPlain}
use grist_agent.Redaction.Replacing.{replace_from-clean, replace_from-gone}
use grist_agent.Redaction.Spans.{IsFound}
use grist_agent.Redaction.Scrubbing.{IsScrubbed, scrub_spans-IsScrubbed}

abbrev secret_kind : Text
secret_kind = codes "secret"

-- A text that stands in no marker that the redactor writes, but as a part of words with brackets.
pub record IsApart {Regex : Type 0} (r : Redactor Regex) (q : Text) : Type 0 where
  pub plain : IsPlain q
  pub free : has_infix q (replacement (codes "secret")) ≡ false
  pub free_of : (p : Pattern Regex) → Memᴰ p r.patterns → has_infix q (replacement p.kind) ≡ false

module _ (q : Text) (plain : IsPlain q) (free : has_infix q (replacement secret_kind) ≡ false) where
  abbrev one_known : Text → Text → ℕ → Text × ℕ
  one_known secret out n =
      if has_infix secret out
      then (
        replace_from secret (replacement secret_kind) 0 out,
        u32 (n + u32 (matches_from secret 0 out)),
      )
      else (out, n)

  one_known-clean :
      (secret out : Text) (n : ℕ)
      → has_infix q out ≡ false
      → has_infix q (one_known secret out n).0 ≡ false
  one_known-clean secret out n h = elim (Bool-cases (has_infix secret out)) [
    | inl y ↦ rw y (replace_from-clean secret secret_kind q plain free 0 [] out h)
    | inr m ↦ rw m h
  ]

  one_known-gone : (out : Text) (n : ℕ) → has_infix q (one_known q out n).0 ≡ false
  one_known-gone out n = elim (Bool-cases (has_infix q out)) [
    | inl y ↦ rw y (replace_from-gone q secret_kind plain free 0 out)
    | inr m ↦ rw m m
  ]

  redact_known-clean :
      (secrets : List Text) (r : Text × ℕ)
      → has_infix q r.0 ≡ false
      → has_infix q (redact_known secrets r).0 ≡ false
  redact_known-clean [] r h = h
  redact_known-clean (secret ∷ secrets) (out, n) h =
      redact_known-clean secrets (one_known secret out n) (one_known-clean secret out n h)

  redact_known-gone :
      (secrets : List Text) (r : Text × ℕ)
      → Memᴰ q secrets
      → has_infix q (redact_known secrets r).0 ≡ false
  redact_known-gone [] r m = elim m [ ]
  redact_known-gone (secret ∷ secrets) (out, n) m = elim (Memᴰ.cases_cons m) [
    | inl e ↦
        redact_known-clean secrets (one_known secret out n)
          (subst (λ k. has_infix q (one_known k out n).0 ≡ false) e (one_known-gone out n))
    | inr t ↦ redact_known-gone secrets (one_known secret out n) t
  ]

module _ {Regex : Type 0} where
  -- The passes end, and bring no plain text in that stands in none of their markers.
  record IsCleared (ps : List (Pattern Regex)) (out : Text) (o : Option (Text × ℕ)) : Type 0 where
    cleared : Text
    count : ℕ
    ends : o ≡ some (cleared, count)
    clean :
        (q : Text)
        → IsPlain q
        → ((p : Pattern Regex) → Memᴰ p ps → has_infix q (replacement p.kind) ≡ false)
        → has_infix q out ≡ false
        → has_infix q cleared ≡ false

  -- What a redaction leaves of a text.
  pub record IsRedacted (r : Redactor Regex) (s : Text) (o : Option (Text × ℕ)) : Type 0 where
    pub out : Text
    pub count : ℕ
    pub ends : o ≡ some (out, count)
    pub hides : (q : Text) → Memᴰ q r.known → IsApart r q → has_infix q out ≡ false
    pub adds_nothing : (q : Text) → IsApart r q → has_infix q s ≡ false → has_infix q out ≡ false

module _ {Regex : Type 0} (captures_iter : Regex → Text → List Captures)
    (documented : (p : Pattern Regex) (s : Text) → IsFound 0 s (spans_of captures_iter p s)) where
  redact_pattern-IsScrubbed :
      (p : Pattern Regex) (out : Text) (n : ℕ)
      → IsScrubbed p.kind out (redact_pattern captures_iter p out n)
  redact_pattern-IsScrubbed p out n =
      scrub_spans-IsScrubbed p.kind out [] [] out (spans_of captures_iter p out) (start_pass n)
        (record { whole = refl; last = refl; keeps = λ q plain free h. h }) refl (documented p out)

  redact_patterns-IsCleared :
      (ps : List (Pattern Regex)) (out : Text) (n : ℕ)
      → IsCleared ps out (redact_patterns captures_iter ps (out, n))
  redact_patterns-IsCleared [] out n = record {
    cleared = out;
    count = n;
    ends = refl;
    clean = λ q plain free h. h;
  }
  redact_patterns-IsCleared (p ∷ ps) out n =
      let first = redact_pattern-IsScrubbed p out n in
      let rest = redact_patterns-IsCleared ps first.scrubbed first.count in
      record {
        cleared = rest.cleared;
        count = rest.count;
        ends = ap (λ o. o >>= redact_patterns captures_iter ps) first.ends ∙ rest.ends;
        clean = λ q plain free h.
            rest.clean q plain (λ k m. free k (Memᴰ.tail m))
              (first.clean q plain (free p (Memᴰ.head refl)) h);
      }

  -- With a regex engine whose spans are in order, apart and on character boundaries, the redaction
  -- of a text ends without a panic; its result holds no registered secret, and no other text that
  -- the given text does not hold, where the secret or text has no bracket and stands in no marker
  -- of the redactor.
  pub redact_str-IsRedacted :
      (r : Redactor Regex) (s : Text) → IsRedacted r s (redact_str captures_iter r s)
  unfolding redact_str
  redact_str-IsRedacted r s =
      let k = redact_known r.known (s, 0) in
      let passes = redact_patterns-IsCleared r.patterns k.0 k.1 in
      record {
        out = passes.cleared;
        count = passes.count;
        ends = passes.ends;
        hides = λ q m apart.
            passes.clean q apart.plain apart.free_of
              (redact_known-gone q apart.plain apart.free r.known (s, 0) m);
        adds_nothing = λ q apart h.
            passes.clean q apart.plain apart.free_of
              (redact_known-clean q apart.plain apart.free r.known (s, 0) h);
      }

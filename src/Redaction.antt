-- ===== src/Redaction.antt =====
-- crates/kernel/src/redact.rs: registered secrets and built-in patterns are replaced by markers.
-- The `regex` crate is a parameter: what compiles a pattern, and the capture groups of each match
-- of a text, as byte offsets. A slice of a text off a character boundary or out of range panics,
-- which is `none`. A poisoned lock, which only a panic leaves, is left out.
pub mod Builtin
pub mod Markers
pub mod Replacing
pub mod Spans
pub mod Scrubbing
pub mod Secrecy
pub mod Registering
pub mod Hiding
pub mod Walking
use grist_agent.Prelude.{
  ℕ, zero, suc, ◌+◌, ◌-◌, ◌%◌, ◌^◌, Bool, true, false, not, Option, none, some, List, [], ◌∷◌, ◌++◌,
  map, if◌then◌else◌, ltb, leb, ◌==◌, any, length,
}
use grist_agent.Prelude.Sort.{sort}
use grist_agent.Prelude.Text.{Text, codes, byte_len, utf8_len, same, starts_with, has_infix}
use grist_agent.Content.{Value, string, array, object, Values, nil, cons, Members, end, member}

-- `None` is a panic: what follows it is not run.
infixl 5 ◌>>=◌
abbrev pub ◌>>=◌ {ℓ κ} : {A : Type ℓ} {B : Type κ} → Option A → (A → Option B) → Option B
none >>= f = none
some a >>= f = f a

-- `replacement`
abbrev pub replacement : Text → Text
replacement kind = codes "[REDACTED:" ++ (kind ++ codes "]")

abbrev pub min_secret_len : ℕ
min_secret_len = 8

abbrev pub unnamed_secret : Text
unnamed_secret = codes "<unnamed>"

-- A `u32` counter, which wraps in a release build.
abbrev pub u32 : ℕ → ℕ
u32 n = n % 2 ^ 32

-- The span of a capture group.
pub record Span : Type 0 where
  pub start : ℕ
  pub stop : ℕ

-- `Captures`: the span of each group that took part.
abbrev pub Captures : Type 0
Captures = ℕ → Option Span

pub record Pattern (Regex : Type 0) : Type 0 where
  pub kind : Text
  pub re : Regex
  pub group : ℕ

pub record Redactor (Regex : Type 0) : Type 0 where
  pub known : List Text
  pub patterns : List (Pattern Regex)
  pub short : List Text

-- `str::replace` from the left, `k` characters of a match being passed over. The pattern has
-- characters.
abbrev pub replace_from : Text → Text → ℕ → Text → Text
replace_from pat by k [] = []
replace_from pat by (suc k) (c ∷ s) = replace_from pat by k s
replace_from pat by zero (c ∷ s) = elim (starts_with (c ∷ s) pat) [
  | true ↦ by ++ replace_from pat by (length pat - 1) s
  | false ↦ c ∷ replace_from pat by 0 s
]

-- `str::matches(..).count()`, likewise.
abbrev pub matches_from : Text → ℕ → Text → ℕ
matches_from pat k [] = 0
matches_from pat (suc k) (c ∷ s) = matches_from pat k s
matches_from pat zero (c ∷ s) = elim (starts_with (c ∷ s) pat) [
  | true ↦ suc (matches_from pat (length pat - 1) s)
  | false ↦ matches_from pat 0 s
]

-- The text after the first `n` bytes, and the first `n` bytes.
abbrev pub drop_bytes : ℕ → Text → Option Text
drop_bytes n [] = if n == 0 then some [] else none
drop_bytes n (c ∷ s) =
    if n == 0
    then some (c ∷ s)
    else if ltb n (utf8_len c)
    then none
    else drop_bytes (n - utf8_len c) s

abbrev pub with_front : ℕ → Option Text → Option Text
with_front c none = none
with_front c (some s) = some (c ∷ s)

abbrev pub take_bytes : ℕ → Text → Option Text
take_bytes n [] = if n == 0 then some [] else none
take_bytes n (c ∷ s) =
    if n == 0
    then some []
    else if ltb n (utf8_len c)
    then none
    else with_front c (take_bytes (n - utf8_len c) s)

-- `&s[i..j]`
unfoldable pub slice : Text → ℕ → ℕ → Option Text
slice s i j = if ltb j i then none else do rest ← drop_bytes i s; take_bytes (j - i) rest

-- The loop over the matches of a pattern.
pub record Pass : Type 0 where
  pub next : Text
  pub last : ℕ
  pub hit : Bool
  pub replacements : ℕ

abbrev pub redact_known : List Text → Text × ℕ → Text × ℕ
redact_known [] r = r
redact_known (secret ∷ secrets) (out, n) = redact_known secrets (
    if has_infix secret out
    then (
      replace_from secret (replacement (codes "secret")) 0 out,
      u32 (n + u32 (matches_from secret 0 out)),
    )
    else (out, n))

abbrev pub replace_span : Text → Text → Span → Pass → Option Pass
replace_span out kind m st = do
  gap ← slice out st.last m.start
  some (record {
    next = (st.next ++ gap) ++ replacement kind;
    last = m.stop;
    hit = true;
    replacements = u32 (st.replacements + 1);
  })

abbrev pub scrub_span : Text → Text → Option Span → Pass → Option Pass
scrub_span out kind none st = some st
scrub_span out kind (some m) st = do
  span ← slice out m.start m.stop
  if starts_with span (codes "[REDACTED:") then some st else replace_span out kind m st

abbrev pub scrub_spans : Text → Text → List (Option Span) → Pass → Option Pass
scrub_spans out kind [] st = some st
scrub_spans out kind (m ∷ ms) st = do next ← scrub_span out kind m st; scrub_spans out kind ms next

-- What stands after the last match.
abbrev pub close_pass : Text → Pass → Option (Text × ℕ)
close_pass out st =
    if not st.hit
    then some (out, st.replacements)
    else do rest ← slice out st.last (byte_len out); some (st.next ++ rest, st.replacements)

abbrev pub start_pass : ℕ → Pass
start_pass n = record { next = []; last = 0; hit = false; replacements = n }

module _ {Regex : Type 0} (captures_iter : Regex → Text → List Captures) where
  abbrev pub spans_of : Pattern Regex → Text → List (Option Span)
  spans_of p out = map (λ caps. caps p.group) (captures_iter p.re out)

  abbrev pub redact_pattern : Pattern Regex → Text → ℕ → Option (Text × ℕ)
  redact_pattern p out n = do
    st ← scrub_spans out p.kind (spans_of p out) (start_pass n)
    close_pass out st

  abbrev pub redact_patterns : List (Pattern Regex) → Text × ℕ → Option (Text × ℕ)
  redact_patterns [] r = some r
  redact_patterns (p ∷ ps) (out, n) = do r ← redact_pattern p out n; redact_patterns ps r

  -- `Redactor::redact_str`
  unfoldable pub redact_str : Redactor Regex → Text → Option (Text × ℕ)
  unfolding slice
  redact_str r s = redact_patterns r.patterns (redact_known r.known (s, 0))

  module _ (r : Redactor Regex) where
    mutual
      unfolding redact_str

      -- `Redactor::walk`, on a value and the replacements so far.
      pub walk : Value → ℕ → Option (Value × ℕ)
      walk (string s) n = do
        (out, m) ← redact_str r s
        some (if ltb 0 m then (string out, u32 (n + m)) else (string s, n))
      walk (array items) n = do (done, m) ← walk_items items n; some (array done, m)
      walk (object ms) n = do (done, m) ← walk_members ms n; some (object done, m)
      walk v n = some (v, n)

      pub walk_items : Values → ℕ → Option (Values × ℕ)
      walk_items nil n = some (nil, n)
      walk_items (cons v vs) n = do
        (first, m) ← walk v n
        (rest, o) ← walk_items vs m
        some (cons first rest, o)

      pub walk_members : Members → ℕ → Option (Members × ℕ)
      walk_members end n = some (end, n)
      walk_members (member key v ms) n = do
        (first, m) ← walk v n
        (rest, o) ← walk_members ms m
        some (member key first rest, o)

    -- `Redactor::redact_value`
    unfoldable pub redact_value : Value → Option (Value × ℕ)
    unfolding walk
    redact_value v = walk v 0

abbrev pub longest_first : Text → Text → Bool
longest_first a b = leb (byte_len b) (byte_len a)

module _ {Regex : Type 0} where
  abbrev pub add_name : Text → Redactor Regex → Redactor Regex
  add_name name r = if any (same name) r.short then r else record r { short = r.short ++ name ∷ [] }

  abbrev pub add_known : Text → Redactor Regex → Redactor Regex
  add_known v r =
      if any (same v) r.known
      then r
      else record r { known = sort longest_first (r.known ++ v ∷ []) }

  -- `Redactor::register_secret`
  unfoldable pub register_secret : Text → Redactor Regex → Redactor Regex
  register_secret v r =
      if ltb (byte_len v) min_secret_len then add_name unnamed_secret r else add_known v r

  -- `Redactor::register_named_secret`
  unfoldable pub register_named_secret : Text → Text → Redactor Regex → Bool × Redactor Regex
  unfolding register_secret
  register_named_secret name v r =
      if ltb (byte_len v) min_secret_len
      then (false, add_name name r)
      else (true, register_secret v r)

  -- `Redactor::take_short_names`
  abbrev pub take_short_names : Redactor Regex → List Text × Redactor Regex
  take_short_names r = (r.short, record r { short = [] })

  abbrev pub known_count : Redactor Regex → ℕ
  known_count r = length r.known

-- ===== src/Redaction/Spans.antt =====
-- crates/kernel/src/redact.rs: slices at the spans of the matches, and what the `regex` crate
-- documents of the spans.
use grist_agent.Prelude.{
  ℕ, ◌+◌, ◌-◌, ◌≤◌, false, Option, none, some, List, [], ◌∷◌, ◌++◌, ◌≡◌, refl, ap, ◌∙◌, arith, ltb,
  ◌==◌, if◌then◌else◌,
}
use grist_agent.Prelude.Text.{Text, byte_len, utf8_len}
use grist_agent.Redaction.{Span, drop_bytes, take_bytes, with_front, slice, ◌>>=◌}

-- The spans of a group in a text that starts at a byte offset: in order, apart from each other, on
-- character boundaries. A match without the group has none.
pub data IsFound : ℕ → Text → List (Option Span) → Type 0 where
  finished : {b : ℕ} {s : Text} → IsFound b s []
  absent : {b : ℕ} {s : Text} {ms : List (Option Span)} → IsFound b s ms → IsFound b s (none ∷ ms)
  present :
      {b : ℕ} {s : Text} {ms : List (Option Span)} (gap mid post : Text) (m : Span)
      → s ≡ gap ++ (mid ++ post)
      → m.start ≡ b + byte_len gap
      → m.stop ≡ b + byte_len gap + byte_len mid
      → IsFound m.stop post ms
      → IsFound b s (some m ∷ ms)

pub byte_len-append : (a b : Text) → byte_len (a ++ b) ≡ byte_len a + byte_len b
byte_len-append [] b = omega arith
byte_len-append (c ∷ a) b = omega (arith, byte_len-append a b)

utf8_len_positive : (c : ℕ) → 1 ≤ utf8_len c
utf8_len_positive c = ground arith

some_bytes : (w n : ℕ) → 1 ≤ w → ((w + n == 0) ≡ false) × (ltb (w + n) w ≡ false) × (w + n - w ≡ n)
some_bytes w n h = (ground arith, ground arith, omega arith)

drop_past : (c n : ℕ) (s : Text) → drop_bytes (utf8_len c + n) (c ∷ s) ≡ drop_bytes n s
drop_past c n s = let (a, b, e) = some_bytes (utf8_len c) n (utf8_len_positive c) in rw (a, b, e)

take_past :
    (c n : ℕ) (s : Text) → take_bytes (utf8_len c + n) (c ∷ s) ≡ with_front c (take_bytes n s)
take_past c n s = let (a, b, e) = some_bytes (utf8_len c) n (utf8_len_positive c) in rw (a, b, e)

drop_bytes-append : (a b : Text) → drop_bytes (byte_len a) (a ++ b) ≡ some b
drop_bytes-append [] [] = refl
drop_bytes-append [] (c ∷ b) = refl
drop_bytes-append (c ∷ a) b = drop_past c (byte_len a) (a ++ b) ∙ drop_bytes-append a b

take_bytes-append : (a b : Text) → take_bytes (byte_len a) (a ++ b) ≡ some a
take_bytes-append [] [] = refl
take_bytes-append [] (c ∷ b) = refl
take_bytes-append (c ∷ a) b =
    take_past c (byte_len a) (a ++ b) ∙ ap (with_front c) (take_bytes-append a b)

-- A slice on boundaries does not panic.
pub slice-append :
    (a b c : Text) (i j : ℕ)
    → i ≡ byte_len a
    → j ≡ byte_len a + byte_len b
    → slice (a ++ (b ++ c)) i j ≡ some b
unfolding slice
slice-append a b c i j e f =
    let ordered : ltb j i ≡ false = ground arith in
    let size : j - i ≡ byte_len b = omega arith in
    ap (λ x. if x then none else (drop_bytes i (a ++ (b ++ c)) >>= λ rest. take_bytes (j - i) rest))
      ordered
    ∙ ap (λ n. drop_bytes n (a ++ (b ++ c)) >>= λ rest. take_bytes (j - i) rest) e
    ∙ ap (λ o. o >>= λ rest. take_bytes (j - i) rest) (drop_bytes-append a (b ++ c))
    ∙ ap (λ n. take_bytes n (b ++ c)) size
    ∙ take_bytes-append b c

-- ===== src/Log/Torn.antt =====
-- log/file.rs `parse_log`: the torn last line.
use grist_agent.Prelude.{
  ℕ, ◌+◌, ◌≡◌, refl, sym, ap, ◌∙◌, Bool, true, false, not, Option, none, some, List, [], ◌∷◌, ◌++◌,
  length, arith, ltb, ◌==◌, if◌then◌else◌, Result, ok, err, ◌>>=◌, all,
}
use grist_agent.Prelude.Order.{nat_order}
use grist_agent.Prelude.Text.{split, is_empty}
use grist_agent.Log.Errors.{LogError}
use grist_agent.Log.{Line}
use grist_agent.Log.File.{
  Decoder, ParsedLog, newline, parse_lines, push_byte, torn, complete_lines, complete_length,
  parse_log,
}

-- A tail without a newline.
abbrev pub has_no_newline : List ℕ → Bool
has_no_newline = all (λ b. not (b == newline))

torn_tail : (tail : List ℕ) → has_no_newline tail ≡ true → torn tail ≡ (none, tail)
torn_tail [] h = refl
torn_tail (b ∷ tail) h =
    let n : (b == newline) ≡ false = ground arith in
    ap (push_byte b) (torn_tail tail (ground arith))
    ∙ ap (λ t. if t then (some [], tail) else (none, b ∷ tail)) n

torn-append :
    (body tail : List ℕ)
    → has_no_newline tail ≡ true
    → torn (body ++ newline ∷ tail) ≡ (some body, tail)
torn-append [] tail h = ap (push_byte newline) (torn_tail tail h)
torn-append (b ∷ body) tail h = ap (push_byte b) (torn-append body tail h)

length-append : (xs ys : List ℕ) → length (xs ++ ys) ≡ length xs + length ys
length-append [] ys = omega arith
length-append (x ∷ xs) ys = let ih = length-append xs ys in omega arith

-- What a parse of the complete lines gives, with a tail that was torn.
abbrev pub with_tail : Bool → Result LogError ParsedLog → Result LogError ParsedLog
with_tail t (ok p) = ok (record p { truncated_tail = t })
with_tail t (err e) = err e

parse_with_tail :
    (r : Result LogError (List Line)) (n : ℕ) (t u : Bool)
    → (r >>= λ ls. ok (record { lines = ls; complete_len = n; truncated_tail = t }))
      ≡ with_tail t (r >>= λ ls. ok (record { lines = ls; complete_len = n; truncated_tail = u }))
parse_with_tail (ok ls) n t u = refl
parse_with_tail (err e) n t u = refl

-- The result for the given complete part, of a file of the given length.
abbrev finished : Decoder → Option (List ℕ) → ℕ → Result LogError ParsedLog
finished d o n = do
  lines ← parse_lines d 0 none (complete_lines o)
  ok (record {
    lines = lines;
    complete_len = complete_length o;
    truncated_tail = ltb (complete_length o) n;
  })

parse_log-finished :
    (d : Decoder) (body tail : List ℕ)
    → has_no_newline tail ≡ true
    → parse_log d (body ++ newline ∷ tail)
      ≡ finished d (some body) (length (body ++ newline ∷ tail))
unfolding parse_log
parse_log-finished d body tail h =
    ap (λ t. finished d t.0 (length (body ++ newline ∷ tail))) (torn-append body tail h)

tail_flag :
    (body tail : List ℕ)
    → ltb (length body + 1) (length (body ++ newline ∷ tail)) ≡ not (is_empty tail)
tail_flag body [] = let e = length-append body (newline ∷ []) in ground arith
tail_flag body (b ∷ tail) = let e = length-append body (newline ∷ b ∷ tail) in ground arith

-- A crash in the middle of a line: bytes after the last newline change nothing but the flag that
-- reports them. The lines, the length of the complete part, and an error, if there is one, are
-- those of the file that ends with that newline.
pub parse_log-torn :
    (d : Decoder) (body tail : List ℕ)
    → has_no_newline tail ≡ true
    → parse_log d (body ++ newline ∷ tail)
      ≡ with_tail (not (is_empty tail)) (parse_log d (body ++ newline ∷ []))
parse_log-torn d body tail h =
    parse_log-finished d body tail h
    ∙ parse_with_tail (parse_lines d 0 none (split newline body)) (length body + 1) _ _
    ∙ ap (λ t. with_tail t (finished d (some body) (length (body ++ newline ∷ []))))
        (tail_flag body tail)
    ∙ ap (with_tail (not (is_empty tail))) (sym (parse_log-finished d body [] refl))

-- ===== src/Providers/Sse/Chunks.antt =====
-- sse.rs: the events do not depend on how the stream is cut into chunks.
use grist_agent.Prelude.{
  ℕ, ◌≡◌, refl, sym, ap, ◌∙◌, inl, inr, true, List, [], ◌∷◌, ◌++◌, Bool-cases, ◌==◌,
}
use mathlib.Core.List.{append_assoc, append-nil}
use grist_agent.Prelude.Text.{Text}
use grist_agent.Providers.Sse.{
  SseEvent, SseParser, new_parser, line_feed, lead, cut, take_line, also, take_lines, push, finish,
  read_stream,
}

-- Cutting after more bytes have come: the lines so far, then those of what was left.
abbrev resumed : List (List ℕ) × List ℕ → List ℕ → List (List ℕ) × List ℕ
unfolding cut
resumed (ls, rest) more = (ls ++ (cut (rest ++ more)).0, (cut (rest ++ more)).1)

lead_line :
    (b : ℕ) (c : List (List ℕ) × List ℕ)
    → (b == line_feed) ≡ true
    → lead b c ≡ ((b ∷ []) ∷ c.0, c.1)
lead_line b ([], rest) y = rw y refl
lead_line b (l ∷ ls, rest) y = rw y refl

lead-resumed :
    (b : ℕ) (c : List (List ℕ) × List ℕ) (more : List ℕ)
    → lead b (resumed c more) ≡ resumed (lead b c) more
unfolding cut
lead-resumed b ([], rest) more = elim (Bool-cases (b == line_feed)) [
  | inl y ↦ rw y (lead_line b (cut (rest ++ more)) y)
  | inr n ↦ rw n refl
]
lead-resumed b (l ∷ ls, rest) more = elim (Bool-cases (b == line_feed)) [
  | inl y ↦ rw y refl
  | inr n ↦ rw n refl
]

cut-append : (xs ys : List ℕ) → cut (xs ++ ys) ≡ resumed (cut xs) ys
unfolding cut
cut-append [] ys = refl
cut-append (b ∷ xs) ys = ap (lead b) (cut-append xs ys) ∙ lead-resumed b (cut xs) ys

-- The whole stream.
abbrev pub flatten : List (List ℕ) → List ℕ
flatten [] = []
flatten (c ∷ cs) = c ++ flatten cs

module _ (decode : List ℕ → Text) where
  also-also :
      (xs ys : List SseEvent) (r : List Text × List SseEvent)
      → also decode xs (also decode ys r) ≡ also decode (xs ++ ys) r
  also-also xs ys (d, zs) = ap (λ l. (d, l)) (sym (append_assoc xs ys zs))

  take_lines-append :
      (xs ys : List (List ℕ)) (d : List Text)
      → take_lines decode (xs ++ ys) d
        ≡ also decode (take_lines decode xs d).1 (take_lines decode ys (take_lines decode xs d).0)
  unfolding take_lines
  take_lines-append [] ys d = refl
  take_lines-append (x ∷ xs) ys d =
      ap (also decode (take_line decode x d).1) (take_lines-append xs ys (take_line decode x d).0)
      ∙ also-also (take_line decode x d).1 _ _

  -- Two pushes, one after the other.
  abbrev push_both : SseParser → List ℕ → List ℕ → SseParser × List SseEvent
  unfolding push
  push_both p xs ys = (
    (push decode (push decode p xs).0 ys).0,
    (push decode p xs).1 ++ (push decode (push decode p xs).0 ys).1,
  )

  -- What a push makes of the lines that are cut.
  abbrev taken : List (List ℕ) × List ℕ → List Text → SseParser × List SseEvent
  taken found d = (
    record { buf = found.1; data_lines = (take_lines decode found.0 d).0 },
    (take_lines decode found.0 d).1,
  )

  -- Pushing the bytes of two chunks at once is pushing one after the other.
  push-append : (p : SseParser) (xs ys : List ℕ) → push decode p (xs ++ ys) ≡ push_both p xs ys
  unfolding push
  push-append p xs ys =
      ap (λ bytes. taken (cut bytes) p.data_lines) (sym (append_assoc p.buf xs ys))
      ∙ ap (λ c. taken c p.data_lines) (cut-append (p.buf ++ xs) ys)
      ∙ ap (λ r. (record { buf = (cut ((cut (p.buf ++ xs)).1 ++ ys)).1; data_lines = r.0 }, r.1))
          (take_lines-append (cut (p.buf ++ xs)).0 _ p.data_lines)

  stream-flatten :
      (p : SseParser) (c : List ℕ) (cs : List (List ℕ))
      → read_stream decode p (c ∷ cs) ≡ read_stream decode p ((c ++ flatten cs) ∷ [])
  unfolding read_stream
  stream-flatten p c [] = ap (λ b. read_stream decode p (b ∷ [])) (sym (append-nil c))
  stream-flatten p c (d ∷ cs) =
      ap (λ es. (push decode p c).1 ++ es) (stream-flatten (push decode p c).0 d cs)
      ∙ sym (append_assoc (push decode p c).1 _ _)
      ∙ ap (λ r. r.1 ++ (finish decode r.0).1) (sym (push-append p c (d ++ flatten cs)))

-- A stream read to its end by a fresh parser gives the same events however it is cut into chunks:
-- those of the whole stream pushed at once. The chunks may be empty, and may end in the middle of a
-- line or of a character.
pub read_stream-flatten :
    (decode : List ℕ → Text) (chunks : List (List ℕ))
    → read_stream decode new_parser chunks ≡ read_stream decode new_parser (flatten chunks ∷ [])
unfolding read_stream
read_stream-flatten decode [] = refl
read_stream-flatten decode (c ∷ cs) = stream-flatten decode new_parser c cs

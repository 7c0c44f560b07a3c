-- ===== src/Providers/Sse.antt =====
-- crates/providers/src/sse.rs: the incremental parser of server-sent events. `decode` is
-- `String::from_utf8_lossy`.
pub mod Chunks
use grist_agent.Prelude.{
  ℕ, Bool, true, false, ◌||◌, Option, none, some, List, [], ◌∷◌, ◌++◌, if◌then◌else◌, ◌==◌,
}
use grist_agent.Prelude.Text.{
  Text, codes, same, is_empty, strip_prefix, starts_with, join, trim, trim_end,
}

pub data SseEvent : Type 0 where
  done : SseEvent
  payload : Text → SseEvent

pub record SseParser : Type 0 where
  pub buf : List ℕ
  pub data_lines : List Text

-- `SseParser::new`
abbrev pub new_parser : SseParser
new_parser = record { buf = []; data_lines = [] }

abbrev pub line_feed : ℕ
line_feed = 10

abbrev is_line_end : ℕ → Bool
is_line_end c = c == 10 || c == 13

-- One byte in front of the lines that the rest makes.
abbrev pub lead : ℕ → List (List ℕ) × List ℕ → List (List ℕ) × List ℕ
lead b ([], rest) = if b == line_feed then ((b ∷ []) ∷ [], rest) else ([], b ∷ rest)
lead b (l ∷ ls, rest) = if b == line_feed then ((b ∷ []) ∷ l ∷ ls, rest) else ((b ∷ l) ∷ ls, rest)

-- The lines that the loop of `push` drains one after the other, each with its line feed, and what
-- stays in the buffer.
unfoldable pub cut : List ℕ → List (List ℕ) × List ℕ
cut [] = ([], [])
cut (b ∷ bs) = lead b (cut bs)

abbrev event_of : Text → SseEvent
event_of text = if same (trim text) (codes "[DONE]") then done else payload text

-- `SseParser::dispatch`, on the data lines: what is left of them, and the events.
unfoldable pub dispatch : List Text → List Text × List SseEvent
dispatch [] = ([], [])
dispatch (d ∷ ds) = ([], event_of (join (line_feed ∷ []) (d ∷ ds)) ∷ [])

abbrev without_space : Text → Text
without_space rest = elim (strip_prefix (codes " ") rest) [ none ↦ rest | some r ↦ r ]

-- A line without its end.
abbrev take_text : Text → List Text → List Text × List SseEvent
take_text line data_lines =
    if is_empty line
    then dispatch data_lines
    else if starts_with line (codes ":")
    then (data_lines, [])
    else elim (strip_prefix (codes "data:") line) [
      | none ↦ (data_lines, [])
      | some rest ↦ (data_lines ++ without_space rest ∷ [], [])
    ]

module _ (decode : List ℕ → Text) where
  -- `SseParser::take_line`
  unfoldable pub take_line : List ℕ → List Text → List Text × List SseEvent
  unfolding dispatch
  take_line raw data_lines = take_text (trim_end is_line_end (decode raw)) data_lines

  abbrev pub also : List SseEvent → List Text × List SseEvent → List Text × List SseEvent
  also out (data_lines, events) = (data_lines, out ++ events)

  -- The lines one after the other.
  unfoldable pub take_lines : List (List ℕ) → List Text → List Text × List SseEvent
  take_lines [] data_lines = (data_lines, [])
  take_lines (l ∷ ls) data_lines =
      also (take_line l data_lines).1 (take_lines ls (take_line l data_lines).0)

  -- `SseParser::push`
  unfoldable pub push : SseParser → List ℕ → SseParser × List SseEvent
  unfolding cut take_lines
  push p bytes =
      let found = cut (p.buf ++ bytes) in
      let taken = take_lines found.0 p.data_lines in
      (record { buf = found.1; data_lines = taken.0 }, taken.1)

  abbrev flush_line : List ℕ → List Text → List Text × List SseEvent
  flush_line [] data_lines = (data_lines, [])
  flush_line (b ∷ bs) data_lines = take_line (b ∷ bs) data_lines

  -- `SseParser::finish`
  unfoldable pub finish : SseParser → SseParser × List SseEvent
  unfolding take_line dispatch
  finish p =
      let flushed = flush_line p.buf p.data_lines in
      let last = dispatch flushed.0 in
      (record { buf = []; data_lines = last.0 }, flushed.1 ++ last.1)

  -- A stream that arrives in chunks, to its end.
  unfoldable pub read_stream : SseParser → List (List ℕ) → List SseEvent
  unfolding push finish
  read_stream p [] = (finish p).1
  read_stream p (c ∷ cs) = (push p c).1 ++ read_stream (push p c).0 cs

-- ===== src/Tests/Streams.antt =====
-- crates/providers/src/sse.rs on a stream of ASCII characters.
use grist_agent.Prelude.{ℕ, ◌≡◌, refl, List, [], ◌∷◌, ◌++◌}
use grist_agent.Prelude.Text.{Text, codes}
use grist_agent.Providers.Sse.{
  SseEvent, payload, new_parser, cut, dispatch, take_line, take_lines, push, finish, read_stream,
}
use grist_agent.Providers.Sse.Chunks.{flatten, read_stream-flatten}

abbrev ascii : List ℕ → Text
ascii bytes = bytes

-- Two events, cut in the middle of a field name and between the two line feeds.
abbrev chunks : List (List ℕ)
chunks = codes "da" ∷ (codes "ta: one" ++ 10 ∷ []) ∷ (10 ∷ codes "data: [DONE]") ∷ []

read_events : read_stream ascii new_parser chunks ≡ payload (codes "one") ∷ SseEvent.done ∷ []
unfolding read_stream push finish take_lines take_line dispatch cut
read_events = refl

read_stream-flatten_example :
    read_stream ascii new_parser chunks ≡ read_stream ascii new_parser (flatten chunks ∷ [])
read_stream-flatten_example = read_stream-flatten ascii chunks

-- ===== src/Log/File.antt =====
-- crates/kernel/src/log/file.rs `parse_log`: the reading of a log file. `Decoder` is what serde
-- does: it reads an envelope from a line's bytes (`none`: not UTF-8, or not an envelope) and a body
-- from its kind and payload.
use grist_agent.Prelude.{
  ℕ, ◌+◌, Bool, false, ◌&&◌, Option, none, some, List, [], ◌∷◌, length, ltb, ◌==◌, if◌then◌else◌,
  Result, ok, err, ◌>>=◌, ok_or,
}
use grist_agent.Prelude.Order.{nat_order}
use grist_agent.Prelude.Text.{Text, codes, same, split}
use grist_agent.Content.{Value, value_get, as_u64}
use grist_agent.State.Migration.{state_schema_version}
use grist_agent.Event.{EventBody, log_opened, resumed, recovered, unknown}
use grist_agent.Log.Errors.{LogError, malformed, seq_order, wrong_session, newer_schema}
use grist_agent.Kernel.Lifecycle.{event_schema_version}
use grist_agent.Log.{LogEvent, Line}

-- `RawEnvelope`
pub record Envelope : Type 0 where
  pub seq : ℕ
  pub ts : Text
  pub session_id : Text
  pub kind : Text
  pub payload : Value

pub record Decoder : Type 0 where
  pub envelope : List ℕ → Option Envelope
  pub from_value : Text → Value → Option EventBody

pub record ParsedLog : Type 0 where
  pub lines : List Line
  pub complete_len : ℕ
  pub truncated_tail : Bool

abbrev pub newline : ℕ
newline = 10

abbrev is_below : Option ℕ → Bool
is_below none = false
is_below (some v) = ltb v state_schema_version

abbrev old_version : Option Value → Bool
old_version none = false
old_version (some v) = is_below (as_u64 v)

abbrev old_state : Option Value → Bool
old_state none = false
old_state (some s) = old_version (value_get (codes "schema_version") s)

-- `is_old_schema_state`
unfoldable pub is_old_schema_state : Value → Bool
is_old_schema_state payload = old_state (value_get (codes "state") payload)

-- `check_schema`
unfoldable pub check_schema : ℕ → Result {0, 0} LogError Unit
check_schema found =
    if ltb event_schema_version found then err (newer_schema found event_schema_version) else ok tt

-- The schema that a later kernel appended with.
abbrev pub check_body : EventBody → Result {0, 0} LogError Unit
check_body (resumed r) = check_schema r.event_schema_version
check_body (recovered r) = check_schema r.event_schema_version
check_body _ = ok tt

abbrev pub check_first : ℕ → EventBody → Result {0, 0} LogError Unit
check_first line_no (log_opened opened) = check_schema opened.event_schema_version
check_first line_no _ = err (malformed line_no (codes "first event must be `log_opened`"))

-- The session of line 0, from there on.
abbrev pub check_session : ℕ → Option Text → LogEvent → Result {0, 0} LogError Unit
check_session line_no none e = check_first line_no e.body
check_session line_no (some expected) e =
    if same e.session_id expected
    then check_body e.body
    else err (wrong_session e.session_id expected)

abbrev pub body_of : ℕ → Envelope → Option EventBody → Result LogError EventBody
body_of line_no env (some b) = ok b
body_of line_no env none =
    if same env.kind (codes "checkpoint") && is_old_schema_state env.payload
    then ok (unknown env.kind env.payload)
    else err (malformed line_no (codes "not an event"))

abbrev pub event_of : Envelope → EventBody → LogEvent
event_of env body = record { seq = env.seq; ts = env.ts; session_id = env.session_id; body = body }

abbrev pub check_seq : ℕ → LogEvent → Result {0, 0} LogError Unit
check_seq idx e = if e.seq == idx then ok tt else err (seq_order e.seq idx)

abbrev pub expected_session : Option Text → Line → Option Text
expected_session none line = some line.event.session_id
expected_session (some s) line = some s

module _ (d : Decoder) where
  abbrev pub parse_line : ℕ → Option Text → List ℕ → Result LogError Line
  parse_line idx session raw = do
    env ← ok_or (malformed (idx + 1) (codes "not an envelope")) (d.envelope raw)
    body ← body_of (idx + 1) env (d.from_value env.kind env.payload)
    in_order ← check_seq idx (event_of env body)
    checked ← check_session (idx + 1) session (event_of env body)
    ok (record { event = event_of env body; raw_payload = env.payload })

  -- The loop over the complete lines, from the line `idx`.
  abbrev pub parse_lines : ℕ → Option Text → List (List ℕ) → Result LogError (List Line)
  parse_lines idx session [] = ok []
  parse_lines idx session (raw ∷ raws) = do
    line ← parse_line idx session raw
    rest ← parse_lines (idx + 1) (expected_session session line) raws
    ok (line ∷ rest)

abbrev pub push_byte : ℕ → Option (List ℕ) × List ℕ → Option (List ℕ) × List ℕ
push_byte b (some body, tail) = (some (b ∷ body), tail)
push_byte b (none, tail) = if b == newline then (some [], tail) else (none, b ∷ tail)

-- The bytes up to the last newline, without it (`none`: there is none), and what follows.
abbrev pub torn : List ℕ → Option (List ℕ) × List ℕ
torn [] = (none, [])
torn (b ∷ bs) = push_byte b (torn bs)

abbrev pub complete_lines : Option (List ℕ) → List (List ℕ)
complete_lines none = []
complete_lines (some body) = split newline body

abbrev pub complete_length : Option (List ℕ) → ℕ
complete_length none = 0
complete_length (some body) = length body + 1

-- `parse_log`
unfoldable pub parse_log : Decoder → List ℕ → Result LogError ParsedLog
unfolding is_old_schema_state check_schema
parse_log d bytes = do
  lines ← parse_lines d 0 none (complete_lines (torn bytes).0)
  ok (record {
    lines = lines;
    complete_len = complete_length (torn bytes).0;
    truncated_tail = ltb (complete_length (torn bytes).0) (length bytes);
  })

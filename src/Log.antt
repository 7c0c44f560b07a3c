-- ===== src/Log.antt =====
-- crates/kernel/src/log: the event log. `Codec` is what serde and the redactor do: the JSON of a
-- body's payload, the redaction of a JSON with its number of replacements, and the reading of a
-- body from its kind and payload.
pub mod Errors
pub mod Reader
pub mod Torn
pub mod Appending
pub mod Parsing
pub mod Restoring
pub mod Effective
pub mod File
use grist_agent.Prelude.{
  ℕ, zero, suc, ◌+◌, ◌<◌, ◌≡◌, refl, ap, Bool, true, false, ◌||◌, Option, none, some, List, [], ◌∷◌,
  ◌++◌, map, length, last, arith, ltb, ◌==◌, if◌then◌else◌, Result, ok, err, ◌>>=◌, ok_or,
}
use grist_agent.Prelude.Text.{Text, codes}
use grist_agent.Content.{
  Value, Number, number, unsigned, object, member, end, value_get, as_u64, null,
}
use grist_agent.Event.{EventBody, kernel_warning}
use grist_agent.Event
use grist_agent.Log.Errors.{LogError, io}

pub record Codec : Type 0 where
  pub payload_value : EventBody → Option Value
  pub redact_value : Value → Value × ℕ
  pub from_value : Text → Value → Option EventBody
  pub kind : EventBody → Text

-- `Event`
pub record LogEvent : Type 0 where
  pub seq : ℕ
  pub ts : Text
  pub session_id : Text
  pub body : EventBody

pub record Line : Type 0 where
  pub event : LogEvent
  pub raw_payload : Value

pub record Staged : Type 0 where
  pub event : LogEvent
  pub lines : List Line

-- The file-system and serialization messages are not told apart.
abbrev pub io_error : LogError
io_error = io (codes "serialization")

module _ (codec : Codec) where
  -- `memory::writer_redact`
  unfoldable pub writer_redact : EventBody → Result LogError (EventBody × Value × ℕ)
  writer_redact body = do
    payload ← ok_or io_error (codec.payload_value body)
    let (redacted, replacements) = codec.redact_value payload
    if replacements == 0 then ok (body, redacted, 0) else do
      b ← ok_or io_error (codec.from_value (codec.kind body) redacted)
      ok (b, redacted, replacements)

  abbrev turn_of : Option Value → ℕ
  turn_of none = 0
  turn_of (some payload) = elim (value_get (codes "turn") payload) [
    | none ↦ 0
    | some v ↦ elim (as_u64 v) [ none ↦ 0 | some n ↦ n ]
  ]

  -- `writer::late_redaction_warning`
  unfoldable pub late_redaction_warning : LogEvent → ℕ → EventBody
  unfolding kernel_warning
  late_redaction_warning offending replacements = Event.warning (
      kernel_warning (turn_of (codec.payload_value offending.body)) (codes "late_redaction")
        (codes "writer-side redaction changed a payload; an ingress path was missed")
        (some (
          object (
            member (codes "seq") (number (unsigned offending.seq))
              (member (codes "replacements") (number (unsigned replacements)) end)))))

  -- The lines of a staged event: the warning follows a late redaction.
  abbrev pub staged_lines : LogEvent → Value → ℕ → Text → Result LogError (List Line)
  staged_lines event raw zero ts = ok (record { event = event; raw_payload = raw } ∷ [])
  staged_lines event raw (suc late) ts = do
    warn_raw ← ok_or io_error (codec.payload_value (late_redaction_warning event (suc late)))
    ok (
        record { event = event; raw_payload = raw }
        ∷ record {
          event = record {
            seq = event.seq + 1;
            ts = ts;
            session_id = event.session_id;
            body = late_redaction_warning event (suc late);
          };
          raw_payload = warn_raw;
        }
        ∷ [])

  -- `writer::stage`, with the clock's readings of the one or two lines.
  unfoldable pub stage : Text → ℕ → EventBody → Text → Text → Result LogError Staged
  unfolding writer_redact late_redaction_warning
  stage session_id next_seq body ts ts_warning = do
    (redacted, raw, late) ← writer_redact body
    let event : LogEvent = record {
      seq = next_seq;
      ts = ts;
      session_id = session_id;
      body = redacted;
    }
    lines ← staged_lines event raw late ts_warning
    ok (record { event = event; lines = lines })

  abbrev pub extended : Result LogError Staged → List Line → Result LogError LogEvent × List Line
  extended (ok staged) lines = (ok staged.event, lines ++ staged.lines)
  extended (err e) lines = (err e, lines)

  -- `MemoryEventLog::append` on the lines of the log.
  unfoldable pub append_event :
      Text → EventBody → Text → Text → List Line → Result LogError LogEvent × List Line
  unfolding stage
  append_event session_id body ts ts_warning lines =
      extended (stage session_id (length lines) body ts ts_warning) lines

-- `EventLog::last_seq`
unfoldable pub last_seq : List Line → Option ℕ
last_seq lines = elim (last lines) [ none ↦ none | some l ↦ some l.event.seq ]

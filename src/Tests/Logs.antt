-- ===== src/Tests/Logs.antt =====
-- crates/kernel/src/log and state.rs on a log of three lines.
use grist_agent.Prelude.{
  zero, suc, ◌+◌, ℕ, ◌≡◌, ◌↔◌, refl, true, Option, none, some, List, [], ◌∷◌, ◌++◌, Memᴰ, ok, ◌==◌,
  if◌then◌else◌,
}
use grist_agent.Prelude.OrdMap.{OrdMap}
use grist_agent.Prelude.Order.{nat_order}
use grist_agent.Prelude.Text.{codes}
use grist_agent.Content.{Value, null, number, unsigned, object, member, end}
use grist_agent.State.{State, created}
use grist_agent.State.Migration.{
  Migrated, Step, version_of, migrate_to, migrate_to_current, migrate_to_sound, IsMigrated, IsRead,
  migrate_to-returns,
}
use grist_agent.Event.{EventBody, log_opened, recorded, recovered, live, checkpoint, user_input}
use grist_agent.Log.{Codec, LogEvent, append_event}
use grist_agent.Log.Reader.{effective, Decoding, restore, checkpoint_hash_of, parse_hash}
use grist_agent.Log.Effective.{IsVoided, effective_iff}
use grist_agent.Log.Restoring.{IsRestored, restore_sound}
use grist_agent.Log.File.{Decoder, ParsedLog, newline, parse_log, check_schema}
use grist_agent.Log.Parsing.{IsNumbered, IsLog, parse_log-IsLog}
use grist_agent.Log.Torn.{with_tail, parse_log-torn}
use grist_agent.Log.Appending.{Appends, append_event-Appends}

abbrev at_line : ℕ → EventBody → LogEvent
at_line n body = record { seq = n; ts = codes "t"; session_id = codes "s"; body = body }

abbrev opening : EventBody
opening = log_opened (record {
  event_schema_version = 1;
  state_schema_version = 1;
  kernel_version = codes "0.0.0";
  mode = live;
})

abbrev recovery : EventBody
recovery = recovered (record {
  checkpoint_hash = codes "b3:0";
  checkpoint_seq = 0;
  discarded_seq = some (record { from = 1; to = 1 });
  restored_status = created;
  tasks_cancelled = [];
  kernel_version = codes "0.0.0";
  event_schema_version = 1;
})

abbrev lost : LogEvent
lost = at_line 1 (recorded (codes "tool_call") null)

abbrev physical : List LogEvent
physical = at_line 0 opening ∷ lost ∷ at_line 2 recovery ∷ []

effective_iff_example :
    Memᴰ lost (effective physical) ↔ (Memᴰ lost physical × ¬ IsVoided physical lost.seq)
effective_iff_example = effective_iff physical lost

abbrev state : State
state = record {
  stable = record {
    schema_version = 1;
    turn = 0;
    session_status = created;
    messages = [];
    pending_tasks = [];
    profiles = record {
      model_profile_hash = codes "b3:m";
      agent_profile_hash = codes "b3:a";
      resolved_profile_hash = codes "b3:r";
      project_profile_hash = none;
      bundles_hash = none;
    };
    memory = none;
    notebook_path = none;
  };
  session_id = codes "s";
  created_at = codes "t";
  sandbox_policy_hash = codes "b3:p";
  sandbox_backend = codes "none";
}

abbrev versioned : ℕ → Value
versioned n = object (member (codes "schema_version") (number (unsigned n)) end)

abbrev raw_checkpoint : Value
raw_checkpoint = object (member (codes "state") (versioned 1) end)

abbrev saved : LogEvent
saved = at_line 1 (
    checkpoint (record {
      turn = 0;
      reason = user_input;
      session_status = created;
      state_hash = codes "b3:1";
      state = state;
    }))

abbrev decoding : Decoding
decoding = record { raw_hash = λ v. some (codes "b3:1"); from_value = λ v. some state; steps = [] }

abbrev payloads : ℕ → Option Value
payloads n = if n == 1 then some raw_checkpoint else none

abbrev restored : Migrated
restored = record { state = state; migrated = none }

restores :
    restore decoding payloads (at_line 0 opening ∷ saved ∷ []) (some (codes "b3:1"))
    ≡ ok (some restored)
unfolding restore checkpoint_hash_of parse_hash migrate_to_current migrate_to
restores = refl

restore_sound_example :
    IsRestored decoding payloads (at_line 0 opening ∷ saved ∷ []) (some (codes "b3:1")) restored
restore_sound_example =
    restore_sound decoding payloads (at_line 0 opening ∷ saved ∷ []) (some (codes "b3:1")) restored
      restores

-- A decoder that reads a line of one byte as an opening line with that number.
abbrev decoder : Decoder
decoder = record {
  envelope = λ bytes. elim bytes [
    | [] ↦ none
    | b ∷ bs ↦ some (record {
      seq = b;
      ts = codes "t";
      session_id = codes "s";
      kind = codes "log_opened";
      payload = null;
    })
  ];
  from_value = λ kind payload. some opening;
}

abbrev parsed : ParsedLog
parsed = record {
  lines =
      record { event = at_line 0 opening; raw_payload = null }
      ∷ record { event = at_line 1 opening; raw_payload = null }
      ∷ [];
  complete_len = 4;
  truncated_tail = true;
}

abbrev file : List ℕ
file = 0 ∷ newline ∷ 1 ∷ newline ∷ 2 ∷ []

parses : parse_log decoder file ≡ ok parsed
unfolding parse_log check_schema
parses = refl

parse_log-IsLog_example : IsNumbered 0 parsed.lines × IsLog parsed.lines
parse_log-IsLog_example = parse_log-IsLog decoder file parsed parses

parse_log-torn_example :
    parse_log decoder ((0 ∷ newline ∷ 1 ∷ []) ++ newline ∷ 2 ∷ [])
    ≡ with_tail true (parse_log decoder ((0 ∷ newline ∷ 1 ∷ []) ++ newline ∷ []))
parse_log-torn_example = parse_log-torn decoder (0 ∷ newline ∷ 1 ∷ []) (2 ∷ []) refl

-- A codec whose redactor finds one secret in every payload.
abbrev codec : Codec
codec = record {
  payload_value = λ body. some null;
  redact_value = λ v. (v, 1);
  from_value = λ kind v. some opening;
  kind = λ body. codes "log_opened";
}

append_event-Appends_example :
    Appends
      (codes "s")
      parsed.lines
      (append_event codec (codes "s") opening (codes "t") (codes "t") parsed.lines)
append_event-Appends_example =
    append_event-Appends codec (codes "s") opening (codes "t") (codes "t") parsed.lines
      (refl, (refl, tt))

abbrev steps : OrdMap ℕ Step
steps = (0, λ raw. ok (versioned 1)) ∷ []

abbrev migrated_state : Migrated
migrated_state = record { state = state; migrated = some (0, 1) }

migrates : migrate_to (λ v. some state) steps 1 (versioned 0) ≡ ok migrated_state
unfolding migrate_to
migrates = refl

migrate_to_sound_example :
    (found : ℕ) × (version_of (versioned 0) ≡ some found)
    × IsMigrated (λ v. some state) 1 found migrated_state
migrate_to_sound_example =
    migrate_to_sound (λ v. some state) steps 1 (versioned 0) migrated_state migrates

-- A reader that takes only JSON of version 1, and steps that the state climbs by.
abbrev read_version : Option ℕ → Option State
read_version (some (suc zero)) = some state
read_version _ = none

abbrev reader : Value → Option State
reader v = read_version (version_of v)

migrate_to-returns_example :
    IsRead reader 0 (0 + 1) (versioned 1) (migrate_to reader steps (0 + 1) (versioned 0))
migrate_to-returns_example =
    migrate_to-returns reader steps 1 0 (versioned 0) (versioned 1) refl
      (_, versioned 1, refl, refl, refl, refl)

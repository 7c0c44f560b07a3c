-- ===== src/Log/Reader.antt =====
-- crates/kernel/src/log/mod.rs `reader`: the effective log, its checkpoints and `restore`.
use grist_agent.Prelude.{
  ℕ, Bool, true, false, not, ◌&&◌, ◌||◌, Option, none, some, List, [], ◌∷◌, ◌++◌, reverse, any, all,
  keep, find, last, leb, ◌==◌, if◌then◌else◌, Result, ok, err, ◌>>=◌, ok_or,
}
use grist_agent.Prelude.Order.{nat_order}
use grist_agent.Prelude.Sort.{sort}
use grist_agent.Prelude.OrdMap.{OrdMap}
use grist_agent.Prelude.Text.{Text, codes, same, strip_prefix, byte_len}
use grist_agent.Content.{Value, value_get, as_str}
use grist_agent.State.{State, idle}
use grist_agent.State.Migration.{Step, MigrationError, Migrated, migrate_to_current}
use grist_agent.Event.{
  EventBody, checkpoint, suspended, session_failed, session_ended, recovered, unknown, SeqRange,
  CheckpointPayload,
}
use grist_agent.Log.Errors.{RestoreError, not_found, hash_mismatch, migration, log_failure}
use grist_agent.Log.{LogEvent, Line, io_error}

abbrev pub range_of : Option SeqRange → List (ℕ × ℕ)
range_of none = []
range_of (some r) = (r.from, r.to) ∷ []

-- The range that a line voids, if it voids one.
abbrev pub voided_by : EventBody → List (ℕ × ℕ)
voided_by (recovered p) = range_of p.discarded_seq
voided_by _ = []

abbrev pub voided : List LogEvent → List (ℕ × ℕ)
voided [] = []
voided (e ∷ es) = voided_by e.body ++ voided es

-- The order of pairs.
abbrev range_le : ℕ × ℕ → ℕ × ℕ → Bool
range_le (a, b) (c, d) = if a == c then leb b d else leb a c

-- `reader::discarded_seqs`
unfoldable pub discarded_seqs : List LogEvent → List (ℕ × ℕ)
discarded_seqs events = sort range_le (voided events)

abbrev pub in_range : ℕ → ℕ × ℕ → Bool
in_range seq (from, to) = leb from seq && leb seq to

-- `reader::is_discarded`
unfoldable pub is_discarded : List (ℕ × ℕ) → ℕ → Bool
is_discarded ranges seq = any (in_range seq) ranges

-- `reader::effective`
unfoldable pub effective : List LogEvent → List LogEvent
unfolding discarded_seqs is_discarded
effective events = keep (λ e. not (is_discarded (discarded_seqs events) e.seq)) events

abbrev checkpoint_in : LogEvent → EventBody → Option (LogEvent × CheckpointPayload)
checkpoint_in e (checkpoint c) = some (e, c)
checkpoint_in e _ = none

abbrev pub find_map {ℓ κ} : {A : Type ℓ} {B : Type κ} → (A → Option B) → List A → Option B
find_map f [] = none
find_map f (x ∷ xs) = elim (f x) [ none ↦ find_map f xs | some b ↦ some b ]

-- `reader::latest_checkpoint`
unfoldable pub latest_checkpoint : List LogEvent → Option (LogEvent × CheckpointPayload)
latest_checkpoint events = find_map (λ e. checkpoint_in e e.body) (reverse events)

abbrev is_hex : ℕ → Bool
is_hex c = (leb b'0' c && leb c b'9') || (leb b'a' c && leb c b'f')

abbrev hex_hash : Text → Text → Option Text
hex_hash s hex = if byte_len hex == 64 && all is_hex hex then some s else none

-- `Hash::parse`
unfoldable pub parse_hash : Text → Option Text
parse_hash s = elim (strip_prefix (codes "b3:") s) [ none ↦ none | some hex ↦ hex_hash s hex ]

abbrev hash_in : Option Value → Option Text
hash_in none = none
hash_in (some v) = elim (as_str v) [ none ↦ none | some s ↦ parse_hash s ]

abbrev body_hash : EventBody → Option Text
body_hash (checkpoint c) = some c.state_hash
body_hash (unknown kind payload) =
    if same kind (codes "checkpoint")
    then hash_in (value_get (codes "state_hash") payload)
    else none
body_hash _ = none

-- `reader::checkpoint_hash_of`
unfoldable pub checkpoint_hash_of : LogEvent → Option Text
unfolding parse_hash
checkpoint_hash_of e = body_hash e.body

abbrev is_idle_text : Option Value → Bool
is_idle_text none = false
is_idle_text (some v) = elim (as_str v) [ none ↦ false | some s ↦ same s (codes "idle") ]

abbrev is_clean_end : EventBody → Bool
is_clean_end (suspended p) = true
is_clean_end (session_ended p) = true
is_clean_end (session_failed p) = true
is_clean_end (checkpoint c) = elim c.session_status [ idle ↦ true | _ ↦ false ]
is_clean_end (unknown kind payload) =
    same kind (codes "checkpoint") && is_idle_text (value_get (codes "session_status") payload)
is_clean_end _ = false

-- `reader::ends_cleanly`
unfoldable pub ends_cleanly : List LogEvent → Bool
ends_cleanly events = elim (last events) [ none ↦ false | some e ↦ is_clean_end e.body ]

-- The test of `restore`: the hash of a checkpoint, if it is the one that is wanted.
abbrev pub wanted : Option Text → Text → Option Text
wanted none h = some h
wanted (some want) h = if same want h then some h else none

abbrev pub candidate : Option Text → LogEvent → Option (ℕ × Text)
candidate want e = elim (checkpoint_hash_of e) [
  | none ↦ none
  | some h ↦ elim (wanted want h) [ none ↦ none | some g ↦ some (e.seq, g) ]
]

-- What `restore` is given: the digest of a raw state, and the deserialization into `State`.
pub record Decoding : Type 0 where
  pub raw_hash : Value → Option Text
  pub from_value : Value → Option State
  pub steps : OrdMap ℕ Step

module _ (d : Decoding) (raw_payload_of : ℕ → Option Value) where
  abbrev pub migrated : Result MigrationError Migrated → Result RestoreError (Option Migrated)
  migrated (ok m) = ok (some m)
  migrated (err e) = err (migration e)

  abbrev pub restore_from : ℕ × Text → Result RestoreError (Option Migrated)
  restore_from (seq, recorded_hash) = do
    raw ← ok_or (not_found recorded_hash) (raw_payload_of seq)
    raw_state ← ok_or (not_found recorded_hash) (value_get (codes "state") raw)
    computed ← ok_or (log_failure io_error) (d.raw_hash raw_state)
    if same computed recorded_hash
        then migrated (migrate_to_current d.from_value d.steps raw_state)
        else err (hash_mismatch recorded_hash computed)

  abbrev pub restore_found : Option (ℕ × Text) → Option Text → Result RestoreError (Option Migrated)
  restore_found none none = ok none
  restore_found none (some h) = err (not_found h)
  restore_found (some found) want = restore_from found

  -- `reader::restore`
  unfoldable pub restore : List LogEvent → Option Text → Result RestoreError (Option Migrated)
  unfolding checkpoint_hash_of migrate_to_current
  restore events want = restore_found (find_map (candidate want) (reverse events)) want

-- `SnapshotReader::raw_payload`
unfoldable pub raw_payload : List Line → ℕ → Option Value
raw_payload lines seq = elim (find (λ l. l.event.seq == seq) lines) [
  | none ↦ none
  | some l ↦ some l.raw_payload
]

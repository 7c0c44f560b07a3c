-- ===== src/Kernel/Spill.antt =====
-- crates/kernel/src/loop_/spill.rs, with the settings of crates/kernel/src/config.rs: oversized
-- results go to the artifact store. The store (an artifact's handle, or its error), the canonical
-- text of a JSON value and the text that `to_string` makes of one are parameters.
pub mod Contents
pub mod Units
use grist_agent.Prelude.{
  ℕ, zero, suc, ◌+◌, ◌-◌, ◌*◌, min, max, Bool, true, false, not, Option, none, some, List, [], ◌∷◌,
  ◌++◌, if◌then◌else◌, ltb, leb, ◌==◌, Result, ok, err,
}
use grist_agent.Prelude.Text.{Text, codes, byte_len, utf8_len}
use grist_agent.Content.{
  Value, object, member, end, string, number, unsigned, ContentBlock, text, ToolResultContent, json,
  blocks, ContentBlocks, no_blocks, block,
}
use grist_agent.Tool.{ToolOutput, TaskHandle}
use grist_agent.Event.{SpillRef, WarningPayload, kernel_warning}

pub record SpillConfig : Type 0 where
  pub cap_bytes : ℕ
  pub head_bytes : ℕ
  pub tail_bytes : ℕ

abbrev min_cap_bytes : ℕ
min_cap_bytes = 1024

abbrev max_cap_bytes : ℕ
max_cap_bytes = 1024 * 1024

-- `SpillConfig::clamped`
unfoldable pub clamped : SpillConfig → SpillConfig × Bool
clamped cfg =
    let cap = min max_cap_bytes (max min_cap_bytes cfg.cap_bytes) in
    (record cfg { cap_bytes = cap }, not (cap == cfg.cap_bytes))

-- The first `n` bytes, cut back to the end of a code point.
unfoldable pub head_utf8 : Text → ℕ → Text
head_utf8 [] n = []
head_utf8 (c ∷ s) n =
    let rest = head_utf8 s (n - utf8_len c) in if leb (utf8_len c) n then c ∷ rest else []

-- What is left of a text after at least `skip` bytes, cut forward to the start of a code point.
unfoldable pub skip_utf8 : Text → ℕ → Text
skip_utf8 [] skip = []
skip_utf8 (c ∷ s) zero = c ∷ s
skip_utf8 (c ∷ s) (suc skip) = skip_utf8 s (suc skip - utf8_len c)

-- `tail_utf8`: the last `n` bytes.
unfoldable pub tail_utf8 : Text → ℕ → Text
unfolding skip_utf8
tail_utf8 s n = skip_utf8 s (byte_len s - n)

pub record Spilled : Type 0 where
  pub handle : Text
  pub head : Text
  pub tail : Text
  pub size : ℕ
  pub mime : Text

-- `Unit`: one oversized text, and what became of it.
pub data Kept : Type 0 where
  stored : Spilled → Kept
  store_failed : Text → Text → ℕ → Text → Text → Kept

abbrev count_value : ℕ → Value
count_value n = number (unsigned n)

-- `serde_json::to_value` of a `Spilled`.
abbrev pub spilled_value : Spilled → Value
spilled_value s = object (
    member (codes "handle") (string s.handle) (
      member (codes "head") (string s.head) (
        member (codes "mime") (string s.mime) (
          member (codes "size") (count_value s.size) (member (codes "tail") (string s.tail) end)))))

abbrev pub failure_value : Text → Text → ℕ → Text → Value
failure_value head tail size mime = object (
    member (codes "error") (string (codes "spill store failed; oversized result was not stored")) (
      member (codes "head") (string head) (
        member (codes "mime") (string mime)
          (member (codes "size") (count_value size) (member (codes "tail") (string tail) end)))))

pub record Oversized : Type 0 where
  pub index : ℕ
  pub text : Text
  pub mime : Text

abbrev pub json_mime : Text
json_mime = codes "application/json"

abbrev pub text_mime : Text
text_mime = codes "text/plain; charset=utf-8"

abbrev pub set_block : ℕ → ContentBlock → ContentBlocks → ContentBlocks
set_block i b no_blocks = no_blocks
set_block zero b (block c cs) = block b cs
set_block (suc i) b (block c cs) = block c (set_block i b cs)

-- The results of `apply`, while its loop runs.
pub record Spilling : Type 0 where
  pub out : ToolOutput
  pub spill_ref : Option SpillRef
  pub warnings : List WarningPayload

abbrev pub first_ref : Option SpillRef → SpillRef → Option SpillRef
first_ref none r = some r
first_ref (some q) r = some q

module _ (canonical : Value → Option Text) (cfg : SpillConfig) where
  abbrev pub oversized_json : Option Text → List Oversized
  oversized_json none = []
  oversized_json (some bytes) =
      if ltb cfg.cap_bytes (byte_len bytes)
      then record { index = 0; text = bytes; mime = json_mime } ∷ []
      else []

  abbrev pub oversized_block : ℕ → ContentBlock → List Oversized → List Oversized
  oversized_block i (text t) rest =
      if ltb cfg.cap_bytes (byte_len t)
      then record { index = i; text = t; mime = text_mime } ∷ rest
      else rest
  oversized_block i _ rest = rest

  abbrev pub oversized_blocks : ℕ → ContentBlocks → List Oversized
  oversized_blocks i no_blocks = []
  oversized_blocks i (block b bs) = oversized_block i b (oversized_blocks (i + 1) bs)

  -- The units to spill.
  unfoldable pub oversized : ToolResultContent → List Oversized
  oversized (json v) = oversized_json (canonical v)
  oversized (blocks bs) = oversized_blocks 0 bs

module _ (put : Text → Text → Result Text Text) (to_text : Value → Text) (cfg : SpillConfig)
    (turn : ℕ) where
  abbrev pub kept_as : Text → Text → ℕ → Text → Result Text Text → Kept
  kept_as head tail size mime (ok handle) =
      stored (record { handle = handle; head = head; tail = tail; size = size; mime = mime })
  kept_as head tail size mime (err e) = store_failed head tail size mime e

  -- `spill_unit`
  unfoldable pub spill_unit : Text → Text → Kept
  unfolding head_utf8 tail_utf8
  spill_unit t mime =
      kept_as (head_utf8 t cfg.head_bytes) (tail_utf8 t cfg.tail_bytes) (byte_len t) mime
        (put t mime)

  abbrev pub replaced : ℕ → Value → ToolResultContent → ToolResultContent
  replaced i v (json w) = json v
  replaced i v (blocks bs) = blocks (set_block i (text (to_text v)) bs)

  abbrev pub replace_in : ℕ → Value → ToolOutput → ToolOutput
  replace_in i v out = record out { spilled = true; content = replaced i v out.content }

  -- The body of the loop, on what became of the unit.
  abbrev pub note_kept : ℕ → Kept → Spilling → Spilling
  note_kept i (stored s) r = record {
    out =
        replace_in i (spilled_value s)
          (record r.out { artifact_handles = r.out.artifact_handles ++ s.handle ∷ [] });
    spill_ref = first_ref r.spill_ref (record { handle = s.handle; size = s.size; mime = s.mime });
    warnings = r.warnings;
  }
  note_kept i (store_failed head tail size mime e) r = record {
    out = replace_in i (failure_value head tail size mime) (record r.out { is_error = true });
    spill_ref = r.spill_ref;
    warnings =
        r.warnings
        ++ kernel_warning turn (codes "spill_store_failed")
            (codes "artifact store refused a spilled result: " ++ e)
            (some (
              object (
                member (codes "mime") (string mime)
                  (member (codes "size") (count_value size) end))))
          ∷ [];
  }

  unfoldable pub spill_units : List Oversized → Spilling → Spilling
  unfolding spill_unit kernel_warning
  spill_units [] r = r
  spill_units (u ∷ us) r = spill_units us (note_kept u.index (spill_unit u.text u.mime) r)

  abbrev pub apply_without_task : (Value → Option Text) → Option TaskHandle → ToolOutput → Spilling
  apply_without_task canonical (some h) out = record { out = out; spill_ref = none; warnings = [] }
  apply_without_task canonical none out =
      spill_units (oversized canonical cfg out.content)
        (record { out = out; spill_ref = none; warnings = [] })

  -- `spill::apply`
  unfoldable pub apply : (Value → Option Text) → ToolOutput → Spilling
  unfolding spill_units
  apply canonical out = apply_without_task canonical out.task out

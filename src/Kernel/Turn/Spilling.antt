-- ===== src/Kernel/Turn/Spilling.antt =====
-- loop_/turn.rs and replay/mod.rs `recorded_spill_ref`: the spill of an output.
use grist_agent.Prelude.{ℕ, Bool, true, false, Option, none, some, List, [], ◌∷◌, if◌then◌else◌}
use grist_agent.Prelude.Exec.{pure, gets, ◌>>=◌, ◌>>◌}
use grist_agent.Content.{text, ContentBlocks, no_blocks, block, ToolResultContent, json, blocks}
use grist_agent.Tool.{ToolOutput}
use grist_agent.Event.{
  LoopPhase, before_tool, in_tool, after_tool, SpillRef, WarningPayload, tool_scope, kernel_warning,
}
use grist_agent.Event
use grist_agent.Kernel.Spill.{Spilled}
use grist_agent.Kernel.Spill
use grist_agent.Kernel.Turn.{TurnStep, Shared, log_event}

-- `replay::recorded_spill_ref`
abbrev ref_of : Spilled → SpillRef
ref_of s = record { handle = s.handle; size = s.size; mime = s.mime }

abbrev optional_ref : Option Spilled → Option SpillRef
optional_ref none = none
optional_ref (some s) = some (ref_of s)

module _ (sh : Shared) (turn : ℕ) where
  unfoldable pub log_warnings : List WarningPayload → TurnStep Unit
  unfolding log_event
  log_warnings [] = pure tt
  log_warnings (w ∷ ws) = do log_event sh (Event.warning w); log_warnings ws

  abbrev spilled_in_blocks : ContentBlocks → Option Spilled
  spilled_in_blocks no_blocks = none
  spilled_in_blocks (block (text s) bs) = elim (sh.spilled_in_text s) [
    | some r ↦ some r
    | none ↦ spilled_in_blocks bs
  ]
  spilled_in_blocks (block b bs) = spilled_in_blocks bs

  abbrev spilled_in : ToolResultContent → Option Spilled
  spilled_in (json v) = sh.spilled_in_value v
  spilled_in (blocks bs) = spilled_in_blocks bs

  unfoldable pub recorded_spill_ref : ToolOutput → Option SpillRef
  recorded_spill_ref out = if out.spilled then optional_ref (spilled_in out.content) else none

  -- A replayed output is kept; any other is spilled.
  unfoldable pub spilled : Bool → ToolOutput → TurnStep (ToolOutput × Option SpillRef)
  unfolding recorded_spill_ref log_warnings Spill.apply
  spilled true out = pure (out, recorded_spill_ref out)
  spilled false out = do
    r ← gets (λ s. Spill.apply (sh.put s) sh.to_text sh.spill turn sh.canonical out)
    log_warnings r.warnings
    pure (r.out, r.spill_ref)

-- ===== src/Tests/Spills.antt =====
-- Runs of the spilling, with a store that takes only texts that start with an `a`.
use grist_agent.Prelude.{false, Option, none, some, [], Result, ok, err, if◌then◌else◌}
use grist_agent.Prelude.Text.{Text, codes, starts_with}
use grist_agent.Content.{Value, string, text, blocks, block, no_blocks}
use grist_agent.Tool.{ToolOutput, by_invoke}
use grist_agent.Kernel.Spill
use grist_agent.Kernel.Spill.{SpillConfig, Spilling, oversized, spill_unit}
use grist_agent.Kernel.Spill.Units.{IsApplied, IsKept, apply-IsAccounted, spill_unit-IsKept}

abbrev settings : SpillConfig
settings = record { cap_bytes = 4; head_bytes = 2; tail_bytes = 3 }

abbrev put_short : Text → Text → Result Text Text
put_short t mime = if starts_with t (codes "a") then ok (codes "handle") else err (codes "full")

abbrev print : Value → Text
print (string s) = s
print v = []

abbrev print? : Value → Option Text
print? v = some (print v)

abbrev output : ToolOutput
output = record {
  content = blocks (
      block (text (codes "abcdef"))
        (block (text (codes "ok")) (block (text (codes "zéro zéro")) no_blocks)));
  is_error = false;
  artifact_handles = [];
  spilled = false;
  task = none;
  origin = by_invoke;
  in_process_waker = false;
}

apply-IsAccounted_example :
    IsApplied put_short print settings 7 print? none output
      (Spill.apply put_short print settings 7 print? output)
apply-IsAccounted_example = apply-IsAccounted put_short print settings 7 print? output

spill_unit-IsKept_example :
    IsKept settings
      (codes "zéro zéro")
      (spill_unit put_short print settings 7 (codes "zéro zéro") (codes "text"))
spill_unit-IsKept_example =
    spill_unit-IsKept put_short print settings 7 (codes "zéro zéro") (codes "text")

-- ===== src/Task.antt =====
-- crates/kernel/src/task.rs: tasks and the updates that wakers deliver. A `Duration` is its number
-- of nanoseconds.
use grist_agent.Prelude.{ℕ, Bool, true, false, not, Option, List}
use grist_agent.Prelude.Text.{Text}
use grist_agent.Content.{
  Value, ToolResultContent, TaskStatus, pending, running, succeeded, failed, cancelled,
}

-- `TaskStatus::is_terminal`
unfoldable pub is_terminal : TaskStatus → Bool
is_terminal pending = false
is_terminal running = false
is_terminal succeeded = true
is_terminal failed = true
is_terminal cancelled = true

pub record TaskOutcome : Type 0 where
  pub content : ToolResultContent
  pub is_error : Bool
  pub artifact_handles : List Text

pub data TrustTier : Type 0 where
  interactive scheduled inbound : TrustTier

pub record WakerSource : Type 0 where
  pub kind : Text
  pub trust_tier : Option TrustTier
  pub detail : Value

pub record TaskUpdate : Type 0 where
  pub id : Text
  pub status : TaskStatus
  pub outcome : Option TaskOutcome
  pub eta : Option ℕ
  pub check_hint : Option Value
  pub source : WakerSource

pub record Task : Type 0 where
  pub id : Text
  pub tool_use_id : Text
  pub tool_name : Text
  pub status : TaskStatus
  pub started_turn : ℕ
  pub completed_turn : Option ℕ
  pub eta : Option ℕ
  pub check_hint : Option Value
  pub description : Option Text
  pub outcome : Option TaskOutcome
  pub in_process_waker : Bool

-- `Task::is_open`
unfoldable pub is_open : Task → Bool
unfolding is_terminal
is_open t = not (is_terminal t.status)

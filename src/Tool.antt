-- ===== src/Tool.antt =====
-- crates/kernel/src/tool.rs, with the handle of crates/kernel/src/task.rs and the command of
-- crates/kernel/src/host.rs: what the kernel knows of a tool, and what an invocation gives back.
-- Running a tool is not modelled here. An artifact handle and a `Hash` are their texts.
use grist_agent.Prelude.{ℕ, Bool, false, ◌&&◌, ◌||◌, Option, List, [], ◌∷◌, all, leb, ◌==◌}
use grist_agent.Prelude.OrdMap.{OrdMap}
use grist_agent.Prelude.Text.{Text, byte_len, is_digit}
use grist_agent.Capability.{Capability}
use grist_agent.Capability.Paths.{PathBuf}
use grist_agent.Content.{Value, ContentBlocks, ToolResultContent, TaskStatus}

pub data ToolKind : Type 0 where
  stateless session : ToolKind

pub record ToolCall : Type 0 where
  pub tool_use_id : Text
  pub name : Text
  pub input : Value

pub record TaskHandle : Type 0 where
  pub id : Text
  pub status : TaskStatus
  pub eta : Option ℕ
  pub check_hint : Option Value
  pub description : Option Text

pub data ToolOutputOrigin : Type 0 where
  by_invoke by_middleware unregistered was_cancelled by_timeout : ToolOutputOrigin

pub record ToolOutput : Type 0 where
  pub content : ToolResultContent
  pub is_error : Bool
  pub artifact_handles : List Text
  pub spilled : Bool
  pub task : Option TaskHandle
  pub origin : ToolOutputOrigin
  pub in_process_waker : Bool

pub data ToolResult : Type 0 where
  value : Value → ToolResult
  blocks : ContentBlocks → ToolResult
  task : TaskHandle → ToolResult
  replayed : ToolOutput → ToolResult

pub data ToolError : Type 0 where
  invalid_input tool_failed denied : Text → ToolError
  timed_out : ℕ → ToolError
  call_cancelled : ToolError
  invalid_task_handle : Text → ToolError
  replay_miss : Text → Text → ToolError
  internal_error : Text → ToolError

pub record ToolDefinition : Type 0 where
  pub name : Text
  pub description : Text
  pub input_schema : Value

pub record Command : Type 0 where
  pub program : Text
  pub args : List Text
  pub cwd : Option PathBuf
  pub env : OrdMap Text Text
  pub stdin : Option (List ℕ)

-- The methods of `Tool` that tell what the tool is.
pub record Tool : Type 0 where
  pub name : Text
  pub description : Text
  pub schema : Value
  pub kind : ToolKind
  pub capabilities : List Capability
  pub session_command : Option Command

-- `Tool::definition`
abbrev pub definition : Tool → ToolDefinition
definition t = record { name = t.name; description = t.description; input_schema = t.schema }

abbrev pub is_lower : ℕ → Bool
is_lower c = leb b'a' c && leb c b'z'

abbrev pub is_name_byte : ℕ → Bool
is_name_byte c = is_lower c || is_digit c || c == b'_' || c == b'.' || c == b'-'

-- `is_valid_tool_name`: the bytes of a name that passes are its code points.
unfoldable pub is_valid_tool_name : Text → Bool
is_valid_tool_name [] = false
is_valid_tool_name (c ∷ s) = is_lower c && leb (byte_len (c ∷ s)) 64 && all is_name_byte s

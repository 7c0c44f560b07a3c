-- ===== src/Event/Calls.antt =====
-- crates/kernel/src/event.rs: the payloads of the events of a turn's model and tool calls.
use grist_agent.Prelude.{ℕ, Bool, Option, List}
use grist_agent.Prelude.Text.{Text}
use grist_agent.Capability.{Capability}
use grist_agent.Content.{Value, ContentBlock, ToolResultContent, TaskStatus}
use grist_agent.State.{ActiveProfiles}
use grist_agent.Tool.{ToolKind, ToolOutputOrigin}
use grist_agent.ModelCall.{PromptBlockKind, StopReason, Usage}

pub record PromptBlockRef : Type 0 where
  pub kind : PromptBlockKind
  pub name : Text
  pub hash : Text

pub record ModelRequestPayload : Type 0 where
  pub turn : ℕ
  pub request_hash : Text
  pub checkpoint_hash : Text
  pub model_id : Text
  pub profiles : ActiveProfiles
  pub system_prompt_hash : Text
  pub prompt_blocks : List PromptBlockRef
  pub message_count : ℕ
  pub tool_names : List Text
  pub params_hash : Text

pub record ModelResponsePayload : Type 0 where
  pub turn : ℕ
  pub request_hash : Text
  pub response_hash : Text
  pub raw_response_hash : Text
  pub model_id : Text
  pub stop_reason : StopReason
  pub usage : Usage
  pub content : List ContentBlock
  pub attempts : ℕ

pub record ToolCallPayload : Type 0 where
  pub turn : ℕ
  pub tool_use_id : Text
  pub name : Text
  pub args_hash : Text
  pub request_hash : Text
  pub checkpoint_hash : Text
  pub input : Value
  pub registered : Bool
  pub kind : Option ToolKind
  pub capabilities : List Capability
  pub policy_hash : Option Text

pub record SpillRef : Type 0 where
  pub handle : Text
  pub size : ℕ
  pub mime : Text

pub record TaskRef : Type 0 where
  pub task_id : Text
  pub status : TaskStatus

pub record ToolResultPayload : Type 0 where
  pub turn : ℕ
  pub tool_use_id : Text
  pub name : Text
  pub result_hash : Text
  pub is_error : Bool
  pub content : ToolResultContent
  pub artifact_handles : List Text
  pub spilled : Bool
  pub spill : Option SpillRef
  pub duration_ms : ℕ
  pub origin : ToolOutputOrigin
  pub task : Option TaskRef

pub record TaskStartedPayload : Type 0 where
  pub turn : ℕ
  pub task_id : Text
  pub tool_use_id : Text
  pub tool_name : Text
  pub status : TaskStatus
  pub eta_secs : Option ℕ
  pub description : Option Text
  pub check_hint : Option Value
  pub in_process_waker : Bool

pub record CompactionPayload : Type 0 where
  pub turn : ℕ
  pub strategy : Text
  pub before_state_hash : Text
  pub after_state_hash : Text
  pub notebook_hash : Option Text
  pub messages_before : ℕ
  pub messages_after : ℕ
  pub tokens_before : Option ℕ
  pub summary_artifact : Option Text

pub record AskUserPayload : Type 0 where
  pub turn : ℕ
  pub tool_use_id : Text
  pub question_id : Text
  pub question : Text
  pub options : List Text
  pub allow_free_text : Bool

pub record UserAnswerPayload : Type 0 where
  pub turn : ℕ
  pub tool_use_id : Text
  pub question_id : Text
  pub answer : Option Text
  pub declined : Bool

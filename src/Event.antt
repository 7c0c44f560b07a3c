-- ===== src/Event.antt =====
-- crates/kernel/src/event.rs: the events of a session's log. A kind that the modelled code neither
-- writes nor reads is `recorded`, with its payload as JSON.
mod Calls
pub use Calls.*
use grist_agent.Prelude.{ℕ, Bool, Option, List}
use grist_agent.Prelude.Text.{Text, codes}
use grist_agent.Content.{Value, ContentBlock, TaskStatus}
use grist_agent.Task.{TaskOutcome, WakerSource}
use grist_agent.State.{SessionStatus, State}

pub data LogMode : Type 0 where
  live replay : LogMode

pub record LogOpenedPayload : Type 0 where
  pub event_schema_version : ℕ
  pub state_schema_version : ℕ
  pub kernel_version : Text
  pub mode : LogMode

pub data AppliedPoint : Type 0 where
  at_created at_idle at_suspended at_failed at_end_of_turn at_ignored : AppliedPoint

pub record AppliedAt : Type 0 where
  pub turn : ℕ
  pub at : AppliedPoint

pub record UserMessagePayload : Type 0 where
  pub turn : ℕ
  pub applied : AppliedAt
  pub content : List ContentBlock

pub record TaskUpdatePayload : Type 0 where
  pub turn : ℕ
  pub task_id : Text
  pub from_status : Option TaskStatus
  pub status : TaskStatus
  pub outcome : Option TaskOutcome
  pub eta_secs : Option ℕ
  pub check_hint : Option Value
  pub waker : WakerSource
  pub applied : AppliedAt
  pub ignored_reason : Option Text

pub data CancelScopeKind : Type 0 where
  turn_scope tool_scope task_scope : CancelScopeKind

pub data LoopPhase : Type 0 where
  before_model model_call after_model before_tool in_tool after_tool idle_phase : LoopPhase

pub record CancelledPayload : Type 0 where
  pub turn : ℕ
  pub scope : CancelScopeKind
  pub tool_use_id : Option Text
  pub task_id : Option Text
  pub phase : LoopPhase
  pub signalled : Bool
  pub skipped_tool_use_ids : List Text

pub data CheckpointReason : Type 0 where
  user_input turn_end task_updated resume recovery compaction cancel failure ended suspend :
      CheckpointReason

pub record CheckpointPayload : Type 0 where
  pub turn : ℕ
  pub reason : CheckpointReason
  pub session_status : SessionStatus
  pub state_hash : Text
  pub state : State

pub data SuspendReason : Type 0 where
  pending_tasks explicit : SuspendReason

pub record SuspendedPayload : Type 0 where
  pub turn : ℕ
  pub reason : SuspendReason
  pub pending_task_ids : List Text
  pub in_process_wakers : ℕ
  pub checkpoint_hash : Text

pub data ResumeCauseKind : Type 0 where
  by_task_update by_user_message by_operator : ResumeCauseKind

pub record ResumedPayload : Type 0 where
  pub from_checkpoint_hash : Text
  pub from_checkpoint_seq : ℕ
  pub from_status : SessionStatus
  pub cause : ResumeCauseKind
  pub waker : Option WakerSource
  pub new_process : Bool
  pub kernel_version : Text
  pub event_schema_version : ℕ

pub record SeqRange : Type 0 where
  pub from : ℕ
  pub to : ℕ

pub record RecoveredPayload : Type 0 where
  pub checkpoint_hash : Text
  pub checkpoint_seq : ℕ
  pub discarded_seq : Option SeqRange
  pub restored_status : SessionStatus
  pub tasks_cancelled : List Text
  pub kernel_version : Text
  pub event_schema_version : ℕ

pub data EndedBy : Type 0 where
  ended_by_user ended_by_operator ended_by_parent : EndedBy

pub record SessionEndedPayload : Type 0 where
  pub turn : ℕ
  pub by : EndedBy
  pub checkpoint_hash : Text
  pub cancelled_task_ids : List Text

pub record SessionFailedPayload : Type 0 where
  pub turn : ℕ
  pub cause_seq : ℕ
  pub error_class : Text
  pub checkpoint_hash : Text
  pub resumable : Bool

pub record TurnFailedPayload : Type 0 where
  pub turn : ℕ
  pub error_class : Text
  pub attempts : ℕ
  pub message : Text
  pub middleware : Option Text
  pub hook : Option Text

pub record WarningPayload : Type 0 where
  pub turn : ℕ
  pub class : Text
  pub message : Text
  pub detail : Option Value
  pub source : Text

pub record ProviderRetryPayload : Type 0 where
  pub turn : ℕ
  pub attempt : ℕ
  pub error_class : Text
  pub message : Text
  pub delay_ms : ℕ

pub data EventBody : Type 0 where
  log_opened : LogOpenedPayload → EventBody
  user_message : UserMessagePayload → EventBody
  task_update : TaskUpdatePayload → EventBody
  checkpoint : CheckpointPayload → EventBody
  suspended : SuspendedPayload → EventBody
  resumed : ResumedPayload → EventBody
  cancelled : CancelledPayload → EventBody
  turn_failed : TurnFailedPayload → EventBody
  session_failed : SessionFailedPayload → EventBody
  session_ended : SessionEndedPayload → EventBody
  recovered : RecoveredPayload → EventBody
  provider_retry : ProviderRetryPayload → EventBody
  model_request : ModelRequestPayload → EventBody
  model_response : ModelResponsePayload → EventBody
  tool_call : ToolCallPayload → EventBody
  tool_result : ToolResultPayload → EventBody
  task_started : TaskStartedPayload → EventBody
  compaction : CompactionPayload → EventBody
  ask_user : AskUserPayload → EventBody
  user_answer : UserAnswerPayload → EventBody
  warning : WarningPayload → EventBody
  recorded : Text → Value → EventBody
  unknown : Text → Value → EventBody

-- `WarningPayload::kernel`
unfoldable pub kernel_warning : ℕ → Text → Text → Option Value → WarningPayload
kernel_warning turn class message detail = record {
  turn = turn;
  class = class;
  message = message;
  detail = detail;
  source = codes "kernel";
}

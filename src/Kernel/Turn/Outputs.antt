-- ===== src/Kernel/Turn/Outputs.antt =====
-- loop_/turn.rs: the output that the result of an invocation becomes (E6), and the end of a tool
-- call (E8 to E10). The text of an error that another error wraps is not kept.
use grist_agent.Prelude.{
  ℕ, Bool, true, false, not, ◌&&◌, Option, none, some, List, [], ◌∷◌, ◌++◌, any, if◌then◌else◌,
  Result, ok, err,
}
use grist_agent.Prelude.Exec.{pure, gets, modify, ◌>>=◌, ◌>>◌}
use grist_agent.Prelude.OrdMap
use grist_agent.Prelude.Order.{nat_order, list_order}
use grist_agent.Prelude.Text.{Text, codes, same, decimal}
use grist_agent.Content.{
  Value, object, member, end, string, number, unsigned, null, image, tool_result, ContentBlocks,
  no_blocks, block, ToolResultContent, json, blocks, is_valid, TaskStatus, pending, running,
  Message, tool_role,
}
use grist_agent.Task.{Task}
use grist_agent.Tool.{
  ToolCall, TaskHandle, ToolOutput, ToolOutputOrigin, was_cancelled, ToolResult, value, task,
  replayed, ToolError, invalid_input, call_cancelled, invalid_task_handle, replay_miss,
}
use grist_agent.Tool
use grist_agent.Event.{SpillRef, TaskRef}
use grist_agent.Event
use grist_agent.Kernel.{Kernel, with_stable, push_message}
use grist_agent.Kernel.Tasks.{status_text, as_secs}
use grist_agent.Kernel.Turn.{Session, TurnStep, Shared, with_kernel, log_event, hashed}

-- The id of the task that a call may start.
abbrev pub call_task_id : ℕ → Text → Text
call_task_id turn id = codes "t" ++ (decimal turn ++ (codes "-" ++ id))

abbrev pub plain_output : ToolResultContent → Bool → ToolOutputOrigin → ToolOutput
plain_output content is_error origin = record {
  content = content;
  is_error = is_error;
  artifact_handles = [];
  spilled = false;
  task = none;
  origin = origin;
  in_process_waker = false;
}

-- `error_output`
abbrev pub error_output : Text → ToolOutputOrigin → ToolOutput
error_output msg origin =
    plain_output (json (object (member (codes "error") (string msg) end))) true origin

-- `cancelled_output`
unfoldable pub cancelled_output : ToolOutput
cancelled_output =
    plain_output (json (object (member (codes "cancelled") (Value.boolean true) end))) true
      was_cancelled

abbrev handles_in : ContentBlocks → List Text
handles_in no_blocks = []
handles_in (block (image handle mime) bs) = handle ∷ handles_in bs
handles_in (block b bs) = handles_in bs

abbrev is_open_status : TaskStatus → Bool
is_open_status pending = true
is_open_status running = true
is_open_status _ = false

abbrev optional_text : Option Text → Value
optional_text none = null
optional_text (some s) = string s

abbrev optional_count : Option ℕ → Value
optional_count none = null
optional_count (some n) = number (unsigned n)

abbrev handle_value : TaskHandle → Value
handle_value h = object (
    member (codes "description") (optional_text h.description) (
      member (codes "eta_secs") (optional_count (as_secs h.eta)) (
        member (codes "status") (string (status_text h.status))
          (member (codes "task_id") (string h.id) end))))

-- What a result is normalized to: an output, a cancellation by the tool, or the end of the turn.
pub data Normal : Type 0 where
  output : ToolOutput → Normal
  cancelled_result : Normal
  missed : Text → Text → Normal

module _ (sh : Shared) (origin : ToolOutputOrigin) where
  abbrev refused : ToolError → Normal
  refused e = output (error_output (sh.tool_error_text e) origin)

  abbrev normal_value : Value → Option Text → Normal
  normal_value v (some h) = output (plain_output (json v) false origin)
  normal_value v none = refused (invalid_input (codes "result is not canonicalizable"))

  abbrev is_hashable : Option Text → Bool
  is_hashable none = false
  is_hashable (some h) = true

  abbrev normal_blocks : ContentBlocks → Normal
  normal_blocks bs =
      if is_valid (blocks bs) && is_hashable (sh.hash_content (blocks bs))
      then output
          (record (plain_output (blocks bs) false origin) { artifact_handles = handles_in bs })
      else refused (invalid_input (codes "tool result blocks must be Text or Image"))

  abbrev pub normal_task : Text → TaskHandle → Normal
  normal_task id h =
      if not (is_open_status h.status)
      then refused
          (invalid_task_handle (codes "status " ++ (status_text h.status ++ codes " is terminal")))
      else if not (same h.id id)
      then refused (invalid_task_handle (codes "id " ++ (h.id ++ (codes " does not match " ++ id))))
      else output (record (plain_output (json (handle_value h)) false origin) { task = some h })

  -- The match of E6, where the call may start the task `id`.
  unfoldable pub normalized : Text → Result ToolError ToolResult → Normal
  unfolding is_valid
  normalized id (ok (replayed o)) = output o
  normalized id (ok (value v)) = normal_value v (sh.canonical v)
  normalized id (ok (Tool.blocks bs)) = normal_blocks bs
  normalized id (ok (task h)) = normal_task id h
  normalized id (err call_cancelled) = cancelled_result
  normalized id (err (replay_miss tool request)) = missed tool request
  normalized id (err e) = refused e

abbrev task_ref : Option TaskHandle → Option TaskRef
task_ref none = none
task_ref (some h) = some (record { task_id = h.id; status = h.status })

-- The `Tool` message of an output.
abbrev pub output_message : Text → ToolOutput → Message
output_message id out = record {
  role = tool_role;
  content = tool_result id out.content out.is_error ∷ [];
}

abbrev put_task : Task → Kernel → Kernel
put_task t = with_stable (λ st. record st { pending_tasks = OrdMap.put t.id t st.pending_tasks })

abbrev pub was_watched : Text → Session → Bool
was_watched id s = any (same id) s.watched

-- E10.
abbrev pub start_task : Shared → ℕ → ToolCall → Option TaskHandle → TurnStep Unit
start_task sh turn call none = pure tt
start_task sh turn call (some h) = do
  waker ← gets (was_watched h.id)
  modify (
      with_kernel (
        put_task (record {
          id = h.id;
          tool_use_id = call.tool_use_id;
          tool_name = call.name;
          status = h.status;
          started_turn = turn;
          completed_turn = none;
          eta = h.eta;
          check_hint = h.check_hint;
          description = h.description;
          outcome = none;
          in_process_waker = waker;
        })))
  log_event sh (
      Event.task_started (record {
        turn = turn;
        task_id = h.id;
        tool_use_id = call.tool_use_id;
        tool_name = call.name;
        status = h.status;
        eta_secs = as_secs h.eta;
        description = h.description;
        check_hint = h.check_hint;
        in_process_waker = waker;
      }))

-- `Kernel::append_tool_output`
unfoldable pub append_tool_output :
    Shared → ℕ → ToolCall → ToolOutput → ℕ → Option SpillRef → TurnStep Unit
unfolding log_event hashed
append_tool_output sh turn call out duration_ms spill = do
  hash ← hashed sh (sh.hash_result out.content out.is_error)
  log_event sh (
      Event.tool_result (record {
        turn = turn;
        tool_use_id = call.tool_use_id;
        name = call.name;
        result_hash = hash;
        is_error = out.is_error;
        content = out.content;
        artifact_handles = out.artifact_handles;
        spilled = out.spilled;
        spill = spill;
        duration_ms = duration_ms;
        origin = out.origin;
        task = task_ref out.task;
      }))
  modify (with_kernel (push_message (output_message call.tool_use_id out)))
  start_task sh turn call out.task

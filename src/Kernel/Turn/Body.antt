-- ===== src/Kernel/Turn/Body.antt =====
-- loop_/turn.rs: the body of a turn, from the call of the model to its end (C to F).
use grist_agent.Prelude.{
  ℕ, ◌%◌, ◌^◌, Bool, true, false, Option, none, some, List, [], ◌∷◌, Result, ok, err,
}
use grist_agent.Prelude.Exec.{pure, raise, gets, modify, ◌>>=◌, ◌>>◌}
use grist_agent.Prelude.Text.{Text, codes}
use grist_agent.Content.{ContentBlock, Message, assistant}
use grist_agent.Task.{Task}
use grist_agent.State.{SessionStatus, running, suspended, idle, open_tasks}
use grist_agent.Tool.{ToolCall}
use grist_agent.ModelCall.{ModelRequest, ModelResponse, hashed_response, tool_calls}
use grist_agent.Event.{
  LoopPhase, before_model, model_call, after_model, CheckpointReason, PromptBlockRef, pending_tasks,
}
use grist_agent.Event
use grist_agent.Kernel.{
  Suspension, suspension, set_status, push_message, terminate_session_processes, checkpoint,
}
use grist_agent.Kernel.Lifecycle.{drain_inbox_end_of_turn}
use grist_agent.Kernel.Retry.{CallFailure, error_class, call_with_retry}
use grist_agent.Kernel.Turn.{
  Session, TurnStep, Shared, Abort, fail, fatal, failed_as, Middleware, with_kernel, lift, poll,
  check_cancel, abort_of, log_event, hashed, run_hook,
}
use grist_agent.Kernel.Turn.Calls.{run_tool_calls}
use grist_agent.Kernel.{Kernel}
use grist_agent.Kernel.Turn.Requests.{prepared_request}

-- `TurnOutcome`
pub data TurnOutcome : Type 0 where
  continues idles cancelled_turn : TurnOutcome
  suspends : Suspension → TurnOutcome
  fails : Text → TurnOutcome

abbrev abort_of_call : Shared → CallFailure → Abort
abort_of_call sh CallFailure.cancelled =
    Abort.cancelled (record { phase = model_call; in_flight = none; unanswered = [] })
abort_of_call sh (CallFailure.failed error attempts) = fail (record {
  class = error_class error;
  attempts = attempts;
  message = sh.redact_text (sh.provider_error_text error);
  middleware = none;
  hook = none;
})
abort_of_call sh (CallFailure.log_failed e) = abort_of sh e

abbrev pub call_result :
    {R : Type 0}
    → Shared
    → Session
    → Result CallFailure (R × ℕ) × Kernel
    → Result Abort (R × ℕ) × Session
call_result sh s (ok r, k) = (ok r, record s { kernel = k })
call_result sh s (err f, k) = (err (abort_of_call sh f), record s { kernel = k })

-- C: the call of the model, with its retries.
unfoldable pub call_model : Shared → ℕ → ModelRequest → TurnStep (ModelResponse × ℕ)
unfolding call_with_retry error_class
call_model sh turn req s =
    call_result sh s (call_with_retry (sh.attempts s req) turn sh.max_attempts s.kernel)

abbrev pub assistant_message : ModelResponse → Message
assistant_message resp = record { role = assistant; content = resp.content }

-- The status after a turn.
unfoldable pub next_status : Bool → List ToolCall → List Task → SessionStatus
next_status true calls tasks = running
next_status false (c ∷ cs) tasks = running
next_status false [] [] = idle
next_status false [] (t ∷ ts) = suspended

module _ (sh : Shared) where
  abbrev pub redacted_response : ModelResponse → Option (List ContentBlock) → TurnStep ModelResponse
  redacted_response resp none = raise (failed_as (codes "internal") (codes "redaction"))
  redacted_response resp (some content) = pure (record resp { content = content })

  -- D: the hooks after the model.
  unfoldable pub after_model_hooks : List Middleware → ModelResponse → TurnStep ModelResponse
  unfolding check_cancel poll run_hook
  after_model_hooks [] resp = pure resp
  after_model_hooks (m ∷ ms) resp = do
    check_cancel poll after_model
    r ← run_hook sh (λ s. m.after_model s resp)
    after_model_hooks ms r.1

  unfoldable pub log_response : ℕ → Text → ModelResponse → ℕ → TurnStep Unit
  unfolding log_event hashed
  log_response turn request_hash resp attempts = do
    response_hash ← hashed sh (sh.hash_response (hashed_response resp))
    log_event sh (
        Event.model_response (record {
          turn = turn;
          request_hash = request_hash;
          response_hash = response_hash;
          raw_response_hash = resp.raw_response_hash;
          model_id = resp.model_id;
          stop_reason = resp.stop_reason;
          usage = resp.usage;
          content = resp.content;
          attempts = attempts;
        }))

  -- C and D: the response, whose message joins the conversation.
  unfoldable pub received : ℕ → ModelRequest → Text → TurnStep ModelResponse
  unfolding call_model after_model_hooks log_response
  received turn req request_hash = do
    r ← call_model sh turn req
    resp ← redacted_response r.0 (sh.redact_blocks r.0.content)
    check_cancel poll after_model
    edited ← after_model_hooks sh.chain resp
    log_response turn request_hash edited r.1
    modify (with_kernel (push_message (assistant_message edited)))
    pure edited

  abbrev pub outcome_of : ℕ → SessionStatus → TurnStep TurnOutcome
  outcome_of turn suspended = do
    modify (with_kernel terminate_session_processes)
    s ← gets (λ s. suspension s.kernel)
    log_event sh (
        Event.suspended (record {
          turn = turn;
          reason = pending_tasks;
          pending_task_ids = s.pending_task_ids;
          in_process_wakers = s.in_process_wakers % 2 ^ 32;
          checkpoint_hash = s.checkpoint_hash;
        }))
    pure (suspends s)
  outcome_of turn idle = pure idles
  outcome_of turn _ = pure continues

  -- F: the boundary of the turn.
  unfoldable pub finish_turn : ℕ → List ToolCall → TurnStep TurnOutcome
  unfolding lift next_status log_event
  finish_turn turn calls = do
    drained ← lift (abort_of sh) (drain_inbox_end_of_turn sh.externals)
    next ← gets (λ s. next_status drained calls (open_tasks s.kernel.state.stable))
    modify (with_kernel (set_status next))
    lift fatal (checkpoint sh.externals CheckpointReason.turn_end)
    outcome_of turn next

  -- `Kernel::turn_body`
  unfoldable pub turn_body : TurnStep TurnOutcome
  unfolding prepared_request received run_tool_calls finish_turn
  turn_body = do
    turn ← gets (λ s. s.kernel.state.stable.turn)
    check_cancel poll before_model
    r ← prepared_request sh turn
    resp ← received turn r.0 r.1
    run_tool_calls sh turn (tool_calls resp)
    finish_turn turn (tool_calls resp)

-- ===== src/Kernel/Turn/Calls.antt =====
-- loop_/turn.rs: the tool calls of a turn, in order (E1 to E10).
use grist_agent.Prelude.{
  ℕ, Bool, true, false, Option, none, some, List, [], ◌∷◌, ◌++◌, if◌then◌else◌, Result, ok, err,
}
use grist_agent.Prelude.Exec.{pure, raise, gets, modify, ◌>>=◌, ◌>>◌}
use grist_agent.Prelude.Text.{Text, codes}
use grist_agent.Content.{object, member, end, string, json}
use grist_agent.Tool.{
  ToolCall, TaskHandle, ToolOutput, ToolOutputOrigin, by_invoke, by_middleware, unregistered,
  was_cancelled, by_timeout, ToolResult, replayed, ToolError, timed_out, call_cancelled,
}
use grist_agent.Event.{
  LoopPhase, before_tool, in_tool, after_tool, SpillRef, WarningPayload, tool_scope, kernel_warning,
}
use grist_agent.Event
use grist_agent.Kernel.{abort}
use grist_agent.Kernel.Registry.{RegistryEntry, get}
use grist_agent.Kernel.Turn.{
  Session, TurnStep, Shared, Abort, cancelled, failed_as, Middleware, ToolFlow, invoke_tool_flow,
  replace, Invoked, invoke_done, invoke_timeout, invoke_cancelled, with_kernel, poll, log_event,
  hashed, run_hook,
}
use grist_agent.Kernel.Turn.Invoking.{invoke_tool}
use grist_agent.Kernel.Turn.Outputs.{
  Normal, output, cancelled_result, missed, call_task_id, plain_output, cancelled_output,
  normalized, was_watched, append_tool_output,
}
use grist_agent.Kernel.Turn.Questions.{log_question, log_answer}
use grist_agent.Kernel.Turn.Spilling.{spilled}

-- The closure `cancelled`: `call` is the call at hand, with those after it.
abbrev pub head_id : Bool → List ToolCall → Option Text
head_id true (c ∷ cs) = some c.tool_use_id
head_id _ _ = none

abbrev pub cancelled_at : LoopPhase → Bool → List ToolCall → Abort
cancelled_at phase in_flight calls =
    cancelled (record { phase = phase; in_flight = head_id in_flight calls; unanswered = calls })

-- Goes on, unless the token has been cancelled.
unfoldable pub unless_cancelled : LoopPhase → Bool → List ToolCall → TurnStep Unit
unfolding poll
unless_cancelled phase in_flight calls = do
  fired ← poll
  if fired then raise (cancelled_at phase in_flight calls) else pure tt

abbrev map_option : {A B : Type 0} → (A → B) → Option A → Option B
map_option f none = none
map_option f (some a) = some (f a)

abbrev pub is_none : Option TaskHandle → Bool
is_none none = true
is_none (some h) = false

abbrev pub is_replayed : Result ToolError ToolResult → Bool
is_replayed (ok (replayed o)) = true
is_replayed _ = false

abbrev pub unknown_output : ToolOutput
unknown_output =
    plain_output (json (object (member (codes "error") (string (codes "unknown tool")) end))) true
      unregistered

module _ (sh : Shared) (turn : ℕ) where
  -- E4.
  unfoldable pub log_call : ToolCall → Option RegistryEntry → TurnStep Unit
  unfolding log_event hashed
  log_call call entry = do
    args_hash ← hashed sh (sh.hash_input call.input)
    request_hash ← hashed sh (sh.hash_call call)
    checkpoint_hash ← gets (λ s. s.kernel.checkpoint_hash)
    log_event sh (
        Event.tool_call (record {
          turn = turn;
          tool_use_id = call.tool_use_id;
          name = call.name;
          args_hash = args_hash;
          request_hash = request_hash;
          checkpoint_hash = checkpoint_hash;
          input = call.input;
          registered = elim entry [ none ↦ false | some e ↦ true ];
          kind = map_option (λ (e : RegistryEntry). e.kind) entry;
          capabilities = elim entry [ none ↦ [] | some e ↦ e.capabilities ];
          policy_hash = map_option (λ (e : RegistryEntry). e.policy_hash) entry;
        }))

  -- E2, of a name that is not registered.
  unfoldable pub answer_unregistered : ToolCall → TurnStep Unit
  unfolding log_call log_event append_tool_output kernel_warning
  answer_unregistered call = do
    log_call call none
    log_event sh (
        Event.warning (
          kernel_warning turn (codes "unregistered_tool")
            (codes "model called unregistered tool `" ++ (call.name ++ codes "`"))
            (some (
              object (
                member (codes "name") (string call.name)
                  (member (codes "tool_use_id") (string call.tool_use_id) end))))))
    append_tool_output sh turn call unknown_output 0 none

  abbrev pub after_before_tool :
      (ToolCall → TurnStep (ToolFlow × ToolCall))
      → ToolFlow × ToolCall
      → TurnStep (ToolFlow × ToolCall)
  after_before_tool rest (replace r, call) = pure (replace r, call)
  after_before_tool rest (invoke_tool_flow, call) = rest call

  -- E3: the hooks before the tool, up to the first that replaces the result.
  unfoldable pub before_hooks :
      List ToolCall → List Middleware → ToolCall → TurnStep (ToolFlow × ToolCall)
  unfolding unless_cancelled run_hook
  before_hooks calls [] call = pure (invoke_tool_flow, call)
  before_hooks calls (m ∷ ms) call = do
    unless_cancelled before_tool false calls
    r ← run_hook sh (λ s. m.before_tool s call)
    after_before_tool (before_hooks calls ms) r

  -- What the invocation gave; a cancelled one ends the turn if the turn's token was cancelled.
  abbrev pub invoked_result :
      ToolCall → List ToolCall → Invoked → TurnStep (Result ToolError ToolResult × ToolOutputOrigin)
  invoked_result call calls (invoke_done r) = pure (r, by_invoke)
  invoked_result call calls (invoke_timeout d) = pure (err (timed_out d), by_timeout)
  invoked_result call calls invoke_cancelled = do
    modify (with_kernel (abort (call_task_id turn call.tool_use_id)))
    unless_cancelled in_tool true calls
    pure (err call_cancelled, was_cancelled)

  -- E5.
  unfoldable pub invoke_flow :
      RegistryEntry
      → ToolCall
      → List ToolCall
      → ToolFlow
      → TurnStep (Result ToolError ToolResult × ToolOutputOrigin)
  unfolding invoke_tool unless_cancelled
  invoke_flow e call calls (replace r) = pure (r, by_middleware)
  invoke_flow e call calls invoke_tool_flow = do
    i ← invoke_tool sh e call
    invoked_result call calls i

  -- E6.
  unfoldable pub settle_normal : ToolCall → List ToolCall → Normal → TurnStep ToolOutput
  unfolding unless_cancelled cancelled_output
  settle_normal call calls (output o) = pure o
  settle_normal call calls cancelled_result = do
    modify (with_kernel (abort (call_task_id turn call.tool_use_id)))
    unless_cancelled in_tool true calls
    pure cancelled_output
  settle_normal call calls (missed tool request) = raise (
      failed_as (codes "replay_miss")
        (codes "replay miss for " ++ (tool ++ (codes " (" ++ (request ++ codes ")")))))

  abbrev pub log_tool_cancelled : ToolCall → ToolOutputOrigin → TurnStep Unit
  log_tool_cancelled call was_cancelled = log_event sh (
      Event.cancelled (record {
        turn = turn;
        scope = tool_scope;
        tool_use_id = some call.tool_use_id;
        task_id = none;
        phase = in_tool;
        signalled = false;
        skipped_tool_use_ids = [];
      }))
  log_tool_cancelled call _ = pure tt

  abbrev handle_watched : Session → Option TaskHandle → Bool
  handle_watched s none = false
  handle_watched s (some h) = was_watched h.id s

  abbrev pub or_redaction_failure : Option ToolOutput → TurnStep ToolOutput
  or_redaction_failure none = raise (failed_as (codes "internal") (codes "redaction"))
  or_redaction_failure (some o) = pure o

  -- The waker flag and the redaction of an output.
  unfoldable pub redacted : ToolCall → ToolOutput → TurnStep ToolOutput
  unfolding log_event
  redacted call out = do
    log_tool_cancelled call out.origin
    modify (
        with_kernel
          (λ k. if is_none out.task then abort (call_task_id turn call.tool_use_id) k else k))
    waker ← gets (λ s. handle_watched s out.task)
    or_redaction_failure (sh.redact_output (record out { in_process_waker = waker }))

  -- E7.
  unfoldable pub after_hooks :
      ToolCall → List ToolCall → List Middleware → ToolOutput → TurnStep ToolOutput
  unfolding unless_cancelled run_hook
  after_hooks call calls [] out = pure out
  after_hooks call calls (m ∷ ms) out = do
    unless_cancelled after_tool true calls
    r ← run_hook sh (λ s. m.after_tool s call out)
    after_hooks call calls ms r.1

  -- E4 to E10, of a call that the hooks let through.
  unfoldable pub answer_call : RegistryEntry → List ToolCall → ToolFlow × ToolCall → TurnStep Unit
  unfolding log_call log_question invoke_flow normalized settle_normal redacted log_answer spilled
      after_hooks append_tool_output
  answer_call e calls (flow, call) = do
    log_call call (some e)
    log_question sh turn call
    r ← invoke_flow e call calls flow
    duration ← gets sh.elapsed_ms
    out ← settle_normal call calls (normalized sh r.1 (call_task_id turn call.tool_use_id) r.0)
    red ← redacted call out
    log_answer sh turn call red
    kept ← spilled sh turn (is_replayed r.0) red
    last ← after_hooks call calls sh.chain kept.0
    append_tool_output sh turn call last duration kept.1

  abbrev pub run_found : ToolCall → List ToolCall → Option RegistryEntry → TurnStep Unit
  run_found call calls none = answer_unregistered call
  run_found call calls (some e) = do r ← before_hooks calls sh.chain call; answer_call e calls r

  -- One round of the loop; `calls` is the call at hand and those after it.
  unfoldable pub run_tool_call : ToolCall → List ToolCall → TurnStep Unit
  unfolding unless_cancelled before_hooks answer_call answer_unregistered
  run_tool_call call calls = do
    unless_cancelled before_tool false calls
    run_found call calls (get sh.registry call.name)

  -- `Kernel::run_tool_calls`
  unfoldable pub run_tool_calls : List ToolCall → TurnStep Unit
  unfolding run_tool_call
  run_tool_calls [] = pure tt
  run_tool_calls (call ∷ calls) = do run_tool_call call (call ∷ calls); run_tool_calls calls

-- ===== src/Kernel/Turn/Recording.antt =====
-- loop_/turn.rs: the steps of a tool call that leave the conversation as it is.
use grist_agent.Prelude.{
  ℕ, Bool, true, false, Option, none, some, List, [], ◌∷◌, if◌then◌else◌, Result, ok, err,
}
use grist_agent.Prelude.Exec.Ends.{
  Post, Ends, Ends-pure, Ends-raise, Ends-gets, Ends-modify, Ends-if, Ends-bind,
}
use grist_agent.Prelude.Text.{Text}
use grist_agent.Content.{Message}
use grist_agent.Tool.{
  ToolCall, ToolKind, stateless, session, TaskHandle, ToolOutput, ToolOutputOrigin, by_invoke,
  by_middleware, unregistered, was_cancelled, by_timeout, ToolError, Command,
}
use grist_agent.Event.{WarningPayload}
use grist_agent.Kernel.{Kernel, abort}
use grist_agent.Kernel.Registry.{RegistryEntry}
use grist_agent.Kernel.Turn.{Session, Shared}
use grist_agent.Kernel.Turn.Invoking.{
  launched, start_command, ensure_alive, ensure_session_process, ensured, watch_all, invoke_ready,
  invoke_tool,
}
use grist_agent.Kernel.Turn.Outputs.{call_task_id, start_task}
use grist_agent.Kernel.Turn.Questions.{log_question, log_answer}
use grist_agent.Kernel.Turn.Spilling.{log_warnings, spilled}
use grist_agent.Kernel.Turn.Calls.{
  is_none, log_call, log_tool_cancelled, or_redaction_failure, redacted,
}
use grist_agent.Kernel.Turn.Talk.{Said}
use grist_agent.Kernel.Turn.Pairing.{Talk, Cut, log_event-Ends, hashed-Ends}

module _ {R : ToolError → Session → Type 0} (Q : List Message → Type 0) (sh : Shared)
    (any_error : (e : ToolError) (s : Session) → Talk Q s → R e s) where
  launched-Ends :
      (name : Text) (r : Result Text Bool) → Ends (Talk Q) (launched name r) (λ _. Talk Q) R
  launched-Ends name (err e) = Ends-raise _ (any_error _)
  launched-Ends name (ok false) = Ends-raise _ (any_error _)
  launched-Ends name (ok true) = Ends-modify _ (λ s h. h)

  start_command-Ends :
      (e : RegistryEntry) (c : Option Command)
      → Ends (Talk Q) (start_command sh e c) (λ _. Talk Q) R
  start_command-Ends e none = Ends-raise _ (any_error _)
  start_command-Ends e (some c) =
      Ends-bind _ _ (Ends-gets {Q = λ _. Talk Q} _ (λ s h. h)) λ r. launched-Ends e.tool.name r

  ensure_alive-Ends :
      (e : RegistryEntry) (b : Bool) → Ends (Talk Q) (ensure_alive sh e b) (λ _. Talk Q) R
  ensure_alive-Ends e true = Ends-pure tt (λ s h. h)
  ensure_alive-Ends e false =
      Ends-bind _ _ (Ends-modify {Q = Talk Q} _ (λ s h. h))
        λ _. start_command-Ends e e.tool.session_command

  ensured-Ends : (e : RegistryEntry) (k : ToolKind) → Ends (Talk Q) (ensured sh e k) (λ _. Talk Q) R
  unfolding ensure_session_process
  ensured-Ends e stateless = Ends-pure tt (λ s h. h)
  ensured-Ends e session =
      Ends-bind _ _ (Ends-gets {Q = λ _. Talk Q} _ (λ s h. h)) λ b. ensure_alive-Ends e b

watch_all-Talk :
    (Q : List Message → Type 0) (ids : List Text) (s : Session)
    → Talk Q s
    → Talk Q (watch_all ids s)
unfolding watch_all
watch_all-Talk Q [] s h = h
watch_all-Talk Q (id ∷ ids) s h = watch_all-Talk Q ids _ h

invoke_ready-Talk :
    (Q : List Message → Type 0) (sh : Shared) (e : RegistryEntry) (call : ToolCall)
    (r : Result ToolError (Unit {0}) × Session)
    → Post (λ _. Talk Q) (λ _. Talk Q) r
    → Talk Q (invoke_ready sh e call r).1
invoke_ready-Talk Q sh e call (err x, s) h = h
invoke_ready-Talk Q sh e call (ok u, s) h = watch_all-Talk Q (sh.invoke s e call).watches s h

pub invoke_tool-Ends :
    {E : Type 0} {R : E → Session → Type 0} (Q : List Message → Type 0) (sh : Shared)
    (e : RegistryEntry) (call : ToolCall)
    → Ends (Talk Q) (invoke_tool sh e call) (λ _. Talk Q) R
unfolding invoke_tool
invoke_tool-Ends Q sh e call = record {
  from = λ s h.
      invoke_ready-Talk Q sh e call (ensured sh e e.kind s)
        ((ensured-Ends {R = λ _. Talk Q} Q sh (λ x t p. p) e e.kind).from s h);
}

module _ (sh : Shared) (turn : ℕ) (Q : List Message → Type 0) where
  pub log_call-Ends :
      (call : ToolCall) (e : Option RegistryEntry)
      → Ends (Talk Q) (log_call sh turn call e) (λ _. Talk Q) Cut
  unfolding log_call
  log_call-Ends call e = Ends-bind _ _ (hashed-Ends sh Q _) λ args.
      Ends-bind _ _ (hashed-Ends sh Q _) λ request.
        Ends-bind _ _ (Ends-gets {Q = λ _. Talk Q} _ (λ s h. h)) λ c. log_event-Ends sh Q _

  pub log_question-Ends :
      (call : ToolCall) → Ends (Talk Q) (log_question sh turn call) (λ _. Talk Q) Cut
  unfolding log_question
  log_question-Ends call = Ends-if _ _ _ (log_event-Ends sh Q _) (Ends-pure tt (λ s h. h))

  pub log_answer-Ends :
      (call : ToolCall) (out : ToolOutput)
      → Ends (Talk Q) (log_answer sh turn call out) (λ _. Talk Q) Cut
  unfolding log_answer
  log_answer-Ends call out = Ends-if _ _ _ (log_event-Ends sh Q _) (Ends-pure tt (λ s h. h))

  log_warnings-Ends :
      (ws : List WarningPayload) → Ends (Talk Q) (log_warnings sh turn ws) (λ _. Talk Q) Cut
  unfolding log_warnings
  log_warnings-Ends [] = Ends-pure tt (λ s h. h)
  log_warnings-Ends (w ∷ ws) = Ends-bind _ _ (log_event-Ends sh Q _) λ _. log_warnings-Ends ws

  pub spilled-Ends :
      (b : Bool) (out : ToolOutput) → Ends (Talk Q) (spilled sh turn b out) (λ _. Talk Q) Cut
  unfolding spilled
  spilled-Ends true out = Ends-pure _ (λ s h. h)
  spilled-Ends false out =
      Ends-bind _ _ (Ends-gets {Q = λ _. Talk Q} _ (λ s h. h))
        λ r. Ends-bind _ _ (log_warnings-Ends r.warnings) λ _. Ends-pure _ (λ s h. h)

  log_tool_cancelled-Ends :
      (call : ToolCall) (o : ToolOutputOrigin)
      → Ends (Talk Q) (log_tool_cancelled sh turn call o) (λ _. Talk Q) Cut
  log_tool_cancelled-Ends call was_cancelled = log_event-Ends sh Q _
  log_tool_cancelled-Ends call by_invoke = Ends-pure tt (λ s h. h)
  log_tool_cancelled-Ends call by_middleware = Ends-pure tt (λ s h. h)
  log_tool_cancelled-Ends call unregistered = Ends-pure tt (λ s h. h)
  log_tool_cancelled-Ends call by_timeout = Ends-pure tt (λ s h. h)

  or_redaction_failure-Ends :
      (o : Option ToolOutput) → Ends (Talk Q) (or_redaction_failure sh turn o) (λ _. Talk Q) Cut
  or_redaction_failure-Ends none = Ends-raise _ (λ s h. h.1)
  or_redaction_failure-Ends (some o) = Ends-pure o (λ s h. h)

  aborted_if-Said :
      (b : Bool) (id : Text) (k : Kernel) → Said Q k → Said Q (if b then abort id k else k)
  aborted_if-Said true id k h = h
  aborted_if-Said false id k h = h

  pub redacted-Ends :
      (call : ToolCall) (out : ToolOutput)
      → Ends (Talk Q) (redacted sh turn call out) (λ _. Talk Q) Cut
  unfolding redacted
  redacted-Ends call out = Ends-bind _ _ (log_tool_cancelled-Ends call out.origin) λ _.
      Ends-bind _ _
        (Ends-modify {Q = Talk Q}
          (λ (s : Session). record s {
            kernel =
                if is_none out.task
                then abort (call_task_id turn call.tool_use_id) s.kernel
                else s.kernel;
          })
          (λ s h.
            let kept =
              aborted_if-Said (is_none out.task) (call_task_id turn call.tool_use_id) s.kernel
                (h.0, h.1.0) in
            (kept.0, (kept.1, h.1.1))))
        λ _.
          Ends-bind _ _ (Ends-gets {Q = λ _. Talk Q} _ (λ s h. h)) λ w. or_redaction_failure-Ends _

  pub start_task-Ends :
      (call : ToolCall) (h : Option TaskHandle)
      → Ends (Talk Q) (start_task sh turn call h) (λ _. Talk Q) Cut
  start_task-Ends call none = Ends-pure tt (λ s h. h)
  start_task-Ends call (some t) =
      Ends-bind _ _ (Ends-gets {Q = λ _. Talk Q} _ (λ s h. h))
        λ w. Ends-bind _ _ (Ends-modify {Q = Talk Q} _ (λ s h. h)) λ _. log_event-Ends sh Q _

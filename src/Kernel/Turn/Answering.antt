-- ===== src/Kernel/Turn/Answering.antt =====
-- loop_/turn.rs `run_tool_calls`: each call is answered, in order.
use grist_agent.Prelude.{
  ℕ, ◌≡◌, refl, sym, ap, ◌∙◌, subst, Bool, true, false, Option, none, some, List, [], ◌∷◌, ◌++◌,
  if◌then◌else◌,
}
use grist_agent.Prelude.Exec.Ends.{
  Ends, Ends-pure, Ends-raise, Ends-gets, Ends-modify, Ends-bind, Ends-known,
}
use grist_agent.Prelude.Text.{Text}
use grist_agent.Content.{Message}
use grist_agent.Tool.{ToolCall, ToolOutput}
use grist_agent.ModelCall.{ModelRequest, ModelResponse}
use grist_agent.Event.{LoopPhase, SpillRef}
use grist_agent.Kernel.Registry.{RegistryEntry}
use grist_agent.Kernel.Turn.{
  Session, TurnStep, Shared, Middleware, ToolFlow, invoke_tool_flow, replace, Invoked, invoke_done,
  invoke_timeout, invoke_cancelled,
}
use grist_agent.Kernel.Turn.Outputs.{
  Normal, call_task_id, output, cancelled_result, missed, normalized, output_message,
  append_tool_output,
}
use grist_agent.Kernel.Turn.Calls.{
  unless_cancelled, is_replayed, unknown_output, answer_unregistered, after_before_tool,
  before_hooks, invoked_result, invoke_flow, settle_normal, after_hooks, answer_call, run_found,
  run_tool_call, run_tool_calls,
}
use grist_agent.Kernel.Turn.Talk.{Awaits, IsPaired, Awaits-snoc, after_message, result_for_self}
use grist_agent.Kernel.Turn.Pairing.{
  Talk, ids_of, Cut, unless_cancelled-Ends, log_event-Ends, hashed-Ends, run_hook-Ends,
}
use grist_agent.Kernel.Turn.Recording.{
  invoke_tool-Ends, log_call-Ends, log_question-Ends, log_answer-Ends, spilled-Ends, redacted-Ends,
  start_task-Ends,
}

-- What a middleware does with the conversation: its hooks around the model and the compaction leave
-- it paired if it was, and its hooks around a tool leave it alone, and keep the id of the call.
pub record IsCivil (m : Middleware) : Type 0 where
  pub asks :
      (s : Session) (req : ModelRequest)
      → Talk IsPaired s
      → IsPaired (m.before_model s req).state.stable.messages
  pub reads :
      (s : Session) (resp : ModelResponse)
      → Talk IsPaired s
      → IsPaired (m.after_model s resp).state.stable.messages
  pub compacts : (s : Session) → Talk IsPaired s → IsPaired (m.on_compact s).state.stable.messages
  pub waits :
      (s : Session) (call : ToolCall)
      → (m.before_tool s call).state.stable.messages ≡ s.kernel.state.stable.messages
  pub keeps_id :
      (s : Session) (call : ToolCall) → (m.before_tool s call).lent.tool_use_id ≡ call.tool_use_id
  pub watches :
      (s : Session) (call : ToolCall) (out : ToolOutput)
      → (m.after_tool s call out).state.stable.messages ≡ s.kernel.state.stable.messages

abbrev pub AllCivil : List Middleware → Type 0
AllCivil [] = Unit
AllCivil (m ∷ ms) = IsCivil m × AllCivil ms

result_after :
    (id : Text) (ids : List Text) (out : ToolOutput)
    → after_message (id ∷ ids) (output_message id out) ≡ some ids
result_after id ids out = ap (λ (b : Bool). if b then some ids else none) (result_for_self id)

-- `call` answers the use `c`, with which the conversation waits for those of `cs`.
module _ (sh : Shared) (turn : ℕ) (c : ToolCall) (cs : List ToolCall) where
  abbrev Waiting : Session → Type 0
  Waiting = Talk (Awaits (ids_of (c ∷ cs)))

  abbrev Answered : Session → Type 0
  Answered = Talk (Awaits (ids_of cs))

  answered_by :
      (call : ToolCall) (out : ToolOutput) (ms : List Message)
      → call.tool_use_id ≡ c.tool_use_id
      → Awaits (ids_of (c ∷ cs)) ms
      → Awaits (ids_of cs) (ms ++ output_message call.tool_use_id out ∷ [])
  answered_by call out ms e h =
      Awaits-snoc (ids_of (c ∷ cs)) (ids_of cs) ms _ h
        (rw e (result_after c.tool_use_id (ids_of cs) out))

  pub append_tool_output-Ends :
      (call : ToolCall) (out : ToolOutput) (duration : ℕ) (spill : Option SpillRef)
      → call.tool_use_id ≡ c.tool_use_id
      → Ends Waiting (append_tool_output sh turn call out duration spill) (λ _. Answered) Cut
  unfolding append_tool_output
  append_tool_output-Ends call out duration spill e = Ends-bind _ _ (hashed-Ends sh _ _) λ hash.
      Ends-bind _ _ (log_event-Ends sh _ _) λ _.
        Ends-bind _ _
          (Ends-modify {Q = Answered} _
            (λ s h. (answered_by call out s.kernel.state.stable.messages e h.0, h.1)))
          λ _. start_task-Ends sh turn (Awaits (ids_of cs)) call out.task

  answer_unregistered-Ends : Ends Waiting (answer_unregistered sh turn c) (λ _. Answered) Cut
  unfolding answer_unregistered
  answer_unregistered-Ends = Ends-bind _ _ (log_call-Ends sh turn _ c none) λ _.
      Ends-bind _ _ (log_event-Ends sh _ _)
        λ _. append_tool_output-Ends c unknown_output 0 none refl

  unless-Ends :
      (phase : LoopPhase) (b : Bool)
      → Ends Waiting (unless_cancelled phase b (c ∷ cs)) (λ _. Waiting) Cut
  unless-Ends phase b = unless_cancelled-Ends phase b (c ∷ cs)

  abbrev SameId : ToolCall → Type 0
  SameId call = call.tool_use_id ≡ c.tool_use_id

  after_before_tool-Ends :
      (rest : ToolCall → TurnStep (ToolFlow × ToolCall)) (f : ToolFlow) (call : ToolCall)
      → SameId call
      → Ends Waiting (rest call) (λ r s. Waiting s × SameId r.1) Cut
      → Ends Waiting (after_before_tool sh turn rest (f, call)) (λ r s. Waiting s × SameId r.1) Cut
  after_before_tool-Ends rest (replace r) call e h = Ends-pure _ (λ s p. (p, e))
  after_before_tool-Ends rest invoke_tool_flow call e h = h

  before_hooks-Ends :
      (ms : List Middleware)
      → AllCivil ms
      → (call : ToolCall) → SameId call
      → Ends Waiting (before_hooks sh turn (c ∷ cs) ms call) (λ r s. Waiting s × SameId r.1) Cut
  unfolding before_hooks
  before_hooks-Ends [] h call e = Ends-pure _ (λ s p. (p, e))
  before_hooks-Ends (m ∷ ms) h call e = Ends-bind _ _ (unless-Ends _ false) λ _.
      Ends-bind _ _
        (run_hook-Ends sh SameId (Awaits (ids_of (c ∷ cs))) (Awaits (ids_of (c ∷ cs)))
          (λ s. m.before_tool s call)
          (λ s p. (
            subst (Awaits (ids_of (c ∷ cs))) (sym (h.0.waits s call)) p.0,
            h.0.keeps_id s call ∙ e,
          )))
        λ r. Ends-known _ (λ same_id.
          after_before_tool-Ends _ r.0 r.1 same_id (before_hooks-Ends ms h.1 r.1 same_id))

  settle_normal-Ends :
      (call : ToolCall) (n : Normal)
      → Ends Waiting (settle_normal sh turn call (c ∷ cs) n) (λ _. Waiting) Cut
  unfolding settle_normal
  settle_normal-Ends call (output o) = Ends-pure o (λ s h. h)
  settle_normal-Ends call cancelled_result =
      Ends-bind _ _ (Ends-modify {Q = Waiting} _ (λ s h. h))
        λ _. Ends-bind _ _ (unless-Ends _ true) λ _. Ends-pure _ (λ s h. h)
  settle_normal-Ends call (missed t r) = Ends-raise _ (λ s h. h.1)

  invoked_result-Ends :
      (call : ToolCall) (i : Invoked)
      → Ends Waiting (invoked_result sh turn call (c ∷ cs) i) (λ _. Waiting) Cut
  invoked_result-Ends call (invoke_done r) = Ends-pure _ (λ s h. h)
  invoked_result-Ends call (invoke_timeout d) = Ends-pure _ (λ s h. h)
  invoked_result-Ends call invoke_cancelled =
      Ends-bind _ _ (Ends-modify {Q = Waiting} _ (λ s h. h))
        λ _. Ends-bind _ _ (unless-Ends _ true) λ _. Ends-pure _ (λ s h. h)

  invoke_flow-Ends :
      (e : RegistryEntry) (call : ToolCall) (f : ToolFlow)
      → Ends Waiting (invoke_flow sh turn e call (c ∷ cs) f) (λ _. Waiting) Cut
  unfolding invoke_flow
  invoke_flow-Ends e call (replace r) = Ends-pure _ (λ s h. h)
  invoke_flow-Ends e call invoke_tool_flow =
      Ends-bind _ _ (invoke_tool-Ends (Awaits (ids_of (c ∷ cs))) sh e call)
        λ i. invoked_result-Ends call i

  after_hooks-Ends :
      (call : ToolCall) (ms : List Middleware) (out : ToolOutput)
      → AllCivil ms
      → Ends Waiting (after_hooks sh turn call (c ∷ cs) ms out) (λ _. Waiting) Cut
  unfolding after_hooks
  after_hooks-Ends call [] out h = Ends-pure out (λ s p. p)
  after_hooks-Ends call (m ∷ ms) out h = Ends-bind _ _ (unless-Ends _ true) λ _.
      Ends-bind _ _
        (run_hook-Ends sh (λ _. Unit) (Awaits (ids_of (c ∷ cs))) (Awaits (ids_of (c ∷ cs)))
          (λ s. m.after_tool s call out)
          (λ s p. (subst (Awaits (ids_of (c ∷ cs))) (sym (h.0.watches s call out)) p.0, tt)))
        λ r. Ends-known _ (λ _. after_hooks-Ends call ms r.1 h.1)

  answer_call-Ends :
      (e : RegistryEntry) (f : ToolFlow) (call : ToolCall)
      → AllCivil sh.chain
      → SameId call
      → Ends Waiting (answer_call sh turn e (c ∷ cs) (f, call)) (λ _. Answered) Cut
  unfolding answer_call
  answer_call-Ends e f call h same_id =
      let W = Awaits (ids_of (c ∷ cs)) in
      Ends-bind _ _ (log_call-Ends sh turn W call (some e)) λ _.
        Ends-bind _ _ (log_question-Ends sh turn W call) λ _.
          Ends-bind _ _ (invoke_flow-Ends e call f) λ r.
            Ends-bind _ _ (Ends-gets {Q = λ _. Waiting} sh.elapsed_ms (λ s p. p)) λ duration.
              Ends-bind _ _
                (settle_normal-Ends call
                  (normalized sh r.1 (call_task_id turn call.tool_use_id) r.0))
                λ out. Ends-bind _ _ (redacted-Ends sh turn W call out) λ red.
                  Ends-bind _ _ (log_answer-Ends sh turn W call red) λ _.
                    Ends-bind _ _ (spilled-Ends sh turn W (is_replayed r.0) red) λ kept.
                      Ends-bind _ _ (after_hooks-Ends call sh.chain kept.0 h)
                        λ last. append_tool_output-Ends call last duration kept.1 same_id

  run_found-Ends :
      (e : Option RegistryEntry)
      → AllCivil sh.chain
      → Ends Waiting (run_found sh turn c (c ∷ cs) e) (λ _. Answered) Cut
  run_found-Ends none h = answer_unregistered-Ends
  run_found-Ends (some e) h =
      Ends-bind _ _ (before_hooks-Ends sh.chain h c refl)
        λ r. Ends-known _ (λ same_id. answer_call-Ends e r.0 r.1 h same_id)

  run_tool_call-Ends :
      AllCivil sh.chain → Ends Waiting (run_tool_call sh turn c (c ∷ cs)) (λ _. Answered) Cut
  unfolding run_tool_call
  run_tool_call-Ends h = Ends-bind _ _ (unless-Ends _ false) λ _. run_found-Ends _ h

-- The loop of tool calls, started when the conversation waits for exactly these calls in their
-- order, has answered all of them when it returns; when it is cancelled, the calls that it hands
-- over are exactly those that the conversation still waits for.
pub run_tool_calls-Ends :
    (sh : Shared) (turn : ℕ) (calls : List ToolCall)
    → AllCivil sh.chain
    → Ends (Talk (Awaits (ids_of calls))) (run_tool_calls sh turn calls) (λ _. Talk IsPaired) Cut
unfolding run_tool_calls
run_tool_calls-Ends sh turn [] h = Ends-pure tt (λ s p. p)
run_tool_calls-Ends sh turn (c ∷ cs) h =
    Ends-bind _ _ (run_tool_call-Ends sh turn c cs h) λ _. run_tool_calls-Ends sh turn cs h

-- ===== src/Kernel/Turn/Bodies.antt =====
-- loop_/turn.rs: the body of a turn and the conversation.
use grist_agent.Prelude.{ℕ, ◌≡◌, refl, sym, ap, subst, Option, none, some, List, [], ◌∷◌, ◌++◌}
use grist_agent.Prelude.Exec.Ends.{
  Ends, Ends-pure, Ends-raise, Ends-gets, Ends-modify, Ends-bind, Ends-known,
}
use grist_agent.Prelude.Text.{Text}
use grist_agent.Content.{
  ContentBlock, text, thinking, tool_use, tool_result, image, task_result, Message,
}
use grist_agent.State.{SessionStatus, created, running, idle, suspended, done, failed}
use grist_agent.Tool.{ToolCall}
use grist_agent.ModelCall.{ModelRequest, ModelResponse, calls_in, tool_calls}
use grist_agent.Kernel.{set_status}
use grist_agent.Kernel.Drains.{KeepsRole}
use grist_agent.Kernel.Writes.{checkpoint-Keeps}
use grist_agent.Kernel.Turn.{Shared, fatal, Middleware, poll, abort_of}
use grist_agent.Kernel.Turn.Body.{
  redacted_response, after_model_hooks, log_response, assistant_message, received, outcome_of,
  finish_turn, turn_body,
}
use grist_agent.Kernel.Turn.Talk.{
  uses, Awaits, IsPaired, Awaits-snoc, Said-IsUnlogged, drain_inbox-Keeps,
}
use grist_agent.Kernel.Turn.Pairing.{
  Talk, ids_of, Cut, abort_of-Cut, lift-Talk-Ends, poll-Ends, check_cancel-Ends, log_event-Ends,
  hashed-Ends, run_hook-Ends,
}
use grist_agent.Kernel.Turn.Answering.{AllCivil, run_tool_calls-Ends}
use grist_agent.Kernel.Turn.Requesting.{Paired, call_model-Ends, prepared_request-Ends}

ids-calls_in : (bs : List ContentBlock) → ids_of (calls_in bs) ≡ uses bs
ids-calls_in [] = refl
ids-calls_in (text s ∷ bs) = ids-calls_in bs
ids-calls_in (thinking s t ∷ bs) = ids-calls_in bs
ids-calls_in (tool_use id name input ∷ bs) = ap (λ (ids : List Text). id ∷ ids) (ids-calls_in bs)
ids-calls_in (tool_result id c e ∷ bs) = ids-calls_in bs
ids-calls_in (image h m ∷ bs) = ids-calls_in bs
ids-calls_in (task_result i t s c e ∷ bs) = ids-calls_in bs

ids-tool_calls : (resp : ModelResponse) → ids_of (tool_calls resp) ≡ uses resp.content
unfolding tool_calls
ids-tool_calls resp = ids-calls_in resp.content

opened_by :
    (resp : ModelResponse) (ms : List Message)
    → IsPaired ms
    → Awaits (ids_of (tool_calls resp)) (ms ++ assistant_message resp ∷ [])
opened_by resp ms h =
    subst (λ (ids : List Text). Awaits ids (ms ++ assistant_message resp ∷ []))
      (sym (ids-tool_calls resp)) (Awaits-snoc [] (uses resp.content) ms _ h refl)

module _ (sh : Shared) where
  redacted_response-Ends :
      (resp : ModelResponse) (content : Option (List ContentBlock))
      → Ends Paired (redacted_response sh resp content) (λ _. Paired) Cut
  redacted_response-Ends resp none = Ends-raise _ (λ s p. p.1)
  redacted_response-Ends resp (some content) = Ends-pure _ (λ s p. p)

  after_model_hooks-Ends :
      (ms : List Middleware) (resp : ModelResponse)
      → AllCivil ms
      → Ends Paired (after_model_hooks sh ms resp) (λ _. Paired) Cut
  unfolding after_model_hooks
  after_model_hooks-Ends [] resp h = Ends-pure resp (λ s p. p)
  after_model_hooks-Ends (m ∷ ms) resp h =
      Ends-bind _ _ (check_cancel-Ends poll _ (poll-Ends IsPaired)) λ _.
        Ends-bind _ _
          (run_hook-Ends sh (λ _. Unit) IsPaired IsPaired (λ s. m.after_model s resp)
            (λ s p. (h.0.reads s resp p, tt)))
          λ r. Ends-known _ (λ _. after_model_hooks-Ends ms r.1 h.1)

  log_response-Ends :
      (turn : ℕ) (hash : Text) (resp : ModelResponse) (attempts : ℕ)
      → Ends Paired (log_response sh turn hash resp attempts) (λ _. Paired) Cut
  unfolding log_response
  log_response-Ends turn hash resp attempts =
      Ends-bind _ _ (hashed-Ends sh IsPaired _) λ response_hash. log_event-Ends sh IsPaired _

  received-Ends :
      (turn : ℕ) (req : ModelRequest) (hash : Text)
      → AllCivil sh.chain
      → Ends Paired
          (received sh turn req hash)
          (λ resp. Talk (Awaits (ids_of (tool_calls resp))))
          Cut
  unfolding received
  received-Ends turn req hash h = Ends-bind _ _ (call_model-Ends sh turn req) λ r.
      Ends-bind _ _ (redacted_response-Ends r.0 (sh.redact_blocks r.0.content)) λ resp.
        Ends-bind _ _ (check_cancel-Ends poll _ (poll-Ends IsPaired)) λ _.
          Ends-bind _ _ (after_model_hooks-Ends sh.chain resp h) λ edited.
            Ends-bind _ _ (log_response-Ends turn hash edited r.1) λ _.
              Ends-bind _ _
                (Ends-modify {Q = Talk (Awaits (ids_of (tool_calls edited)))} _
                  (λ s p. (opened_by edited s.kernel.state.stable.messages p.0, p.1)))
                λ _. Ends-pure edited (λ s p. p)

  module _ (same_role : KeepsRole sh.externals) where
    outcome_of-Ends :
        (turn : ℕ) (s : SessionStatus) → Ends Paired (outcome_of sh turn s) (λ _. Paired) Cut
    outcome_of-Ends turn suspended = Ends-bind _ _ (Ends-modify {Q = Paired} _ (λ s p. p)) λ _.
        Ends-bind _ _ (Ends-gets {Q = λ _. Paired} _ (λ s p. p))
          λ s. Ends-bind _ _ (log_event-Ends sh IsPaired _) λ _. Ends-pure _ (λ s p. p)
    outcome_of-Ends turn idle = Ends-pure _ (λ s p. p)
    outcome_of-Ends turn created = Ends-pure _ (λ s p. p)
    outcome_of-Ends turn running = Ends-pure _ (λ s p. p)
    outcome_of-Ends turn done = Ends-pure _ (λ s p. p)
    outcome_of-Ends turn failed = Ends-pure _ (λ s p. p)

    finish_turn-Ends :
        (turn : ℕ) (calls : List ToolCall)
        → Ends Paired (finish_turn sh turn calls) (λ _. Paired) Cut
    unfolding finish_turn set_status
    finish_turn-Ends turn calls =
        Ends-bind _ _
          (lift-Talk-Ends IsPaired (abort_of sh) _ (abort_of-Cut sh)
            (drain_inbox-Keeps sh.externals same_role))
          λ drained. Ends-bind _ _ (Ends-gets {Q = λ _. Paired} _ (λ s p. p)) λ next.
            Ends-bind _ _ (Ends-modify {Q = Paired} _ (λ s p. p)) λ _.
              Ends-bind _ _
                (lift-Talk-Ends IsPaired fatal _ (λ e t u. tt)
                  (checkpoint-Keeps (Said-IsUnlogged IsPaired) sh.externals _))
                λ _. outcome_of-Ends turn next

    pub turn_body-Ends : AllCivil sh.chain → Ends Paired (turn_body sh) (λ _. Paired) Cut
    unfolding turn_body
    turn_body-Ends h =
        Ends-bind _ _ (Ends-gets {Q = λ _. Paired} (λ s. s.kernel.state.stable.turn) (λ s p. p))
          λ turn. Ends-bind _ _ (check_cancel-Ends poll _ (poll-Ends IsPaired)) λ _.
            Ends-bind _ _ (prepared_request-Ends sh turn h) λ r.
              Ends-bind _ _ (received-Ends turn r.0 r.1 h) λ resp.
                Ends-bind _ _ (run_tool_calls-Ends sh turn (tool_calls resp) h)
                  λ _. finish_turn-Ends turn (tool_calls resp)

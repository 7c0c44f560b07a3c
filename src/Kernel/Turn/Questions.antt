-- ===== src/Kernel/Turn/Questions.antt =====
-- loop_/turn.rs: the events around a call of `ask_user`.
use grist_agent.Prelude.{
  ℕ, Bool, true, false, Option, none, some, List, [], ◌∷◌, ◌++◌, if◌then◌else◌,
}
use grist_agent.Prelude.Exec.{pure}
use grist_agent.Prelude.Text.{Text, codes, same, decimal}
use grist_agent.Content.{
  Value, Values, nil, cons, string, array, value_get, as_str, as_bool, json, blocks,
}
use grist_agent.Tool.{ToolCall, ToolOutput}
use grist_agent.Event.{
  LoopPhase, before_tool, in_tool, after_tool, SpillRef, WarningPayload, tool_scope, kernel_warning,
}
use grist_agent.Event
use grist_agent.Kernel.Turn.{TurnStep, Shared, log_event}

abbrev question_id : ℕ → Text → Text
question_id turn id = codes "q" ++ (decimal turn ++ (codes "-" ++ id))

abbrev ask_user_tool_name : Text
ask_user_tool_name = codes "ask_user"

abbrev text_or_empty : Option Text → Text
text_or_empty none = []
text_or_empty (some s) = s

abbrev true_only : Option Bool → Bool
true_only none = false
true_only (some b) = b

abbrev pub bind_option : {A B : Type 0} → Option A → (A → Option B) → Option B
bind_option none f = none
bind_option (some a) f = f a

abbrev texts_in : Values → List Text
texts_in nil = []
texts_in (cons (string s) vs) = s ∷ texts_in vs
texts_in (cons v vs) = texts_in vs

abbrev options_of : Option Value → List Text
options_of (some (array vs)) = texts_in vs
options_of _ = []

module _ (sh : Shared) (turn : ℕ) where
  unfoldable pub log_question : ToolCall → TurnStep Unit
  unfolding log_event
  log_question call =
      if same call.name ask_user_tool_name
      then log_event sh (
          Event.ask_user (record {
            turn = turn;
            tool_use_id = call.tool_use_id;
            question_id = question_id turn call.tool_use_id;
            question = text_or_empty (bind_option (value_get (codes "question") call.input) as_str);
            options = options_of (value_get (codes "options") call.input);
            allow_free_text =
                true_only (bind_option (value_get (codes "allow_free_text") call.input) as_bool);
          }))
      else pure tt

  abbrev answer_in : ToolOutput → Option Text × Bool
  answer_in out = elim out.content [
    | json v ↦ if out.is_error then (none, true) else (
      bind_option (value_get (codes "answer") v) as_str,
      true_only (bind_option (value_get (codes "declined") v) as_bool),
    )
    | blocks bs ↦ (none, true)
  ]

  abbrev no_text : Option Text → Bool
  no_text none = true
  no_text (some s) = false

  unfoldable pub log_answer : ToolCall → ToolOutput → TurnStep Unit
  unfolding log_event
  log_answer call out =
      if same call.name ask_user_tool_name
      then log_event sh (
          Event.user_answer (record {
            turn = turn;
            tool_use_id = call.tool_use_id;
            question_id = question_id turn call.tool_use_id;
            answer = (answer_in out).0;
            declined = if (answer_in out).1 then true else no_text (answer_in out).0;
          }))
      else pure tt

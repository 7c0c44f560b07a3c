-- ===== src/ModelCall.antt =====
-- crates/kernel/src/provider.rs: what goes to the model and what comes back; and the prompt blocks
-- of crates/kernel/src/content.rs. A floating-point parameter is kept as its text.
use grist_agent.Prelude.{ℕ, Bool, Option, List, [], ◌∷◌}
use grist_agent.Prelude.Text.{Text}
use grist_agent.Content.{Value, ContentBlock, tool_use, Message}
use grist_agent.Tool.{ToolCall, ToolDefinition}

pub data PromptBlockKind : Type 0 where
  model_prompt role_prompt agents_md tool_index skills notebook : PromptBlockKind

pub record PromptBlock : Type 0 where
  pub kind : PromptBlockKind
  pub name : Text
  pub text : Text
  pub hash : Text

pub record ThinkingConfig : Type 0 where
  pub enabled : Bool
  pub budget_tokens : Option ℕ

pub record ModelParams : Type 0 where
  pub temperature : Option Text
  pub top_p : Option Text
  pub max_tokens : Option ℕ
  pub stop : List Text
  pub thinking : Option ThinkingConfig
  pub extra : Value

pub record RequestTrace : Type 0 where
  pub session_id : Text
  pub turn : ℕ
  pub attempt : ℕ
  pub checkpoint_hash : Text
  pub request_id : Text

pub record ModelRequest : Type 0 where
  pub model_id : Text
  pub system : List PromptBlock
  pub messages : List Message
  pub tools : List ToolDefinition
  pub params : ModelParams
  pub trace : RequestTrace

-- What `request_hash` covers.
pub record HashedRequest : Type 0 where
  pub model_id : Text
  pub system : List PromptBlock
  pub messages : List Message
  pub tools : List ToolDefinition
  pub params : ModelParams

abbrev pub hashed_request : ModelRequest → HashedRequest
hashed_request r = record {
  model_id = r.model_id;
  system = r.system;
  messages = r.messages;
  tools = r.tools;
  params = r.params;
}

pub data StopReason : Type 0 where
  end_turn stop_for_tools max_tokens stop_sequence content_filter : StopReason
  other : Text → StopReason

pub record Usage : Type 0 where
  pub input_tokens : ℕ
  pub output_tokens : ℕ
  pub cache_read_tokens : Option ℕ
  pub reasoning_tokens : Option ℕ

pub record ModelResponse : Type 0 where
  pub content : List ContentBlock
  pub stop_reason : StopReason
  pub usage : Usage
  pub model_id : Text
  pub raw_response_hash : Text
  pub response_id : Option Text

-- What `response_hash` covers.
pub record HashedResponse : Type 0 where
  pub content : List ContentBlock
  pub stop_reason : StopReason
  pub usage : Usage
  pub model_id : Text

abbrev pub hashed_response : ModelResponse → HashedResponse
hashed_response r = record {
  content = r.content;
  stop_reason = r.stop_reason;
  usage = r.usage;
  model_id = r.model_id;
}

abbrev pub call_of : ContentBlock → List ToolCall → List ToolCall
call_of (tool_use id name input) rest =
    record { tool_use_id = id; name = name; input = input } ∷ rest
call_of _ rest = rest

abbrev pub calls_in : List ContentBlock → List ToolCall
calls_in [] = []
calls_in (b ∷ bs) = call_of b (calls_in bs)

-- `ModelResponse::tool_calls`
unfoldable pub tool_calls : ModelResponse → List ToolCall
tool_calls resp = calls_in resp.content

-- ===== src/Tests/Turns.antt =====
-- crates/kernel/src/loop_/turn.rs: turns with one tool and one middleware, and the registry.
use grist_agent.Prelude.{
  ap, sym, some-injective, ◌≡◌, refl, true, false, none, some, List, [], ◌∷◌, ok, err,
}
use grist_agent.Prelude.Text.{codes}
use grist_agent.Capability.{Capability, tool, covered_by, narrower_than}
use grist_agent.Content.{null, string, tool_use, user, Message, text}
use grist_agent.State.{running}
use grist_agent.Sandbox.{SandboxLimits, derive_policy_with, gather, check_env, envelope_caps}
use grist_agent.Tool.{Tool, stateless, value}
use grist_agent.ModelCall.{ModelResponse, stop_for_tools, tool_calls}
use grist_agent.Kernel.{Externals, Inbound, apply_user_message, checkpoint, set_status}
use grist_agent.Kernel.Lifecycle.{drain_inbox_end_of_turn, drain_items, drain_one}
use grist_agent.Kernel.Spill.{oversized}
use grist_agent.Kernel.Drains.{KeepsRole}
use grist_agent.Kernel.Retry.{auth, Attempt, responded, errored}
use grist_agent.Kernel.Registry.{Registry, build, get}
use grist_agent.Kernel.Registry.Lookup.{IsRegistry, build-IsRegistry}
use grist_agent.Kernel.Turn.{Session, Middleware, invoke_tool_flow, invoke_done, Shared}
use grist_agent.Kernel.Turn.Body.{continues, fails}
use grist_agent.Kernel.Turn.Exits.{run_turn}
use grist_agent.Kernel.Turn.Talk.{IsPaired}
use grist_agent.Kernel.Turn.Answering.{IsCivil}
use grist_agent.Kernel.Turn.Conversing.{run_turn-IsPaired}
use grist_agent.Kernel.Turn.Boundary.{IsSettled}
use grist_agent.Kernel.Turn.Settling.{run_turn-IsSettled}
use grist_agent.Kernel.Turn.RollingBack.{IsRolledBack, run_turn-IsRolledBack}
use grist_agent.Tests.Sessions.{session, open_task}

abbrev shell : Tool
shell = record {
  name = codes "shell";
  description = codes "runs a command";
  schema = null;
  kind = stateless;
  capabilities = tool (codes "shell") ∷ [];
  session_command = none;
}

abbrev limits : SandboxLimits
limits = record { timeout = 0; scratch_tmpfs_mb = 1; env_allowlist = []; network = false }

abbrev built : Registry
built = elim (build (λ p. some (codes "b3:p")) (tool (codes "shell") ∷ []) limits (shell ∷ [])) [
  | ok r ↦ r
  | err e ↦ record { entries = []; by_name = []; definitions = []; envelope_hash = [] }
]

abbrev grants : List Capability
grants = tool (codes "shell") ∷ []

build-IsRegistry_example : IsRegistry (λ p. some (codes "b3:p")) grants limits (shell ∷ []) built
unfolding build derive_policy_with gather covered_by narrower_than check_env envelope_caps
build-IsRegistry_example =
    build-IsRegistry (λ p. some (codes "b3:p")) grants limits (shell ∷ []) refl

-- A middleware whose hooks change nothing.
abbrev silent : Middleware
silent = record {
  before_model = λ s req. record { outcome = ok tt; state = s.kernel.state; lent = req; acts = [] };
  after_model =
      λ s resp. record { outcome = ok tt; state = s.kernel.state; lent = resp; acts = [] };
  before_tool = λ s call. record {
    outcome = ok invoke_tool_flow;
    state = s.kernel.state;
    lent = call;
    acts = [];
  };
  after_tool =
      λ s call out. record { outcome = ok tt; state = s.kernel.state; lent = out; acts = [] };
  on_compact = λ s. record { outcome = ok tt; state = s.kernel.state; lent = tt; acts = [] };
}

silent-IsCivil : IsCivil silent
silent-IsCivil = record {
  asks = λ s req h. h.0;
  reads = λ s resp h. h.0;
  compacts = λ s h. h.0;
  waits = λ s call. refl;
  keeps_id = λ s call. refl;
  watches = λ s call out. refl;
}

abbrev externals : Externals
externals = record {
  redact_message = some;
  redact_update = some;
  digest = λ st. some (codes "b3:1");
  last_seq = λ es. 0;
}

externals-KeepsRole : KeepsRole externals
externals-KeepsRole m n h = ap (λ (x : Message). x.role) (sym (some-injective h))

abbrev reply : ModelResponse
reply = record {
  content =
      text (codes "let me see")
      ∷ tool_use (codes "a") (codes "shell") (string (codes "ls"))
      ∷ tool_use (codes "b") (codes "gone") null
      ∷ [];
  stop_reason = stop_for_tools;
  usage = record {
    input_tokens = 1;
    output_tokens = 1;
    cache_read_tokens = none;
    reasoning_tokens = none;
  };
  model_id = codes "m";
  raw_response_hash = codes "b3:raw";
  response_id = none;
}

abbrev shared : Attempt ModelResponse → Shared
shared attempt = record {
  externals = externals;
  chain = silent ∷ [];
  registry = built;
  profiles = record {
    model_profile_hash = codes "b3:m";
    agent_profile_hash = codes "b3:a";
    resolved_profile_hash = codes "b3:r";
    project_profile_hash = none;
    bundles_hash = none;
  };
  model_id = codes "m";
  system_prompt = [];
  model_params = record {
    temperature = none;
    top_p = none;
    max_tokens = none;
    stop = [];
    thinking = none;
    extra = null;
  };
  spill = record { cap_bytes = 1024; head_bytes = 16; tail_bytes = 16 };
  max_attempts = 2;
  request_id = λ s. codes "r";
  attempts = λ s req n. attempt;
  invoke =
      λ s e call. record { invoked = invoke_done (ok (value (string (codes "x")))); watches = [] };
  elapsed_ms = λ s. 3;
  is_alive = λ s name. true;
  launch = λ s e c. ok true;
  put = λ s t mime. ok (codes "b3:artifact");
  redact_blocks = some;
  redact_output = some;
  redact_text = λ t. t;
  canonical = λ v. some [];
  to_text = λ v. [];
  spilled_in_value = λ v. none;
  spilled_in_text = λ t. none;
  hash_request = λ r. some (codes "b3:2");
  hash_response = λ r. some (codes "b3:3");
  hash_prompt = λ p. some (codes "b3:4");
  hash_params = λ p. some (codes "b3:5");
  hash_input = λ v. some (codes "b3:6");
  hash_call = λ c. some (codes "b3:7");
  hash_content = λ c. some (codes "b3:8");
  hash_result = λ c e. some (codes "b3:9");
  error_text = λ e. codes "error";
  tool_error_text = λ e. codes "error";
  provider_error_text = λ e. codes "no key";
  middleware_error_text = λ e. codes "hook";
}

abbrev question : Message
question = record { role = user; content = text (codes "what is here?") ∷ [] }

-- A session that runs, into whose inbox a message comes during the turn.
abbrev asked : Session
asked = record {
  kernel = record (session running open_task (question ∷ [])) { turn_token = some false };
  emitter = record { queue = []; compaction = none; allowed = false; turn = 0 };
  watched = [];
  ticks = record { fires = false; arrived = Inbound.user_message question ∷ [] } ∷ [];
}

abbrev goes_on : Shared
goes_on = shared (responded reply)

abbrev refuses : Shared
refuses = shared (errored (auth (codes "no key")) false (codes "no key") 0 false)

went_on : (run_turn goes_on asked).0 ≡ ok continues
unfolding run_turn build derive_policy_with gather covered_by narrower_than check_env envelope_caps
    get tool_calls oversized drain_inbox_end_of_turn drain_items drain_one apply_user_message
    checkpoint set_status
went_on = refl

refused : (run_turn refuses asked).0 ≡ ok (fails (codes "provider_auth"))
unfolding run_turn build derive_policy_with gather covered_by narrower_than check_env envelope_caps
    get drain_inbox_end_of_turn drain_items drain_one apply_user_message checkpoint set_status
refused = refl

run_turn-IsPaired_example : IsPaired (run_turn goes_on asked).1.kernel.state.stable.messages
run_turn-IsPaired_example =
    run_turn-IsPaired goes_on asked (silent-IsCivil, tt) externals-KeepsRole tt ((refl, tt), tt)
      refl went_on

run_turn-IsSettled_example : IsSettled continues (run_turn goes_on asked).1.kernel
run_turn-IsSettled_example = run_turn-IsSettled goes_on asked went_on

run_turn-IsRolledBack_example :
    IsRolledBack externals asked.kernel.state (run_turn refuses asked).1.kernel.state
    × ((run_turn refuses asked).1.kernel.last_error_class ≡ some (codes "provider_auth"))
run_turn-IsRolledBack_example = run_turn-IsRolledBack refuses asked refused

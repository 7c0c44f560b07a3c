-- ===== src/Kernel/Turn/Requests.antt =====
-- loop_/turn.rs: the request of a turn (A and B), with `Kernel::run_compaction` of loop_/mod.rs. The
-- `u32` counts of the events wrap.
use grist_agent.Prelude.{
  ℕ, ◌%◌, ◌^◌, Bool, true, false, Option, none, some, List, [], ◌∷◌, ◌++◌, map, length,
  if◌then◌else◌,
}
use grist_agent.Prelude.Exec.{pure, raise, gets, modify, ◌>>=◌, ◌>>◌}
use grist_agent.Prelude.Text.{Text, codes}
use grist_agent.Tool.{ToolDefinition}
use grist_agent.ModelCall.{PromptBlock, ModelRequest, hashed_request}
use grist_agent.Event.{
  LoopPhase, before_model, model_call, after_model, CheckpointReason, PromptBlockRef, pending_tasks,
}
use grist_agent.Event
use grist_agent.Kernel.{checkpoint}
use grist_agent.Kernel.Registry.{RegistryEntry, get}
use grist_agent.Kernel.Turn.{
  Session, TurnStep, Shared, fail, fatal, Middleware, with_emitter, lift, poll, check_cancel,
  log_event, hashed, run_hook,
}

abbrev block_ref : PromptBlock → PromptBlockRef
block_ref b = record { kind = b.kind; name = b.name; hash = b.hash }

abbrev pub allow_compaction : Bool → Session → Session
allow_compaction b = with_emitter (λ m. record m { allowed = b })

module _ (sh : Shared) where
  -- The hooks of a compaction.
  unfoldable pub compact_hooks : TurnStep Bool → List Middleware → TurnStep Unit
  unfolding check_cancel run_hook
  compact_hooks look [] = pure tt
  compact_hooks look (m ∷ ms) = do
    check_cancel look before_model
    run_hook sh m.on_compact
    compact_hooks look ms

  -- `Kernel::run_compaction`
  unfoldable pub run_compaction : Text → TurnStep Bool → ℕ → TurnStep Unit
  unfolding compact_hooks log_event hashed lift
  run_compaction strategy look turn = do
    before ← gets (λ s. sh.externals.digest s.kernel.state.stable)
    before_hash ← hashed sh before
    messages_before ← gets (λ s. length s.kernel.state.stable.messages)
    compact_hooks look sh.chain
    after ← gets (λ s. sh.externals.digest s.kernel.state.stable)
    after_hash ← hashed sh after
    messages_after ← gets (λ s. length s.kernel.state.stable.messages)
    log_event sh (
        Event.compaction (record {
          turn = turn;
          strategy = strategy;
          before_state_hash = before_hash;
          after_state_hash = after_hash;
          notebook_hash = none;
          messages_before = messages_before % 2 ^ 32;
          messages_after = messages_after % 2 ^ 32;
          tokens_before = none;
          summary_artifact = none;
        }))
    lift fatal (checkpoint sh.externals CheckpointReason.compaction)

  -- A.
  abbrev pub first_request : ℕ → Session → ModelRequest
  first_request turn s = record {
    model_id = sh.model_id;
    system = sh.system_prompt;
    messages = s.kernel.state.stable.messages;
    tools = sh.registry.definitions;
    params = sh.model_params;
    trace = record {
      session_id = s.kernel.state.session_id;
      turn = turn;
      attempt = 1;
      checkpoint_hash = s.kernel.checkpoint_hash;
      request_id = sh.request_id s;
    };
  }

  -- B: the hooks before the model.
  unfoldable pub before_model_hooks : List Middleware → ModelRequest → TurnStep ModelRequest
  unfolding check_cancel poll run_hook
  before_model_hooks [] req = pure req
  before_model_hooks (m ∷ ms) req = do
    check_cancel poll before_model
    r ← run_hook sh (λ s. m.before_model s req)
    before_model_hooks ms r.1

  abbrev pub refreshed : ModelRequest → Session → ModelRequest
  refreshed req s = record req {
    messages = s.kernel.state.stable.messages;
    trace = record req.trace { checkpoint_hash = s.kernel.checkpoint_hash };
  }

  -- The compaction that a hook asked for.
  abbrev pub compacted : ℕ → ModelRequest → Option Text → TurnStep ModelRequest
  compacted turn req none = pure req
  compacted turn req (some strategy) = do run_compaction strategy poll turn; gets (refreshed req)

  abbrev is_registered : Option RegistryEntry → Bool
  is_registered none = false
  is_registered (some e) = true

  abbrev pub check_tools : List ToolDefinition → TurnStep Unit
  check_tools [] = pure tt
  check_tools (t ∷ ts) =
      if is_registered (get sh.registry t.name)
      then check_tools ts
      else raise (
          fail (record {
            class = codes "middleware";
            attempts = 1;
            message = codes "request names unregistered tool `" ++ (t.name ++ codes "`");
            middleware = none;
            hook = some (codes "before_model");
          }))

  -- A and B: the request, with its hash.
  unfoldable pub prepared_request : ℕ → TurnStep (ModelRequest × Text)
  unfolding before_model_hooks run_compaction log_event hashed
  prepared_request turn = do
    first ← gets (first_request turn)
    modify (allow_compaction true)
    edited ← before_model_hooks sh.chain first
    modify (allow_compaction false)
    asked ← gets (λ s. s.emitter.compaction)
    modify (with_emitter (λ m. record m { compaction = none }))
    req ← compacted turn edited asked
    check_tools req.tools
    request_hash ← hashed sh (sh.hash_request (hashed_request req))
    prompt_hash ← hashed sh (sh.hash_prompt req.system)
    params_hash ← hashed sh (sh.hash_params req.params)
    checkpoint_hash ← gets (λ s. s.kernel.checkpoint_hash)
    log_event sh (
        Event.model_request (record {
          turn = turn;
          request_hash = request_hash;
          checkpoint_hash = checkpoint_hash;
          model_id = req.model_id;
          profiles = sh.profiles;
          system_prompt_hash = prompt_hash;
          prompt_blocks = map block_ref req.system;
          message_count = length req.messages % 2 ^ 32;
          tool_names = map (λ t. t.name) req.tools;
          params_hash = params_hash;
        }))
    pure (req, request_hash)

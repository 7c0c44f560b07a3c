-- ===== src/Kernel/Turn.antt =====
-- crates/kernel/src/loop_/turn.rs: one turn. The kernel with its emitter (loop_/support.rs) is a
-- session. What other threads do while a turn runs is the list of ticks: at each look at the turn's
-- token, whether it has been cancelled and what the handles have put into the inbox since the last
-- look. Hooks, the provider, tools, the redactor, hashes and the texts of errors are parameters
-- that may depend on the whole session.
pub mod Invoking
pub mod Outputs
pub mod Questions
pub mod Spilling
pub mod Calls
pub mod Requests
pub mod Body
pub mod Exits
pub mod Talk
pub mod Pairing
pub mod Recording
pub mod Answering
pub mod Requesting
pub mod Bodies
pub mod Conversing
pub mod Boundary
pub mod Settling
pub mod RollingBack
use grist_agent.Prelude.{
  ℕ, Bool, true, false, ◌||◌, Option, none, some, List, [], ◌∷◌, ◌++◌, if◌then◌else◌, Result, ok,
  err,
}
use grist_agent.Prelude.Exec.{Exec, pure, raise, gets, modify, ◌>>=◌, ◌>>◌}
use grist_agent.Prelude.Text.{Text, codes}
use grist_agent.Content.{
  Value, object, member, end, string, ContentBlock, ToolResultContent, Message,
}
use grist_agent.State.{ActiveProfiles, State}
use grist_agent.Tool.{ToolCall, ToolOutput, ToolResult, ToolError, Command}
use grist_agent.ModelCall.{
  PromptBlock, ModelParams, ModelRequest, ModelResponse, HashedRequest, HashedResponse,
}
use grist_agent.Event.{EventBody, LoopPhase, kernel_warning}
use grist_agent.Event
use grist_agent.Kernel.{
  Kernel, KernelError, log_error, hash_error, internal, Inbound, Externals, Action, log,
}
use grist_agent.Kernel.Registry.{RegistryEntry, Registry}
use grist_agent.Kernel.Retry.{ProviderError, Attempt}
use grist_agent.Kernel.Spill.{SpillConfig, Spilled}

-- The part of `Emitter` that lasts: the queue, the compaction requested, whether requests are
-- honoured, and the turn for warnings.
pub record Emitter : Type 0 where
  pub queue : List EventBody
  pub compaction : Option Text
  pub allowed : Bool
  pub turn : ℕ

pub record Tick : Type 0 where
  pub fires : Bool
  pub arrived : List Inbound

-- `watched` holds the ids for which the registrar ever got a future.
pub record Session : Type 0 where
  pub kernel : Kernel
  pub emitter : Emitter
  pub watched : List Text
  pub ticks : List Tick

pub record Failure : Type 0 where
  pub class : Text
  pub attempts : ℕ
  pub message : Text
  pub middleware : Option Text
  pub hook : Option Text

pub record Cancellation : Type 0 where
  pub phase : LoopPhase
  pub in_flight : Option Text
  pub unanswered : List ToolCall

pub data Abort : Type 0 where
  fail : Failure → Abort
  cancelled : Cancellation → Abort
  fatal : KernelError → Abort

pub record MiddlewareError : Type 0 where
  pub name : Text
  pub hook : Text
  pub source : Text

pub data ToolFlow : Type 0 where
  invoke_tool_flow : ToolFlow
  replace : Result ToolError ToolResult → ToolFlow

-- What a hook does with its context: an extension event, or a request to compact.
pub data HookAct : Type 0 where
  emits : EventBody → HookAct
  requests : Text → HookAct

-- A run of a hook: the state and the value that it was lent, as it leaves them.
pub record HookRun (V A : Type 0) : Type 0 where
  pub outcome : Result MiddlewareError A
  pub state : State
  pub lent : V
  pub acts : List HookAct

pub record Middleware : Type 0 where
  pub before_model : Session → ModelRequest → HookRun ModelRequest Unit
  pub after_model : Session → ModelResponse → HookRun ModelResponse Unit
  pub before_tool : Session → ToolCall → HookRun ToolCall ToolFlow
  pub after_tool : Session → ToolCall → ToolOutput → HookRun ToolOutput Unit
  pub on_compact : Session → HookRun (Unit {0}) Unit

pub data Invoked : Type 0 where
  invoke_done : Result ToolError ToolResult → Invoked
  invoke_timeout : ℕ → Invoked
  invoke_cancelled : Invoked

-- The race of a tool's `invoke` with its token and the timeout of its policy, and the ids for
-- which the tool registered a future.
pub record Invocation : Type 0 where
  pub invoked : Invoked
  pub watches : List Text

-- `Shared`, and what the code calls outside the kernel.
pub record Shared : Type 0 where
  pub externals : Externals
  pub chain : List Middleware
  pub registry : Registry
  pub profiles : ActiveProfiles
  pub model_id : Text
  pub system_prompt : List PromptBlock
  pub model_params : ModelParams
  pub spill : SpillConfig
  pub max_attempts : ℕ
  pub request_id : Session → Text
  pub attempts : Session → ModelRequest → ℕ → Attempt ModelResponse
  pub invoke : Session → RegistryEntry → ToolCall → Invocation
  pub elapsed_ms : Session → ℕ
  pub is_alive : Session → Text → Bool
  pub launch : Session → RegistryEntry → Command → Result Text Bool
  pub put : Session → Text → Text → Result Text Text
  pub redact_blocks : List ContentBlock → Option (List ContentBlock)
  pub redact_output : ToolOutput → Option ToolOutput
  pub redact_text : Text → Text
  pub canonical : Value → Option Text
  pub to_text : Value → Text
  pub spilled_in_value : Value → Option Spilled
  pub spilled_in_text : Text → Option Spilled
  pub hash_request : HashedRequest → Option Text
  pub hash_response : HashedResponse → Option Text
  pub hash_prompt : List PromptBlock → Option Text
  pub hash_params : ModelParams → Option Text
  pub hash_input : Value → Option Text
  pub hash_call : ToolCall → Option Text
  pub hash_content : ToolResultContent → Option Text
  pub hash_result : ToolResultContent → Bool → Option Text
  pub error_text : KernelError → Text
  pub tool_error_text : ToolError → Text
  pub provider_error_text : ProviderError → Text
  pub middleware_error_text : MiddlewareError → Text

-- `M` may exit with an error of type `E`.
abbrev pub Method : Type 0 → Type 0 → Type 0
Method E A = Exec Session E A

abbrev pub TurnStep : Type 0 → Type 0
TurnStep A = Method Abort A

-- `Abort::fail`
abbrev pub failed_as : Text → Text → Abort
failed_as class message =
    fail (record { class = class; attempts = 1; message = message; middleware = none; hook = none })

abbrev pub with_kernel : (Kernel → Kernel) → Session → Session
with_kernel f s = record s { kernel = f s.kernel }

abbrev pub with_emitter : (Emitter → Emitter) → Session → Session
with_emitter f s = record s { emitter = f s.emitter }

-- A method of the kernel, its error converted.
abbrev pub lifted :
    {E A : Type 0}
    → (KernelError → E)
    → Session
    → Result KernelError A × Kernel
    → Result E A × Session
lifted convert s (ok a, k) = (ok a, record s { kernel = k })
lifted convert s (err e, k) = (err (convert e), record s { kernel = k })

unfoldable pub lift : {E A : Type 0} → (KernelError → E) → Action A → Method E A
lift convert m s = lifted convert s (m s.kernel)

abbrev fire : Option Bool → Option Bool
fire none = none
fire (some b) = some true

abbrev pub is_fired : Option Bool → Bool
is_fired none = false
is_fired (some b) = b

abbrev pub passed : Tick → Kernel → Kernel
passed t k = record k {
  inbox = k.inbox ++ t.arrived;
  turn_token = if t.fires then fire k.turn_token else k.turn_token;
}

abbrev pub after_tick : List Tick → Session → Session
after_tick [] s = s
after_tick (t ∷ ts) s = record s { ticks = ts; kernel = passed t s.kernel }

-- `tt.is_cancelled()`
unfoldable pub poll : {E : Type 0} → Method E Bool
poll s = let s' = after_tick s.ticks s in (ok (is_fired s'.kernel.turn_token), s')

-- `check_cancel`, of a token that is looked at by `look`.
unfoldable pub check_cancel : TurnStep Bool → LoopPhase → TurnStep Unit
check_cancel look phase = do
  fired ← look
  if fired
      then raise (cancelled (record { phase = phase; in_flight = none; unanswered = [] }))
      else pure tt

-- `Emitter::emit` and `Emitter::request_compaction`
unfoldable pub act : HookAct → Emitter → Emitter
act (emits e) m = record m { queue = m.queue ++ e ∷ [] }
act (requests strategy) m =
    if m.allowed then record m { compaction = some strategy } else record m {
      queue =
          m.queue
          ++ Event.warning (
              kernel_warning m.turn (codes "compaction_request_ignored")
                (codes "request_compaction is honored only from before_model")
                (some (object (member (codes "strategy") (string strategy) end))))
            ∷ [];
    }

unfoldable pub acts : List HookAct → Emitter → Emitter
unfolding act
acts [] m = m
acts (a ∷ as') m = acts as' (act a m)

module _ (sh : Shared) where
  -- `From<KernelError> for Abort`
  unfoldable pub abort_of : KernelError → Abort
  abort_of (log_error e) = failed_as (codes "log") (sh.error_text (log_error e))
  abort_of hash_error = failed_as (codes "internal") (sh.error_text hash_error)
  abort_of (internal m) = failed_as (codes "internal") m
  abort_of e = fatal e

  -- `From<MiddlewareError> for Abort`
  abbrev pub abort_of_hook : MiddlewareError → Abort
  abort_of_hook e = fail (record {
    class = codes "middleware";
    attempts = 1;
    message = sh.middleware_error_text e;
    middleware = some e.name;
    hook = some e.hook;
  })

  unfoldable pub log_event : EventBody → TurnStep Unit
  unfolding lift log
  log_event body = lift abort_of (log body)

  -- A hash, or `Abort::fail("internal", …)`.
  unfoldable pub hashed : Option Text → TurnStep Text
  hashed none = raise (abort_of hash_error)
  hashed (some h) = pure h

  unfoldable pub log_all : List EventBody → TurnStep Unit
  unfolding log_event
  log_all [] = pure tt
  log_all (e ∷ es) = do log_event e; log_all es

  -- `Kernel::flush_emits`: the queue is taken first.
  unfoldable pub flush_emits : TurnStep Unit
  unfolding log_all
  flush_emits = do
    queue ← gets (λ s. s.emitter.queue)
    modify (with_emitter (λ m. record m { queue = [] }))
    log_all queue

  abbrev pub hook_result : {V A : Type 0} → V → Result MiddlewareError A → TurnStep (A × V)
  hook_result v (ok a) = do flush_emits; pure (a, v)
  hook_result v (err e) = raise (abort_of_hook e)

  -- A hook's run, and the flush after it.
  unfoldable pub run_hook : {V A : Type 0} → (Session → HookRun V A) → TurnStep (A × V)
  unfolding flush_emits acts
  run_hook hook = do
    run ← gets hook
    modify (λ s. record s {
      kernel = record s.kernel { state = run.state };
      emitter = acts run.acts s.emitter;
    })
    hook_result run.lent run.outcome

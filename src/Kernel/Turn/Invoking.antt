-- ===== src/Kernel/Turn/Invoking.antt =====
-- loop_/turn.rs: the invocation of a tool, and the session processes.
use grist_agent.Prelude.{
  Bool, true, false, not, Option, none, some, List, [], ◌∷◌, ◌++◌, any, keep, if◌then◌else◌, Result,
  ok, err,
}
use grist_agent.Prelude.Exec.{pure, raise, gets, modify, ◌>>=◌, ◌>>◌}
use grist_agent.Prelude.Text.{Text, codes, same}
use grist_agent.Tool.{ToolCall, ToolKind, stateless, session, ToolError, tool_failed, Command}
use grist_agent.Kernel.Registry.{RegistryEntry}
use grist_agent.Kernel.Turn.{Session, Method, Shared, Invoked, invoke_done, with_kernel}

abbrev pub with_procs : (List Text → List Text) → Session → Session
with_procs f = with_kernel (λ k. record k { session_procs = f k.session_procs })

abbrev without : Text → List Text → List Text
without name = keep (λ p. not (same p name))

-- `insert` into a hash set.
abbrev pub with_name : Text → List Text → List Text
with_name name ps = without name ps ++ name ∷ []

abbrev pub launched : Text → Result Text Bool → Method ToolError Unit
launched name (err e) = raise (tool_failed (codes "session process launch failed: " ++ e))
launched name (ok false) =
    raise (tool_failed (codes "session process exited immediately after relaunch"))
launched name (ok true) = modify (with_procs (with_name name))

abbrev pub start_command : Shared → RegistryEntry → Option Command → Method ToolError Unit
start_command sh e none = raise (tool_failed (codes "session tool has no session_command"))
start_command sh e (some cmd) = do r ← gets (λ s. sh.launch s e cmd); launched e.tool.name r

-- A process that is not alive is removed and launched again.
abbrev pub ensure_alive : Shared → RegistryEntry → Bool → Method ToolError Unit
ensure_alive sh e true = pure tt
ensure_alive sh e false = do
  modify (with_procs (without e.tool.name))
  start_command sh e e.tool.session_command

-- `Kernel::ensure_session_process`
unfoldable pub ensure_session_process : Shared → RegistryEntry → Method ToolError Unit
ensure_session_process sh e = do
  lives ← gets (λ s.
      if any (same e.tool.name) s.kernel.session_procs then sh.is_alive s e.tool.name else false)
  ensure_alive sh e lives

abbrev pub ensured : Shared → RegistryEntry → ToolKind → Method ToolError Unit
ensured sh e stateless = pure tt
ensured sh e session = ensure_session_process sh e

-- `Registrar::watch` for each of the ids.
unfoldable pub watch_all : List Text → Session → Session
watch_all [] s = s
watch_all (id ∷ ids) s = watch_all ids (record s {
  kernel = record s.kernel { wakers = with_name id s.kernel.wakers };
  watched = with_name id s.watched;
})

abbrev pub invoke_ready :
    Shared → RegistryEntry → ToolCall → Result ToolError (Unit {0}) × Session → Invoked × Session
invoke_ready sh e call (err x, s) = (invoke_done (err x), s)
invoke_ready sh e call (ok u, s) =
    let run = sh.invoke s e call in (run.invoked, watch_all run.watches s)

-- `Kernel::invoke_tool`
unfoldable pub invoke_tool : {E : Type 0} → Shared → RegistryEntry → ToolCall → Method E Invoked
unfolding ensure_session_process watch_all ◌>>=◌
invoke_tool sh e call s =
    let run = invoke_ready sh e call (ensured sh e e.kind s) in (ok run.0, run.1)

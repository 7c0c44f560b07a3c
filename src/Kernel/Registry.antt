-- ===== src/Kernel/Registry.antt =====
-- crates/kernel/src/loop_/registry.rs: the registry of tools. `by_name` is a hash map, kept sorted;
-- `policy_digest` is the hash of a policy (`none`: it cannot be canonicalized).
pub mod Lookup
use grist_agent.Prelude.{
  ℕ, Bool, true, false, Option, none, some, List, [], ◌∷◌, ◌++◌, not, any, length, get_elem?,
  if◌then◌else◌, Result, ok, err, ◌>>=◌, ok_or,
}
use grist_agent.Prelude.Order.{nat_order, list_order}
use grist_agent.Prelude.OrdMap
use grist_agent.Prelude.OrdMap.{OrdMap}
use grist_agent.Prelude.Sort.{sort}
use grist_agent.Prelude.Text.{Text, codes}
use grist_agent.Capability.{Capability}
use grist_agent.Sandbox.{
  SandboxPolicy, SandboxLimits, PolicyError, derive_policy_with, envelope_caps,
}
use grist_agent.Tool.{
  Tool, ToolKind, stateless, session, ToolDefinition, Command, definition, is_valid_tool_name,
}
use grist_agent.Kernel.{
  KernelError, duplicate_tool, invalid_tool_name, tool_exceeds_grants, missing_session_command,
  hash_error, internal,
}

pub record RegistryEntry : Type 0 where
  pub tool : Tool
  pub kind : ToolKind
  pub capabilities : List Capability
  pub policy : SandboxPolicy
  pub policy_hash : Text

pub record Registry : Type 0 where
  pub entries : List RegistryEntry
  pub by_name : OrdMap Text ℕ
  pub definitions : List ToolDefinition
  pub envelope_hash : Text

-- `map_err`
abbrev pub or_error {ℓ} : {E F : Type 0} {A : Type ℓ} → (E → F) → Result E A → Result F A
or_error f (ok a) = ok a
or_error f (err e) = err (f e)

abbrev pub has_command : Option Command → Bool
has_command none = false
has_command (some c) = true

abbrev pub needs_command : ToolKind → Option Command → Bool
needs_command stateless c = false
needs_command session c = not (has_command c)

-- The tables while they are built.
pub record Tables : Type 0 where
  pub entries : List RegistryEntry
  pub by_name : OrdMap Text ℕ
  pub definitions : List ToolDefinition

abbrev pub with_entry : RegistryEntry → Tables → Tables
with_entry e t = record {
  entries = t.entries ++ e ∷ [];
  by_name = OrdMap.put e.tool.name (length t.entries) t.by_name;
  definitions = t.definitions ++ definition e.tool ∷ [];
}

abbrev pub is_known : Option ℕ → Bool
is_known none = false
is_known (some i) = true

module _ (policy_digest : SandboxPolicy → Option Text) (grants : List Capability)
    (limits : SandboxLimits) where
  abbrev pub hashed_entry : Tool → SandboxPolicy → Option Text → Result KernelError RegistryEntry
  hashed_entry tool policy none = err hash_error
  hashed_entry tool policy (some hash) = ok (record {
    tool = tool;
    kind = tool.kind;
    capabilities = tool.capabilities;
    policy = policy;
    policy_hash = hash;
  })

  abbrev pub derived_entry :
      Tool → Result PolicyError SandboxPolicy → Result KernelError RegistryEntry
  derived_entry tool (err e) = err (tool_exceeds_grants tool.name e)
  derived_entry tool (ok policy) =
      if needs_command tool.kind tool.session_command
      then err (missing_session_command tool.name)
      else hashed_entry tool policy (policy_digest policy)

  abbrev pub entry_of : Tool → Result KernelError RegistryEntry
  entry_of tool = derived_entry tool (derive_policy_with tool.capabilities grants limits)

  -- One round of the loop over the tools.
  unfoldable pub add_tool : Tool → Tables → Result KernelError Tables
  unfolding is_valid_tool_name
  add_tool tool t =
      if not (is_valid_tool_name tool.name)
      then err (invalid_tool_name tool.name)
      else if is_known (OrdMap.get tool.name t.by_name)
      then err (duplicate_tool tool.name)
      else entry_of tool >>= λ e. ok (with_entry e t)

  unfoldable pub add_tools : List Tool → Tables → Result KernelError Tables
  add_tools [] t = ok t
  add_tools (tool ∷ tools) t = do u ← add_tool tool t; add_tools tools u

  -- `Registry::build`
  unfoldable pub build : List Tool → Result KernelError Registry
  unfolding add_tools add_tool
  build tools = do
    t ← add_tools tools (record { entries = []; by_name = []; definitions = [] })
    envelope ←
        or_error (λ e. internal (codes "envelope policy"))
          (derive_policy_with (envelope_caps grants) grants limits)
    hash ← ok_or hash_error (policy_digest envelope)
    ok (record {
      entries = t.entries;
      by_name = t.by_name;
      definitions = t.definitions;
      envelope_hash = hash;
    })

abbrev pub entry_at : List RegistryEntry → Option ℕ → Option RegistryEntry
entry_at entries none = none
entry_at entries (some i) = get_elem? entries i

-- `Registry::get`
unfoldable pub get : Registry → Text → Option RegistryEntry
get r name = entry_at r.entries (OrdMap.get name r.by_name)

-- `Registry::names_sorted`
unfoldable pub names_sorted : Registry → List Text
names_sorted r = sort (λ a b. not (list_order.lt b a)) (OrdMap.keys r.by_name)

-- ===== src/Sandbox.antt =====
-- crates/kernel/src/sandbox.rs: the pure derivation of a sandbox policy from capability atoms, and
-- crates/kernel/src/host.rs: the file-system check made against it. A `Duration` is its number of
-- nanoseconds.
pub mod Derivation
pub mod Success
pub mod Access
use grist_agent.Prelude.{
  ℕ, ◌*◌, ◌^◌, min, max, Bool, true, false, not, ◌&&◌, Option, none, some, List, [], ◌∷◌, map, any,
  keep, length, if◌then◌else◌, leb, Result, ok, err, ◌>>=◌,
}
use grist_agent.Prelude.Text.{Text, codes, ascii_upper, has_infix}
use grist_agent.Prelude.Order.{nat_order, list_order}
use grist_agent.Prelude.OrdSet
use grist_agent.Prelude.OrdMap
use grist_agent.Prelude.OrdMap.{OrdMap}
use grist_agent.Capability.{
  FsMode, ro, mode_le, NetAllow, any_host, hosts, Capability, fs, net, proc, tool, spawn, secret,
  covered_by,
}
use grist_agent.Capability.Paths.{PathBuf, path_starts_with}
use grist_agent.Capability.Strings.{to_string}

pub record Mount : Type 0 where
  pub path : PathBuf
  pub mode : FsMode

pub record NetPolicy : Type 0 where
  pub enabled : Bool
  pub allow : NetAllow

pub record SandboxPolicy : Type 0 where
  pub mounts : List Mount
  pub scratch_tmpfs_mb : ℕ
  pub net_policy : NetPolicy
  pub timeout : ℕ
  pub env_allowlist : List Text
  pub programs : List Text

pub record SandboxLimits : Type 0 where
  pub timeout : ℕ
  pub scratch_tmpfs_mb : ℕ
  pub env_allowlist : List Text
  pub network : Bool

pub data PolicyError : Type 0 where
  exceeds : Text → PolicyError
  path_denied : PathBuf → FsMode → PolicyError
  env_name_forbidden : Text → PolicyError
  secret_in_sandbox : PolicyError

abbrev pub secret_like_env : List Text
secret_like_env =
    codes "KEY"
    ∷ codes "TOKEN"
    ∷ codes "SECRET"
    ∷ codes "PASSWORD"
    ∷ codes "PASSWD"
    ∷ codes "CREDENTIAL"
    ∷ codes "AUTH"
    ∷ []

unfoldable pub env_name_is_secret_like : Text → Bool
env_name_is_secret_like name = any (λ pat. has_infix pat (map ascii_upper name)) secret_like_env

abbrev pub second : ℕ
second = 10 ^ 9

abbrev pub min_timeout : ℕ
min_timeout = 1 * second

abbrev pub max_timeout : ℕ
max_timeout = 24 * 3600 * second

-- `Ord::clamp`
abbrev pub clamp : ℕ → ℕ → ℕ → ℕ
clamp x lo hi = min (max x lo) hi

-- The local variables of the loop over the requested atoms.
pub record Draft : Type 0 where
  pub mounts : OrdMap PathBuf FsMode
  pub programs : List Text
  pub net_any : Bool
  pub net_hosts : List Text
  pub net_present : Bool

abbrev pub empty_draft : Draft
empty_draft = record {
  mounts = [];
  programs = [];
  net_any = false;
  net_hosts = [];
  net_present = false;
}

-- `entry(path).or_insert(mode)`, then the raise of a smaller mode.
abbrev pub raised : FsMode → Option FsMode → FsMode
raised mode none = mode
raised mode (some entry) = if mode_le mode entry then entry else mode

abbrev pub add_mount : PathBuf → FsMode → OrdMap PathBuf FsMode → OrdMap PathBuf FsMode
add_mount path mode mounts = OrdMap.put path (raised mode (OrdMap.get path mounts)) mounts

-- The body of the loop, behind its two guards.
unfoldable pub add_atom : Draft → Capability → Draft
add_atom d (fs path mode) = record d { mounts = add_mount path mode d.mounts }
add_atom d (net any_host) = record d { net_any = true; net_present = true }
add_atom d (net (hosts hs)) = record d {
  net_hosts = OrdSet.union d.net_hosts hs;
  net_present = true;
}
add_atom d (proc program) = record d { programs = OrdSet.insert program d.programs }
add_atom d _ = d

abbrev pub is_secret : Capability → Bool
is_secret (secret name) = true
is_secret _ = false

-- The loop over `caps`.
unfoldable pub gather : List Capability → Draft → List Capability → Result PolicyError Draft
gather grants d [] = ok d
gather grants d (c ∷ cs) =
    let rest = gather grants (add_atom d c) cs in
    if is_secret c
    then err secret_in_sandbox
    else if covered_by c grants
    then rest
    else err (exceeds (to_string c))

-- The loop over `limits.env_allowlist`.
unfoldable pub check_env : List Text → List Text → Result PolicyError (List Text)
check_env acc [] = ok acc
check_env acc (name ∷ names) =
    let rest = check_env (OrdSet.insert name acc) names in
    if env_name_is_secret_like name then err (env_name_forbidden name) else rest

unfoldable pub derive_net : SandboxLimits → Draft → NetPolicy
derive_net limits d =
    if limits.network && d.net_present
    then record { enabled = true; allow = if d.net_any then any_host else hosts d.net_hosts }
    else record { enabled = false; allow = hosts [] }

abbrev pub to_mounts : OrdMap PathBuf FsMode → List Mount
to_mounts = map (λ e. record { path = e.0; mode = e.1 })

unfoldable pub derive_policy_with :
    List Capability → List Capability → SandboxLimits → Result PolicyError SandboxPolicy
derive_policy_with caps grants limits = do
  d ← gather grants empty_draft caps
  env ← check_env [] limits.env_allowlist
  ok (record {
    mounts = to_mounts d.mounts;
    scratch_tmpfs_mb = max limits.scratch_tmpfs_mb 1;
    net_policy = derive_net limits d;
    timeout = clamp limits.timeout min_timeout max_timeout;
    env_allowlist = env;
    programs = d.programs;
  })

-- The atoms of the session envelope: the grants without their `secret:` atoms.
unfoldable pub envelope_caps : List Capability → List Capability
envelope_caps grants = keep (λ c. not (is_secret c)) grants

-- `max_by_key(components().count())`: of equal keys the last.
abbrev pub longer : Option Mount → Mount → Option Mount
longer none m = some m
longer (some b) m = if leb (length b.path) (length m.path) then some m else some b

-- One step of the search: the filter, then the comparison.
abbrev pub advance : PathBuf → Option Mount → Mount → Option Mount
advance path best m = if path_starts_with path m.path then longer best m else best

-- The longest mount that holds the path, searched from the best so far.
unfoldable pub best_mount : PathBuf → Option Mount → List Mount → Option Mount
best_mount path best [] = best
best_mount path best (m ∷ ms) = best_mount path (advance path best m) ms

-- `FsPolicy::check`
unfoldable pub check : List Mount → PathBuf → FsMode → Result PolicyError (Unit {0})
check mounts path mode = elim (best_mount path none mounts) [
  | none ↦ err (path_denied path mode)
  | some m ↦ if mode_le mode m.mode then ok tt else err (path_denied path mode)
]

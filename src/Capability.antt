-- ===== src/Capability.antt =====
-- crates/kernel/src/capability.rs: capability atoms and the partial order `narrower_than`. A
-- `PathBuf` of an atom is the list of its components below `/`: `==`, `Ord` and `starts_with` of
-- `std::path` compare components. `BTreeSet<String>` is the strictly increasing list.
pub mod Coverage
pub mod Hosts
pub mod Order
pub mod Paths
pub mod Strings
use grist_agent.Prelude.{Bool, true, false, List, ◌&&◌, any, all}
use grist_agent.Prelude.Text.{Text, same}
use Hosts.{host_covered}
use Paths.{PathBuf, path_starts_with}

pub data FsMode : Type 0 where
  ro rw : FsMode

-- `Ro < Rw`
abbrev pub mode_le : FsMode → FsMode → Bool
mode_le ro m = true
mode_le FsMode.rw ro = false
mode_le FsMode.rw FsMode.rw = true

pub data NetAllow : Type 0 where
  any_host : NetAllow
  hosts : List Text → NetAllow

pub data Capability : Type 0 where
  fs : PathBuf → FsMode → Capability
  net : NetAllow → Capability
  proc : Text → Capability
  tool : Text → Capability
  spawn : Text → Capability
  secret : Text → Capability

unfoldable pub narrower_than : Capability → Capability → Bool
narrower_than (fs a am) (fs b bm) = mode_le am bm && path_starts_with a b
narrower_than (net a) (net any_host) = true
narrower_than (net any_host) (net (hosts b)) = false
narrower_than (net (hosts a)) (net (hosts b)) = all (λ ah. any (λ bh. host_covered ah bh) b) a
narrower_than (proc a) (proc b) = same a b
narrower_than (tool a) (tool b) = same a b
narrower_than (spawn a) (spawn b) = same a b
narrower_than (secret a) (secret b) = same a b
narrower_than _ _ = false

unfoldable pub covered_by : Capability → List Capability → Bool
covered_by c grants = any (λ g. narrower_than c g) grants

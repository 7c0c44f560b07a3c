-- ===== src/Tests/Permissions.antt =====
-- crates/kernel/src/capability.rs and sandbox.rs on the grants of a small session.
use grist_agent.Prelude.{◌≡◌, refl, true, ◌&&◌, List, [], ◌∷◌, all, Memᴰ, ok}
use grist_agent.Prelude.Text.{Text, codes}
use grist_agent.Capability.{
  FsMode, ro, mode_le, any_host, hosts, Capability, fs, net, proc, secret, narrower_than,
  covered_by,
}
use grist_agent.Capability.Hosts.{normalize_hosts, host_covered, host_parts}
use grist_agent.Capability.Paths.{PathBuf, path_starts_with}
use grist_agent.Capability.Strings.{from_str, to_string}
use grist_agent.Capability.Strings.RoundTrip.{from_str-to_string}
use grist_agent.Capability.Order.{
  IsNormal, narrower_than_trans, narrower_than_antisym, covered_by_mono,
  normalize_hosts_same_permission,
}
use grist_agent.Sandbox.{
  Mount, SandboxPolicy, SandboxLimits, derive_policy_with, check, gather, add_atom, check_env,
  derive_net, envelope_caps, env_name_is_secret_like, best_mount, second,
}
use grist_agent.Sandbox.Derivation.{GrantsOnly, derive_policy_with-GrantsOnly}
use grist_agent.Sandbox.Success.{
  succeeds, is_admissible, is_public_name, derive_policy_with-succeeds, envelope-succeeds,
  IsBounded, derive_policy_with-IsBounded,
}
use grist_agent.Sandbox.Access.{Decides, check_decided, check-covered}

abbrev work : PathBuf
work = codes "work" ∷ []

abbrev docs : PathBuf
docs = codes "work" ∷ codes "docs" ∷ []

abbrev site : Text
site = codes "example.org"

abbrev site_port : Text
site_port = codes "example.org:443"

abbrev grants : List Capability
grants = fs work FsMode.rw ∷ net (hosts (site ∷ [])) ∷ proc (codes "git") ∷ []

abbrev caps : List Capability
caps = fs docs ro ∷ net (hosts (site_port ∷ [])) ∷ proc (codes "git") ∷ []

abbrev limits : SandboxLimits
limits = record {
  timeout = 0;
  scratch_tmpfs_mb = 64;
  env_allowlist = codes "PATH" ∷ [];
  network = true;
}

abbrev policy : SandboxPolicy
policy = record {
  mounts = record { path = docs; mode = ro } ∷ [];
  scratch_tmpfs_mb = 64;
  net_policy = record { enabled = true; allow = hosts (site_port ∷ []) };
  timeout = second;
  env_allowlist = codes "PATH" ∷ [];
  programs = codes "git" ∷ [];
}

derived : derive_policy_with caps grants limits ≡ ok policy
unfolding derive_policy_with gather add_atom check_env derive_net env_name_is_secret_like covered_by
    narrower_than path_starts_with host_covered host_parts
derived = refl

derive_policy_with-GrantsOnly_example : GrantsOnly caps grants policy
derive_policy_with-GrantsOnly_example = derive_policy_with-GrantsOnly caps grants limits derived

allowed : check policy.mounts docs ro ≡ ok tt
unfolding check best_mount path_starts_with
allowed = refl

check-covered_example : covered_by (fs docs ro) grants ≡ true
check-covered_example = check-covered caps grants limits docs ro derived allowed

derive_policy_with-succeeds_example :
    succeeds (derive_policy_with caps grants limits)
    ≡ (all (is_admissible grants) caps && all is_public_name limits.env_allowlist)
derive_policy_with-succeeds_example = derive_policy_with-succeeds caps grants limits

derive_policy_with-IsBounded_example : IsBounded policy
derive_policy_with-IsBounded_example = derive_policy_with-IsBounded caps grants limits derived

check_decided_example : (m : Mount) × Decides docs policy.mounts m × (mode_le ro m.mode ≡ true)
check_decided_example = check_decided policy.mounts docs ro allowed

abbrev port_atom : Capability
port_atom = net (hosts (site_port ∷ []))

abbrev site_atom : Capability
site_atom = net (hosts (site ∷ []))

port_narrower : narrower_than port_atom site_atom ≡ true
unfolding narrower_than host_covered host_parts
port_narrower = refl

site_narrower : narrower_than site_atom (net any_host) ≡ true
unfolding narrower_than
site_narrower = refl

narrower_than_trans_example : narrower_than port_atom (net any_host) ≡ true
narrower_than_trans_example =
    narrower_than_trans port_atom site_atom (net any_host) port_narrower site_narrower

site-IsNormal : IsNormal (site ∷ [])
unfolding normalize_hosts host_parts
site-IsNormal = record { sorted = (tt, tt); fixed = refl }

site_self : narrower_than site_atom site_atom ≡ true
unfolding narrower_than host_covered host_parts
site_self = refl

narrower_than_antisym_example : site_atom ≡ site_atom
narrower_than_antisym_example =
    narrower_than_antisym site_atom site_atom site-IsNormal site-IsNormal site_self site_self

site_covered : covered_by site_atom (site_atom ∷ []) ≡ true
unfolding covered_by narrower_than host_covered host_parts
site_covered = refl

wider_covers : (g : Capability) → Memᴰ g (site_atom ∷ []) → covered_by g (net any_host ∷ []) ≡ true
unfolding covered_by narrower_than
wider_covers g (Memᴰ.head e) = rw e refl
wider_covers g (Memᴰ.tail m) = elim m [ ]

covered_by_mono_example : covered_by port_atom (net any_host ∷ []) ≡ true
covered_by_mono_example =
    covered_by_mono port_atom site_atom (site_atom ∷ []) (net any_host ∷ []) port_narrower
      site_covered wider_covers

abbrev both : List Text
both = site ∷ site_port ∷ []

normalize_hosts_same_permission_example :
    (narrower_than (net (hosts both)) (net (hosts (normalize_hosts both))) ≡ true)
    × (narrower_than (net (hosts (normalize_hosts both))) (net (hosts both)) ≡ true)
    × (normalize_hosts (normalize_hosts both) ≡ normalize_hosts both)
normalize_hosts_same_permission_example = normalize_hosts_same_permission both

from_str-to_string_example : from_str (to_string (fs docs ro)) ≡ ok (fs docs ro)
from_str-to_string_example = from_str-to_string (fs docs ro) refl

abbrev session_grants : List Capability
session_grants = secret (codes "api") ∷ grants

envelope-succeeds_example :
    succeeds (derive_policy_with (envelope_caps session_grants) session_grants limits)
    ≡ all is_public_name limits.env_allowlist
envelope-succeeds_example = envelope-succeeds session_grants limits

-- ===== src/Capability/Strings.antt =====
-- capability.rs: the canonical string form of an atom (`Display`) and its parser (`FromStr`).
pub mod RoundTrip
use grist_agent.Prelude.{
  ℕ, Bool, true, false, ◌||◌, Option, none, some, List, [], ◌∷◌, ◌++◌, if◌then◌else◌, ◌==◌, Result,
  ok, err, ◌>>=◌, ok_or,
}
use grist_agent.Prelude.Text.{Text, same, codes, is_empty, split, split_once, join}
use grist_agent.Prelude.Order.{nat_order, list_order}
use grist_agent.Prelude.OrdSet
use grist_agent.Capability.{
  FsMode, ro, NetAllow, any_host, hosts, Capability, fs, net, proc, tool, spawn, secret,
}
use grist_agent.Capability.Hosts.{normalize_host, normalize_hosts}
use grist_agent.Capability.Paths.{PathBuf, is_absolute, normalize_path, display_path}

pub data CapabilityParseError : Type 0 where
  unknown_prefix bad_path empty_name : Text → CapabilityParseError

abbrev pub Parsed : Type 0 → Type 0
Parsed A = Result CapabilityParseError A

abbrev pub mode_text : FsMode → Text
mode_text ro = codes "ro"
mode_text FsMode.rw = codes "rw"

-- `Display`
unfoldable pub to_string : Capability → Text
to_string (fs p ro) = codes "fs.ro:" ++ display_path p
to_string (fs p FsMode.rw) = codes "fs.rw:" ++ display_path p
to_string (net any_host) = codes "net:*"
to_string (net (hosts hs)) = codes "net:" ++ join (codes ",") hs
to_string (proc program) = codes "proc:" ++ program
to_string (tool name) = codes "tool:" ++ name
to_string (spawn name) = codes "spawn:" ++ name
to_string (secret name) = codes "secret:" ++ name

-- The closure `nonempty` of `from_str` on the whole string `s`.
abbrev pub nonempty : Text → Text → Parsed Text
nonempty s v = if is_empty v then err (empty_name s) else ok v

abbrev pub checked_path : Text → Parsed PathBuf
checked_path p = ok_or (bad_path p) (normalize_path p)

-- The arm for `fs.ro` and `fs.rw`.
unfoldable pub parse_fs : FsMode → Text → Text → Parsed Capability
parse_fs mode s rest = do operand ← nonempty s rest; path ← checked_path operand; ok (fs path mode)

-- The loop over the comma-separated hosts.
unfoldable pub collect_hosts : Text → List Text → List Text → Parsed (List Text)
collect_hosts s [] acc = ok acc
collect_hosts s (h ∷ hs) acc =
    let host = normalize_host h in
    let rest = collect_hosts s hs (OrdSet.insert host acc) in
    if is_empty host || same host (codes "*") then err (empty_name s) else rest

unfoldable pub parse_net : Text → Text → Parsed Capability
parse_net s rest = do
  operand ← nonempty s rest
  if same operand (codes "*") then ok (net any_host) else do
    found ← collect_hosts s (split b',' operand) []
    ok (net (hosts (normalize_hosts found)))

unfoldable pub parse_proc : Text → Text → Parsed Capability
parse_proc s rest = do
  program ← nonempty s rest
  if is_absolute program
      then (do path ← checked_path program; ok (proc (display_path path)))
      else ok (proc program)

-- The dispatch on the prefix.
unfoldable pub parse_atom : Text → Text → Text → Parsed Capability
parse_atom s prefix rest =
    if same prefix (codes "fs.ro")
    then parse_fs ro s rest
    else if same prefix (codes "fs.rw")
    then parse_fs FsMode.rw s rest
    else if same prefix (codes "net")
    then parse_net s rest
    else if same prefix (codes "proc")
    then parse_proc s rest
    else if same prefix (codes "tool")
    then (do name ← nonempty s rest; ok (tool name))
    else if same prefix (codes "spawn")
    then (do name ← nonempty s rest; ok (spawn name))
    else if same prefix (codes "secret")
    then (do name ← nonempty s rest; ok (secret name))
    else err (unknown_prefix s)

unfoldable pub from_str : Text → Parsed Capability
unfolding parse_atom
from_str s = elim (split_once b':' s) [
  | none ↦ err (unknown_prefix s)
  | some (prefix, rest) ↦ parse_atom s prefix rest
]

-- ===== src/Capability/Hosts.antt =====
-- capability.rs: the helpers on host names.
use grist_agent.Prelude.{
  ℕ, Bool, true, false, ◌&&◌, Option, none, some, List, ◌∷◌, ◌++◌, map, all, keep, if◌then◌else◌,
  not, ◌==◌,
}
use grist_agent.Prelude.Text.{
  Text, same, is_empty, is_digit, rsplit_once, trim, trim_end, ascii_lower,
}
use grist_agent.Prelude.Order.{list_order, nat_order}
use grist_agent.Prelude.OrdSet.{contains}

abbrev is_dot : ℕ → Bool
is_dot c = c == b'.'

-- The test that guards both splits: a port is a non-empty run of digits.
abbrev pub is_port : Text → Bool
is_port port = not (is_empty port) && all is_digit port

-- `host_parts`: the name and the port, if there is one.
unfoldable pub host_parts : Text → Text × Option Text
host_parts h = elim (rsplit_once b':' h) [
  | none ↦ (h, none)
  | some (name, port) ↦ if is_port port then (name, some port) else (h, none)
]

-- `normalize_host`
unfoldable pub normalize_host : Text → Text
normalize_host raw =
    let h = map ascii_lower (trim raw) in
    elim (rsplit_once b':' h) [
      | none ↦ trim_end is_dot h
      | some (name, port) ↦
          if is_port port then trim_end is_dot name ++ (b':' ∷ port) else trim_end is_dot h
    ]

abbrev pub has_port : Text → Bool
unfolding host_parts
has_port h = elim (host_parts h).1 [ none ↦ false | some p ↦ true ]

-- The names of the hosts that carry no port.
abbrev pub bare_names : List Text → List Text
bare_names hs = keep (λ h. not (has_port h)) hs

-- The closure of the filter: a host with a port survives unless its name is bare too.
abbrev pub survives : List Text → Text → Bool
survives bare h = not (has_port h && contains (host_parts h).0 bare)

-- `normalize_hosts`: a `host:port` whose bare host is present is dropped.
unfoldable pub normalize_hosts : List Text → List Text
normalize_hosts hs = keep (survives (bare_names hs)) hs

unfoldable pub host_covered : Text → Text → Bool
host_covered a b =
    if same a b
    then true
    else same (host_parts a).0 (host_parts b).0 && (has_port a && not (has_port b))

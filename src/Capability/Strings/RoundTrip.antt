-- ===== src/Capability/Strings/RoundTrip.antt =====
-- The string form of a well-formed atom parses back to it.
use mathlib.Core.List.{append-nil, append_assoc}
use grist_agent.Prelude.{
  ◌⊎◌, ◌≡◌, refl, ap, ◌∙◌, ◌≢◌, inl, inr, ℕ, Bool, true, false, not, some, List, [], ◌∷◌, ◌++◌, all,
  arith, if◌then◌else◌, ◌==◌, ok, map,
}
use grist_agent.Prelude.Text.{Text, same, same_iff, codes, is_empty, split, join}
use grist_agent.Prelude.Order.{nat_order, list_order}
use grist_agent.Prelude.OrdSet
use grist_agent.Capability.{
  FsMode, ro, any_host, hosts, Capability, fs, net, proc, tool, spawn, secret,
}
use grist_agent.Capability.Hosts.{normalize_host}
use grist_agent.Capability.Order.{IsNormal}
use grist_agent.Capability.Paths.{
  PathBuf, normal, pieces_components, push_components, is_absolute, normalize_path, display_path,
}
use grist_agent.Capability.Strings.{
  to_string, from_str, parse_fs, parse_net, parse_proc, collect_hosts,
}

-- No character of the text is the separator.
abbrev pub lacks : ℕ → Text → Bool
lacks c = all (λ x. not (x == c))

split-lacks : (c : ℕ) (w : Text) → lacks c w ≡ true → split c w ≡ w ∷ []
split-lacks c [] h = refl
split-lacks c (x ∷ w) h = ground (arith, split-lacks c w)

split_first :
    (c : ℕ) (w rest : Text) → lacks c w ≡ true → split c (w ++ c ∷ rest) ≡ w ∷ split c rest
split_first c [] rest h = ground arith
split_first c (x ∷ w) rest h = ground (arith, split_first c w rest)

-- Splitting what was joined gives the pieces back.
pub split-join :
    (c : ℕ) (w : Text) (ws : List Text)
    → all (lacks c) (w ∷ ws) ≡ true
    → split c (join (c ∷ []) (w ∷ ws)) ≡ w ∷ ws
split-join c w [] h = split-lacks c w (ground arith)
split-join c w (v ∷ ws) h =
    split_first c w (join (c ∷ []) (v ∷ ws)) (ground arith)
    ∙ ap (λ r. w ∷ r) (split-join c v ws (ground arith))

-- A component that `normalize_path` stores: not empty, not `.` or `..`, without a separator.
abbrev pub is_segment : Text → Bool
is_segment s =
    if is_empty s
    then false
    else if same s (codes ".")
    then false
    else if same s (codes "..")
    then false
    else lacks b'/' s

components_of_segments :
    (p : PathBuf) → all is_segment p ≡ true → pieces_components p ≡ map normal p
components_of_segments [] h = refl
components_of_segments (s ∷ p) h = ground (arith, components_of_segments p)

push_segments :
    (out p : PathBuf)
    → all is_segment p ≡ true
    → push_components out (map normal p) ≡ some (out ++ p)
unfolding push_components
push_segments out [] h = rw append-nil
push_segments out (s ∷ p) h =
    ground (arith, push_segments (out ++ s ∷ []) p, append_assoc out (s ∷ []) p)

split_display :
    (p : PathBuf)
    → all is_segment p ≡ true
    → pieces_components (split b'/' (join (b'/' ∷ []) p)) ≡ map normal p
split_display [] h = refl
split_display (s ∷ p) h =
    ap pieces_components (split-join b'/' s p (segments_lack (s ∷ p) h))
    ∙ components_of_segments (s ∷ p) h
  where
    segments_lack : (q : PathBuf) → all is_segment q ≡ true → all (lacks b'/') q ≡ true
    segments_lack = elim [ [] ↦ λ h. refl | t ∷ (q → ih) ↦ λ h. ground (arith, ih) ]

-- The display form of a normalized absolute path normalizes to it.
pub normalize-display :
    (p : PathBuf) → all is_segment p ≡ true → normalize_path (display_path p) ≡ some p
unfolding normalize_path display_path
normalize-display p h = rw (split_display p h) (push_segments [] p h)

-- A host that `from_str` stores.
abbrev pub is_host : Text → Bool
is_host h =
    if is_empty h
    then false
    else if same h (codes "*")
    then false
    else if lacks b',' h
    then same (normalize_host h) h
    else false

collect_of_hosts :
    (s : Text) (hs acc : List Text)
    → all is_host hs ≡ true
    → collect_hosts s hs acc ≡ ok (OrdSet.union acc hs)
unfolding collect_hosts
collect_of_hosts s [] acc h = refl
collect_of_hosts s (x ∷ hs) acc h =
    let n : normalize_host x ≡ x = (same_iff (normalize_host x) x).0 (ground arith) in
    rw n (ground (arith, collect_of_hosts s hs (OrdSet.insert x acc)))

append-ne-nil : (x : ℕ) (u v : Text) → is_empty (u ++ x ∷ v) ≡ false
append-ne-nil x [] v = refl
append-ne-nil x (c ∷ u) v = refl

same-nil : (u : Text) → is_empty u ≡ false → same u [] ≡ false
same-nil [] h = cc
same-nil (c ∷ u) h = refl

join_ne_star :
    (x : Text) (hs : List Text)
    → is_host x ≡ true
    → (is_empty (join (codes ",") (x ∷ hs)) ≡ false)
      × (same (join (codes ",") (x ∷ hs)) (codes "*") ≡ false)
join_ne_star x [] h = ground arith
join_ne_star [] (y ∷ hs) h = cc
join_ne_star (c ∷ x) (y ∷ hs) h = ground (
  arith,
  append-ne-nil b',' x (join (codes ",") (y ∷ hs)),
  same-nil (x ++ (b',' ∷ join (codes ",") (y ∷ hs))),
)

-- A host set is printed and read back.
parse-join :
    (s : Text) (x : Text) (hs : List Text)
    → IsNormal (x ∷ hs)
    → all is_host (x ∷ hs) ≡ true
    → parse_net s (join (codes ",") (x ∷ hs)) ≡ ok (net (hosts (x ∷ hs)))
unfolding parse_net
parse-join s x hs n h =
    let (e, f) = join_ne_star x hs (ground arith) in
    rw (
      e,
      f,
      split-join b',' x hs (hosts_lack (x ∷ hs) h),
      collect_of_hosts s (x ∷ hs) [] h,
      OrdSet.union_of_sorted (x ∷ hs) n.sorted,
      n.fixed,
    )
  where
    hosts_lack : (q : List Text) → all is_host q ≡ true → all (lacks b',') q ≡ true
    hosts_lack = elim [ [] ↦ λ h. refl | t ∷ (q → ih) ↦ λ h. ground (arith, ih) ]

display_shape :
    (p : PathBuf) → (is_empty (display_path p) ≡ false) × (is_absolute (display_path p) ≡ true)
unfolding display_path
display_shape p = (refl, refl)

parse_display :
    (mode : FsMode) (s : Text) (p : PathBuf)
    → all is_segment p ≡ true
    → parse_fs mode s (display_path p) ≡ ok (fs p mode)
unfolding parse_fs
parse_display mode s p h = rw ((display_shape p).0, normalize-display p h)

abbrev pub IsNamed : Text → Type 0
IsNamed name = is_empty name ≡ false

-- The atoms that have a string form of their own.
abbrev pub IsPrintable : Capability → Type 0
IsPrintable (fs p mode) = all is_segment p ≡ true
IsPrintable (net any_host) = Unit
IsPrintable (net (hosts hs)) = IsNormal hs × (all is_host hs ≡ true) × (hs ≢ [])
IsPrintable (proc a) =
    (IsNamed a × (is_absolute a ≡ false))
    ⊎ ((p : PathBuf) × (all is_segment p ≡ true) × (a ≡ display_path p))
IsPrintable (tool a) = IsNamed a
IsPrintable (spawn a) = IsNamed a
IsPrintable (secret a) = IsNamed a

-- An atom is read back from its string form when it has one of its own: a path of normal segments;
-- any host, or a normal, non-empty set of normalized hosts; a non-empty name; for a program, a
-- relative name or the form of such a path.
pub from_str-to_string : (c : Capability) → IsPrintable c → from_str (to_string c) ≡ ok c
unfolding from_str to_string
from_str-to_string (fs p ro) h = parse_display ro (codes "fs.ro:" ++ display_path p) p h
from_str-to_string (fs p FsMode.rw) h =
    parse_display FsMode.rw (codes "fs.rw:" ++ display_path p) p h
from_str-to_string (net any_host) h = unfold parse_net in refl
from_str-to_string (net (hosts [])) (_, _, e) = absurd (e refl)
from_str-to_string (net (hosts (x ∷ hs))) (n, a, _) =
    parse-join (codes "net:" ++ join (codes ",") (x ∷ hs)) x hs n a
from_str-to_string (proc a) (inl (e, f)) = unfold parse_proc in rw (e, f)
from_str-to_string (proc a) (inr (p, v, e)) =
    rw e (unfold parse_proc in rw ((display_shape p).0, (display_shape p).1, normalize-display p v))
from_str-to_string (tool a) h = rw h
from_str-to_string (spawn a) h = rw h
from_str-to_string (secret a) h = rw h

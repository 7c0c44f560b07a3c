-- ===== src/Capability/Paths.antt =====
-- capability.rs: `normalize_path`, over the components of `std::path` on Unix.
use grist_agent.Prelude.Order.{Order, nat_order, list_order}
use grist_agent.Prelude.{
  ◌≡◌, ◌↔◌, Bool, true, false, ◌&&◌, Option, none, some, List, [], ◌∷◌, ◌++◌, if◌then◌else◌, ◌==◌,
}
use grist_agent.Prelude.Text.{Text, same, codes, is_empty, split, join}

-- The components of an absolute path below `/`.
abbrev pub PathBuf : Type 0
PathBuf = List Text

abbrev pub path_order : Order PathBuf
path_order = list_order

pub path_iff : (a b : PathBuf) → (path_order.eqb a b ≡ true) ↔ (a ≡ b)
path_iff = path_order.eqb_iff

-- `starts_with`, component-wise.
unfoldable pub path_starts_with : PathBuf → PathBuf → Bool
path_starts_with p [] = true
path_starts_with [] (s ∷ q) = false
path_starts_with (r ∷ p) (s ∷ q) = same r s && path_starts_with p q

-- `std::path::Component` on Unix, which has no `Prefix`.
pub data Component : Type 0 where
  root_dir cur_dir parent_dir : Component
  normal : Text → Component

-- The component of a piece between separators, if it makes one: empty pieces and `.` do not.
abbrev pub component : Text → Option Component
component s =
    if is_empty s
    then none
    else if same s (codes ".")
    then none
    else if same s (codes "..")
    then some parent_dir
    else some (normal s)

abbrev pub pieces_components : List Text → List Component
pieces_components [] = []
pieces_components (s ∷ ss) = elim (component s) [
  | none ↦ pieces_components ss
  | some c ↦ c ∷ pieces_components ss
]

abbrev pub is_absolute : Text → Bool
is_absolute [] = false
is_absolute (c ∷ s) = c == b'/'

-- `Path::components`; of a relative path a leading `.` is kept.
unfoldable pub components : Text → List Component
components s =
    if is_absolute s then root_dir ∷ pieces_components (split b'/' s) else elim (split b'/' s) [
      | [] ↦ []
      | w ∷ ws ↦
          if same w (codes ".") then cur_dir ∷ pieces_components ws else pieces_components (w ∷ ws)
    ]

-- The loop of `normalize_path`; `none` is the early return of the error.
unfoldable pub push_components : PathBuf → List Component → Option PathBuf
push_components out [] = some out
push_components out (root_dir ∷ cs) = push_components out cs
push_components out (cur_dir ∷ cs) = push_components out cs
push_components out (parent_dir ∷ cs) = none
push_components out (normal seg ∷ cs) =
    let rest = push_components (out ++ seg ∷ []) cs in if is_empty seg then none else rest

-- `normalize_path`; `none` is `CapabilityParseError::BadPath` of the path.
unfoldable pub normalize_path : Text → Option PathBuf
unfolding push_components components
normalize_path path = if is_absolute path then push_components [] (components path) else none

-- `Path::display` of a normalized absolute path.
unfoldable pub display_path : PathBuf → Text
display_path p = b'/' ∷ join (b'/' ∷ []) p

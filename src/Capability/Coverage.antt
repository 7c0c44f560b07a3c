-- ===== src/Capability/Coverage.antt =====
-- capability.rs: coverage of hosts and of paths, each a partial order.
use grist_agent.Prelude.{
  ◌≡◌, refl, ◌⊎◌, inl, inr, Bool, true, false, List, [], ◌∷◌, any, all, Memᴰ, any-member,
  any_of_member, arith,
}
use grist_agent.Prelude.Text.{Text, same_iff, same_refl}
use grist_agent.Prelude.Order.{nat_order, list_order}
use grist_agent.Capability.Hosts.{host_parts, has_port, host_covered}
use grist_agent.Capability.Paths.{PathBuf, path_starts_with}

pub host_covered_refl : (a : Text) → host_covered a a ≡ true
unfolding host_covered
host_covered_refl a = rw (same_refl a)

-- What coverage means.
pub host_covered_cases :
    (a b : Text)
    → host_covered a b ≡ true
    → (a ≡ b) ⊎ (((host_parts a).0 ≡ (host_parts b).0) × (has_port a ≡ true) × (has_port b ≡ false))
unfolding host_covered
host_covered_cases a b h = ground (arith, same_iff a b, same_iff (host_parts a).0 (host_parts b).0)

pub host_covered_trans :
    (a b c : Text) → host_covered a b ≡ true → host_covered b c ≡ true → host_covered a c ≡ true
host_covered_trans a b c h k = elim (host_covered_cases a b h) [
  | inl e ↦ rw e k
  | inr (n, p, q) ↦ elim (host_covered_cases b c k) [ inl e ↦ rw e at h | inr (n', p', q') ↦ cc ]
]

-- A host with no port is its own name.
pub host_name_bare : (a : Text) → has_port a ≡ false → (host_parts a).0 ≡ a
unfolding host_parts
host_name_bare a h = ground arith

pub path_starts_with_refl : (p : PathBuf) → path_starts_with p p ≡ true
unfolding path_starts_with
path_starts_with_refl [] = refl
path_starts_with_refl (s ∷ p) = rw (same_refl s, path_starts_with_refl p)

pub path_starts_with_nil : (p : PathBuf) → path_starts_with p [] ≡ true
unfolding path_starts_with
path_starts_with_nil [] = refl
path_starts_with_nil _ = refl

pub path_starts_with_trans :
    (p q r : PathBuf)
    → path_starts_with p q ≡ true
    → path_starts_with q r ≡ true
    → path_starts_with p r ≡ true
unfolding path_starts_with
path_starts_with_trans p q [] h k = path_starts_with_nil p
path_starts_with_trans p [] (t ∷ r) h k = cc
path_starts_with_trans [] (s ∷ q) (t ∷ r) h k = cc
path_starts_with_trans (u ∷ p) (s ∷ q) (t ∷ r) h k =
    ground (arith, same_iff u s, same_iff s t, same_iff u t, path_starts_with_trans p q r)

pub path_starts_with_antisym :
    (p q : PathBuf) → path_starts_with p q ≡ true → path_starts_with q p ≡ true → p ≡ q
unfolding path_starts_with
path_starts_with_antisym [] [] h k = refl
path_starts_with_antisym [] (s ∷ q) h k = cc
path_starts_with_antisym (s ∷ p) [] h k = cc
path_starts_with_antisym (s ∷ p) (t ∷ q) h k =
    ground (arith, same_iff s t, path_starts_with_antisym p q)

-- Host lists: every host of the first is covered by one of the second.
abbrev pub hosts_covered : List Text → List Text → Bool
hosts_covered a b = all (λ ah. any (λ bh. host_covered ah bh) b) a

pub hosts_covered_at :
    (a b : List Text) (x : Text)
    → hosts_covered a b ≡ true
    → Memᴰ x a
    → (y : Text) × Memᴰ y b × (host_covered x y ≡ true)
hosts_covered_at [] b x h m = elim m [ ]
hosts_covered_at (z ∷ a) b x h (Memᴰ.head e) =
    any-member (λ bh. host_covered x bh) b (rw e (ground arith))
hosts_covered_at (z ∷ a) b x h (Memᴰ.tail m) = hosts_covered_at a b x (ground arith) m

pub hosts_covered_intro :
    (a b : List Text)
    → ((x : Text) → Memᴰ x a → any (λ y. host_covered x y) b ≡ true)
    → hosts_covered a b ≡ true
hosts_covered_intro [] b h = refl
hosts_covered_intro (x ∷ a) b h =
    rw (h x (Memᴰ.head refl), hosts_covered_intro a b (λ y m. h y (Memᴰ.tail m)))

pub hosts_covered_refl : (a : List Text) → hosts_covered a a ≡ true
hosts_covered_refl a = hosts_covered_intro a a (λ x m. any_of_member _ m (host_covered_refl x))

pub hosts_covered_trans :
    (a b c : List Text)
    → hosts_covered a b ≡ true
    → hosts_covered b c ≡ true
    → hosts_covered a c ≡ true
hosts_covered_trans a b c h k = hosts_covered_intro a c λ x m.
    let (y, my, xy) = hosts_covered_at a b x h m in
    let (z, mz, yz) = hosts_covered_at b c y k my in
    any_of_member _ mz (host_covered_trans x y z xy yz)

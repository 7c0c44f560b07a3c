-- ===== src/Capability/Order.antt =====
-- capability.rs: `narrower_than` is a partial order on well-formed atoms, `covered_by` is closed
-- under it, and `normalize_hosts` picks one representation of each permission.
use grist_agent.Prelude.{
  ◌≡◌, refl, ap, ◌∙◌, inl, inr, Bool, true, false, not, List, any, keep, Memᴰ, any-member,
  any_of_member, keep-member, keep_of_member, keep-keep, arith, subst, Bool-cases,
}
use grist_agent.Prelude.Text.{Text, same, same_iff, same_refl}
use grist_agent.Prelude.Order.{nat_order, list_order}
use grist_agent.Prelude.OrdSet.{contains, IsSorted, set_ext}
use grist_agent.Capability.{
  FsMode, ro, NetAllow, any_host, hosts, Capability, fs, net, proc, tool, spawn, secret,
  narrower_than, covered_by,
}
use grist_agent.Capability.Hosts.{
  host_parts, has_port, bare_names, survives, normalize_hosts, host_covered,
}
use grist_agent.Capability.Coverage.{
  host_covered_refl, host_covered_cases, host_name_bare, path_starts_with_refl,
  path_starts_with_trans, path_starts_with_antisym, hosts_covered, hosts_covered_at,
  hosts_covered_intro, hosts_covered_refl, hosts_covered_trans,
}

pub contains-member : (a : Text) (xs : List Text) → contains a xs ≡ true → Memᴰ a xs
contains-member a xs h =
    let (b, m, t) = any-member (same a) xs h in
    subst (λ c. Memᴰ c xs) ((same_iff b a).0 (ground (arith, same_iff a b, same_iff b a))) m

pub contains_of_member : (a : Text) {xs : List Text} → Memᴰ a xs → contains a xs ≡ true
contains_of_member a m = any_of_member (same a) m (same_refl a)

-- The set form that `from_str` stores.
pub record IsNormal (hs : List Text) : Type 0 where
  pub sorted : IsSorted hs
  pub fixed : normalize_hosts hs ≡ hs

-- A bare host of a set drops that host's ports from the normal form.
normalize_hosts_drops :
    (hs : List Text) (x y : Text)
    → Memᴰ y hs
    → has_port x ≡ true
    → has_port y ≡ false
    → (host_parts x).0 ≡ (host_parts y).0
    → Memᴰ x (normalize_hosts hs)
    → ⊥
unfolding normalize_hosts
normalize_hosts_drops hs x y my px py e m =
    let (_, t) = keep-member (survives (bare_names hs)) x hs m in
    let bare : Memᴰ y (bare_names hs) = keep_of_member (λ h. not (has_port h)) my (rw py) in
    ground (arith, contains_of_member y bare, host_name_bare y py)

-- Two normal sets that cover one another have the same members.
normal_member :
    (a b : List Text) (x : Text)
    → IsNormal a
    → hosts_covered a b ≡ true
    → hosts_covered b a ≡ true
    → Memᴰ x a
    → Memᴰ x b
normal_member a b x n h k m =
    let (y, my, xy) = hosts_covered_at a b x h m in
    elim (host_covered_cases x y xy) [
      | inl e ↦ rw e my
      | inr (e, px, py) ↦
          let (z, mz, yz) = hosts_covered_at b a y k my in
          elim (host_covered_cases y z yz) [
            | inl e' ↦ absurd (normalize_hosts_drops a x y (rw e' mz) px py e (rw n.fixed m))
            | inr (_, py', _) ↦ absurd (false_true py py')
          ]
    ]
  where
    false_true : {b : Bool} → b ≡ false → b ≡ true → ⊥
    false_true p q = cc

hosts_covered_antisym :
    (a b : List Text)
    → IsNormal a
    → IsNormal b
    → hosts_covered a b ≡ true
    → hosts_covered b a ≡ true
    → a ≡ b
hosts_covered_antisym a b na nb h k =
    set_ext a b na.sorted nb.sorted λ x. ground (arith, one x, two x)
  where
    one : (x : Text) → contains x a ≡ true → contains x b ≡ true
    one x t = contains_of_member x (normal_member a b x na h k (contains-member x a t))

    two : (x : Text) → contains x b ≡ true → contains x a ≡ true
    two x t = contains_of_member x (normal_member b a x nb k h (contains-member x b t))

-- `normalize_hosts` is idempotent, so what it returns is normal.
bare-normalize : (hs : List Text) → bare_names (normalize_hosts hs) ≡ bare_names hs
unfolding normalize_hosts
bare-normalize hs = keep-keep (λ h. not (has_port h)) _ hs (λ a t. ground arith)

normalize-normalize : (hs : List Text) → normalize_hosts (normalize_hosts hs) ≡ normalize_hosts hs
unfolding normalize_hosts
normalize-normalize hs =
    ap (λ bare. keep (survives bare) (normalize_hosts hs)) (bare-normalize hs)
    ∙ keep-keep (survives (bare_names hs)) (survives (bare_names hs)) hs (λ a t. t)

abbrev pub IsNormalAtom : Capability → Type 0
IsNormalAtom (net (hosts hs)) = IsNormal hs
IsNormalAtom _ = Unit

-- Every atom is narrower than itself.
pub narrower_than_refl : (c : Capability) → narrower_than c c ≡ true
unfolding narrower_than
narrower_than_refl (fs p ro) = path_starts_with_refl p
narrower_than_refl (fs p FsMode.rw) = path_starts_with_refl p
narrower_than_refl (net any_host) = refl
narrower_than_refl (net (hosts hs)) = hosts_covered_refl hs
narrower_than_refl (proc a) = same_refl a
narrower_than_refl (tool a) = same_refl a
narrower_than_refl (spawn a) = same_refl a
narrower_than_refl (secret a) = same_refl a

net_trans :
    (a b c : NetAllow)
    → narrower_than (net a) (net b) ≡ true
    → narrower_than (net b) (net c) ≡ true
    → narrower_than (net a) (net c) ≡ true
unfolding narrower_than
net_trans a b any_host h k = refl
net_trans any_host any_host (hosts z) h k = cc
net_trans (hosts x) any_host (hosts z) h k = cc
net_trans any_host (hosts y) (hosts z) h k = cc
net_trans (hosts x) (hosts y) (hosts z) h k = hosts_covered_trans x y z h k

-- Narrower than narrower is narrower.
pub narrower_than_trans :
    (a b c : Capability)
    → narrower_than a b ≡ true
    → narrower_than b c ≡ true
    → narrower_than a c ≡ true
unfolding narrower_than
narrower_than_trans (net a) (net b) (net c) h k = net_trans a b c h k
narrower_than_trans (fs p m) (fs q n) (fs r o) h k = ground (arith, path_starts_with_trans p q r)
narrower_than_trans (proc a) (proc b) (proc c) h k =
    ground (arith, same_iff a b, same_iff b c, same_iff a c)
narrower_than_trans (tool a) (tool b) (tool c) h k =
    ground (arith, same_iff a b, same_iff b c, same_iff a c)
narrower_than_trans (spawn a) (spawn b) (spawn c) h k =
    ground (arith, same_iff a b, same_iff b c, same_iff a c)
narrower_than_trans (secret a) (secret b) (secret c) h k =
    ground (arith, same_iff a b, same_iff b c, same_iff a c)
narrower_than_trans _ _ _ h k = cc

net_antisym :
    (a b : NetAllow)
    → IsNormalAtom (net a)
    → IsNormalAtom (net b)
    → narrower_than (net a) (net b) ≡ true
    → narrower_than (net b) (net a) ≡ true
    → net a ≡ net b
unfolding narrower_than
net_antisym any_host any_host m n h k = refl
net_antisym any_host (hosts y) m n h k = cc
net_antisym (hosts x) any_host m n h k = cc
net_antisym (hosts x) (hosts y) m n h k =
    ap (λ s. net (hosts s)) (hosts_covered_antisym x y m n h k)

-- Two atoms in the form that `from_str` stores, each narrower than the other, are equal.
pub narrower_than_antisym :
    (a b : Capability)
    → IsNormalAtom a
    → IsNormalAtom b
    → narrower_than a b ≡ true
    → narrower_than b a ≡ true
    → a ≡ b
unfolding narrower_than
narrower_than_antisym (net a) (net b) m n h k = net_antisym a b m n h k
narrower_than_antisym (fs p m) (fs q n) _ _ h k = ground (arith, path_starts_with_antisym p q)
narrower_than_antisym (proc a) (proc b) _ _ h k = ap proc ((same_iff a b).0 h)
narrower_than_antisym (tool a) (tool b) _ _ h k = ap tool ((same_iff a b).0 h)
narrower_than_antisym (spawn a) (spawn b) _ _ h k = ap spawn ((same_iff a b).0 h)
narrower_than_antisym (secret a) (secret b) _ _ h k = ap secret ((same_iff a b).0 h)
narrower_than_antisym _ _ _ _ h k = cc

-- A grant list that covers an atom covers every narrower atom, and stays covering when each of its
-- grants is covered by another list.
pub covered_by_mono :
    (a b : Capability) (grants wider : List Capability)
    → narrower_than a b ≡ true
    → covered_by b grants ≡ true
    → ((g : Capability) → Memᴰ g grants → covered_by g wider ≡ true)
    → covered_by a wider ≡ true
unfolding covered_by
covered_by_mono a b grants wider h k w =
    let (g, mg, bg) = any-member (λ g. narrower_than b g) grants k in
    let (r, mr, gr) = any-member (λ r. narrower_than g r) wider (w g mg) in
    any_of_member (λ r. narrower_than a r) mr
      (narrower_than_trans a g r (narrower_than_trans a b g h bg) gr)

-- A host that the normal form drops is covered by its bare name, which stays.
dropped-covered :
    (hs : List Text) (x : Text)
    → Memᴰ x hs
    → any (λ y. host_covered x y) (normalize_hosts hs) ≡ true
unfolding normalize_hosts
dropped-covered hs x m = elim (Bool-cases (survives (bare_names hs) x)) [
  | inl stays ↦
      any_of_member _ (keep_of_member (survives (bare_names hs)) m stays) (host_covered_refl x)
  | inr drops ↦
      let name = (host_parts x).0 in
      let (my, py) =
        keep-member (λ h. not (has_port h)) name hs
          (contains-member name (bare_names hs) (ground arith)) in
      any_of_member _ (keep_of_member (survives (bare_names hs)) my (ground arith))
        (unfold host_covered in ground (arith, same_refl name, host_name_bare name))
]

pub covered_by_narrower :
    (a b : Capability) (grants : List Capability)
    → narrower_than a b ≡ true
    → covered_by b grants ≡ true
    → covered_by a grants ≡ true
unfolding covered_by
covered_by_narrower a b grants h k =
    let (g, mg, bg) = any-member (λ g. narrower_than b g) grants k in
    any_of_member (λ g. narrower_than a g) mg (narrower_than_trans a b g h bg)

-- Normalizing a host set changes neither what it covers nor what covers it, and doing it twice is
-- doing it once.
pub normalize_hosts_same_permission :
    (hs : List Text)
    → (narrower_than (net (hosts hs)) (net (hosts (normalize_hosts hs))) ≡ true)
      × (narrower_than (net (hosts (normalize_hosts hs))) (net (hosts hs)) ≡ true)
      × (normalize_hosts (normalize_hosts hs) ≡ normalize_hosts hs)
unfolding narrower_than
normalize_hosts_same_permission hs = (
  hosts_covered_intro hs (normalize_hosts hs) (dropped-covered hs),
  hosts_covered_intro (normalize_hosts hs) hs
      (λ x m. any_of_member _ (kept x m) (host_covered_refl x)),
  normalize-normalize hs,
)
  where
    kept : (x : Text) → Memᴰ x (normalize_hosts hs) → Memᴰ x hs
    kept x m = (keep-member (survives (bare_names hs)) x hs (unfold normalize_hosts in m)).0

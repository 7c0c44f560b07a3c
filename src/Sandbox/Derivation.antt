-- ===== src/Sandbox/Derivation.antt =====
-- sandbox.rs: what a derived policy lists is covered by the grants.
use grist_agent.Prelude.{
  ◌≡◌, ◌∙◌, refl, inl, inr, ◌⊎◌, true, ◌&&◌, Option, some, List, [], ◌∷◌, Memᴰ, any-member,
  any_of_member, arith, Bool-cases, ok, >>=-eq-ok, subst, ok-injective, ap,
}
use mathlib.Core.List.Memᴰ
use grist_agent.Prelude.Text.{Text, same_iff, same_refl}
use grist_agent.Prelude.Order.{nat_order, list_order}
use grist_agent.Prelude.OrdSet
use grist_agent.Prelude.OrdMap
use grist_agent.Prelude.OrdMap.{OrdMap}
use grist_agent.Capability.{
  FsMode, NetAllow, any_host, hosts, Capability, fs, net, proc, tool, spawn, secret, narrower_than,
  covered_by,
}
use grist_agent.Capability.Paths.{PathBuf, path_iff}
use grist_agent.Capability.Hosts.{host_covered}
use grist_agent.Capability.Coverage.{host_covered_refl}
use grist_agent.Capability.Order.{narrower_than_trans, contains-member}
use grist_agent.Sandbox.{
  Mount, SandboxPolicy, SandboxLimits, Draft, empty_draft, raised, add_mount, add_atom, is_secret,
  gather, check_env, derive_net, to_mounts, derive_policy_with,
}

-- Everything that the draft would let a tool do is covered by the grants.
pub record IsWithin (grants : List Capability) (d : Draft) : Type 0 where
  pub sorted : OrdSet.IsSorted (OrdMap.keys d.mounts)
  pub mounts :
      (p : PathBuf) (m : FsMode)
      → OrdMap.get p d.mounts ≡ some m
      → covered_by (fs p m) grants ≡ true
  pub programs :
      (x : Text) → OrdSet.contains x d.programs ≡ true → covered_by (proc x) grants ≡ true
  pub any : d.net_any ≡ true → covered_by (net any_host) grants ≡ true
  pub hosts :
      (h : Text)
      → OrdSet.contains h d.net_hosts ≡ true
      → covered_by (net (hosts (h ∷ []))) grants ≡ true

member_narrower :
    (h : Text) (hs : List Text)
    → OrdSet.contains h hs ≡ true
    → narrower_than (net (hosts (h ∷ []))) (net (hosts hs)) ≡ true
unfolding narrower_than
member_narrower h hs m =
    rw (any_of_member (λ b. host_covered h b) (contains-member h hs m) (host_covered_refl h))

single_host :
    (h : Text) (hs : List Text) (grants : List Capability)
    → OrdSet.contains h hs ≡ true
    → covered_by (net (hosts hs)) grants ≡ true
    → covered_by (net (hosts (h ∷ []))) grants ≡ true
unfolding covered_by
single_host h hs grants m c =
    let (g, mg, t) = any-member (λ g. narrower_than (net (hosts hs)) g) grants c in
    any_of_member (λ g. narrower_than (net (hosts (h ∷ []))) g) mg
      (narrower_than_trans _ (net (hosts hs)) g (member_narrower h hs m) t)

raised_cases : (mode m : FsMode) (o : Option FsMode) → raised mode o ≡ m → (m ≡ mode) ⊎ (o ≡ some m)
raised_cases mode m o e = ground arith

mount-covered :
    (grants : List Capability) (path : PathBuf) (mode : FsMode) (mounts : OrdMap PathBuf FsMode)
    → covered_by (fs path mode) grants ≡ true
    → ((p : PathBuf) (m : FsMode)
        → OrdMap.get p mounts ≡ some m
        → covered_by (fs p m) grants ≡ true)
    → (p : PathBuf) (m : FsMode) → OrdMap.get p (add_mount path mode mounts) ≡ some m
    → covered_by (fs p m) grants ≡ true
mount-covered grants path mode mounts h w p m e = ground (
  arith,
  OrdMap.get-put p path (raised mode (OrdMap.get path mounts)) mounts,
  raised_cases mode m (OrdMap.get path mounts),
  path_iff p path,
  w p m,
)

add_atom-IsWithin :
    (grants : List Capability) (d : Draft) (c : Capability)
    → covered_by c grants ≡ true
    → IsWithin grants d
    → IsWithin grants (add_atom d c)
unfolding add_atom
add_atom-IsWithin grants d (fs path mode) h w = record {
  sorted = OrdMap.put-IsSorted path _ d.mounts w.sorted;
  mounts = mount-covered grants path mode d.mounts h w.mounts;
  programs = w.programs;
  any = w.any;
  hosts = w.hosts;
}
add_atom-IsWithin grants d (net any_host) h w = record {
  sorted = w.sorted;
  mounts = w.mounts;
  programs = w.programs;
  any = λ _. h;
  hosts = w.hosts;
}
add_atom-IsWithin grants d (net (hosts hs)) h w = record {
  sorted = w.sorted;
  mounts = w.mounts;
  programs = w.programs;
  any = w.any;
  hosts = λ x e.
      ground (arith, OrdSet.contains-union x d.net_hosts hs, single_host x hs grants, w.hosts x);
}
add_atom-IsWithin grants d (proc program) h w = record {
  sorted = w.sorted;
  mounts = w.mounts;
  programs = λ x e.
      ground (arith, OrdSet.contains-insert x program d.programs, same_iff x program, w.programs x);
  any = w.any;
  hosts = w.hosts;
}
add_atom-IsWithin grants d (tool a) h w = w
add_atom-IsWithin grants d (spawn a) h w = w
add_atom-IsWithin grants d (secret a) h w = w

gather-IsWithin :
    (grants : List Capability) (d : Draft) (cs : List Capability) {r : Draft}
    → gather grants d cs ≡ ok r
    → IsWithin grants d
    → IsWithin grants r
unfolding gather
gather-IsWithin grants d [] e w = subst (IsWithin grants) (ok-injective e) w
gather-IsWithin grants d (c ∷ cs) e w = elim (Bool-cases (is_secret c)) [
  | inl s ↦ cc (rw s at e)
  | inr s ↦ elim (Bool-cases (covered_by c grants)) [
    | inl t ↦
        gather-IsWithin grants (add_atom d c) cs (rw (s, t) at e) (add_atom-IsWithin grants d c t w)
    | inr f ↦ cc (rw (s, f) at e)
  ]
]

empty_draft-IsWithin : (grants : List Capability) → IsWithin grants empty_draft
empty_draft-IsWithin grants = record {
  sorted = tt;
  mounts = λ p m e. cc;
  programs = λ x e. cc;
  any = λ e. cc;
  hosts = λ h e. cc;
}

-- Network access that the grants cover, host by host.
abbrev pub IsNetCovered : List Capability → NetAllow → Type 0
IsNetCovered grants any_host = covered_by (net any_host) grants ≡ true
IsNetCovered grants (hosts hs) =
    (h : Text) → OrdSet.contains h hs ≡ true → covered_by (net (hosts (h ∷ []))) grants ≡ true

-- A policy whose mounts, listed programs and hosts some grant allows, and which lists every program
-- that an atom asks for, so that the list is empty, which stands for any program, only where no
-- atom asks for one.
pub record GrantsOnly (caps grants : List Capability) (policy : SandboxPolicy) : Type 0 where
  pub mounts : (m : Mount) → Memᴰ m policy.mounts → covered_by (fs m.path m.mode) grants ≡ true
  pub programs :
      (x : Text) → OrdSet.contains x policy.programs ≡ true → covered_by (proc x) grants ≡ true
  pub all_listed : (x : Text) → Memᴰ (proc x) caps → OrdSet.contains x policy.programs ≡ true
  pub network : policy.net_policy.enabled ≡ true → IsNetCovered grants policy.net_policy.allow

of_mounts :
    (m : Mount) (ms : OrdMap PathBuf FsMode) → Memᴰ m (to_mounts ms) → Memᴰ (m.path, m.mode) ms
of_mounts m [] h = elim h [ ]
of_mounts m ((p, x) ∷ ms) (Memᴰ.head e) = Memᴰ.head (ap (λ (r : Mount). (r.path, r.mode)) e)
of_mounts m ((p, x) ∷ ms) (Memᴰ.tail h) = Memᴰ.tail (of_mounts m ms h)

net-covered :
    (grants : List Capability) (limits : SandboxLimits) (d : Draft)
    → IsWithin grants d
    → (derive_net limits d).enabled ≡ true
    → IsNetCovered grants (derive_net limits d).allow
unfolding derive_net
net-covered grants limits d w e = elim (Bool-cases (limits.network && d.net_present)) [
  | inl on ↦ elim (Bool-cases d.net_any) [
    | inl whole ↦ rw (on, whole) (w.any whole)
    | inr listed ↦ rw (on, listed) w.hosts
  ]
  | inr off ↦ cc (rw off at e)
]

add_atom-program :
    (x : Text) (d : Draft) (c : Capability)
    → OrdSet.contains x d.programs ≡ true
    → OrdSet.contains x (add_atom d c).programs ≡ true
unfolding add_atom
add_atom-program x d (proc y) h = OrdSet.contains-insert x y d.programs ∙ ground arith
add_atom-program x d (fs p m) h = h
add_atom-program x d (net any_host) h = h
add_atom-program x d (net (hosts hs)) h = h
add_atom-program x d (tool n) h = h
add_atom-program x d (spawn n) h = h
add_atom-program x d (secret n) h = h

gather-program :
    (x : Text) (grants : List Capability) (d : Draft) (cs : List Capability) {r : Draft}
    → gather grants d cs ≡ ok r
    → (OrdSet.contains x d.programs ≡ true) ⊎ Memᴰ (proc x) cs
    → OrdSet.contains x r.programs ≡ true
unfolding gather add_atom
gather-program x grants d [] e (inl h) =
    subst (λ (r : Draft). OrdSet.contains x r.programs ≡ true) (ok-injective e) h
gather-program x grants d [] e (inr m) = elim m [ ]
gather-program x grants d (c ∷ cs) e h = elim (Bool-cases (is_secret c)) [
  | inl s ↦ cc (rw s at e)
  | inr s ↦ elim (Bool-cases (covered_by c grants)) [
    | inr f ↦ cc (rw (s, f) at e)
    | inl t ↦ gather-program x grants (add_atom d c) cs (rw (s, t) at e) (elim h [
      | inl known ↦ inl (add_atom-program x d c known)
      | inr m ↦ elim (Memᴰ.cases_cons m) [
        | inl here ↦ inl (
            subst (λ b. OrdSet.contains x (add_atom d b).programs ≡ true) here
              (OrdSet.contains-insert x x d.programs ∙ rw (same_refl x) refl))
        | inr r ↦ inr r
      ]
    ])
  ]
]

-- Whatever the atoms and the limits, what a derived policy lists is covered by the grants: each
-- mount with its mode, each program, and the network with each of its hosts. Every program that an
-- atom asks for is listed, so that the list is empty, for any program, only where none does.
pub derive_policy_with-GrantsOnly :
    (caps grants : List Capability) (limits : SandboxLimits) {policy : SandboxPolicy}
    → derive_policy_with caps grants limits ≡ ok policy
    → GrantsOnly caps grants policy
unfolding derive_policy_with
derive_policy_with-GrantsOnly caps grants limits {policy} e =
    let (d, gathered, e') = >>=-eq-ok (gather grants empty_draft caps) _ e in
    let (env, _, made) = >>=-eq-ok (check_env [] limits.env_allowlist) _ e' in
    let w = gather-IsWithin grants empty_draft caps gathered (empty_draft-IsWithin grants) in
    subst (GrantsOnly caps grants) (ok-injective made) (record {
      mounts = λ m h.
          w.mounts m.path m.mode
            (OrdMap.get_of_member m.path m.mode d.mounts w.sorted (of_mounts m d.mounts h));
      programs = w.programs;
      all_listed = λ x m. gather-program x grants empty_draft caps gathered (inr m);
      network = net-covered grants limits d w;
    })

-- ===== src/Sandbox/Access.antt =====
-- host.rs: what `FsPolicy::check` decides, and that under a derived policy it stays within the grants.
use grist_agent.Prelude.{
  ◌≤◌, ◌≡◌, inl, inr, ◌⊎◌, true, Option, none, some, List, [], ◌∷◌, length, Memᴰ, arith, Bool-cases,
  Option-cases, leb, ok,
}
use grist_agent.Capability.{FsMode, mode_le, Capability, fs, narrower_than, covered_by}
use grist_agent.Capability.Paths.{PathBuf, path_starts_with}
use grist_agent.Capability.Order.{covered_by_narrower}
use grist_agent.Sandbox.{
  Mount, SandboxPolicy, SandboxLimits, longer, advance, best_mount, check, derive_policy_with,
}
use grist_agent.Sandbox.Derivation.{derive_policy_with-GrantsOnly}

-- The mount that decides: it holds the path, it is in the list, and no other that holds the path
-- is longer.
pub record Decides (path : PathBuf) (mounts : List Mount) (m : Mount) : Type 0 where
  pub listed : Memᴰ m mounts
  pub holds : path_starts_with path m.path ≡ true
  pub longest :
      (other : Mount)
      → Memᴰ other mounts
      → path_starts_with path other.path ≡ true
      → length other.path ≤ length m.path

longer_cases :
    (o : Option Mount) (x : Mount) {m : Mount} → longer o x ≡ some m → (m ≡ x) ⊎ (o ≡ some m)
longer_cases none x e = inl (cc)
longer_cases (some b) x e = elim (Bool-cases (leb (length b.path) (length x.path))) [
  | inl le ↦ let f = rw le at e in inl (cc)
  | inr gt ↦ inr (rw gt at e)
]

-- The search keeps the best of what it has seen.
best_mount-ge :
    (path : PathBuf) (b : Mount) (ms : List Mount) {m : Mount}
    → best_mount path (some b) ms ≡ some m
    → length b.path ≤ length m.path
unfolding best_mount
best_mount-ge path b [] e = ground arith
best_mount-ge path b (x ∷ ms) {m} e = elim (Bool-cases (path_starts_with path x.path)) [
  | inl hit ↦ elim (Bool-cases (leb (length b.path) (length x.path))) [
    | inl le ↦ ground (arith, best_mount-ge path x ms (rw (hit, le) at e))
    | inr gt ↦ best_mount-ge path b ms (rw (hit, gt) at e)
  ]
  | inr miss ↦ best_mount-ge path b ms (rw miss at e)
]

-- The result is the best so far or a later mount that holds the path.
best_mount-member :
    (path : PathBuf) (o : Option Mount) (ms : List Mount) {m : Mount}
    → best_mount path o ms ≡ some m
    → (o ≡ some m) ⊎ (Memᴰ m ms × (path_starts_with path m.path ≡ true))
unfolding best_mount
best_mount-member path o [] e = inl e
best_mount-member path o (x ∷ ms) {m} e = elim (best_mount-member path (advance path o x) ms e) [
  | inr (h, t) ↦ inr (Memᴰ.tail h, t)
  | inl found ↦ elim (Bool-cases (path_starts_with path x.path)) [
    | inr miss ↦ inl (rw miss at found)
    | inl hit ↦ elim (longer_cases o x (rw hit at found)) [
      | inl same ↦ inr (Memᴰ.head same, rw same hit)
      | inr old ↦ inl old
    ]
  ]
]

best_mount-longest :
    (path : PathBuf) (o : Option Mount) (ms : List Mount) {m : Mount} (x : Mount)
    → best_mount path o ms ≡ some m
    → Memᴰ x ms
    → path_starts_with path x.path ≡ true
    → length x.path ≤ length m.path
unfolding best_mount
best_mount-longest path o [] x e h t = elim h [ ]
best_mount-longest path o (y ∷ ms) {m} x e (Memᴰ.tail h) t =
    best_mount-longest path (advance path o y) ms x e h t
best_mount-longest path none (y ∷ ms) {m} x e (Memᴰ.head s) t =
    rw s (best_mount-ge path y ms (rw (rw s at t) at e))
best_mount-longest path (some b) (y ∷ ms) {m} x e (Memᴰ.head s) t =
    let hit : path_starts_with path y.path ≡ true = rw s at t in
    elim (Bool-cases (leb (length b.path) (length y.path))) [
      | inl le ↦ rw s (best_mount-ge path y ms (rw (hit, le) at e))
      | inr gt ↦ rw s (ground (arith, best_mount-ge path b ms (rw (hit, gt) at e)))
    ]

-- An access is allowed only by the mount that decides, in a mode that it permits.
pub check_decided :
    (mounts : List Mount) (path : PathBuf) (mode : FsMode)
    → check mounts path mode ≡ ok tt
    → (m : Mount) × Decides path mounts m × (mode_le mode m.mode ≡ true)
unfolding check
check_decided mounts path mode e = elim (Option-cases (best_mount path none mounts)) [
  | inl nothing ↦ cc (rw (nothing, check) at e)
  | inr (m, found) ↦ elim (best_mount-member path none mounts found) [
    | inl none_found ↦ cc
    | inr (h, t) ↦ (
      m,
      record {
        listed = h;
        holds = t;
        longest = λ x hx tx. best_mount-longest path none mounts x found hx tx;
      },
      ground arith,
    )
  ]
]

-- Under a derived policy an allowed access is covered by a grant.
pub check-covered :
    (caps grants : List Capability) (limits : SandboxLimits) {policy : SandboxPolicy}
    (path : PathBuf) (mode : FsMode)
    → derive_policy_with caps grants limits ≡ ok policy
    → check policy.mounts path mode ≡ ok tt
    → covered_by (fs path mode) grants ≡ true
check-covered caps grants limits {policy} path mode e c =
    let (m, d, permits) = check_decided policy.mounts path mode c in
    let within = derive_policy_with-GrantsOnly caps grants limits e in
    covered_by_narrower (fs path mode) (fs m.path m.mode) grants
      (unfold narrower_than in rw (permits, d.holds)) (within.mounts m d.listed)

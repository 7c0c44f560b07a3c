-- ===== src/Sandbox/Success.antt =====
-- sandbox.rs: when a derivation succeeds, and the limits on what it returns.
use grist_agent.Prelude.{
  ◌≤◌, ◌≡◌, refl, inl, inr, Bool, true, false, not, ◌&&◌, List, [], ◌∷◌, all, any, Memᴰ,
  keep-member, any_of_member, ap, ◌∙◌, arith, Bool-cases, Result, ok, err, >>=-eq-ok, subst,
  ok-injective,
}
use grist_agent.Prelude.Text.{Text, same_iff}
use grist_agent.Prelude.Order.{nat_order, list_order}
use grist_agent.Prelude.OrdSet
use grist_agent.Capability.{Capability, narrower_than, covered_by}
use grist_agent.Capability.Order.{narrower_than_refl}
use grist_agent.Sandbox.{
  SandboxPolicy, SandboxLimits, Draft, empty_draft, add_atom, is_secret, envelope_caps, gather,
  check_env, derive_policy_with, env_name_is_secret_like, min_timeout, max_timeout,
}

abbrev pub succeeds {ℓ κ} : {E : Type ℓ} {A : Type κ} → Result E A → Bool
succeeds (ok a) = true
succeeds (err e) = false

-- An atom that a sandboxed tool may have under the grants.
abbrev pub is_admissible : List Capability → Capability → Bool
is_admissible grants c = not (is_secret c) && covered_by c grants

abbrev pub is_public_name : Text → Bool
is_public_name name = not (env_name_is_secret_like name)

gather-succeeds :
    (grants : List Capability) (d : Draft) (cs : List Capability)
    → succeeds (gather grants d cs) ≡ all (is_admissible grants) cs
unfolding gather
gather-succeeds grants d [] = refl
gather-succeeds grants d (c ∷ cs) = ground (arith, gather-succeeds grants (add_atom d c) cs)

check_env-succeeds :
    (acc names : List Text) → succeeds (check_env acc names) ≡ all is_public_name names
unfolding check_env
check_env-succeeds acc [] = refl
check_env-succeeds acc (x ∷ names) = ground (arith, check_env-succeeds (OrdSet.insert x acc) names)

-- The derivation succeeds exactly when each atom is covered by a grant and is no secret, and no
-- environment name looks like a secret.
pub derive_policy_with-succeeds :
    (caps grants : List Capability) (limits : SandboxLimits)
    → succeeds (derive_policy_with caps grants limits)
      ≡ (all (is_admissible grants) caps && all is_public_name limits.env_allowlist)
unfolding derive_policy_with
derive_policy_with-succeeds caps grants limits =
    ground
      (arith, gather-succeeds grants empty_draft caps, check_env-succeeds [] limits.env_allowlist)

check_env-public :
    (acc names : List Text) {env : List Text} (x : Text)
    → check_env acc names ≡ ok env
    → (OrdSet.contains x acc ≡ true → is_public_name x ≡ true)
    → OrdSet.contains x env ≡ true
    → is_public_name x ≡ true
unfolding check_env
check_env-public acc [] x e h m = h (rw (ok-injective e) m)
check_env-public acc (y ∷ names) {env} x e h m = elim (Bool-cases (env_name_is_secret_like y)) [
  | inl s ↦ cc (rw s at e)
  | inr s ↦
      check_env-public (OrdSet.insert y acc) names x (rw s at e)
        (λ t. ground (arith, OrdSet.contains-insert x y acc, same_iff x y)) m
]

-- The bounds that every policy meets, whatever the profile's limits say.
pub record IsBounded (policy : SandboxPolicy) : Type 0 where
  pub at_least_a_second : min_timeout ≤ policy.timeout
  pub at_most_a_day : policy.timeout ≤ max_timeout
  pub scratch : 1 ≤ policy.scratch_tmpfs_mb
  pub env :
      (x : Text) → OrdSet.contains x policy.env_allowlist ≡ true → env_name_is_secret_like x ≡ false

-- A derived policy has a timeout from one second to a day, a scratch space of at least one MiB,
-- and no environment name that looks like a secret.
pub derive_policy_with-IsBounded :
    (caps grants : List Capability) (limits : SandboxLimits) {policy : SandboxPolicy}
    → derive_policy_with caps grants limits ≡ ok policy
    → IsBounded policy
unfolding derive_policy_with
derive_policy_with-IsBounded caps grants limits {policy} e =
    let (d, gathered, e') = >>=-eq-ok (gather grants empty_draft caps) _ e in
    let (env, checked, made) = >>=-eq-ok (check_env [] limits.env_allowlist) _ e' in
    subst IsBounded (ok-injective made) (record {
      at_least_a_second = omega arith;
      at_most_a_day = omega arith;
      scratch = omega arith;
      env = λ x m. ground (arith, check_env-public [] limits.env_allowlist x checked (λ t. cc) m);
    })

admissible_all :
    (grants : List Capability) (cs : List Capability)
    → ((c : Capability) → Memᴰ c cs → is_admissible grants c ≡ true)
    → all (is_admissible grants) cs ≡ true
admissible_all grants [] h = refl
admissible_all grants (c ∷ cs) h =
    let ih = admissible_all grants cs (λ x m. h x (Memᴰ.tail m)) in
    let hc = h c (Memᴰ.head refl) in ground arith

envelope-admissible :
    (grants : List Capability) (c : Capability)
    → Memᴰ c (envelope_caps grants)
    → is_admissible grants c ≡ true
unfolding envelope_caps covered_by
envelope-admissible grants c m =
    let (inside, open_atom) = keep-member (λ x. not (is_secret x)) c grants m in
    let own : any (λ g. narrower_than c g) grants ≡ true =
      any_of_member _ inside (narrower_than_refl c) in
    ground arith

-- The policy of the session's envelope, derived from all grants that are no secret under the grants
-- themselves, never fails for lack of a grant: it fails exactly when an environment name of the
-- limits looks like a secret.
pub envelope-succeeds :
    (grants : List Capability) (limits : SandboxLimits)
    → succeeds (derive_policy_with (envelope_caps grants) grants limits)
      ≡ all is_public_name limits.env_allowlist
envelope-succeeds grants limits =
    let e = admissible_all grants (envelope_caps grants) (envelope-admissible grants) in
    derive_policy_with-succeeds (envelope_caps grants) grants limits
    ∙ ap (λ b. b && all is_public_name limits.env_allowlist) e

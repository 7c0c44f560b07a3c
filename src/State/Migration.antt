-- ===== src/State/Migration.antt =====
-- crates/kernel/src/state.rs: the migrations of an old checkpoint's state. A step is a function on
-- JSON that may fail; `from_value` is the deserialization into `State`.
use grist_agent.Prelude.{
  ok_or-eq-ok, ℕ, zero, suc, inl, inr, ◌+◌, ◌-◌, ◌^◌, ◌≤◌, ◌≡◌, ◌⊎◌, subst, refl, sym, ◌∙◌, ap,
  true, false, Option, none, some, arith, Bool-cases, Option-cases, ltb, ◌==◌, if◌then◌else◌,
  Result, ok, err, ◌>>=◌, ok_or, >>=-eq-ok, ok->>=, ok_or-some, ok-injective,
}
use grist_agent.Prelude.OrdMap
use grist_agent.Prelude.OrdMap.{OrdMap}
use grist_agent.Prelude.Order.{nat_order}
use grist_agent.Prelude.Text.{codes}
use grist_agent.Content.{Value, value_get, as_u64}
use grist_agent.State.{State}

pub data MigrationError : Type 0 where
  newer_than_supported : ℕ → ℕ → MigrationError
  missing_step : ℕ → ℕ → MigrationError
  failed : ℕ → MigrationError
  no_version : MigrationError
  duplicate : ℕ → MigrationError
  invalid : MigrationError

abbrev pub Step : Type 0
Step = Value → Result MigrationError Value

pub record Migrated : Type 0 where
  pub state : State
  pub migrated : Option (ℕ × ℕ)

abbrev pub state_schema_version : ℕ
state_schema_version = 1

-- `u32::try_from`
abbrev pub to_u32 : Option ℕ → Option ℕ
to_u32 none = none
to_u32 (some n) = if ltb n (2 ^ 32) then some n else none

abbrev pub stored_version : Option Value → Option ℕ
stored_version none = none
stored_version (some v) = to_u32 (as_u64 v)

-- The `schema_version` of a raw state.
abbrev pub version_of : Value → Option ℕ
version_of raw = stored_version (value_get (codes "schema_version") raw)

-- `MigrationRegistry::register`
unfoldable pub register : ℕ → Step → OrdMap ℕ Step → Result MigrationError (OrdMap ℕ Step)
register from_version step steps = elim (OrdMap.get from_version steps) [
  | none ↦ ok (OrdMap.put from_version step steps)
  | some s ↦ err (duplicate from_version)
]

-- The check that a step stamped its version.
abbrev stamped_as : Option ℕ → ℕ → Value → Result MigrationError Value
stamped_as none version raw = err (failed (version - 1))
stamped_as (some v) version raw = if v == version then ok raw else err (failed (version - 1))

abbrev stamped : ℕ → Value → Result MigrationError Value
stamped version raw = stamped_as (version_of raw) version raw

-- The loop, with the number of versions that are left to climb.
abbrev climb : OrdMap ℕ Step → ℕ → ℕ → ℕ → Value → Result MigrationError Value
climb steps target zero version raw = ok raw
climb steps target (suc left) version raw = do
  step ← ok_or (missing_step version target) (OrdMap.get version steps)
  next ← step raw
  checked ← stamped (version + 1) next
  climb steps target left (version + 1) checked

abbrev read_as : ℕ → ℕ → State → Result MigrationError Migrated
read_as found target state =
    ok (record { state = state; migrated = if found == target then none else some (found, target) })

abbrev deserialized : (Value → Option State) → ℕ → ℕ → Value → Result MigrationError Migrated
deserialized from_value found target raw = do
  state ← ok_or invalid (from_value raw)
  read_as found target state

abbrev migrate_found :
    (Value → Option State) → OrdMap ℕ Step → ℕ → ℕ → Value → Result MigrationError Migrated
migrate_found from_value steps target found raw =
    if ltb target found then err (newer_than_supported found target) else do
      current ← climb steps target (target - found) found raw
      deserialized from_value found target current

-- The method for any version of the kernel.
unfoldable pub migrate_to :
    (Value → Option State) → OrdMap ℕ Step → ℕ → Value → Result MigrationError Migrated
migrate_to from_value steps target raw = do
  found ← ok_or no_version (version_of raw)
  migrate_found from_value steps target found raw

-- `MigrationRegistry::migrate_to_current`
unfoldable pub migrate_to_current :
    (Value → Option State) → OrdMap ℕ Step → Value → Result MigrationError Migrated
unfolding migrate_to
migrate_to_current from_value steps raw = migrate_to from_value steps state_schema_version raw

stamped-version :
    (version : ℕ) (raw next : Value)
    → stamped version raw ≡ ok next
    → (version_of next ≡ some version) × (raw ≡ next)
stamped-version version raw next h = elim (Option-cases (version_of raw)) [
  | inl e ↦ absurd ground arith
  | inr (v, e) ↦ elim (Bool-cases (v == version)) [
    | inl y ↦
        let f : ◌≡◌ {A = Result MigrationError Value} (ok raw) (ok next) = ground arith in
        let g = ok-injective f in let w : v ≡ version = ground arith in (rw (sym g, e, w) refl, g)
    | inr n ↦ absurd ground arith
  ]
]

climb-version :
    (steps : OrdMap ℕ Step) (target left version : ℕ) (raw last : Value)
    → version_of raw ≡ some version
    → climb steps target left version raw ≡ ok last
    → version_of last ≡ some (version + left)
climb-version steps target zero version raw last e h =
    let g = ok-injective h in
    let z : version + zero ≡ version = omega arith in rw (sym g, e, z) refl
climb-version steps target (suc left) version raw last e h =
    let (step, p, h1) =
      >>=-eq-ok (ok_or (missing_step version target) (OrdMap.get version steps)) _ h in
    let (next, q, h2) = >>=-eq-ok (step raw) _ h1 in
    let (checked, r, h3) = >>=-eq-ok (stamped (version + 1) next) _ h2 in
    let (v, t) = stamped-version (version + 1) next checked r in
    let z : version + suc left ≡ version + 1 + left = omega arith in
    rw z (climb-version steps target left (version + 1) checked last (rw (sym t) (rw t v)) h3)

-- What a migration that succeeds guarantees.
pub record IsMigrated (from_value : Value → Option State) (target found : ℕ) (m : Migrated)
    : Type 0 where
  pub not_newer : found ≤ target
  pub current : Value
  pub current_version : version_of current ≡ some target
  pub parsed : from_value current ≡ some m.state
  pub reported : m.migrated ≡ (if found == target then none else some (found, target))

-- A migration to the version `target` that succeeds found an integer version of at most `target`
-- in the raw state, deserialized a JSON that is stamped exactly `target`, and reports the pair of
-- versions exactly when they differ.
pub migrate_to_sound :
    (from_value : Value → Option State) (steps : OrdMap ℕ Step) (target : ℕ) (raw : Value)
    → (m : Migrated) → migrate_to from_value steps target raw ≡ ok m
    → (found : ℕ) × (version_of raw ≡ some found) × IsMigrated from_value target found m
unfolding migrate_to
migrate_to_sound from_value steps target raw m h =
    let (found, p, h1) = >>=-eq-ok (ok_or no_version (version_of raw)) _ h in
    let e = ok_or-eq-ok no_version (version_of raw) found p in
    elim (Bool-cases (ltb target found)) [
      | inl y ↦ absurd ground arith
      | inr n ↦
          let (current, q, h2) =
            >>=-eq-ok (climb steps target (target - found) found raw) _ (rw n at h1) in
          let (state, r, h3) = >>=-eq-ok (ok_or invalid (from_value current)) _ h2 in
          let g = ok-injective h3 in
          let z : found + (target - found) ≡ target = ground arith in
          (
            found,
            e,
            record {
              not_newer = ground arith;
              current = current;
              current_version = climb-version steps target _ found raw current e q ∙ ap some z;
              parsed = ok_or-eq-ok invalid _ m.state (rw r (ap (λ x. ok x.state) g));
              reported = sym (ap (λ x. x.migrated) g);
            },
          )
    ]

-- The steps that are registered lead over so many versions from one JSON to another, and each
-- stamps its version.
abbrev pub Reaches : OrdMap ℕ Step → ℕ → ℕ → Value → Value → Type 0
Reaches steps zero version raw last = raw ≡ last
Reaches steps (suc left) version raw last =
    (step : Step) × (next : Value) × (OrdMap.get version steps ≡ some step)
    × (step raw ≡ ok next)
    × (version_of next ≡ some (version + 1))
    × Reaches steps left (version + 1) next last

eqb_same : (n : ℕ) → (n == n) ≡ true
eqb_same n = ground arith

stamped-ok :
    (version : ℕ) (raw : Value) → version_of raw ≡ some version → stamped version raw ≡ ok raw
stamped-ok version raw e =
    ap (λ o. stamped_as o version raw) e
    ∙ ap (λ b. if b then ok raw else err (failed (version - 1))) (eqb_same version)

climb-step :
    (steps : OrdMap ℕ Step) (target left version : ℕ) (raw next : Value) (step : Step)
    → OrdMap.get version steps ≡ some step
    → step raw ≡ ok next
    → version_of next ≡ some (version + 1)
    → climb steps target (suc left) version raw ≡ climb steps target left (version + 1) next
climb-step steps target left version raw next step p q v =
    ok->>= (ok_or (missing_step version target) (OrdMap.get version steps)) _ (ok_or-some _ _ p)
    ∙ ok->>= (step raw) _ q
    ∙ ok->>= (stamped (version + 1) next) _ (stamped-ok (version + 1) next v)

climb-Reaches :
    (steps : OrdMap ℕ Step) (target left version : ℕ) (raw last : Value)
    → Reaches steps left version raw last
    → climb steps target left version raw ≡ ok last
climb-Reaches steps target zero version raw last e = ap ok e
climb-Reaches steps target (suc left) version raw last (step, next, p, q, v, r) =
    climb-step steps target left version raw next step p q v
    ∙ climb-Reaches steps target left (version + 1) next last r

-- What a migration makes of the JSON that the steps lead to.
abbrev pub IsRead : (Value → Option State) → ℕ → ℕ → Value → Result MigrationError Migrated → Type 0
IsRead from_value found target last result =
    ((state : State) × (from_value last ≡ some state)
      × (result
          ≡ ok (record {
            state = state;
            migrated = if found == target then none else some (found, target);
          })))
    ⊎ ((from_value last ≡ none) × (result ≡ err invalid))

deserialized-IsRead :
    (from_value : Value → Option State) (found target : ℕ) (last : Value)
    → IsRead from_value found target last (deserialized from_value found target last)
deserialized-IsRead from_value found target last = elim (Option-cases (from_value last)) [
  | inl e ↦ inr (e, ap (λ o. ok_or invalid o >>= read_as found target) e)
  | inr (state, e) ↦ inl (state, e, ap (λ o. ok_or invalid o >>= read_as found target) e)
]

-- Where the raw state has an integer version and the registered steps lead from there to a JSON of
-- the version `target`, each stamping its version, the migration gives the state that this JSON
-- deserializes to, with the pair of versions when they differ; it fails only when the JSON does not
-- deserialize, and then as invalid.
pub migrate_to-returns :
    (from_value : Value → Option State) (steps : OrdMap ℕ Step) (left found : ℕ) (raw last : Value)
    → version_of raw ≡ some found
    → Reaches steps left found raw last
    → IsRead from_value found (found + left) last (migrate_to from_value steps (found + left) raw)
unfolding migrate_to
migrate_to-returns from_value steps left found raw last e r =
    let target = found + left in
    let z : target - found ≡ left = omega arith in
    let n : ltb target found ≡ false = ground arith in
    let run : migrate_to from_value steps target raw ≡ deserialized from_value found target last =
      ok->>= _ (λ f. migrate_found from_value steps target f raw) (ok_or-some _ _ e)
      ∙ ap
          (λ b.
            if b
            then err (newer_than_supported found target)
            else (climb steps target (target - found) found raw
                >>= deserialized from_value found target))
          n
      ∙ ap (λ l. climb steps target l found raw >>= deserialized from_value found target) z
      ∙ ok->>= _ (deserialized from_value found target)
          (climb-Reaches steps target left found raw last r) in
    subst (IsRead from_value found target last) (sym run)
      (deserialized-IsRead from_value found target last)

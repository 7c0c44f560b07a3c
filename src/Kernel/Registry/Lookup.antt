-- ===== src/Kernel/Registry/Lookup.antt =====
-- loop_/registry.rs: what a registry that was built holds, and what a lookup finds.
use grist_agent.Prelude.{
  ℕ, zero, suc, ◌≡◌, refl, sym, ap, subst, ◌∙◌, inl, inr, some-injective, true, false, Option, none,
  some, List, [], ◌∷◌, ◌++◌, map, length, get_elem?, get_elem?-append_left, get_elem?-append_length,
  get_elem?-snoc, Bool-cases, Result, ok, err, ok-injective, ◌>>=◌, >>=-eq-ok, ok_or, arith,
}
use mathlib.Core.List.{map-append, append-nil, append_assoc}
use grist_agent.Prelude.Order.{nat_order, list_order, eqb_refl}
use grist_agent.Prelude.OrdMap
use grist_agent.Prelude.OrdMap.{OrdMap}
use grist_agent.Prelude.Text.{Text, same, same_iff}
use grist_agent.Capability.{Capability}
use grist_agent.Sandbox.{
  PolicyError, SandboxPolicy, SandboxLimits, derive_policy_with, envelope_caps,
}
use grist_agent.Tool.{Tool, is_valid_tool_name}
use grist_agent.Kernel.{KernelError, hash_error}
use grist_agent.Kernel.Registry.{
  RegistryEntry, Registry, Tables, with_entry, or_error, needs_command, is_known, hashed_entry,
  derived_entry, entry_of, add_tool, entry_at, add_tools, build, get,
}

-- The index of the names: it sends a name exactly to the place of the entry of that name.
pub record IsIndex (entries : List RegistryEntry) (by_name : OrdMap Text ℕ) : Type 0 where
  pub found :
      (name : Text) (i : ℕ)
      → OrdMap.get name by_name ≡ some i
      → (e : RegistryEntry) × (get_elem? entries i ≡ some e) × (e.tool.name ≡ name)
  pub indexed :
      (i : ℕ) (e : RegistryEntry)
      → get_elem? entries i ≡ some e
      → OrdMap.get e.tool.name by_name ≡ some i

unknown_none : (o : Option ℕ) → is_known o ≡ false → o ≡ none
unknown_none none h = refl
unknown_none (some i) h = cc

module _ (entries : List RegistryEntry) (by_name : OrdMap Text ℕ) (e : RegistryEntry)
    (idx : IsIndex entries by_name) (fresh : OrdMap.get e.tool.name by_name ≡ none) where
  found_after :
      (name : Text) (i : ℕ)
      → OrdMap.get name (OrdMap.put e.tool.name (length entries) by_name) ≡ some i
      → (d : RegistryEntry) × (get_elem? (entries ++ e ∷ []) i ≡ some d) × (d.tool.name ≡ name)
  found_after name i h = elim (Bool-cases (same name e.tool.name)) [
    | inl y ↦
        let law = OrdMap.get-put name e.tool.name (length entries) by_name in
        let at : i ≡ length entries = ground (arith, law) in
        (e, rw at (get_elem?-append_length entries e []), sym ((same_iff name e.tool.name).0 y))
    | inr n ↦
        let law = OrdMap.get-put name e.tool.name (length entries) by_name in
        let old : OrdMap.get name by_name ≡ some i = ground (arith, law) in
        let (d, at, named) = idx.found name i old in
        (d, get_elem?-append_left entries (e ∷ []) i at, named)
  ]

  indexed_after :
      (i : ℕ) (d : RegistryEntry)
      → get_elem? (entries ++ e ∷ []) i ≡ some d
      → OrdMap.get d.tool.name (OrdMap.put e.tool.name (length entries) by_name) ≡ some i
  indexed_after i d h = elim (get_elem?-snoc entries e i h) [
    | inl old ↦
        let known = idx.indexed i d old in
        let other : same d.tool.name e.tool.name ≡ false =
          elim (Bool-cases (same d.tool.name e.tool.name)) [
            | inl y ↦
                let p : d.tool.name ≡ e.tool.name = (same_iff d.tool.name e.tool.name).0 y in
                let q : OrdMap.get e.tool.name by_name ≡ some i =
                  ap (λ (n : Text). OrdMap.get n by_name) (sym p) ∙ known in
                cc
            | inr n ↦ n
          ] in
        OrdMap.get-put d.tool.name e.tool.name (length entries) by_name ∙ rw other known
    | inr (at, p) ↦ rw (← p) (
        OrdMap.get-put e.tool.name e.tool.name (length entries) by_name
        ∙ rw (eqb_refl e.tool.name, at) refl)
  ]

  put-IsIndex : IsIndex (entries ++ e ∷ []) (OrdMap.put e.tool.name (length entries) by_name)
  put-IsIndex = record { found = found_after; indexed = indexed_after }

module _ (digest : SandboxPolicy → Option Text) (grants : List Capability)
    (limits : SandboxLimits) where
  -- What the registry records of a tool.
  pub record IsEntry (e : RegistryEntry) : Type 0 where
    pub named : is_valid_tool_name e.tool.name ≡ true
    pub derived : derive_policy_with e.tool.capabilities grants limits ≡ ok e.policy
    pub same_kind : e.kind ≡ e.tool.kind
    pub same_capabilities : e.capabilities ≡ e.tool.capabilities
    pub startable : needs_command e.tool.kind e.tool.session_command ≡ false

  abbrev AllEntries : List RegistryEntry → Type 0
  AllEntries [] = Unit
  AllEntries (e ∷ es) = IsEntry e × AllEntries es

  AllEntries-snoc :
      (es : List RegistryEntry) (e : RegistryEntry)
      → AllEntries es
      → IsEntry e
      → AllEntries (es ++ e ∷ [])
  AllEntries-snoc [] e h i = (i, tt)
  AllEntries-snoc (d ∷ es) e h i = (h.0, AllEntries-snoc es e h.1 i)

  AllEntries-get :
      (es : List RegistryEntry) (i : ℕ) {e : RegistryEntry}
      → AllEntries es
      → get_elem? es i ≡ some e
      → IsEntry e
  AllEntries-get [] i h at = cc
  AllEntries-get (d ∷ es) zero h at = subst IsEntry (some-injective at) h.0
  AllEntries-get (d ∷ es) (suc i) h at = AllEntries-get es i h.1 at

  hashed_entry-IsEntry :
      (tool : Tool) (policy : SandboxPolicy) (hash : Option Text) (e : RegistryEntry)
      → is_valid_tool_name tool.name ≡ true
      → derive_policy_with tool.capabilities grants limits ≡ ok policy
      → needs_command tool.kind tool.session_command ≡ false
      → hashed_entry digest grants limits tool policy hash ≡ ok e
      → IsEntry e × (e.tool ≡ tool)
  hashed_entry-IsEntry tool policy none e v d s h = cc
  hashed_entry-IsEntry tool policy (some hash) e v d s h =
      subst (λ (x : RegistryEntry). IsEntry x × (x.tool ≡ tool)) (ok-injective h)
        (
          record {
            named = v;
            derived = d;
            same_kind = refl;
            same_capabilities = refl;
            startable = s;
          },
          refl,
        )

  derived_entry-IsEntry :
      (tool : Tool) (r : Result PolicyError SandboxPolicy) (e : RegistryEntry)
      → is_valid_tool_name tool.name ≡ true
      → derive_policy_with tool.capabilities grants limits ≡ r
      → derived_entry digest grants limits tool r ≡ ok e
      → IsEntry e × (e.tool ≡ tool)
  derived_entry-IsEntry tool (err x) e v d h = cc
  derived_entry-IsEntry tool (ok policy) e v d h =
      elim (Bool-cases (needs_command tool.kind tool.session_command)) [
        | inl y ↦ cc (rw y at h)
        | inr n ↦ hashed_entry-IsEntry tool policy (digest policy) e v d n (rw n at h)
      ]

  -- The loop's invariant.
  record IsBuilt (t : Tables) : Type 0 where
    index : IsIndex t.entries t.by_name
    entries_good : AllEntries t.entries

  abbrev tools_of : List RegistryEntry → List Tool
  tools_of = map (λ e. e.tool)

  with_entry_lem :
      (tool : Tool) (t u : Tables) (r : Result KernelError RegistryEntry)
      → IsBuilt t
      → is_valid_tool_name tool.name ≡ true
      → OrdMap.get tool.name t.by_name ≡ none
      → entry_of digest grants limits tool ≡ r
      → (r >>= λ e. ok (with_entry e t)) ≡ ok u
      → IsBuilt u × (tools_of u.entries ≡ tools_of t.entries ++ tool ∷ [])
  with_entry_lem tool t u (err x) b v fresh made h = cc
  with_entry_lem tool t u (ok e) b v fresh made h =
      let (good, same_tool) = derived_entry-IsEntry tool _ e v refl made in
      let free : OrdMap.get e.tool.name t.by_name ≡ none = rw same_tool fresh in
      subst (λ (x : Tables). IsBuilt x × (tools_of x.entries ≡ tools_of t.entries ++ tool ∷ []))
        (ok-injective h)
        (
          record {
            index = put-IsIndex t.entries t.by_name e b.index free;
            entries_good = AllEntries-snoc t.entries e b.entries_good good;
          },
          map-append (λ (d : RegistryEntry). d.tool) t.entries (e ∷ [])
              ∙ ap (λ (x : Tool). tools_of t.entries ++ x ∷ []) same_tool,
        )

  add_tool_lem :
      (tool : Tool) (t u : Tables)
      → IsBuilt t
      → add_tool digest grants limits tool t ≡ ok u
      → IsBuilt u × (tools_of u.entries ≡ tools_of t.entries ++ tool ∷ [])
  unfolding add_tool
  add_tool_lem tool t u b h = elim (Bool-cases (is_valid_tool_name tool.name)) [
    | inr bad ↦ cc (rw bad at h)
    | inl valid ↦
        let h1 = rw valid at h in
        elim (Bool-cases (is_known (OrdMap.get tool.name t.by_name))) [
          | inl known ↦ cc (rw known at h1)
          | inr fresh ↦
              with_entry_lem tool t u _ b valid (unknown_none _ fresh) refl (rw fresh at h1)
        ]
  ]

  add_tools_lem :
      (tools : List Tool) (t u : Tables)
      → IsBuilt t
      → add_tools digest grants limits tools t ≡ ok u
      → IsBuilt u × (tools_of u.entries ≡ tools_of t.entries ++ tools)
  unfolding add_tools
  add_tools_lem [] t u b h =
      subst (λ (x : Tables). IsBuilt x × (tools_of x.entries ≡ tools_of t.entries ++ []))
        (ok-injective h) (b, sym (append-nil _))
  add_tools_lem (tool ∷ tools) t u b h =
      let (v, first, rest) =
        >>=-eq-ok (add_tool digest grants limits tool t) (add_tools digest grants limits tools) h in
      let (bv, ev) = add_tool_lem tool t v b first in
      let (bu, eu) = add_tools_lem tools v u bv rest in
      (bu, eu ∙ ap (λ (x : List Tool). x ++ tools) ev ∙ append_assoc _ (tool ∷ []) tools)

  no_tools-IsBuilt : IsBuilt (record { entries = []; by_name = []; definitions = [] })
  no_tools-IsBuilt = record {
    index = record { found = λ name i h. cc h; indexed = λ i e h. cc h };
    entries_good = tt;
  }

  -- What a registry is to its clients.
  pub record IsRegistry (tools : List Tool) (r : Registry) : Type 0 where
    pub listed : map (λ e. e.tool) r.entries ≡ tools
    pub found :
        (name : Text) (e : RegistryEntry) → get r name ≡ some e → (e.tool.name ≡ name) × IsEntry e
    pub every_entry :
        (i : ℕ) (e : RegistryEntry) → get_elem? r.entries i ≡ some e → get r e.tool.name ≡ some e

  entry_at_found :
      (entries : List RegistryEntry) (by_name : OrdMap Text ℕ) (name : Text) (o : Option ℕ)
      (e : RegistryEntry)
      → IsIndex entries by_name
      → AllEntries entries
      → OrdMap.get name by_name ≡ o
      → entry_at entries o ≡ some e
      → (e.tool.name ≡ name) × IsEntry e
  entry_at_found entries by_name name none e idx good at h = cc
  entry_at_found entries by_name name (some i) e idx good at h =
      let (d, there, named) = idx.found name i at in
      let d≡e : d ≡ e = some-injective (sym there ∙ h) in
      (rw (← d≡e) named, AllEntries-get entries i good h)

  -- A registry that is built holds the given tools in their order; a lookup finds under a name an
  -- entry of that name only, whose policy is what the derivation grants the tool's own
  -- capabilities, with a valid name and, for a session tool, a command to start it; and every
  -- entry is found under its tool's name.
  pub build-IsRegistry :
      (tools : List Tool) {r : Registry}
      → build digest grants limits tools ≡ ok r
      → IsRegistry tools r
  unfolding build get
  build-IsRegistry tools {r} h =
      let (t, loop, h1) = >>=-eq-ok (add_tools digest grants limits tools _) _ h in
      let (envelope, _, h2) =
        >>=-eq-ok (or_error _ (derive_policy_with (envelope_caps grants) grants limits)) _ h1 in
      let (hash, _, h3) = >>=-eq-ok (ok_or hash_error (digest envelope)) _ h2 in
      let (b, e) = add_tools_lem tools _ t no_tools-IsBuilt loop in
      subst (λ (x : Registry). IsRegistry tools x) (ok-injective h3)
        (record {
          listed = e;
          found = λ name d. entry_at_found t.entries t.by_name name _ d b.index b.entries_good refl;
          every_entry = λ i d at. rw (b.index.indexed i d at) at;
        })

-- ===== src/Kernel/Chain/Resolved.antt =====
-- loop_/chain.rs: the order, the names and the reserved slot of a resolved chain.
use grist_agent.Prelude.{
  ok_or-eq-ok, ℕ, ◌≤◌, ◌<◌, ◌≡◌, refl, ap, ◌∙◌, subst, inl, inr, Bool, true, false, Option, some,
  List, [], ◌∷◌, any, keep, Memᴰ, arith, Bool-cases, if◌then◌else◌, ◌==◌, Result, ok, err,
  >>=-eq-ok, ok_or, ok-injective,
}
use mathlib.Core.List.Memᴰ
use grist_agent.Prelude.Order.{nat_order}
use grist_agent.Prelude.Sort.{place, sort, place-member, sort-member}
use grist_agent.Prelude.Text.{Text, same}
use grist_agent.Kernel.{KernelError, hash_error}
use grist_agent.Kernel.Chain.{
  MiddlewareEntry, ChainEntry, MiddlewareChainResolvedPayload, tool_call_parser_priority, is_parser,
  misplaced, check_entries, runs_before, numbered, resolve,
}

refused :
    (e : KernelError) (u : Unit {0}) → ◌≡◌ {A = Result {0, 0} KernelError Unit} (err e) (ok u) → ⊥
refused e u h = cc

module _ {H : Type 0} where
  -- No entry runs at a lower priority than one before it.
  abbrev pub IsOrdered : List (MiddlewareEntry H) → Type 0
  IsOrdered [] = Unit
  IsOrdered (e ∷ es) =
      ((f : MiddlewareEntry H) → Memᴰ f es → e.priority ≤ f.priority) × IsOrdered es

  -- Every name occurs once.
  abbrev pub IsDistinct : List (MiddlewareEntry H) → Type 0
  IsDistinct [] = Unit
  IsDistinct (e ∷ es) =
      ((f : MiddlewareEntry H) → Memᴰ f es → same f.name e.name ≡ false) × IsDistinct es

  -- The parser has its reserved priority, and everything else a higher one.
  pub record IsPlaced (e : MiddlewareEntry H) : Type 0 where
    pub parser : is_parser e ≡ true → e.priority ≡ tool_call_parser_priority
    pub other : is_parser e ≡ false → tool_call_parser_priority < e.priority

  abbrev pub at_priority : ℕ → MiddlewareEntry H → Bool
  at_priority n e = e.priority == n

  keep-place :
      (n : ℕ) (x : MiddlewareEntry H) (ys : List (MiddlewareEntry H))
      → keep (at_priority n) (place runs_before x ys) ≡ keep (at_priority n) (x ∷ ys)
  keep-place n x [] = refl
  keep-place n x (y ∷ ys) = ground (arith, keep-place n x ys)

  keep-sort :
      (n : ℕ) (es : List (MiddlewareEntry H))
      → keep (at_priority n) (sort runs_before es) ≡ keep (at_priority n) es
  keep-sort n [] = refl
  keep-sort n (e ∷ es) =
      keep-place n e (sort runs_before es)
      ∙ ap (λ k. if at_priority n e then e ∷ k else k) (keep-sort n es)

  place-IsOrdered :
      (x : MiddlewareEntry H) (ys : List (MiddlewareEntry H))
      → IsOrdered ys
      → IsOrdered (place runs_before x ys)
  place-IsOrdered x [] h = (λ f m. elim m [ ], tt)
  place-IsOrdered x (y ∷ ys) (low, h) = elim (Bool-cases (runs_before x y)) [
    | inl b ↦ rw b (
      λ f m. elim (Memᴰ.cases_cons m) [
        | inl e ↦ rw e (ground arith)
        | inr r ↦ let k = low f r in ground arith
      ],
      (low, h),
    )
    | inr c ↦ rw c (
      λ f m. elim (Memᴰ.cases_cons (place-member runs_before f x ys m)) [
        | inl e ↦ rw e (ground arith)
        | inr r ↦ low f r
      ],
      place-IsOrdered x ys h,
    )
  ]

  sort-IsOrdered : (es : List (MiddlewareEntry H)) → IsOrdered (sort runs_before es)
  sort-IsOrdered [] = tt
  sort-IsOrdered (e ∷ es) = place-IsOrdered e (sort runs_before es) (sort-IsOrdered es)

  -- What the loop over the entries has checked.
  record IsChecked (names : List Text) (es : List (MiddlewareEntry H)) : Type 0 where
    distinct : IsDistinct es
    fresh : (e : MiddlewareEntry H) → Memᴰ e es → any (same e.name) names ≡ false
    placed : (e : MiddlewareEntry H) → Memᴰ e es → IsPlaced e

  entry-IsPlaced : (e : MiddlewareEntry H) → misplaced e ≡ false → IsPlaced e
  entry-IsPlaced e h = record { parser = λ y. ground arith; other = λ n. ground arith }

  check_entries-IsChecked :
      (names : List Text) (es : List (MiddlewareEntry H)) (u : Unit)
      → check_entries names es ≡ ok u
      → IsChecked names es
  unfolding check_entries
  check_entries-IsChecked names [] u h = record {
    distinct = tt;
    fresh = λ e m. elim m [ ];
    placed = λ e m. elim m [ ];
  }
  check_entries-IsChecked names (e ∷ es) u h = elim (Bool-cases (any (same e.name) names)) [
    | inl y ↦ absurd (refused _ u (rw y at h))
    | inr n ↦ elim (Bool-cases (misplaced e)) [
      | inl y ↦ absurd (refused _ u (rw (n, y) at h))
      | inr p ↦
          let r = check_entries-IsChecked (e.name ∷ names) es u (rw (n, p) at h) in
          record {
            distinct = (λ f m. let q = r.fresh f m in ground arith, r.distinct);
            fresh = λ f m. elim (Memᴰ.cases_cons m) [
              | inl q ↦ rw q n
              | inr t ↦ let q = r.fresh f t in ground arith
            ];
            placed = λ f m. elim (Memᴰ.cases_cons m) [
              | inl q ↦ rw q (entry-IsPlaced e p)
              | inr t ↦ r.placed f t
            ];
          }
    ]
  ]

  -- What a resolved chain guarantees.
  pub record IsResolved (digest : List ChainEntry → Option Text) (es : List (MiddlewareEntry H))
      (chain : List (MiddlewareEntry H)) (payload : MiddlewareChainResolvedPayload) : Type 0 where
    pub distinct : IsDistinct es
    pub ordered : IsOrdered chain
    pub stable : (n : ℕ) → keep (at_priority n) chain ≡ keep (at_priority n) es
    pub placed : (e : MiddlewareEntry H) → Memᴰ e chain → IsPlaced e
    pub recorded : payload.chain ≡ numbered 0 chain
    pub hashed : digest payload.chain ≡ some payload.chain_hash

-- A chain that resolves runs in the order of the priorities, and has the same entries of each
-- priority as the input, in the order in which they came; the names of the entries are distinct, an
-- entry named like the tool-call parser has its reserved priority and every other entry a higher
-- one, and the recorded payload lists the chain in that order with its digest.
pub resolve-IsResolved :
    {H : Type 0} (digest : List ChainEntry → Option Text) (es chain : List (MiddlewareEntry H))
    (payload : MiddlewareChainResolvedPayload)
    → resolve digest es ≡ ok (chain, payload)
    → IsResolved digest es chain payload
unfolding resolve
resolve-IsResolved digest es chain payload h =
    let (u, c, h1) = >>=-eq-ok (check_entries [] es) _ h in
    let (hash, d, h2) =
      >>=-eq-ok (ok_or hash_error (digest (numbered 0 (sort runs_before es)))) _ h1 in
    let k = check_entries-IsChecked [] es u c in
    let g = ok-injective h2 in
    subst (λ r. IsResolved digest es r.0 r.1) g
      (record {
        distinct = k.distinct;
        ordered = sort-IsOrdered es;
        stable = λ n. keep-sort n es;
        placed = λ e m. k.placed e (sort-member runs_before e es m);
        recorded = refl;
        hashed = ok_or-eq-ok _ _ hash d;
      })

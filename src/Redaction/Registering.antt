-- ===== src/Redaction/Registering.antt =====
-- crates/kernel/src/redact.rs: the registered secrets, as the set that they stand for.
use grist_agent.Prelude.{
  ◌≤◌, ◌<◌, true, false, List, [], ◌∷◌, ◌++◌, ◌≡◌, ◌≢◌, ◌↔◌, ◌⊎◌, inl, inr, refl, sym, ◌∙◌, subst,
  arith, Bool-cases, if◌then◌else◌, ltb, ltb→lt, Memᴰ, any, any-member, any_of_member,
}
use mathlib.Core.List.Memᴰ
use grist_agent.Prelude.Sort.{place, sort, place-member, sort-member, member-sort}
use grist_agent.Prelude.Text.{Text, byte_len, same, same_iff, same_refl}
use grist_agent.Redaction.{
  Redactor, longest_first, register_secret, register_named_secret, add_known, add_name,
  unnamed_secret, min_secret_len,
}

-- No text is longer than one before it.
abbrev pub IsLongestFirst : List Text → Type 0
IsLongestFirst [] = Unit
IsLongestFirst (v ∷ vs) = ((w : Text) → Memᴰ w vs → byte_len w ≤ byte_len v) × IsLongestFirst vs

abbrev pub IsDistinct : List Text → Type 0
IsDistinct [] = Unit
IsDistinct (v ∷ vs) = ((w : Text) → Memᴰ w vs → w ≢ v) × IsDistinct vs

-- What holds of the registered values at all times.
pub record IsRegistered (known : List Text) : Type 0 where
  pub long : (v : Text) → Memᴰ v known → min_secret_len ≤ byte_len v
  pub ordered : IsLongestFirst known
  pub distinct : IsDistinct known

place-IsLongestFirst :
    (x : Text) (ys : List Text) → IsLongestFirst ys → IsLongestFirst (place longest_first x ys)
place-IsLongestFirst x [] h = (λ f m. elim m [ ], tt)
place-IsLongestFirst x (y ∷ ys) (low, h) = elim (Bool-cases (longest_first x y)) [
  | inl b ↦ rw b (
    λ f m. elim (Memᴰ.cases_cons m) [
      | inl e ↦ rw e (ground arith)
      | inr r ↦ let k = low f r in ground arith
    ],
    (low, h),
  )
  | inr c ↦ rw c (
    λ f m. elim (Memᴰ.cases_cons (place-member longest_first f x ys m)) [
      | inl e ↦ rw e (ground arith)
      | inr r ↦ low f r
    ],
    place-IsLongestFirst x ys h,
  )
]

sort-IsLongestFirst : (vs : List Text) → IsLongestFirst (sort longest_first vs)
sort-IsLongestFirst [] = tt
sort-IsLongestFirst (v ∷ vs) =
    place-IsLongestFirst v (sort longest_first vs) (sort-IsLongestFirst vs)

place-IsDistinct :
    (x : Text) (ys : List Text) → IsDistinct (x ∷ ys) → IsDistinct (place longest_first x ys)
place-IsDistinct x [] h = h
place-IsDistinct x (y ∷ ys) (new, (apart, h)) = elim (Bool-cases (longest_first x y)) [
  | inl b ↦ rw b (new, (apart, h))
  | inr c ↦ rw c (
    λ f m. elim (Memᴰ.cases_cons (place-member longest_first f x ys m)) [
      | inl e ↦ λ g. new y (Memᴰ.head refl) (sym g ∙ e)
      | inr r ↦ apart f r
    ],
    place-IsDistinct x ys (λ w m. new w (Memᴰ.tail m), h),
  )
]

sort-IsDistinct : (vs : List Text) → IsDistinct vs → IsDistinct (sort longest_first vs)
sort-IsDistinct [] h = tt
sort-IsDistinct (v ∷ vs) (new, h) =
    place-IsDistinct v (sort longest_first vs)
      (λ w m. new w (sort-member longest_first w vs m), sort-IsDistinct vs h)

member-snoc : (v w : Text) (vs : List Text) → Memᴰ w (vs ++ v ∷ []) → Memᴰ w vs ⊎ (w ≡ v)
member-snoc v w [] m = elim (Memᴰ.cases_cons m) [ inl e ↦ inr e | inr r ↦ elim r [ ] ]
member-snoc v w (x ∷ vs) m = elim (Memᴰ.cases_cons m) [
  | inl e ↦ inl (Memᴰ.head e)
  | inr r ↦ elim (member-snoc v w vs r) [ inl s ↦ inl (Memᴰ.tail s) | inr e ↦ inr e ]
]

snoc-member : (v w : Text) (vs : List Text) → Memᴰ w vs ⊎ (w ≡ v) → Memᴰ w (vs ++ v ∷ [])
snoc-member v w [] (inl m) = elim m [ ]
snoc-member v w [] (inr e) = Memᴰ.head e
snoc-member v w (x ∷ vs) (inl m) = elim (Memᴰ.cases_cons m) [
  | inl e ↦ Memᴰ.head e
  | inr r ↦ Memᴰ.tail (snoc-member v w vs (inl r))
]
snoc-member v w (x ∷ vs) (inr e) = Memᴰ.tail (snoc-member v w vs (inr e))

snoc-IsDistinct :
    (v : Text) (vs : List Text)
    → ((w : Text) → Memᴰ w vs → w ≢ v)
    → IsDistinct vs
    → IsDistinct (vs ++ v ∷ [])
snoc-IsDistinct v [] new h = (λ w m. elim m [ ], tt)
snoc-IsDistinct v (x ∷ vs) new (apart, h) = (
  λ w m. elim (member-snoc v w vs m) [
    | inl r ↦ apart w r
    | inr e ↦ λ g. new x (Memᴰ.head refl) (sym g ∙ e)
  ],
  snoc-IsDistinct v vs (λ w m. new w (Memᴰ.tail m)) h,
)

-- A registration, seen as an insertion into the set of the values of at least eight bytes.
pub record IsInserted {Regex : Type 0} (v : Text) (r s : Redactor Regex) : Type 0 where
  pub registered : IsRegistered s.known
  pub only_new :
      (q : Text) → Memᴰ q s.known → Memᴰ q r.known ⊎ ((q ≡ v) × (min_secret_len ≤ byte_len v))
  pub old : (q : Text) → Memᴰ q r.known → Memᴰ q s.known
  pub new : min_secret_len ≤ byte_len v → Memᴰ v s.known
  pub patterns_kept : s.patterns ≡ r.patterns

module _ {Regex : Type 0} (v : Text) (r : Redactor Regex) (h : IsRegistered r.known) where
  add_name-known : (name : Text) → (add_name name r).known ≡ r.known
  add_name-known name = elim (Bool-cases (any (same name) r.short)) [
    | inl y ↦ rw y refl
    | inr n ↦ rw n refl
  ]

  add_name-patterns : (name : Text) → (add_name name r).patterns ≡ r.patterns
  add_name-patterns name = elim (Bool-cases (any (same name) r.short)) [
    | inl y ↦ rw y refl
    | inr n ↦ rw n refl
  ]

  too_short-IsInserted :
      (name : Text) → byte_len v < min_secret_len → IsInserted v r (add_name name r)
  too_short-IsInserted name short = record {
    registered = subst IsRegistered (sym (add_name-known name)) h;
    only_new = λ q m. inl (subst (λ l. Memᴰ q l) (add_name-known name) m);
    old = λ q m. subst (λ l. Memᴰ q l) (sym (add_name-known name)) m;
    new = λ long. absurd (omega arith);
    patterns_kept = add_name-patterns name;
  }

  known_before : any (same v) r.known ≡ true → IsInserted v r r
  known_before y = record {
    registered = h;
    only_new = λ q m. inl m;
    old = λ q m. m;
    new = λ long.
        let (w, m, t) = any-member (same v) r.known y in
        subst (λ x. Memᴰ x r.known) (sym ((same_iff v w).0 t)) m;
    patterns_kept = refl;
  }

  added :
      any (same v) r.known ≡ false
      → min_secret_len ≤ byte_len v
      → IsInserted v r (record r { known = sort longest_first (r.known ++ v ∷ []) })
  added n long = record {
    registered = record {
      long = λ q m. elim (member-snoc v q r.known (sort-member longest_first q _ m)) [
        | inl o ↦ h.long q o
        | inr e ↦ rw e long
      ];
      ordered = sort-IsLongestFirst (r.known ++ v ∷ []);
      distinct = sort-IsDistinct (r.known ++ v ∷ []) (
          snoc-IsDistinct v r.known
            (λ w m e. let t = any_of_member (same v) m (rw e (same_refl v)) in cc) h.distinct);
    };
    only_new = λ q m. elim (member-snoc v q r.known (sort-member longest_first q _ m)) [
      | inl o ↦ inl o
      | inr e ↦ inr (e, long)
    ];
    old = λ q m. member-sort longest_first q _ (snoc-member v q r.known (inl m));
    new = λ _. member-sort longest_first v _ (snoc-member v v r.known (inr refl));
    patterns_kept = refl;
  }

  add_known-IsInserted : min_secret_len ≤ byte_len v → IsInserted v r (add_known v r)
  add_known-IsInserted long = elim (Bool-cases (any (same v) r.known)) [
    | inl y ↦
        subst
          (λ b.
            IsInserted v r
              (if b then r else record r { known = sort longest_first (r.known ++ v ∷ []) }))
          (sym y) (known_before y)
    | inr n ↦
        subst
          (λ b.
            IsInserted v r
              (if b then r else record r { known = sort longest_first (r.known ++ v ∷ []) }))
          (sym n) (added n long)
  ]

  pub register_secret-IsInserted : IsInserted v r (register_secret v r)
  unfolding register_secret
  register_secret-IsInserted = elim (Bool-cases (ltb (byte_len v) min_secret_len)) [
    | inl y ↦
        subst (λ b. IsInserted v r (if b then add_name unnamed_secret r else add_known v r)) (sym y)
          (too_short-IsInserted unnamed_secret (ltb→lt _ _ y))
    | inr n ↦
        subst (λ b. IsInserted v r (if b then add_name unnamed_secret r else add_known v r)) (sym n)
          (add_known-IsInserted (ground arith))
  ]

  -- A registration, named or not, of a value with a redactor whose values are distinct, longest
  -- first and of at least eight bytes keeps them so; as a set they gain the value if it has at
  -- least eight bytes, which the named one reports, and else nothing; the patterns stay.
  pub register-IsInserted :
      (name : Text)
      → IsInserted v r (register_secret v r)
        × IsInserted v r (register_named_secret name v r).1
        × (((register_named_secret name v r).0 ≡ true) ↔ (min_secret_len ≤ byte_len v))
  unfolding register_named_secret
  register-IsInserted name = elim (Bool-cases (ltb (byte_len v) min_secret_len)) [
    | inl y ↦ (
      register_secret-IsInserted,
      rw y (too_short-IsInserted name (ltb→lt _ _ y)),
      rw y (λ e. cc, λ l. absurd (ground arith)),
    )
    | inr n ↦ (
      register_secret-IsInserted,
      rw n (add_known-IsInserted (ground arith)),
      rw n (λ e. ground arith, λ l. refl),
    )
  ]

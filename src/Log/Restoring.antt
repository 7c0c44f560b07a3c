-- ===== src/Log/Restoring.antt =====
-- log/mod.rs `reader::restore`: a restored state is one that the log recorded.
use grist_agent.Prelude.{
  ok_or-eq-ok, ℕ, ◌≡◌, refl, sym, ap, subst, ◌∙◌, inl, inr, Option, none, some, List, [], ◌∷◌, ◌++◌,
  reverse, Memᴰ, Bool-cases, Option-cases, Result, ok, err, ok_or, >>=-eq-ok, ok-injective,
}
use mathlib.Core.List.Memᴰ
use mathlib.Core.List.{reverse-cons, reverse-append, reverse-reverse, append_assoc}
use grist_agent.Prelude.Text.{Text, codes, same, same_iff}
use grist_agent.Content.{Value, value_get}
use grist_agent.State.Migration.{MigrationError, Migrated, migrate_to_current}
use grist_agent.Log.{LogEvent, io_error}
use grist_agent.Log.Errors.{RestoreError, not_found, log_failure}
use grist_agent.Log.Reader.{
  find_map, candidate, Decoding, migrated, restore_from, restore_found, restore,
}

some-injective : {A : Type 0} {a b : A} → some a ≡ some b → a ≡ b
some-injective h = cc

mismatched :
    (e : RestoreError) (m : Option Migrated)
    → ◌≡◌ {A = Result RestoreError (Option Migrated)} (err e) (ok m)
    → ⊥
mismatched e m h = cc

module _ {A : Type 0} where
  member_left : {x : A} (xs ys : List A) → Memᴰ x xs → Memᴰ x (xs ++ ys)
  member_left [] ys m = elim m [ ]
  member_left (y ∷ xs) ys (Memᴰ.head e) = Memᴰ.head e
  member_left (y ∷ xs) ys (Memᴰ.tail m) = Memᴰ.tail (member_left xs ys m)

  member_right : {x : A} (xs ys : List A) → Memᴰ x ys → Memᴰ x (xs ++ ys)
  member_right [] ys m = m
  member_right (y ∷ xs) ys m = Memᴰ.tail (member_right xs ys m)

  member-reverse : {x : A} (xs : List A) → Memᴰ x xs → Memᴰ x (reverse xs)
  member-reverse [] m = elim m [ ]
  member-reverse (y ∷ xs) (Memᴰ.head e) =
      rw (reverse-cons y xs) (member_right (reverse xs) (y ∷ []) (Memᴰ.head e))
  member-reverse (y ∷ xs) (Memᴰ.tail m) =
      rw (reverse-cons y xs) (member_left (reverse xs) (y ∷ []) (member-reverse xs m))

module _ {A B : Type 0} (f : A → Option B) where
  -- The last element of a list for which `f` answers, and its answer.
  pub record IsLast (xs : List A) (b : B) : Type 0 where
    pub before : List A
    pub found : A
    pub after : List A
    pub splits : xs ≡ before ++ found ∷ after
    pub answers : f found ≡ some b
    pub none_after : (x : A) → Memᴰ x after → f x ≡ none

  first_found :
      (xs : List A) (b : B)
      → find_map f xs ≡ some b
      → (pre : List A) × (x : A) × (post : List A) × (xs ≡ pre ++ x ∷ post)
        × (f x ≡ some b)
        × ((y : A) → Memᴰ y pre → f y ≡ none)
  first_found [] b h = cc
  first_found (x ∷ xs) b h = elim (Option-cases (f x)) [
    | inl e ↦
        let (pre, y, post, s, a, n) = first_found xs b (rw (e, find_map) at h) in
        (
          x ∷ pre,
          y,
          post,
          ap (λ l. x ∷ l) s,
          a,
          λ z m. elim (Memᴰ.cases_cons m) [ inl q ↦ rw q e | inr r ↦ n z r ],
        )
    | inr (c, e) ↦ ([], x, xs, refl, e ∙ (rw (e, find_map) at h), λ z m. elim m [ ])
  ]

  pub find_map-reverse : (xs : List A) (b : B) → find_map f (reverse xs) ≡ some b → IsLast xs b
  find_map-reverse xs b h =
      let (pre, x, post, s, a, n) = first_found (reverse xs) b h in
      record {
        before = reverse post;
        found = x;
        after = reverse pre;
        splits =
            sym (reverse-reverse xs)
            ∙ ap reverse s
            ∙ reverse-append pre (x ∷ post)
            ∙ ap (λ l. l ++ reverse pre) (reverse-cons x post)
            ∙ append_assoc (reverse post) (x ∷ []) (reverse pre);
        answers = a;
        none_after =
            λ y m. n y (subst (Memᴰ y) (reverse-reverse pre) (member-reverse (reverse pre) m));
      }

-- What a successful `restore` found: the last line with a hash that is wanted, the raw state of its
-- payload, which has that digest, and the migration of that raw state.
pub record IsRestored (d : Decoding) (raw_payload_of : ℕ → Option Value) (events : List LogEvent)
    (want : Option Text) (m : Migrated) : Type 0 where
  pub seq : ℕ
  pub hash : Text
  pub latest : IsLast (candidate want) events (seq, hash)
  pub raw : Value
  pub raw_state : Value
  pub payload : raw_payload_of seq ≡ some raw
  pub holds_state : value_get (codes "state") raw ≡ some raw_state
  pub verified : d.raw_hash raw_state ≡ some hash
  pub migrates : migrate_to_current d.from_value d.steps raw_state ≡ ok m

module _ (d : Decoding) (raw_payload_of : ℕ → Option Value) where
  migrated-eq-ok :
      (r : Result MigrationError Migrated) (m : Migrated)
      → migrated d raw_payload_of r ≡ ok (some m)
      → r ≡ ok m
  migrated-eq-ok (ok n) m h = ap ok (some-injective (ok-injective h))
  migrated-eq-ok (err e) m h = cc

  restore_from-IsRestored :
      (events : List LogEvent) (want : Option Text) (seq : ℕ) (hash : Text) (m : Migrated)
      → IsLast (candidate want) events (seq, hash)
      → restore_from d raw_payload_of (seq, hash) ≡ ok (some m)
      → IsRestored d raw_payload_of events want m
  restore_from-IsRestored events want seq hash m l h =
      let (raw, p, h1) = >>=-eq-ok (ok_or (not_found hash) (raw_payload_of seq)) _ h in
      let (raw_state, q, h2) =
        >>=-eq-ok (ok_or (not_found hash) (value_get (codes "state") raw)) _ h1 in
      let (computed, r, h3) =
        >>=-eq-ok (ok_or (log_failure io_error) (d.raw_hash raw_state)) _ h2 in
      elim (Bool-cases (same computed hash)) [
        | inl y ↦ record {
          seq = seq;
          hash = hash;
          latest = l;
          raw = raw;
          raw_state = raw_state;
          payload = ok_or-eq-ok _ _ raw p;
          holds_state = ok_or-eq-ok _ _ raw_state q;
          verified = ok_or-eq-ok _ _ computed r ∙ ap some ((same_iff computed hash).0 y);
          migrates = migrated-eq-ok _ m (rw y at h3);
        }
        | inr n ↦ absurd (mismatched _ _ (rw n at h3))
      ]

  restore_found-IsRestored :
      (events : List LogEvent) (want : Option Text) (m : Migrated) (o : Option (ℕ × Text))
      → find_map (candidate want) (reverse events) ≡ o
      → restore_found d raw_payload_of o want ≡ ok (some m)
      → IsRestored d raw_payload_of events want m
  restore_found-IsRestored events none m none e h = cc
  restore_found-IsRestored events (some t) m none e h = cc
  restore_found-IsRestored events want m (some (seq, hash)) e h =
      restore_from-IsRestored events want seq hash m
        (find_map-reverse (candidate want) events (seq, hash) e) h

-- A `restore` that returns a state has found the last line of the log that is a checkpoint with a
-- hash that is wanted (any hash, when none is given), has verified that the raw state in that
-- line's payload has the digest that the line recorded, and returns the migration of that state.
pub restore_sound :
    (d : Decoding) (raw_payload_of : ℕ → Option Value) (events : List LogEvent)
    → (want : Option Text) (m : Migrated) → restore d raw_payload_of events want ≡ ok (some m)
    → IsRestored d raw_payload_of events want m
unfolding restore
restore_sound d raw_payload_of events want m h =
    restore_found-IsRestored d raw_payload_of events want m _ refl h

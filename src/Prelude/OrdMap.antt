-- ===== src/Prelude/OrdMap.antt =====
-- `BTreeMap`: an association list with strictly increasing keys.
use mathlib.Core.Path.{◌≡◌, refl, ap}
use mathlib.Core.Bool.{true}
use mathlib.Core.Option.{Option, none, some}
use mathlib.Core.List.{List, [], ◌∷◌, map, Memᴰ}
use native.Mathlib.Omega.{arith}
use grist_agent.Prelude.Tests.{if◌then◌else◌}
use grist_agent.Prelude.Order.{Order, eqb_refl}
use grist_agent.Prelude.OrdSet.{IsSorted, Above}
use grist_agent.Prelude.OrdSet

abbrev pub OrdMap {ℓ κ} : Type ℓ → Type κ → Type (ℓ ⊔ κ)
OrdMap K V = List (K × V)

module _ {ℓ κ} {K : Type ℓ} {V : Type κ} where
  abbrev pub keys : OrdMap K V → List K
  keys = map (λ e. e.0)

  abbrev pub values : OrdMap K V → List V
  values = map (λ e. e.1)

module _ {ℓ κ} {K : Type ℓ} {V : Type κ} ⦃o : Order K⦄ where
  abbrev pub get : K → OrdMap K V → Option V
  get k [] = none
  get k ((j, v) ∷ m) = if o.eqb k j then some v else get k m

  -- Inserts, or overwrites the value of a key that is present.
  abbrev pub put : K → V → OrdMap K V → OrdMap K V
  put k v [] = (k, v) ∷ []
  put k v ((j, w) ∷ m) =
      if o.lt k j then (k, v) ∷ (j, w) ∷ m else if o.eqb k j then (j, v) ∷ m else (j, w) ∷ put k v m

  -- A write through `get_mut`: nothing happens if the key is absent.
  abbrev pub adjust : K → (V → V) → OrdMap K V → OrdMap K V
  adjust k f [] = []
  adjust k f ((j, w) ∷ m) = if o.eqb k j then (j, f w) ∷ m else (j, w) ∷ adjust k f m

  pub keys-adjust : (k : K) (f : V → V) (m : OrdMap K V) → keys (adjust k f m) ≡ keys m
  keys-adjust k f [] = refl
  keys-adjust k f ((j, w) ∷ m) = ground (arith, keys-adjust k f m)

  pub keys-put : (k : K) (v : V) (m : OrdMap K V) → keys (put k v m) ≡ OrdSet.insert k (keys m)
  keys-put k v [] = refl
  keys-put k v ((j, w) ∷ m) = ground (arith, keys-put k v m)

  pub get-adjust :
      (i k : K) (f : V → V) (m : OrdMap K V) (v : V)
      → get k m ≡ some v
      → get i (adjust k f m) ≡ (if o.eqb i k then some (f v) else get i m)
  get-adjust i k f [] v h = cc
  get-adjust i k f ((j, w) ∷ m) v h =
      ground (arith, get-adjust i k f m v, o.eqb_iff i j, o.eqb_iff i k, o.eqb_iff k j)

  pub get-put :
      (i k : K) (v : V) (m : OrdMap K V)
      → get i (put k v m) ≡ (if o.eqb i k then some v else get i m)
  get-put i k v [] = refl
  get-put i k v ((j, w) ∷ m) =
      ground (arith, get-put i k v m, o.eqb_iff i j, o.eqb_iff i k, o.eqb_iff k j)

  pub put-IsSorted :
      (k : K) (v : V) (m : OrdMap K V) → IsSorted (keys m) → IsSorted (keys (put k v m))
  put-IsSorted k v m h = rw (keys-put k v m) (OrdSet.insert-IsSorted k (keys m) h)

  Above-not-head :
      (k j : K) (v : V) (m : OrdMap K V) → Above j (keys m) → Memᴰ (k, v) m → o.lt j k ≡ true
  Above-not-head k j v [] a h = elim h [ ]
  Above-not-head k j v ((i, w) ∷ m) a (Memᴰ.head e) = rw (ap (λ (x : K × V). x.0) e) a.0
  Above-not-head k j v ((i, w) ∷ m) a (Memᴰ.tail h) = Above-not-head k j v m a.1 h

  -- With increasing keys, what is in the list is what a lookup finds.
  pub get_of_member :
      (k : K) (v : V) (m : OrdMap K V) → IsSorted (keys m) → Memᴰ (k, v) m → get k m ≡ some v
  get_of_member k v [] s h = elim h [ ]
  get_of_member k v ((j, w) ∷ m) s (Memᴰ.head e) =
      let p : k ≡ j = ap (λ (x : K × V). x.0) e in
      let q : v ≡ w = ap (λ (x : K × V). x.1) e in rw (p, q, eqb_refl j)
  get_of_member k v ((j, w) ∷ m) s (Memᴰ.tail h) =
      ground (
        arith,
        Above-not-head k j v m s.0 h,
        o.eqb_iff k j,
        o.lt_irrefl k,
        get_of_member k v m s.1 h,
      )

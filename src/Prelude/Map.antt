-- ===== src/Prelude/Map.antt =====
-- `HashMap` as an association list: a lookup reads the first entry, an insert replaces it or adds
-- one at the end, and `retain` filters. Rust leaves the iteration order open; here it is the list's.
use binda.Prelude.{
  ◌+◌, ◌≤◌, ◌≡◌, refl, Bool, true, false, ◌||◌, Option, none, some, List, [], ◌∷◌, arith, Eq, ◌==◌,
  if◌then◌else◌, length,
}
use mathlib.Core.Option

abbrev pub HashMap {ℓ κ} : Type ℓ → Type κ → Type (ℓ ⊔ κ)
HashMap K V = List (K × V)

abbrev pub keys {ℓ κ} : {K : Type ℓ} {V : Type κ} → HashMap K V → List K
keys [] = []
keys ((k, v) ∷ m) = k ∷ keys m

abbrev pub values {ℓ κ} : {K : Type ℓ} {V : Type κ} → HashMap K V → List V
values [] = []
values ((k, v) ∷ m) = v ∷ values m

abbrev pub is_some {ℓ} : {A : Type ℓ} → Option A → Bool
is_some none = false
is_some (some _) = true

module _ {ℓ κ} {K : Type ℓ} {V : Type κ} where
  -- `retain`
  unfoldable pub retain : (K → V → Bool) → HashMap K V → HashMap K V
  retain p [] = []
  retain p ((k, v) ∷ m) = if p k v then (k, v) ∷ retain p m else retain p m

  -- `for v in m.values_mut()`
  unfoldable pub map_values : (V → V) → HashMap K V → HashMap K V
  map_values f [] = []
  map_values f ((k, v) ∷ m) = (k, f v) ∷ map_values f m

  pub length-retain : (p : K → V → Bool) (m : HashMap K V) → length (retain p m) ≤ length m
  unfolding retain
  length-retain p [] = omega arith
  length-retain p ((k, v) ∷ m) = ground (arith, length-retain p m)

module _ {ℓ κ} {K : Type ℓ} {V : Type κ} ⦃e : Eq K⦄ where
  unfoldable pub lookup : K → HashMap K V → Option V
  lookup k [] = none
  lookup k ((q, v) ∷ m) = if q == k then some v else lookup k m

  unfoldable pub contains_key : K → HashMap K V → Bool
  contains_key k [] = false
  contains_key k ((j, v) ∷ m) = j == k || contains_key k m

  unfoldable pub insert : K → V → HashMap K V → HashMap K V
  insert k v [] = (k, v) ∷ []
  insert k v ((q, u) ∷ m) = if q == k then (k, v) ∷ m else (q, u) ∷ insert k v m

  unfoldable pub remove : K → HashMap K V → HashMap K V
  remove k [] = []
  remove k ((j, w) ∷ m) = if j == k then remove k m else (j, w) ∷ remove k m

  -- `if let Some(v) = m.get_mut(k) { *v = f(*v) }`
  unfoldable pub update : K → (V → V) → HashMap K V → HashMap K V
  update k f [] = []
  update k f ((j, w) ∷ m) = if j == k then (j, f w) ∷ m else (j, w) ∷ update k f m

  pub lookup-insert :
      (k q : K) (v : V) (m : HashMap K V)
      → lookup q (insert k v m) ≡ (if k == q then some v else lookup q m)
  unfolding lookup insert
  lookup-insert k q v [] = refl
  lookup-insert k q v ((j, u) ∷ m) =
      ground (arith, lookup-insert k q v m, e.beq_iff k q, e.beq_iff j q, e.beq_iff j k)

  pub lookup-remove :
      (k j : K) (m : HashMap K V) → lookup j (remove k m) ≡ (if k == j then none else lookup j m)
  unfolding lookup remove
  lookup-remove k j [] = ground arith
  lookup-remove k j ((i, w) ∷ m) =
      ground (arith, e.beq_iff k j, e.beq_iff i k, e.beq_iff i j, lookup-remove k j m)

  pub lookup-update :
      (k j : K) (f : V → V) (m : HashMap K V)
      → lookup j (update k f m) ≡ (if k == j then Option.map f (lookup j m) else lookup j m)
  unfolding lookup update
  lookup-update k j f [] = ground arith
  lookup-update k j f ((i, w) ∷ m) =
      ground (arith, e.beq_iff k j, e.beq_iff i k, e.beq_iff i j, lookup-update k j f m)

  pub lookup-map_values :
      (j : K) (f : V → V) (m : HashMap K V) → lookup j (map_values f m) ≡ Option.map f (lookup j m)
  unfolding lookup map_values
  lookup-map_values j f [] = refl
  lookup-map_values j f ((i, w) ∷ m) = ground (arith, lookup-map_values j f m)

  pub contains_key-lookup : (k : K) (m : HashMap K V) → contains_key k m ≡ is_some (lookup k m)
  unfolding contains_key lookup
  contains_key-lookup k [] = refl
  contains_key-lookup k ((j, w) ∷ m) = ground (arith, contains_key-lookup k m)

  pub contains_key-insert :
      (k j : K) (v : V) (m : HashMap K V)
      → contains_key j (insert k v m) ≡ (k == j || contains_key j m)
  unfolding contains_key insert
  contains_key-insert k j v [] = refl
  contains_key-insert k j v ((i, w) ∷ m) =
      ground (arith, e.beq_iff k j, e.beq_iff i k, e.beq_iff i j, contains_key-insert k j v m)

  pub contains_key-remove_absent :
      (k j : K) (m : HashMap K V) → contains_key j m ≡ false → contains_key j (remove k m) ≡ false
  unfolding contains_key remove
  contains_key-remove_absent k j [] h = refl
  contains_key-remove_absent k j ((i, w) ∷ m) h = ground (arith, contains_key-remove_absent k j m)

  pub contains_key-update :
      (k j : K) (f : V → V) (m : HashMap K V) → contains_key j (update k f m) ≡ contains_key j m
  unfolding contains_key update
  contains_key-update k j f [] = refl
  contains_key-update k j f ((i, w) ∷ m) = ground (arith, contains_key-update k j f m)

  pub contains_key-map_values :
      (j : K) (f : V → V) (m : HashMap K V) → contains_key j (map_values f m) ≡ contains_key j m
  unfolding contains_key map_values
  contains_key-map_values j f [] = refl
  contains_key-map_values j f ((i, w) ∷ m) = rw (contains_key-map_values j f m)

  pub contains_key-retain_absent :
      (j : K) (p : K → V → Bool) (m : HashMap K V)
      → contains_key j m ≡ false
      → contains_key j (retain p m) ≡ false
  unfolding contains_key retain
  contains_key-retain_absent j p [] h = refl
  contains_key-retain_absent j p ((i, w) ∷ m) h = ground (arith, contains_key-retain_absent j p m)

  -- No key occurs twice.
  abbrev pub Distinct : HashMap K V → Type 0
  Distinct [] = Unit
  Distinct ((k, v) ∷ m) = (contains_key k m ≡ false) × Distinct m

  pub insert-Distinct : (k : K) (v : V) (m : HashMap K V) → Distinct m → Distinct (insert k v m)
  unfolding insert contains_key
  insert-Distinct k v [] d = (refl, tt)
  insert-Distinct k v ((j, w) ∷ m) d =
      ground (
        arith,
        insert-Distinct k v m d.1,
        contains_key-insert k j v m,
        e.beq_iff j k,
        e.beq_iff k j,
      )

  pub remove-Distinct : (k : K) (m : HashMap K V) → Distinct m → Distinct (remove k m)
  unfolding remove
  remove-Distinct k [] d = tt
  remove-Distinct k ((j, w) ∷ m) d =
      ground (arith, remove-Distinct k m d.1, contains_key-remove_absent k j m)

  pub update-Distinct : (k : K) (f : V → V) (m : HashMap K V) → Distinct m → Distinct (update k f m)
  unfolding update
  update-Distinct k f [] d = tt
  update-Distinct k f ((j, w) ∷ m) d =
      ground (arith, update-Distinct k f m d.1, contains_key-update k j f m)

  pub map_values-Distinct : (f : V → V) (m : HashMap K V) → Distinct m → Distinct (map_values f m)
  unfolding map_values
  map_values-Distinct f [] d = tt
  map_values-Distinct f ((j, w) ∷ m) d =
      ground (arith, map_values-Distinct f m d.1, contains_key-map_values j f m)

  pub lookup-retain-none :
      (k : K) (p : K → V → Bool) (m : HashMap K V)
      → lookup k m ≡ none
      → lookup k (retain p m) ≡ none
  unfolding lookup retain
  lookup-retain-none k p [] h = refl
  lookup-retain-none k p ((j, w) ∷ m) h = ground (arith, lookup-retain-none k p m)

  -- What `retain` keeps under a key, where keys are distinct.
  abbrev pub kept : (K → V → Bool) → K → Option V → Option V
  kept p k none = none
  kept p k (some v) = if p k v then some v else none

  pub lookup-retain :
      (k : K) (p : K → V → Bool) (m : HashMap K V)
      → Distinct m
      → lookup k (retain p m) ≡ kept p k (lookup k m)
  unfolding lookup retain
  lookup-retain k p [] d = refl
  lookup-retain k p ((j, w) ∷ m) d = ground (
    arith,
    lookup-retain k p m d.1,
    lookup-retain-none j p m,
    contains_key-lookup j m,
    e.beq_iff j k,
  )

  pub retain-Distinct : (p : K → V → Bool) (m : HashMap K V) → Distinct m → Distinct (retain p m)
  unfolding retain
  retain-Distinct p [] d = tt
  retain-Distinct p ((j, w) ∷ m) d =
      ground (arith, retain-Distinct p m d.1, contains_key-retain_absent j p m d.0)

  pub length-insert :
      (k : K) (v : V) (m : HashMap K V)
      → length (insert k v m) ≡ (if contains_key k m then length m else length m + 1)
  unfolding insert contains_key
  length-insert k v [] = refl
  length-insert k v ((j, w) ∷ m) = ground (arith, length-insert k v m)

  pub length-remove : (k : K) (m : HashMap K V) → length (remove k m) ≤ length m
  unfolding remove
  length-remove k [] = omega arith
  length-remove k ((j, w) ∷ m) = ground (arith, length-remove k m)

  pub length-remove_lt :
      (k : K) (m : HashMap K V) → contains_key k m ≡ true → length (remove k m) + 1 ≤ length m
  unfolding remove contains_key
  length-remove_lt k [] h = cc
  length-remove_lt k ((j, w) ∷ m) h = ground (arith, length-remove_lt k m, length-remove k m)

pub ruleset map_laws = (lookup-insert, lookup-remove, lookup-update, lookup-map_values)

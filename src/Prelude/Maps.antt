-- ===== src/Prelude/Maps.antt =====
-- Go's `map[K]V` as an association list. The order of the list stands for the order in which a
-- `range` over the map happens to visit the entries, which Go leaves open: what is stated of every
-- list holds of every order.
use mathlib.Core.Path.{ap, sym, ◌≡◌, refl, subst, ◌∙◌}
use mathlib.Core.Logic.{◌⊎◌, ◌≢◌, inl, inr}
use mathlib.Core.Bool.{Bool, true, false}
use mathlib.Core.Option.{Option, none, some}
use mathlib.Core.List.{List, [], ◌∷◌}
use native.Mathlib.Omega.{arith}
use iscp_go.Prelude.Tests.{Bool-cases, Comparable, ◌==◌, if◌then◌else◌}

abbrev pub Map {ℓ κ} : Type ℓ → Type κ → Type (ℓ ⊔ κ)
Map K V = List (K × V)

module _ {ℓ κ} {K : Type ℓ} {V : Type κ} ⦃e : Comparable K⦄ where
  -- `delete(m, key)`
  unfoldable pub erase : K → Map K V → Map K V
  erase key [] = []
  erase key ((k, old) ∷ rest) =
      let others = erase key rest in if k == key then others else (k, old) ∷ others

  -- `m[key] = new`: in place where the key stands already, else a new entry
  unfoldable pub insert : K → V → Map K V → Map K V
  insert key new [] = (key, new) ∷ []
  insert key new ((k, old) ∷ rest) =
      let others = insert key new rest in if k == key then (key, new) ∷ rest else (k, old) ∷ others

  -- `value, ok := m[key]`
  unfoldable pub lookup : K → Map K V → Option V
  lookup key [] = none
  lookup key ((k, value) ∷ rest) =
      let later = lookup key rest in if k == key then some value else later

  pub lookup-erase :
      (key k : K) (m : Map K V) → lookup k (erase key m) ≡ (if key == k then none else lookup k m)
  unfolding erase lookup
  lookup-erase key k [] = ground arith
  lookup-erase key k ((i, old) ∷ rest) =
      ground (arith, lookup-erase key k rest, e.same_iff i key, e.same_iff i k, e.same_iff key k)

  pub lookup-insert :
      (key k : K) (new : V) (m : Map K V)
      → lookup k (insert key new m) ≡ (if key == k then some new else lookup k m)
  unfolding insert lookup
  lookup-insert key k new [] = refl
  lookup-insert key k new ((i, old) ∷ rest) =
      ground
        (arith, lookup-insert key k new rest, e.same_iff i k, e.same_iff key k, e.same_iff i key)

pub beq_comm_false {ℓ} :
    {A : Type ℓ} ⦃e : Comparable A⦄ (a b : A) → (a == b) ≡ false → (b == a) ≡ false
beq_comm_false ⦃e⦄ a b h = ground (arith, e.same_iff a b, e.same_iff b a)

pub beq_refl {ℓ} : {A : Type ℓ} ⦃e : Comparable A⦄ (a : A) → (a == a) ≡ true
beq_refl ⦃e⦄ a = (e.same_iff a a).1 refl

module _ {ℓ κ} {K : Type ℓ} {V : Type κ} ⦃e : Comparable K⦄ where
  -- No key stands twice, as in a Go map.
  abbrev pub DistinctKeys : Map K V → Type κ
  DistinctKeys [] = Unit
  DistinctKeys ((k, v) ∷ m) = (lookup k m ≡ none) × DistinctKeys m

  insert-absent :
      (k j : K) (v : V) (m : Map K V)
      → (k == j) ≡ false
      → lookup j m ≡ none
      → lookup j (insert k v m) ≡ none
  insert-absent k j v m h a = rw (lookup-insert, h) a

  pub insert-DistinctKeys :
      (k : K) (v : V) (m : Map K V) → DistinctKeys m → DistinctKeys (insert k v m)
  unfolding insert lookup
  insert-DistinctKeys k v [] d = (refl, tt)
  insert-DistinctKeys k v ((j, w) ∷ m) d = elim (Bool-cases (j == k)) [
    | inl q ↦ rw q (subst (λ x. lookup x m ≡ none) ((e.same_iff j k).0 q) d.0, d.1)
    | inr q ↦ rw q (insert-absent k j v m (beq_comm_false j k q) d.0, insert-DistinctKeys k v m d.1)
  ]

  pub erase-DistinctKeys : (k : K) (m : Map K V) → DistinctKeys m → DistinctKeys (erase k m)
  unfolding erase
  erase-DistinctKeys k [] d = tt
  erase-DistinctKeys k ((j, w) ∷ m) d = elim (Bool-cases (j == k)) [
    | inl q ↦ rw q (erase-DistinctKeys k m d.1)
    | inr q ↦ rw q (lookup-erase k j m ∙ rw (beq_comm_false j k q) d.0, erase-DistinctKeys k m d.1)
  ]

  -- A key of the rest is not the first key.
  pub lookup_cons_of_rest :
      (j k : K) (w : V) (m : Map K V) {v : V}
      → DistinctKeys ((j, w) ∷ m)
      → lookup k m ≡ some v
      → lookup k ((j, w) ∷ m) ≡ some v
  unfolding lookup
  lookup_cons_of_rest j k w m d h = elim (Bool-cases (j == k)) [
    | inl q ↦ absurd (cc (h, subst (λ x. lookup x m ≡ none) ((e.same_iff j k).0 q) d.0))
    | inr q ↦ rw q h
  ]

  pub lookup_rest_of_ne :
      (j k : K) (w : V) (m : Map K V) {v : V}
      → lookup k ((j, w) ∷ m) ≡ some v
      → w ≢ v
      → lookup k m ≡ some v
  unfolding lookup
  lookup_rest_of_ne j k w m h ne = elim (Bool-cases (j == k)) [
    | inl q ↦ let h' = rw q at h in absurd (ne (cc))
    | inr q ↦ rw q at h
  ]

  -- Where an entry of a changed map comes from.
  pub insert_cases :
      (k j : K) (v w : V) (m : Map K V)
      → lookup j (insert k v m) ≡ some w
      → (k ≡ j) × (v ≡ w) ⊎ (k ≢ j) × (lookup j m ≡ some w)
  insert_cases k j v w m h =
      let h' = sym (lookup-insert k j v m) ∙ h in
      elim (Bool-cases (k == j)) [
        | inl q ↦ let f = rw q at h' in inl ((e.same_iff k j).0 q, cc)
        | inr q ↦ inr (λ p. let g = (e.same_iff k j).1 p in cc, rw q at h')
      ]

  pub erase_cases :
      (k j : K) (w : V) (m : Map K V)
      → lookup j (erase k m) ≡ some w
      → (k ≢ j) × (lookup j m ≡ some w)
  erase_cases k j w m h =
      let h' = sym (lookup-erase k j m) ∙ h in
      elim (Bool-cases (k == j)) [
        | inl q ↦ let f = rw q at h' in absurd (cc)
        | inr q ↦ (λ p. let g = (e.same_iff k j).1 p in cc, rw q at h')
      ]

abbrev pub is_present {ℓ} : {A : Type ℓ} → Option A → Bool
is_present none = false
is_present (some v) = true

module _ {ℓ κ} {K : Type ℓ} {V : Type κ} ⦃e : Comparable K⦄ where
  -- Whether a key has a value.
  abbrev pub has_key : K → Map K V → Bool
  has_key k m = is_present (lookup k m)

  pub has_key-insert :
      (k j : K) (v : V) (m : Map K V)
      → has_key j (insert k v m) ≡ (if k == j then true else has_key j m)
  has_key-insert k j v m = elim (Bool-cases (k == j)) [
    | inl q ↦ rw (lookup-insert k j v m, q) refl
    | inr q ↦ rw (lookup-insert k j v m, q) refl
  ]

  pub has_key-erase :
      (k j : K) (m : Map K V) → has_key j (erase k m) ≡ (if k == j then false else has_key j m)
  has_key-erase k j m = elim (Bool-cases (k == j)) [
    | inl q ↦ rw (lookup-erase k j m, q) refl
    | inr q ↦ rw (lookup-erase k j m, q) refl
  ]

  pub has_key_of_some : (k : K) (v : V) (m : Map K V) → lookup k m ≡ some v → has_key k m ≡ true
  has_key_of_some k v m h = ap is_present h

  pub lookup-erase_other : (k j : K) (m : Map K V) → k ≢ j → lookup j (erase k m) ≡ lookup j m
  lookup-erase_other k j m n = elim (Bool-cases (k == j)) [
    | inl q ↦ absurd (n ((e.same_iff k j).0 q))
    | inr q ↦ rw (lookup-erase k j m, q) refl
  ]

  pub lookup-insert_other :
      (k j : K) (v : V) (m : Map K V) → k ≢ j → lookup j (insert k v m) ≡ lookup j m
  lookup-insert_other k j v m n = elim (Bool-cases (k == j)) [
    | inl q ↦ absurd (n ((e.same_iff k j).0 q))
    | inr q ↦ rw (lookup-insert k j v m, q) refl
  ]

  pub lookup-insert_same : (k : K) (v : V) (m : Map K V) → lookup k (insert k v m) ≡ some v
  lookup-insert_same k v m = rw (lookup-insert k k v m, beq_refl k) refl

  pub lookup-erase_same : (k : K) (m : Map K V) → lookup k (erase k m) ≡ none
  lookup-erase_same k m = rw (lookup-erase k k m, beq_refl k) refl

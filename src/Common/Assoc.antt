-- ===== src/Common/Assoc.antt =====
-- Go's maps as association lists. A write removes the old entry of its key and puts the new one in
-- front, so a key written through these operations stands once. The order of the list is the order
-- of a `range` loop; Go leaves it open, and the theorems hold for every list.
use mathlib.Core.Path.{◌≡◌, subst₂}
use mathlib.Core.Logic.{inl, inr}
use mathlib.Core.Bool.{Bool, true, false, ◌||◌}
use mathlib.Core.Option.{Option, none, some}
use mathlib.Core.List.{List, [], ◌∷◌}
use native.Mathlib.Omega.{arith}
use go_gaze.Common.Lists.{any}
use go_gaze.Common.Tests.{Eq, ◌==◌, Bool-cases, if◌then◌else◌}

abbrev pub Map {ℓ κ} : Type ℓ → Type κ → Type (ℓ ⊔ κ)
Map K V = List (K × V)

module _ {ℓ κ} {K : Type ℓ} {V : Type κ} ⦃e : Eq K⦄ where
  unfoldable pub lookup : K → Map K V → Option V
  lookup k [] = none
  lookup k ((j, v) ∷ m) = if j == k then some v else lookup k m

  -- delete(m, k)
  unfoldable pub delete : K → Map K V → Map K V
  delete k [] = []
  delete k ((j, v) ∷ m) = let rest = delete k m in if j == k then rest else (j, v) ∷ rest

  -- m[k] = v
  unfoldable pub insert : K → V → Map K V → Map K V
  unfolding delete
  insert k v m = (k, v) ∷ delete k m

  unfoldable pub has : K → Map K V → Bool
  has k [] = false
  has k ((j, v) ∷ m) = j == k || has k m

  pub lookup-delete :
      (k j : K) (m : Map K V) → lookup j (delete k m) ≡ (if k == j then none else lookup j m)
  unfolding lookup delete
  lookup-delete k j [] = ground arith
  lookup-delete k j ((i, v) ∷ m) =
      ground (arith, lookup-delete k j m, e.beq_iff i k, e.beq_iff i j, e.beq_iff k j)

  pub lookup-insert :
      (k j : K) (v : V) (m : Map K V)
      → lookup j (insert k v m) ≡ (if k == j then some v else lookup j m)
  unfolding lookup insert
  lookup-insert k j v m = ground (arith, lookup-delete k j m)

  pub has-delete :
      (k j : K) (m : Map K V) → has j (delete k m) ≡ (if k == j then false else has j m)
  unfolding has delete
  has-delete k j [] = ground arith
  has-delete k j ((i, v) ∷ m) =
      ground (arith, has-delete k j m, e.beq_iff i k, e.beq_iff i j, e.beq_iff k j)

  pub has-insert : (k j : K) (v : V) (m : Map K V) → has j (insert k v m) ≡ (k == j || has j m)
  unfolding has insert
  has-insert k j v m = ground (arith, has-delete k j m)

-- A predicate holds of every entry.
abbrev pub All {ℓ κ ι} : {K : Type ℓ} {V : Type κ} → (K → V → Type ι) → Map K V → Type ι
All P [] = Unit
All P ((k, v) ∷ m) = P k v × All P m

module _ {ℓ κ} {K : Type ℓ} {V : Type κ} ⦃e : Eq K⦄ where
  -- Every key stands once.
  abbrev pub Distinct : Map K V → Type 0
  Distinct [] = Unit
  Distinct ((k, v) ∷ m) = (has k m ≡ false) × Distinct m

  pub Distinct-delete : (k : K) (m : Map K V) → Distinct m → Distinct (delete k m)
  unfolding delete
  Distinct-delete k [] d = tt
  Distinct-delete k ((j, v) ∷ m) d = elim (Bool-cases (j == k)) [
    | inl h ↦ rw (h, delete) (Distinct-delete k m d.1)
    | inr h ↦ rw (h, delete) (ground (arith, has-delete k j m), Distinct-delete k m d.1)
  ]

  pub Distinct-insert : (k : K) (v : V) (m : Map K V) → Distinct m → Distinct (insert k v m)
  unfolding insert
  Distinct-insert k v m d = (ground (arith, has-delete k k m, e.beq_iff k k), Distinct-delete k m d)

  module _ {ι} (P : K → V → Type ι) where
    pub All-delete : (k : K) (m : Map K V) → All P m → All P (delete k m)
    unfolding delete
    All-delete k [] h = tt
    All-delete k ((j, v) ∷ m) h = elim (Bool-cases (j == k)) [
      | inl q ↦ rw (q, delete) (All-delete k m h.1)
      | inr q ↦ rw (q, delete) (h.0, All-delete k m h.1)
    ]

    pub All-insert : (k : K) (v : V) (m : Map K V) → P k v → All P m → All P (insert k v m)
    unfolding insert
    All-insert k v m p h = (p, All-delete k m h)

    pub All-lookup : (k : K) (m : Map K V) (v : V) → All P m → lookup k m ≡ some v → P k v
    unfolding lookup
    All-lookup k [] v h q = ground arith
    All-lookup k ((j, w) ∷ m) v h q = elim (Bool-cases (j == k)) [
      | inl same ↦ subst₂ P ((e.beq_iff j k).0 same) (ground arith) h.0
      | inr other ↦ All-lookup k m v h.1 (ground arith)
    ]

  pub lookup-has : (k : K) (m : Map K V) (v : V) → lookup k m ≡ some v → has k m ≡ true
  unfolding lookup has
  lookup-has k [] v h = ground arith
  lookup-has k ((j, w) ∷ m) v h = ground (arith, lookup-has k m v)

  -- A search over the entries of a map whose keys stand once finds what a lookup finds.
  pub any→lookup :
      (f : V → Bool) (m : Map K V)
      → Distinct m
      → any (λ t. f t.1) m ≡ true
      → (k : K) × (v : V) × (lookup k m ≡ some v) × (f v ≡ true)
  unfolding any lookup
  any→lookup f [] d h = ground arith
  any→lookup f ((k, v) ∷ m) d h = elim (Bool-cases (f v)) [
    | inl t ↦ (k, v, ground (arith, e.beq_iff k k), t)
    | inr t ↦
        let (j, w, found, g) = any→lookup f m d.1 (ground arith) in
        (j, w, ground (arith, e.beq_iff k j, lookup-has j m w), g)
  ]

  pub lookup→any :
      (f : V → Bool) (m : Map K V) (k : K) (v : V)
      → lookup k m ≡ some v
      → f v ≡ true
      → any (λ t. f t.1) m ≡ true
  unfolding any lookup
  lookup→any f [] k v h t = ground arith
  lookup→any f ((j, w) ∷ m) k v h t = ground (arith, lookup→any f m k v)

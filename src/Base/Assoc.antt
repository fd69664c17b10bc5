-- ===== src/Base/Assoc.antt =====
-- A `HashMap` as a list of its entries with distinct keys. The order is not observed.
use adbshare.Base.Tests.{
  Eq, ◌==◌, if◌then◌else◌, Bool-cases, eq_true, eq_of_ne, eq_self, ne_of_eq_false,
}
use mathlib.Core.Logic.{◌≢◌, ◌⊎◌, inl, inr}
use adbshare.Base.Lists.{length}
use Prim.Native.Nat.{◌≤◌}
use mathlib.Core.Path.{◌≡◌}
use mathlib.Core.Bool.{Bool, true, false, not}
use mathlib.Core.Option.{Option, none, some}
use mathlib.Core.List.{List, [], ◌∷◌}
use native.Mathlib.Omega.{arith}

abbrev pub Assoc {ℓ κ} : Type ℓ → Type κ → Type (ℓ ⊔ κ)
Assoc K V = List (K × V)

module _ {ℓ κ} {K : Type ℓ} {V : Type κ} ⦃e : Eq K⦄ where
  unfoldable pub lookup : K → Assoc K V → Option V
  lookup k [] = none
  lookup k ((j, v) ∷ m) = let rest = lookup k m in if j == k then some v else rest

  -- `retain`, by a test on the key and the value.
  unfoldable pub retain : (K → V → Bool) → Assoc K V → Assoc K V
  retain p [] = []
  retain p ((j, v) ∷ m) = let rest = retain p m in if p j v then (j, v) ∷ rest else rest

  unfoldable pub remove : K → Assoc K V → Assoc K V
  unfolding retain
  remove k = retain (λ j v. not (j == k))

  unfoldable pub insert : K → V → Assoc K V → Assoc K V
  unfolding remove
  insert k v m = (k, v) ∷ remove k m

  pub lookup-remove :
      (k j : K) (m : Assoc K V) → lookup j (remove k m) ≡ (if k == j then none else lookup j m)
  unfolding lookup remove
  lookup-remove k j [] = ground arith
  lookup-remove k j ((i, v) ∷ m) =
      ground (arith, lookup-remove k j m, e.same_iff i k, e.same_iff i j, e.same_iff k j)

  pub lookup-insert :
      (k j : K) (v : V) (m : Assoc K V)
      → lookup j (insert k v m) ≡ (if k == j then some v else lookup j m)
  unfolding lookup insert
  lookup-insert k j v m = ground (arith, lookup-remove k j m)

  -- A test on the key alone keeps the whole entry or drops it.
  pub lookup-retain_key :
      (p : K → Bool) (j : K) (m : Assoc K V)
      → lookup j (retain (λ k v. p k) m) ≡ (if p j then lookup j m else none)
  unfolding lookup retain
  lookup-retain_key p j [] = ground arith
  lookup-retain_key p j ((i, v) ∷ m) = ground (arith, lookup-retain_key p j m, e.same_iff i j)

  pub length-retain-le : (p : K → V → Bool) (m : Assoc K V) → length (retain p m) ≤ length m
  unfolding retain
  length-retain-le p [] = omega arith
  length-retain-le p ((j, v) ∷ m) = ground (arith, length-retain-le p m)

pub ruleset map_laws = (lookup-remove, lookup-insert)

other_key {ℓ} : {K : Type ℓ} ⦃e : Eq K⦄ (k p : K) → not (k == p) ≡ true → (p == k) ≡ false
other_key ⦃e⦄ k p h = ground (arith, e.same_iff k p, e.same_iff p k)

module _ {ℓ κ} {K : Type ℓ} {V : Type κ} ⦃e : Eq K⦄ where
  -- Every entry of a map is what a reference says of its key.
  abbrev pub Holds : (K → Option V) → Assoc K V → Type κ
  Holds g [] = Unit
  Holds g ((k, v) ∷ m) = (g k ≡ some v) × Holds g m

  pub Holds-lookup :
      (g : K → Option V) (m : Assoc K V) (k : K) (v : V)
      → Holds g m
      → lookup k m ≡ some v
      → g k ≡ some v
  unfolding lookup
  Holds-lookup g [] k v h l = cc
  Holds-lookup g ((j, w) ∷ m) k v h l = ground (arith, Holds-lookup g m k v, e.same_iff j k)

  pub Holds-retain :
      (g g' : K → Option V) (p : K → V → Bool) (m : Assoc K V)
      → ((k : K) (v : V) → p k v ≡ true → g' k ≡ g k)
      → Holds g m
      → Holds g' (retain p m)
  unfolding retain
  Holds-retain g g' p [] s h = tt
  Holds-retain g g' p ((j, w) ∷ m) s h = ground (arith, s j w, Holds-retain g g' p m s)

  pub Holds-remove :
      (g g' : K → Option V) (p : K) (m : Assoc K V)
      → ((q : K) → (p == q) ≡ false → g' q ≡ g q)
      → Holds g m
      → Holds g' (remove p m)
  unfolding remove
  Holds-remove g g' p m s h =
      Holds-retain g g' (λ j v. not (j == p)) m (λ k v t. s k (other_key k p t)) h

  pub Holds-insert :
      (g g' : K → Option V) (p : K) (v : V) (m : Assoc K V)
      → ((q : K) → (p == q) ≡ false → g' q ≡ g q)
      → g' p ≡ some v
      → Holds g m
      → Holds g' (insert p v m)
  unfolding insert
  Holds-insert g g' p v m s t h = (t, Holds-remove g g' p m s h)

module _ {ℓ κ} {K : Type ℓ} {V : Type κ} ⦃e : Eq K⦄ where
  pub lookup-insert_same : (k : K) (v : V) (m : Assoc K V) → lookup k (insert k v m) ≡ some v
  lookup-insert_same k v m = ground (arith, lookup-insert k k v m, eq_self k)

  pub lookup-insert_other :
      (k j : K) (v : V) (m : Assoc K V) → k ≢ j → lookup j (insert k v m) ≡ lookup j m
  lookup-insert_other k j v m n = ground (arith, lookup-insert k j v m, eq_of_ne n)

  pub lookup-remove_other : (k j : K) (m : Assoc K V) → k ≢ j → lookup j (remove k m) ≡ lookup j m
  lookup-remove_other k j m n = ground (arith, lookup-remove k j m, eq_of_ne n)

  -- A key that is there after `remove` is another key, which was there.
  pub lookup-remove-some :
      (k j : K) (m : Assoc K V) (w : V)
      → lookup j (remove k m) ≡ some w
      → (k ≢ j) × (lookup j m ≡ some w)
  lookup-remove-some k j m w h = elim (Bool-cases (k == j)) [
    | inl t ↦ absurd (ground (arith, lookup-remove k j m, t))
    | inr f ↦ (ne_of_eq_false f, ground (arith, lookup-remove k j m, f))
  ]

  -- A key that is there after `insert` is the one put in, or it was there.
  pub lookup-insert-some :
      (k j : K) (v : V) (m : Assoc K V) (w : V)
      → lookup j (insert k v m) ≡ some w
      → ((k ≡ j) × (v ≡ w)) ⊎ ((k ≢ j) × (lookup j m ≡ some w))
  lookup-insert-some k j v m w h = elim (Bool-cases (k == j)) [
    | inl t ↦ inl (eq_true t, ground (arith, lookup-insert k j v m, t))
    | inr f ↦ inr (ne_of_eq_false f, ground (arith, lookup-insert k j v m, f))
  ]

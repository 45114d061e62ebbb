-- ===== src/Map.antt =====
-- Go's `map`, as an association list over any type of keys with an equality test. Go leaves the
-- order of a `range` over a map open: here it is the order of the list, and no theorem depends on
-- how the list came to be ordered.
pub mod Lookup
use logspout.Prelude.{
  ◌≡◌, refl, Option, none, some, Bool, true, false, List, [], ◌∷◌, arith, if◌then◌else◌, Key, ◌==◌,
  eq_iff, map,
}

abbrev pub Map {ℓ κ} : Type ℓ → Type κ → Type (ℓ ⊔ κ)
Map K V = List (K × V)

module _ {ℓ κ} {K : Type ℓ} ⦃key : Key K⦄ {V : Type κ} where
  -- v, ok := m[k]
  unfoldable pub lookup : K → Map K V → Option V
  lookup k [] = none
  lookup k ((j, w) ∷ rest) = let found = lookup k rest in if j == k then some w else found

  -- m[k] = v
  unfoldable pub insert : K → V → Map K V → Map K V
  insert k new [] = (k, new) ∷ []
  insert k new ((j, old) ∷ rest) =
      let further = insert k new rest in if j == k then (j, new) ∷ rest else (j, old) ∷ further

  -- delete(m, k)
  unfoldable pub delete : K → Map K V → Map K V
  delete k [] = []
  delete k ((j, w) ∷ m) = let rest = delete k m in if j == k then rest else (j, w) ∷ rest

  pub lookup-insert :
      (i : K) (v : V) (k : K) (m : Map K V)
      → lookup k (insert i v m) ≡ (if i == k then some v else lookup k m)
  unfolding insert lookup
  lookup-insert i v k [] = refl
  lookup-insert i v k ((j, w) ∷ rest) =
      ground (arith, lookup-insert i v k rest, eq_iff j i, eq_iff j k, eq_iff i k)

  pub lookup-delete :
      (k j : K) (m : Map K V) → lookup j (delete k m) ≡ (if k == j then none else lookup j m)
  unfolding lookup delete
  lookup-delete k j [] = ground arith
  lookup-delete k j ((i, w) ∷ m) =
      ground (arith, eq_iff k j, eq_iff i k, eq_iff i j, lookup-delete k j m)

  -- _, ok := m[k]
  unfoldable pub has : K → Map K V → Bool
  has k m = elim (lookup k m) [ none ↦ false | some _ ↦ true ]

  pub has-insert :
      (k j : K) (v : V) (m : Map K V) → has j (insert k v m) ≡ (if k == j then true else has j m)
  unfolding has
  has-insert k j v m = ground (arith, lookup-insert k v j m)

  pub has-delete :
      (k j : K) (m : Map K V) → has j (delete k m) ≡ (if k == j then false else has j m)
  unfolding has
  has-delete k j m = ground (arith, lookup-delete k j m)

pub ruleset map_laws = (lookup-insert, lookup-delete, has-insert, has-delete)

-- for k := range m
abbrev pub keys {ℓ κ} : {K : Type ℓ} {V : Type κ} → Map K V → List K
keys = map (λ p. p.0)

-- for _, v := range m
abbrev pub values {ℓ κ} : {K : Type ℓ} {V : Type κ} → Map K V → List V
values = map (λ p. p.1)

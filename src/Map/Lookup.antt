-- ===== src/Map/Lookup.antt =====
-- The laws of a map by cases on the key, and what its range holds when no key stands in it twice.
use logspout.Prelude.{
  ◌≡◌, refl, sym, ◌∙◌, ◌≢◌, ◌⊎◌, inl, inr, none, some, Bool, true, [], ◌∷◌, arith, Key, ◌==◌,
  eq_iff, eq_refl, ne→neq, Bool-cases, any,
}
use logspout.Map.{Map, lookup, insert, delete, lookup-insert, lookup-delete, values}

module _ {ℓ κ} {K : Type ℓ} ⦃key : Key K⦄ {V : Type κ} where
  pub lookup-insert_self : (k : K) (v : V) (m : Map K V) → lookup k (insert k v m) ≡ some v
  lookup-insert_self k v m = ground (arith, lookup-insert k v k m, eq_refl k)

  pub lookup-insert_ne :
      (k j : K) (v : V) (m : Map K V) → k ≢ j → lookup j (insert k v m) ≡ lookup j m
  lookup-insert_ne k j v m h = ground (arith, lookup-insert k v j m, ne→neq k j h)

  pub lookup-delete_self : (k : K) (m : Map K V) → lookup k (delete k m) ≡ none
  lookup-delete_self k m = ground (arith, lookup-delete k k m, eq_refl k)

  pub lookup-delete_ne : (k j : K) (m : Map K V) → k ≢ j → lookup j (delete k m) ≡ lookup j m
  lookup-delete_ne k j m h = ground (arith, lookup-delete k j m, ne→neq k j h)

  pub lookup-insert_inv :
      (k j : K) (v w : V) (m : Map K V)
      → lookup j (insert k v m) ≡ some w
      → ((k ≡ j) × (v ≡ w)) ⊎ ((k ≢ j) × (lookup j m ≡ some w))
  lookup-insert_inv k j v w m h = elim (Bool-cases (k == j)) [
    | inl q ↦ inl ((eq_iff k j).0 q, ground (arith, lookup-insert k v j m))
    | inr q ↦ inr (λ p. cc (q, (eq_iff k j).1 p), ground (arith, lookup-insert k v j m))
  ]

  pub lookup-delete_inv :
      (k j : K) (w : V) (m : Map K V)
      → lookup j (delete k m) ≡ some w
      → (k ≢ j) × (lookup j m ≡ some w)
  lookup-delete_inv k j w m h = elim (Bool-cases (k == j)) [
    | inl q ↦ absurd (ground (arith, lookup-delete k j m))
    | inr q ↦ (λ p. cc (q, (eq_iff k j).1 p), ground (arith, lookup-delete k j m))
  ]

  -- No key of the map stands further down in it.
  abbrev pub Distinct : Map K V → Type κ
  Distinct [] = Unit
  Distinct ((k, v) ∷ m) = (lookup k m ≡ none) × Distinct m

  pub Distinct-insert : (k : K) (v : V) (m : Map K V) → Distinct m → Distinct (insert k v m)
  unfolding insert lookup
  Distinct-insert k v [] h = (refl, tt)
  Distinct-insert k v ((j, w) ∷ m) (hj, hm) = elim (Bool-cases (j == k)) [
    | inl q ↦ rw q (hj, hm)
    | inr q ↦ rw q (
      lookup-insert_ne k j v m (λ p. cc (q, (eq_iff j k).1 (sym p))) ∙ hj,
      Distinct-insert k v m hm,
    )
  ]

  pub Distinct-delete : (k : K) (m : Map K V) → Distinct m → Distinct (delete k m)
  unfolding delete
  Distinct-delete k [] h = tt
  Distinct-delete k ((j, w) ∷ m) (hj, hm) = elim (Bool-cases (j == k)) [
    | inl q ↦ rw q (Distinct-delete k m hm)
    | inr q ↦
        rw q (
          lookup-delete_ne k j m (λ p. cc (q, (eq_iff j k).1 (sym p))) ∙ hj,
          Distinct-delete k m hm,
        )
  ]

  -- Where keys are distinct, a test holds of a value in the range exactly if it holds of the
  -- value of some key.
  pub any-values_sound :
      (p : V → Bool) (m : Map K V)
      → Distinct m
      → any p (values m) ≡ true
      → (k : K) × (v : V) × (lookup k m ≡ some v) × (p v ≡ true)
  unfolding lookup
  any-values_sound p [] h q = cc
  any-values_sound p ((j, w) ∷ m) (hj, hm) q = elim (Bool-cases (p w)) [
    | inl pw ↦ (j, w, ground (arith, eq_refl j), pw)
    | inr pw ↦
        let (k, v, l, pv) = any-values_sound p m hm (ground arith) in
        (k, v, ground (arith, eq_iff j k), pv)
  ]

  pub any-values_complete :
      (p : V → Bool) (k : K) (v : V) (m : Map K V)
      → lookup k m ≡ some v
      → p v ≡ true
      → any p (values m) ≡ true
  unfolding lookup
  any-values_complete p k v [] l q = cc
  any-values_complete p k v ((j, w) ∷ m) l q = ground (arith, any-values_complete p k v m)

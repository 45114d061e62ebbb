-- ===== src/Router/Extensions/Registered.antt =====
-- What is found in a registry.
use logspout.Prelude.{
  ◌≡◌, refl, not, List, Option, ◌⊎◌, inl, inr, Option-cases, [], ◌∷◌, none, some, Text, text_key,
  ◌==◌, eq_iff, arith, if◌then◌else◌, ◌&&◌,
}
use logspout.Map.{lookup, insert, has, lookup-insert, lookup-delete}
use logspout.Map.Lookup.{Distinct}
use logspout.Router.Extensions.{ExtensionPoint, copy_all, all, unregister, name_of, register}

module _ {C : Type 0} (own_name : C → Text) where
  -- A component is found by its name exactly if no other had the name before; what was there stays
  -- until it is taken out.
  pub lookup-register :
      (c : C) (name j : Text) (ep : ExtensionPoint C)
      → (lookup j (register own_name c name ep).0 ≡ (
          if name_of own_name c name == j && not (has (name_of own_name c name) ep)
          then some c
          else lookup j ep))
        × ((register own_name c name ep).1 ≡ not (has (name_of own_name c name) ep))
  unfolding register
  lookup-register c name j ep =
      (ground (arith, lookup-insert (name_of own_name c name) c j ep), ground arith)

  -- A series of calls of `register`.
  unfoldable pub register_each : List (Text × C) → ExtensionPoint C → ExtensionPoint C
  unfolding register
  register_each [] ep = ep
  register_each ((name, c) ∷ rest) ep = register_each rest (register own_name c name ep).0

  -- Is this component registered under this name in the series?
  abbrev pub Among : Text → C → List (Text × C) → Type 0
  Among k c [] = ⊥
  Among k c ((name, d) ∷ rest) = ((name_of own_name d name ≡ k) × (d ≡ c)) ⊎ Among k c rest

  -- The names mean the components that `owner` says.
  abbrev pub Owned : (Text → Option C) → List (Text × C) → Type 0
  Owned owner [] = Unit
  Owned owner ((name, d) ∷ rest) = (owner (name_of own_name d name) ≡ some d) × Owned owner rest

  module _ (owner : Text → Option C) where
    abbrev Means : ExtensionPoint C → Type 0
    Means ep = (j : Text) (d : C) → lookup j ep ≡ some d → owner j ≡ some d

    register-Means :
        (c : C) (name : Text) (ep : ExtensionPoint C)
        → owner (name_of own_name c name) ≡ some c
        → Means ep
        → Means (register own_name c name ep).0
    register-Means c name ep h m j d e =
        ground
          (arith, (lookup-register c name j ep).0, eq_iff (name_of own_name c name) j, h, m j d, e)

    register-stays :
        (d : C) (name k : Text) (c : C) (ep : ExtensionPoint C)
        → lookup k ep ≡ some c
        → lookup k (register own_name d name ep).0 ≡ some c
    unfolding has
    register-stays d name k c ep e =
        ground (arith, (lookup-register d name k ep).0, eq_iff (name_of own_name d name) k, e)

    register-here :
        (d : C) (name k : Text) (c : C) (ep : ExtensionPoint C)
        → owner (name_of own_name d name) ≡ some d
        → Means ep
        → name_of own_name d name ≡ k
        → d ≡ c
        → lookup k (register own_name d name ep).0 ≡ some c
    unfolding has
    register-here d name k c ep h m p q = elim (Option-cases (lookup k ep)) [
      | inl e ↦
          ground
            (arith, (lookup-register d name k ep).0, eq_iff (name_of own_name d name) k, e, p, q)
      | inr (b, e) ↦
          let same : b ≡ c = cc (m k b e, h, p, q) in register-stays d name k c ep (rw (← same) e)
    ]

    register_each-stays :
        (comps : List (Text × C)) (k : Text) (c : C) (ep : ExtensionPoint C)
        → lookup k ep ≡ some c
        → lookup k (register_each comps ep) ≡ some c
    unfolding register_each
    register_each-stays [] k c ep e = e
    register_each-stays ((name, d) ∷ comps) k c ep e =
        register_each-stays comps k c (register own_name d name ep).0
          (register-stays d name k c ep e)

    lookup-register_each :
        (comps : List (Text × C)) (k : Text) (c : C) (ep : ExtensionPoint C)
        → Owned owner comps
        → Means ep
        → Among k c comps
        → lookup k (register_each comps ep) ≡ some c
    unfolding register_each
    lookup-register_each [] k c ep h m a = absurd a
    lookup-register_each ((name, d) ∷ comps) k c ep (hd, h) m (inl (p, q)) =
        register_each-stays comps k c (register own_name d name ep).0
          (register-here d name k c ep hd m p q)
    lookup-register_each ((name, d) ∷ comps) k c ep (hd, h) m (inr a) =
        lookup-register_each comps k c (register own_name d name ep).0 h
          (register-Means d name ep hd m) a

    -- Where every name is of one component only, each that is registered under a name is found under
    -- it, in whatever order and however often they are registered.
    pub lookup-any_order :
        (comps : List (Text × C)) (k : Text) (c : C)
        → Owned owner comps
        → Among k c comps
        → lookup k (register_each comps []) ≡ some c
    unfolding lookup
    lookup-any_order comps k c h a =
        lookup-register_each comps k c [] h (λ j d e. absurd (ground arith)) a

pub lookup-unregister :
    {C : Type 0} (name j : Text) (ep : ExtensionPoint C)
    → lookup j (unregister name ep).0 ≡ (if name == j then none else lookup j ep)
unfolding unregister has
lookup-unregister name j ep = ground (arith, lookup-delete name j ep, eq_iff name j)

lookup-copy_all :
    {C : Type 0} (j : Text) (ep done : ExtensionPoint C)
    → Distinct ep
    → lookup j (copy_all ep done) ≡ elim (lookup j ep) [ none ↦ lookup j done | some c ↦ some c ]
unfolding copy_all lookup
lookup-copy_all j [] done h = refl
lookup-copy_all j ((k, c) ∷ rest) done (hk, h) =
    ground (arith, lookup-copy_all j rest (insert k c done) h, lookup-insert k c j done, eq_iff k j)

-- The copy holds what the registry does.
pub lookup-all :
    {C : Type 0} (j : Text) (ep : ExtensionPoint C) → Distinct ep → lookup j (all ep) ≡ lookup j ep
unfolding all lookup
lookup-all j ep h = ground (arith, lookup-copy_all j ep [] h)

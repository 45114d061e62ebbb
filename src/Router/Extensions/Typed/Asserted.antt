-- ===== src/Router/Extensions/Typed/Asserted.antt =====
-- When the type assertions of the wrappers of router/extpoints.go hold.
use mathlib.Core.Path.{subst}
use logspout.Prelude.{
  text_beq, ◌≡◌, refl, sym, ◌∙◌, Bool, true, false, List, [], ◌∷◌, Option, none, some, Text,
  text_key, ◌==◌, eq_iff, if◌then◌else◌, arith,
}
use logspout.Map.{Map, lookup, insert, delete, has}
use logspout.Map.Lookup.{Distinct, Distinct-insert, Distinct-delete}
use logspout.Router.Extensions.Registered.{lookup-all}
use logspout.Router.Extensions.{
  ExtensionPoint, copy_all, all, register, unregister, name_of, register_all, unregister_all,
}
use logspout.Router.Extensions.Typed.{
  Reflection, Looked, found, missing, Registry, registry, new_extension_point, point, at_point,
  fits, asserts, assert, assert_all, extension,
}

-- What holds of both values of a test holds of the choice.
if-both {ℓ κ} :
    {A : Type ℓ} (P : A → Type κ) (b : Bool) (x y : A)
    → (b ≡ true → P x)
    → (b ≡ false → P y)
    → P (if b then x else y)
if-both P true x y h h' = h refl
if-both P false x y h h' = h' refl

-- The result of a `Lookup` that does not panic.
abbrev pub looked : {C : Type 0} → Option C → Looked C
looked none = missing
looked (some c) = found c

module _ {C : Type 0} (types : Reflection C) where
  -- A component that fits a type of functions is of this very type, not only assignable to it.
  abbrev pub Exact : C → Type 0
  Exact c = (iface : Text) → fits types c iface ≡ true → asserts types c iface ≡ true

  -- What calls of `Register` and `Unregister`, and of the methods of the wrappers, make of the
  -- registry. A wrapper's `Register` takes what fits its type, and `Register` itself what is `Exact`.
  pub data Reach : Registry C → Type 0 where
    at_start : Reach registry
    by_wrapper :
        {reg : Registry C} (iface : Text) (c : C) (name : Text)
        → Reach reg
        → fits types c iface ≡ true
        → Reach ((extension types iface).register c name reg).0
    by_register :
        {reg : Registry C} (c : C) (name : Text)
        → Reach reg
        → Exact c
        → Reach (register_all types.own_name (fits types) c name reg).0
    taken_out :
        {reg : Registry C} (iface name : Text)
        → Reach reg
        → Reach ((extension types iface).unregister name reg).0
    by_unregister : {reg : Registry C} (name : Text) → Reach reg → Reach (unregister_all name reg).0

  abbrev Held : Text → Map Text C → Type 0
  Held iface [] = Unit
  Held iface ((k, c) ∷ rest) = (asserts types c iface ≡ true) × Held iface rest

  -- The components of a point are of its type, and have one name each.
  abbrev Sound : Text → ExtensionPoint C → Type 0
  Sound iface ep = Held iface ep × Distinct ep

  abbrev Safe : Registry C → Type 0
  Safe [] = Unit
  Safe ((iface, ep) ∷ rest) = Sound iface ep × Safe rest

  module _ (iface : Text) where
    Held-insert :
        (k : Text) (c : C) (m : Map Text C)
        → asserts types c iface ≡ true
        → Held iface m
        → Held iface (insert k c m)
    unfolding insert
    Held-insert k c [] a h = (a, tt)
    Held-insert k c ((j, d) ∷ rest) a (b, h) =
        if-both (Held iface) (j == k) ((j, c) ∷ rest) ((j, d) ∷ insert k c rest) (λ e. (a, h))
          (λ e. (b, Held-insert k c rest a h))

    Held-delete : (k : Text) (m : Map Text C) → Held iface m → Held iface (delete k m)
    unfolding delete
    Held-delete k [] h = tt
    Held-delete k ((j, d) ∷ rest) (b, h) =
        if-both (Held iface) (j == k) (delete k rest) ((j, d) ∷ delete k rest)
          (λ e. Held-delete k rest h) (λ e. (b, Held-delete k rest h))

    Held-copy_all : (m n : Map Text C) → Held iface m → Held iface n → Held iface (copy_all m n)
    unfolding copy_all
    Held-copy_all [] n h h' = h'
    Held-copy_all ((k, c) ∷ rest) n (a, h) h' =
        Held-copy_all rest (insert k c n) h (Held-insert k c n a h')

    assert-Held :
        (name : Text) (m : Map Text C)
        → Held iface m
        → assert types iface (lookup name m) ≡ looked (lookup name m)
    unfolding lookup
    assert-Held name [] h = refl
    assert-Held name ((k, c) ∷ rest) (a, h) = ground (arith, a, assert-Held name rest h)

    assert_all-Held :
        (m seen : Map Text C)
        → Held iface m
        → assert_all types iface m seen ≡ some (copy_all m seen)
    unfolding assert_all copy_all
    assert_all-Held [] seen h = refl
    assert_all-Held ((k, c) ∷ rest) seen (a, h) =
        ground (arith, a, assert_all-Held rest (insert k c seen) h)

    Distinct-copy_all : (m n : Map Text C) → Distinct n → Distinct (copy_all m n)
    unfolding copy_all
    Distinct-copy_all [] n d = d
    Distinct-copy_all ((k, c) ∷ rest) n d =
        Distinct-copy_all rest (insert k c n) (Distinct-insert k c n d)

    assert_all-Sound :
        (name : Text) (ep : ExtensionPoint C)
        → Sound iface ep
        → (m : Map Text C) × ((assert_all types iface (all ep) [] ≡ some m)
            × (lookup name m ≡ lookup name ep))
    unfolding all
    assert_all-Sound name ep (h, d) = (
      all (all ep),
      (
        assert_all-Held (all ep) [] (Held-copy_all ep [] h tt),
        lookup-all name (all ep) (Distinct-copy_all ep [] tt) ∙ lookup-all name ep d,
      ),
    )

    Sound-register :
        (c : C) (name : Text) (ep : ExtensionPoint C)
        → asserts types c iface ≡ true
        → Sound iface ep
        → Sound iface (register types.own_name c name ep).0
    unfolding register
    Sound-register c name ep a (h, d) =
        let k = name_of types.own_name c name in
        if-both (λ (p : ExtensionPoint C × Bool). Sound iface p.0) (has k ep) (ep, false)
          (insert k c ep, true) (λ e. (h, d))
          (λ e. (Held-insert k c ep a h, Distinct-insert k c ep d))

    Sound-unregister :
        (name : Text) (ep : ExtensionPoint C) → Sound iface ep → Sound iface (unregister name ep).0
    unfolding unregister
    Sound-unregister name ep (h, d) =
        if-both (λ (p : ExtensionPoint C × Bool). Sound iface p.0) (has name ep)
          (delete name ep, true) (ep, false)
          (λ e. (Held-delete name ep h, Distinct-delete name ep d)) (λ e. (h, d))

    Sound-point : (reg : Registry C) → Safe reg → Sound iface (point iface reg)
    unfolding point
    Sound-point [] s = (tt, tt)
    Sound-point ((i, ep) ∷ rest) (h, s) =
        if-both (Sound iface) (i == iface) ep (point iface rest)
          (λ e. subst (λ j. Sound j ep) ((eq_iff i iface).0 e) h) (λ e. Sound-point rest s)

    Safe-at_point :
        (f : ExtensionPoint C → ExtensionPoint C × Bool) (reg : Registry C)
        → ((ep : ExtensionPoint C) → Sound iface ep → Sound iface (f ep).0)
        → Safe reg
        → Safe (at_point iface f reg).0
    unfolding at_point
    Safe-at_point f [] g s = tt
    Safe-at_point f ((i, ep) ∷ rest) g (h, s) =
        if-both (λ (p : Registry C × Bool). Safe p.0) (i == iface) ((i, (f ep).0) ∷ rest, (f ep).1)
          ((i, ep) ∷ (at_point iface f rest).0, (at_point iface f rest).1)
          (λ e.
            let same = (eq_iff i iface).0 e in
            (subst (λ j. Sound j (f ep).0) (sym same) (g ep (subst (λ j. Sound j ep) same h)), s))
          (λ e. (h, Safe-at_point f rest g s))

  Safe-register_all :
      (c : C) (name : Text) (reg : Registry C)
      → Exact c
      → Safe reg
      → Safe (register_all types.own_name (fits types) c name reg).0
  unfolding register_all
  Safe-register_all c name [] a s = tt
  Safe-register_all c name ((i, ep) ∷ rest) a (h, s) =
      let (ep', done) = register types.own_name c name ep in
      let (rest', ifaces) = register_all types.own_name (fits types) c name rest in
      let further = Safe-register_all c name rest a s in
      if-both (λ (p : Registry C × List Text). Safe p.0) (fits types c i)
        ((i, ep') ∷ rest', if done then i ∷ ifaces else ifaces) ((i, ep) ∷ rest', ifaces)
        (λ e. (Sound-register i c name ep (a i e) h, further)) (λ e. (h, further))

  Safe-unregister_all :
      (name : Text) (reg : Registry C) → Safe reg → Safe (unregister_all name reg).0
  unfolding unregister_all
  Safe-unregister_all name [] s = tt
  Safe-unregister_all name ((i, ep) ∷ rest) (h, s) =
      (Sound-unregister i name ep h, Safe-unregister_all name rest s)

  Safe-registry : Safe registry
  unfolding new_extension_point insert text_beq
  Safe-registry = ((tt, tt), ((tt, tt), ((tt, tt), ((tt, tt), ((tt, tt), tt)))))

  -- A value of a type is of that type.
  abbrev pub Converts : Type 0
  Converts =
      (iface : Text) (c : C)
      → fits types c iface ≡ true
      → asserts types (types.converted iface c) iface ≡ true

  extension-register-Safe :
      (iface : Text) (c : C) (name : Text) (reg : Registry C)
      → asserts types (types.converted iface c) iface ≡ true
      → Safe reg
      → Safe ((extension types iface).register c name reg).0
  unfolding extension
  extension-register-Safe iface c name reg a =
      let d = types.converted iface c in
      Safe-at_point iface (register types.own_name d name) reg
        (λ ep. Sound-register iface d name ep a)

  extension-unregister-Safe :
      (iface name : Text) (reg : Registry C)
      → Safe reg
      → Safe ((extension types iface).unregister name reg).0
  unfolding extension
  extension-unregister-Safe iface name reg =
      Safe-at_point iface (unregister name) reg (Sound-unregister iface name)

  Reach-Safe : {reg : Registry C} → Converts → Reach reg → Safe reg
  Reach-Safe k at_start = Safe-registry
  Reach-Safe k (by_wrapper {reg = reg} iface c name h e) =
      extension-register-Safe iface c name reg (k iface c e) (Reach-Safe k h)
  Reach-Safe k (by_register {reg = reg} c name h a) =
      Safe-register_all c name reg a (Reach-Safe k h)
  Reach-Safe k (taken_out {reg = reg} iface name h) =
      extension-unregister-Safe iface name reg (Reach-Safe k h)
  Reach-Safe k (by_unregister {reg = reg} name h) = Safe-unregister_all name reg (Reach-Safe k h)

  -- Whatever is registered and taken out, through the wrappers or through `Register` and `Unregister`,
  -- no type assertion of a wrapper panics: `Lookup` gives the component of the name if there is one,
  -- and `All` a map of the same components. Of the components given to `Register` itself this asks that
  -- none is a function that is only assignable to a type of functions.
  pub no_assertion_panics :
      {reg : Registry C} (iface name : Text)
      → Converts
      → Reach reg
      → ((extension types iface).lookup name reg ≡ looked (lookup name (point iface reg)))
        × ((m : Map Text C) × (((extension types iface).all reg ≡ some m)
              × (lookup name m ≡ lookup name (point iface reg))))
  no_assertion_panics {reg = reg} iface name k h =
      let sound = Sound-point iface reg (Reach-Safe k h) in
      unfold extension in
      (
        assert-Held iface name (point iface reg) sound.0,
        assert_all-Sound iface name (point iface reg) sound,
      )

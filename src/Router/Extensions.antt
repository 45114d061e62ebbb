-- ===== src/Router/Extensions.antt =====
-- router/extpoints.go: the registries through which the parts of the program find one another. The
-- registry of each interface is the one here at its own type; Router/Extensions/Typed.antt has the
-- wrappers. Reflection is a parameter: the name that a component has of itself, and the interfaces that
-- it implements.
pub mod Registered
pub mod Typed
use logspout.Prelude.{
  ℕ, Bool, true, false, List, [], ◌∷◌, Option, none, some, Text, codes, text_key, ◌==◌,
  if◌then◌else◌,
}
use logspout.Map.{Map, lookup, insert, delete, has, keys}

-- `extensionPoint`: its components by their names
abbrev pub ExtensionPoint : Type 0 → Type 0
ExtensionPoint C = Map Text C

module _ {C : Type 0} where
  -- lookup
  abbrev pub lookup_extension : Text → ExtensionPoint C → Option C
  lookup_extension name ep = lookup name ep

  -- the loop of `all`, which copies the components
  unfoldable pub copy_all : ExtensionPoint C → ExtensionPoint C → ExtensionPoint C
  copy_all [] all = all
  copy_all ((k, v) ∷ rest) all = copy_all rest (insert k v all)

  unfoldable pub all : ExtensionPoint C → ExtensionPoint C
  unfolding copy_all
  all ep = copy_all ep []

  -- Names
  unfoldable pub names : ExtensionPoint C → List Text
  unfolding all
  names ep = keys (all ep)

  -- unregister
  unfoldable pub unregister : Text → ExtensionPoint C → ExtensionPoint C × Bool
  unregister name ep = if has name ep then (delete name ep, true) else (ep, false)

  -- Unregister, over the points by the names of their interfaces
  unfoldable pub unregister_all :
      Text → Map Text (ExtensionPoint C) → Map Text (ExtensionPoint C) × List Text
  unfolding unregister
  unregister_all name [] = ([], [])
  unregister_all name ((iface, ep) ∷ rest) =
      let (ep', there) = unregister name ep in
      let (rest', ifaces) = unregister_all name rest in
      ((iface, ep') ∷ rest', if there then iface ∷ ifaces else ifaces)

  module _ (own_name : C → Text) where
    -- The name to register a component by.
    abbrev pub name_of : C → Text → Text
    name_of c [] = own_name c
    name_of c (b ∷ name) = b ∷ name

    -- register
    unfoldable pub register : C → Text → ExtensionPoint C → ExtensionPoint C × Bool
    register c name ep =
        if has (name_of c name) ep then (ep, false) else (insert (name_of c name) c ep, true)

    -- Register, over the points whose interface the component implements
    unfoldable pub register_all :
        (C → Text → Bool)
        → C
        → Text
        → Map Text (ExtensionPoint C)
        → Map Text (ExtensionPoint C) × List Text
    unfolding register
    register_all implements c name [] = ([], [])
    register_all implements c name ((iface, ep) ∷ rest) =
        let (ep', done) = register c name ep in
        let (rest', ifaces) = register_all implements c name rest in
        if implements c iface
        then ((iface, ep') ∷ rest', if done then iface ∷ ifaces else ifaces)
        else ((iface, ep) ∷ rest', ifaces)

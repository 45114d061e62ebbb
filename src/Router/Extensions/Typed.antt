-- ===== src/Router/Extensions/Typed.antt =====
-- router/extpoints.go: the registry of all extension points, and the wrappers at the type of each
-- interface. A wrapper has a pointer to its extension point; here it names the point in the registry.
pub mod Asserted
use logspout.Prelude.{
  Bool, true, false, List, [], ◌∷◌, Option, none, some, Text, codes, text_key, ◌==◌, ◌||◌,
  if◌then◌else◌,
}
use logspout.Map.{Map, lookup, insert}
use logspout.Router.Extensions.{ExtensionPoint, all, names, register, unregister}

-- What reflection and Go's types say of a component: its own name, `AssignableTo`, `Implements`, if its
-- dynamic type is the one of this name, and what it is as a value of that type.
pub record Reflection (C : Type 0) : Type 0 where
  pub own_name : C → Text
  pub assignable_to : C → Text → Bool
  pub implements : C → Text → Bool
  pub has_type : C → Text → Bool
  pub converted : Text → C → C

-- ep.iface.Kind() == reflect.Func: the two types of router/types.go that are functions
abbrev pub is_func : Text → Bool
is_func iface = iface == codes "HTTPHandler" || iface == codes "AdapterFactory"

-- `Lookup` of a wrapper: no component, a component, or a panic of the type assertion.
pub data Looked (C : Type 0) : Type 0 where
  missing : Looked C
  found : C → Looked C
  panics : Looked C

-- registry.extpoints
abbrev pub Registry : Type 0 → Type 0
Registry C = Map Text (ExtensionPoint C)

module _ {C : Type 0} where
  -- newExtensionPoint
  unfoldable pub new_extension_point : Text → Registry C → Registry C
  new_extension_point iface reg = insert iface [] reg

  -- The point of a wrapper.
  unfoldable pub point : Text → Registry C → ExtensionPoint C
  point iface [] = []
  point iface ((i, ep) ∷ rest) = let found = point iface rest in if i == iface then ep else found

  -- A change of the point of a wrapper.
  unfoldable pub at_point :
      Text → (ExtensionPoint C → ExtensionPoint C × Bool) → Registry C → Registry C × Bool
  at_point iface f [] = ([], false)
  at_point iface f ((i, ep) ∷ rest) =
      let (rest', done) = at_point iface f rest in
      let (ep', done') = f ep in
      if i == iface then ((i, ep') ∷ rest, done') else ((i, ep) ∷ rest', done)

-- An extension point as its wrapper shows it. `All` fails where an assertion panics.
pub record Extension (C : Type 0) : Type 0 where
  pub unregister : Text → Registry C → Registry C × Bool
  pub register : C → Text → Registry C → Registry C × Bool
  pub lookup : Text → Registry C → Looked C
  pub all : Registry C → Option (Map Text C)
  pub names : Registry C → List Text

module _ {C : Type 0} (types : Reflection C) where
  -- implements, for one interface
  abbrev pub fits : C → Text → Bool
  fits c iface = if is_func iface then types.assignable_to c iface else types.implements c iface

  -- ext.(T): of a type that is not an interface, the dynamic type is the same one.
  abbrev pub asserts : C → Text → Bool
  asserts c iface = if is_func iface then types.has_type c iface else types.implements c iface

  abbrev pub assert : Text → Option C → Looked C
  assert iface none = missing
  assert iface (some c) = if asserts c iface then found c else panics

  unfoldable pub assert_all : Text → Map Text C → Map Text C → Option (Map Text C)
  assert_all iface [] seen = some seen
  assert_all iface ((k, c) ∷ rest) seen =
      let further = assert_all iface rest (insert k c seen) in
      if asserts c iface then further else none

  -- The wrapper of an interface.
  unfoldable pub extension : Text → Extension C
  unfolding at_point point register unregister all names assert_all
  extension iface = record {
    unregister = λ name reg. at_point iface (unregister name) reg;
    register =
        λ c name reg. at_point iface (register types.own_name (types.converted iface c) name) reg;
    lookup = λ name reg. assert iface (lookup name (point iface reg));
    all = λ reg. assert_all iface (all (point iface reg)) [];
    names = λ reg. names (point iface reg);
  }

  -- The wrappers.
  abbrev pub http_handlers : Extension C
  http_handlers = extension (codes "HTTPHandler")

  abbrev pub adapter_factories : Extension C
  adapter_factories = extension (codes "AdapterFactory")

  abbrev pub adapter_transports : Extension C
  adapter_transports = extension (codes "AdapterTransport")

  abbrev pub all_jobs : Extension C
  all_jobs = extension (codes "Job")

  abbrev pub log_routers : Extension C
  log_routers = extension (codes "LogRouter")

-- The registry after the variables of the package are set.
abbrev pub registry : {C : Type 0} → Registry C
registry = new_extension_point (codes "HTTPHandler") (
    new_extension_point (codes "AdapterFactory") (
      new_extension_point (codes "AdapterTransport")
        (new_extension_point (codes "Job") (new_extension_point (codes "LogRouter") []))))

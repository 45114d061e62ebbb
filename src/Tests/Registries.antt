-- ===== src/Tests/Registries.antt =====
-- The registry of extension points: a component that a wrapper takes, and one that panics.
use logspout.Prelude.{
  ◌≡◌, refl, true, false, Bool, some, Text, codes, text_key, text_beq, ◌==◌, ◌&&◌, if◌then◌else◌,
  arith,
}
use logspout.Map.{Map, lookup, insert, has}
use logspout.Router.Extensions.{register_all}
use logspout.Router.Extensions.Typed.{
  Reflection, Registry, registry, extension, fits, panics, point, http_handlers,
  new_extension_point,
}
use logspout.Router.Extensions.Typed.Asserted.{
  at_start, by_wrapper, looked, Converts, no_assertion_panics,
}

-- A function from nothing to a handler, of its own type or of `HTTPHandler`.
data Handler : Type 0 where
  plain : Handler
  handler : Handler

abbrev converted : Text → Handler → Handler
converted iface c = if iface == codes "HTTPHandler" then handler else c

abbrev is_handler : Handler → Bool
is_handler plain = false
is_handler handler = true

abbrev types : Reflection Handler
types = record {
  own_name = λ c. codes "main.health";
  assignable_to = λ c iface. iface == codes "HTTPHandler";
  implements = λ c iface. false;
  has_type = λ c iface. is_handler c && iface == codes "HTTPHandler";
  converted = converted;
}

abbrev one_handler : Registry Handler
one_handler = ((http_handlers types).register plain (codes "health") registry).0

types-Converts : Converts types
types-Converts iface c e = ground arith

-- A function that `Register` itself takes is one that `Lookup` panics on.
plain_panics :
    (http_handlers types).lookup
      (codes "health")
      (register_all types.own_name (fits types) plain (codes "health") registry).0
    ≡ panics
unfolding extension lookup register_all new_extension_point insert text_beq has
plain_panics = refl

no_assertion_panics_example :
    ((http_handlers types).lookup (codes "health") one_handler
      ≡ looked (lookup (codes "health") (point (codes "HTTPHandler") one_handler)))
    × ((m : Map Text Handler) × (((http_handlers types).all one_handler ≡ some m)
          × (lookup (codes "health") m
              ≡ lookup (codes "health") (point (codes "HTTPHandler") one_handler))))
unfolding text_beq
no_assertion_panics_example =
    no_assertion_panics types (codes "HTTPHandler") (codes "health") types-Converts
      (by_wrapper (codes "HTTPHandler") plain (codes "health") at_start refl)

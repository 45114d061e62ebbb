-- ===== src/Router/Route/Adapter.antt =====
-- What the text of a route's adapter is cut into: `type` or `type+transport`.
use logspout.Prelude.{◌≡◌, refl, Text, ◌++◌, ◌∷◌}
use logspout.Text.Split.{Lacks, split-append, split-Lacks}
use logspout.Router.Route.{Route, adapter_type, adapter_transport}

-- An adapter `type+transport` has that type and that transport, whatever the default is.
pub adapter_type-transport :
    (r : Route) (type transport dfault : Text)
    → Lacks b'+' type
    → Lacks b'+' transport
    → r.adapter ≡ type ++ b'+' ∷ transport
    → (adapter_type r ≡ type) × (adapter_transport r dfault ≡ transport)
unfolding adapter_type adapter_transport
adapter_type-transport r type transport dfault ht hx e =
    rw e (rw (split-append type transport b'+' ht, split-Lacks transport b'+' hx) (refl, refl))

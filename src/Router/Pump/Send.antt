-- ===== src/Router/Pump/Send.antt =====
-- Who receives a message that a container's pump sends.
use logspout.Prelude.{
  ℕ, ◌≡◌, refl, Bool, false, [], ◌∷◌, Option, none, some, arith, nat_key, ◌==◌, eq_iff, any,
  if◌then◌else◌,
}
use logspout.Map.{Map, lookup, lookup-insert, lookup-delete, insert, delete}
use logspout.Map.Lookup.{Distinct, Distinct-insert, Distinct-delete}
use logspout.Router.Message.{Message}
use logspout.Router.Route.{Route, match_message}
use logspout.Router.Pump.{ContainerPump, send_to, send, add, remove}

abbrev pub receives : ℕ → ContainerPump → Message → Bool
receives c cp m = any (λ d. d == c) (send cp m)

abbrev pub wants : Message → Option Route → Bool
wants m none = false
wants m (some r) = match_message r m.source

pub send_to-lookup :
    (c : ℕ) (m : Message) (routes : Map ℕ Route)
    → Distinct routes
    → any (λ d. d == c) (send_to m routes) ≡ wants m (lookup c routes)
unfolding send_to lookup
send_to-lookup c m [] h = refl
send_to-lookup c m ((d, r) ∷ rest) (hd, h) = ground (arith, send_to-lookup c m rest h, eq_iff d c)

-- From when a route is added until it is removed, its logstream receives the messages that the route
-- matches and no other; the other logstreams receive what they received before.
pub receives-add-remove :
    (cp : ContainerPump) (c : ℕ) (r : Route) (j : ℕ) (m : Message)
    → Distinct cp.logstreams
    → (receives j (add cp c r) m ≡ (if c == j then match_message r m.source else receives j cp m))
      × (receives j (remove cp c) m ≡ (if c == j then false else receives j cp m))
unfolding send add remove
receives-add-remove cp c r j m h = (
  ground (
    arith,
    send_to-lookup j m (insert c r cp.logstreams) (Distinct-insert c r cp.logstreams h),
    send_to-lookup j m cp.logstreams h,
    lookup-insert c r j cp.logstreams,
  ),
  ground (
    arith,
    send_to-lookup j m (delete c cp.logstreams) (Distinct-delete c cp.logstreams h),
    send_to-lookup j m cp.logstreams h,
    lookup-delete c j cp.logstreams,
  ),
)

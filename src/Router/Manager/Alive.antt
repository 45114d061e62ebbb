-- ===== src/Router/Manager/Alive.antt =====
-- Which routing goroutines a list of effects has started and not stopped.
use logspout.Prelude.{
  ℕ, ◌≡◌, refl, ◌↔◌, Bool, true, false, not, ◌&&◌, ◌||◌, List, [], ◌∷◌, ◌++◌, Option, none, some,
  Text, text_key, nat_key, arith, if◌then◌else◌, ◌==◌, map, any,
}
use logspout.Map.{Map, lookup}
use logspout.Router.Route.{Route}
use logspout.Router.Manager.{Effect, stop, start, stop_old}

-- A goroutine is known by the `closer` of its route.
abbrev pub is_chan : ℕ → Option ℕ → Bool
is_chan c none = false
is_chan c (some d) = c == d

-- Was the goroutine that watches `c` started and told to stop by no one, after these effects, if it was
-- so before them? It may still have come to an end by itself: `waiting` has that.
abbrev pub alive_from : Bool → ℕ → List Effect → Bool
alive_from b c [] = b
alive_from b c (start r ∷ es) = alive_from (b || is_chan c r.closer) c es
alive_from b c (stop o ∷ es) = alive_from (b && not (is_chan c o)) c es

abbrev pub alive : ℕ → List Effect → Bool
alive = alive_from false

-- The closers that are waited at: those of the loops that were started and told to stop by no one, but
-- for those that have come to an end by themselves.
abbrev pub waiting : (ℕ → Bool) → List Effect → ℕ → Bool
waiting ended log c = alive c log && not (ended c)

pub alive-append :
    (b : Bool) (c : ℕ) (xs ys : List Effect)
    → alive_from b c (xs ++ ys) ≡ alive_from (alive_from b c xs) c ys
alive-append b c [] ys = refl
alive-append b c (start r ∷ xs) ys = alive-append (b || is_chan c r.closer) c xs ys
alive-append b c (stop o ∷ xs) ys = alive-append (b && not (is_chan c o)) c xs ys

pub alive-start :
    (b : Bool) (c : ℕ) (rs : List Route)
    → alive_from b c (map start rs) ≡ (b || any (λ r. is_chan c r.closer) rs)
alive-start true c [] = refl
alive-start false c [] = refl
alive-start b c (r ∷ rs) = rw (alive-start (b || is_chan c r.closer) c rs) (ground arith)

pub is_chan_iff : (c : ℕ) (o : Option ℕ) → (is_chan c o ≡ true) ↔ (o ≡ some c)
is_chan_iff c o = ground arith

-- Is `c` the closer of this route, if there is one?
abbrev pub old_is : ℕ → Option Route → Bool
old_is c none = false
old_is c (some r) = is_chan c r.closer

pub alive_replace :
    (b : Bool) (c : ℕ) (o : Option Route) (g : Bool) (r : Route)
    → alive_from b c (stop_old o ++ (if g then start r ∷ [] else []))
      ≡ ((b && not (old_is c o)) || (g && is_chan c r.closer))
alive_replace b c none true r = ground arith
alive_replace b c none false r = ground arith
alive_replace b c (some s) true r = ground arith
alive_replace b c (some s) false r = ground arith

-- Some route of the table has the closer `c`.
abbrev pub Holds : ℕ → Map Text Route → Type 0
Holds c m = (id : Text) × (r : Route) × (lookup id m ≡ some r) × (r.closer ≡ some c)

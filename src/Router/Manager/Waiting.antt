-- ===== src/Router/Manager/Waiting.antt =====
-- The end of `Run` in router/routes.go: the wait for the goroutines that it started, and the look at the
-- table that follows, which holds no lock. Other goroutines call the manager meanwhile.
use mathlib.Core.Path.{subst}
use logspout.Prelude.{
  ◌≡◌, refl, ap, ◌⊎◌, inl, inr, ℕ, zero, suc, ◌+◌, ◌<◌, [], ◌∷◌, Option, none, some, Text, text_key,
  arith, length,
}
use logspout.Map.{Map, delete}
use logspout.Router.Manager.Table.{add_error}
use logspout.Router.Route.{Route}
use logspout.Router.Manager.{RouteStore, AdapterFactory, RouteManager, add, remove, run}

-- Where `Run` is: it waits for so many goroutines, blocks for ever, or has returned.
pub data Phase : Type 0 where
  waits : ℕ → Phase
  blocked : Phase
  returned : Phase

-- if len(rm.routes) == 0, after the wait
abbrev pub looks : Map Text Route → Phase
looks [] = blocked
looks (r ∷ rs) = returned

module _ {S : Type 0} (store : RouteStore S) (factories : Text → Option AdapterFactory) where
  -- What the call of `Run` on `rm` comes to, with the manager at that time, when `done` of its goroutines
  -- have ended and `adds` calls of `Add` have succeeded since.
  pub data Since (rm : RouteManager S) : (done adds : ℕ) → RouteManager S → Phase → Type 0 where
    begun : Since rm 0 0 (run rm).0 (waits (length rm.routes))
    goroutine_done :
        {d a n : ℕ} {rm' : RouteManager S}
        → Since rm d a rm' (waits (suc n))
        → Since rm (suc d) a rm' (waits n)
    waited :
        {d a : ℕ} {rm' : RouteManager S}
        → Since rm d a rm' (waits 0)
        → Since rm d a rm' (looks rm'.routes)
    add_succeeds :
        {d a : ℕ} {rm' : RouteManager S} {p : Phase} (fresh : Text) (r : Route)
        → (add store factories fresh rm' r).error ≡ none
        → Since rm d a rm' p
        → Since rm d (suc a) (add store factories fresh rm' r).manager p
    add_fails :
        {d a : ℕ} {rm' : RouteManager S} {p : Phase} (fresh : Text) (r : Route) (e : Text)
        → (add store factories fresh rm' r).error ≡ some e
        → Since rm d a rm' p
        → Since rm d a (add store factories fresh rm' r).manager p
    remove_called :
        {d a : ℕ} {rm' : RouteManager S} {p : Phase} (id : Text)
        → Since rm d a rm' p
        → Since rm d a (remove store rm' id).0 p

  -- How many of `n` goroutines are left, of which `d` have ended.
  abbrev Left : ℕ → ℕ → Phase → Type 0
  Left n d (waits k) = d + k ≡ n
  Left n d blocked = d ≡ n
  Left n d returned = d ≡ n

  Left-looks : (n d : ℕ) (m : Map Text Route) → d + 0 ≡ n → Left n d (looks m)
  Left-looks n d [] e = omega (arith, e)
  Left-looks n d (r ∷ rs) e = omega (arith, e)

  Since-Left :
      {rm rm' : RouteManager S} {d a : ℕ} {p : Phase}
      → Since rm d a rm' p
      → Left (length rm.routes) d p
  Since-Left begun = omega arith
  Since-Left (goroutine_done {d = d} {n = n} h) = omega (arith, Since-Left h)
  Since-Left {rm} (waited {d = d} {rm' = rm'} h) =
      Left-looks (length rm.routes) d rm'.routes (Since-Left h)
  Since-Left (add_succeeds fresh r e h) = Since-Left h
  Since-Left (add_fails fresh r x e h) = Since-Left h
  Since-Left (remove_called id h) = Since-Left h

  add_fails-manager :
      (fresh : Text) (rm : RouteManager S) (r : Route) (e : Text)
      → (add store factories fresh rm r).error ≡ some e
      → (add store factories fresh rm r).manager ≡ rm
  add_fails-manager fresh rm r e h = (add_error store factories fresh rm r h).0

  -- There is no route, or there was one, or one was added.
  abbrev Known : ℕ → Map Text Route → Type 0
  Known k m = (m ≡ []) ⊎ (0 < k)

  Known-delete : (k : ℕ) (id : Text) (m : Map Text Route) → Known k m → Known k (delete id m)
  Known-delete k id m (inl e) = unfold delete in inl (ap (delete id) e)
  Known-delete k id m (inr h) = inr h

  Known-length : (m : Map Text Route) → Known (length m + 0) m
  Known-length [] = inl refl
  Known-length (r ∷ rs) = inr (omega arith)

  Known-looks : (k : ℕ) (m : Map Text Route) → Known k m → looks m ≡ returned → 0 < k
  Known-looks k m (inr h) e = h
  Known-looks k m (inl q) e = ground (arith, q, e)

  Since-Known :
      {rm rm' : RouteManager S} {d a : ℕ} {p : Phase}
      → Since rm d a rm' p
      → Known (length rm.routes + a) rm'.routes × (p ≡ returned → 0 < length rm.routes + a)
  unfolding run remove
  Since-Known {rm} begun = (Known-length rm.routes, λ e. absurd (ground (arith, e)))
  Since-Known (goroutine_done h) = ((Since-Known h).0, λ e. absurd (ground (arith, e)))
  Since-Known {rm} (waited {a = a} {rm' = rm'} h) =
      let (k, q) = Since-Known h in (k, Known-looks (length rm.routes + a) rm'.routes k)
  Since-Known (add_succeeds fresh r e h) = (inr (omega arith), λ q. omega arith)
  Since-Known (add_fails {rm' = rm'} fresh r x e h) =
      rw (add_fails-manager fresh rm' r x e) (Since-Known h)
  Since-Known {rm} (remove_called {a = a} {rm' = rm'} id h) =
      let (k, q) = Since-Known h in (Known-delete (length rm.routes + a) id rm'.routes k, q)

  Since-looks :
      {rm rm' : RouteManager S} {d a : ℕ} (n k : ℕ)
      → d + n ≡ k
      → Since rm d a rm' (waits n)
      → Since rm k a rm' (looks rm'.routes)
  Since-looks {rm} {rm'} {d} {a} zero k e h =
      subst (λ i. Since rm i a rm' (looks rm'.routes)) (omega (arith, e)) (waited h)
  Since-looks (suc n) k e h = Since-looks n k (omega (arith, e)) (goroutine_done h)

  -- `Run` returns only after every goroutine that it started has ended, and only if it started one or an
  -- `Add` has succeeded since: a manager without routes blocks for ever, until then. While it waits, the
  -- end of the goroutines that are left brings it to its look at the table.
  pub run_returns :
      {rm rm' : RouteManager S} {d a : ℕ} {p : Phase}
      → Since rm d a rm' p
      → (p ≡ returned → (d ≡ length rm.routes) × (0 < length rm.routes + a))
        × ((n : ℕ)
            → p ≡ waits n
            → (d + n ≡ length rm.routes) × Since rm (length rm.routes) a rm' (looks rm'.routes))
  run_returns {rm} {rm'} {d} {a} h = (
    λ e. (subst (Left (length rm.routes) d) e (Since-Left h), (Since-Known h).1 e),
    λ n e.
        let left = subst (Left (length rm.routes) d) e (Since-Left h) in
        (left, Since-looks n (length rm.routes) left (subst (Since rm d a rm') e h)),
  )

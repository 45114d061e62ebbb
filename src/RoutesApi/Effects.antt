-- ===== src/RoutesApi/Effects.antt =====
-- What a request changes for the requests after it.
use logspout.Router.Manager.Blocking.{passes, passes_iff, Free}
use logspout.Router.Manager.Alive.{waiting}
use logspout.Router.Manager.Effects.{Reach}
use logspout.Prelude.{
  ◌≡◌, ◌↔◌, ◌⊎◌, inl, inr, refl, sym, Bool, true, false, [], Option, none, some, Text, text_key,
  ◌==◌, eq_refl, Result, ok, err, Option-cases, arith, if◌then◌else◌, List, ℕ, Bool-cases, ap,
}
use logspout.Map.{has}
use logspout.Router.Route.{Route}
use logspout.Router.Manager.{RouteStore, AdapterFactory, RouteManager, get, add, remove, Effect}
use logspout.Router.Manager.Table.{get-add, add_error, get-remove}
use logspout.RoutesApi.{
  get_route, delete_route, post_route, Codec, Served, shown, added, decoded, serve, answer,
}

module _ {S : Type 0} (codec : Codec) (store : RouteStore S)
    (factories : Text → Option AdapterFactory) (fresh : Text) where
  -- A POST whose route is added: the route is there under an id of its own, as it is answered, and there
  -- is an answer exactly if no route of that id stands in the way of the send to its loop.
  pub record Created (log : List Effect) (ended : ℕ → Bool) (rm : RouteManager S) (s : Served S)
      : Type 0 where
    pub id : Text
    pub status : s.response.status ≡ 201
    pub shown_same :
        (serve codec store factories fresh s.manager (get_route id)).response
        ≡ record { status = 200; json = false; body = s.response.body }
    pub answered : (answer (waiting ended log) s ≡ some s.response) ↔ Free ended rm id

  pub record Refused (log : List Effect) (ended : ℕ → Bool) (rm : RouteManager S) (s : Served S)
      : Type 0 where
    pub status : s.response.status ≡ 400
    pub manager : s.manager ≡ rm
    pub effects : s.effects ≡ []
    pub answered : answer (waiting ended log) s ≡ some s.response

  answer_iff :
      (waits : ℕ → Bool) (s : Served S)
      → (answer waits s ≡ some s.response) ↔ (passes waits s.effects ≡ true)
  answer_iff waits s = elim (Bool-cases (passes waits s.effects)) [
    | inl e ↦ (λ h. e, λ h. rw e refl)
    | inr e ↦ (λ h. absurd (ground (arith, h, e)), λ h. absurd (ground (arith, h, e)))
  ]

  module _ (log : List Effect) (ended : ℕ → Bool) (rm : RouteManager S)
      (reached : Reach store factories rm log) where
    added-Created :
        (r : Route)
        → (add store factories fresh rm r).error ≡ none
        → Created log ended rm
            (added codec store factories fresh (add store factories fresh rm r) none)
    unfolding serve
    added-Created r e =
        let o = add store factories fresh rm r in
        let s = added codec store factories fresh o none in
        let free = (passes_iff store factories ended fresh r o.route.id reached e).1 in
        let asked = answer_iff (waiting ended log) s in
        record {
          id = o.route.id;
          status = refl;
          shown_same =
              rw (get-add store factories fresh rm r o.route.id e, eq_refl o.route.id) refl;
          answered = (λ h. free.0 (asked.0 h), λ h. asked.1 (free.1 h));
        }

    added-Refused :
        (r : Route) (x : Text)
        → (add store factories fresh rm r).error ≡ some x
        → Refused log ended rm
            (added codec store factories fresh (add store factories fresh rm r) (some x))
    added-Refused r x e =
        let (m, es) = add_error store factories fresh rm r e in
        let s = added codec store factories fresh (add store factories fresh rm r) (some x) in
        record {
          status = refl;
          manager = m;
          effects = es;
          answered = (answer_iff (waiting ended log) s).1 (ap (passes (waiting ended log)) es);
        }

    decoded-cases :
        (d : Result Route)
        → Created log ended rm (decoded codec store factories fresh rm d)
          ⊎ Refused log ended rm (decoded codec store factories fresh rm d)
    decoded-cases (err e) =
        inr (record { status = refl; manager = refl; effects = refl; answered = refl })
    decoded-cases (ok r) = elim (Option-cases (add store factories fresh rm r).error) [
      | inl e ↦ inl (rw e (added-Created r e))
      | inr (x, e) ↦ inr (rw e (added-Refused r x e))
    ]

    -- After any calls of the manager: a POST adds its route, and then a GET of the new route's id answers
    -- with the same route as the POST, whose answer is 201 and is given exactly if the id had no route
    -- before, or `Run` was called and the loop of that one still runs; any other waits for ever. Or the
    -- POST is answered 400, and then no route was changed, started or stopped.
    pub serve-post_route :
        (body : Text)
        → Created log ended rm (serve codec store factories fresh rm (post_route body))
          ⊎ Refused log ended rm (serve codec store factories fresh rm (post_route body))
    unfolding serve
    serve-post_route body = decoded-cases (codec.unmarshal body)

  deleted_iff :
      (there found : Bool)
      → found ≡ there
      → ((if found
            then record { status = 200; json = false; body = [] }
            else shown codec store factories fresh none).status
          ≡ 200)
        ↔ (there ≡ true)
  deleted_iff there true e = (λ h. sym e, λ h. refl)
  deleted_iff there false e = (λ h. absurd (omega (arith, h)), λ h. cc)

  shown_after :
      (b : Bool) (o before : Option Route)
      → o ≡ (if b then none else before)
      → shown codec store factories fresh o ≡ (
          if b
          then shown codec store factories fresh none
          else shown codec store factories fresh before)
  shown_after true o before e = rw e refl
  shown_after false o before e = rw e refl

  -- A DELETE whose `Remove` comes back is answered 200 exactly if the id had a route, and after it a GET
  -- of the id is answered 404 while one of any other id is answered as before.
  pub serve-delete_route :
      (rm : RouteManager S) (id j : Text)
      → ((serve codec store factories fresh rm (delete_route id)).response.status ≡ 200
          ↔ (has id rm.routes ≡ true))
        × ((serve codec store factories fresh
              (serve codec store factories fresh rm (delete_route id)).manager
              (get_route j)).response
            ≡ (if id == j
                then shown codec store factories fresh none
                else (serve codec store factories fresh rm (get_route j)).response))
  unfolding serve
  serve-delete_route rm id j = (
    deleted_iff (has id rm.routes) (remove store rm id).1 (get-remove store rm id j).1,
    shown_after (id == j) (get (remove store rm id).0 j) (get rm j) (get-remove store rm id j).0,
  )

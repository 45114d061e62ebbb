-- ===== src/Router/Manager/Blocking.antt =====
-- Which calls of a manager come to an end: a method sends on the `closer` of a route that it drops,
-- with the manager's lock held, and the send waits for the loop of the pump's `Route`.
use logspout.Prelude.{
  ◌≡◌, refl, sym, ap, ◌∙◌, ◌↔◌, inl, inr, ℕ, Bool, true, false, not, ◌&&◌, ◌||◌, List, [], ◌∷◌,
  ◌++◌, Option, none, some, Text, text_key, nat_key, ◌==◌, if◌then◌else◌, Result, ok, err, arith,
  Option-cases, Bool-cases,
}
use logspout.Map.{lookup}
use logspout.Router.Route.{Route, adapter_type}
use logspout.Router.Manager.{
  RouteStore, AdapterFactory, RouteManager, Effect, start, stop, stop_old, stop_removed, install,
  build, get, add, remove,
}
use logspout.Router.Manager.Alive.{waiting, is_chan}
use logspout.Router.Manager.Inv.{Inv}
use logspout.Router.Manager.Effects.{Reach, Reach-Inv}

-- Do these effects happen, one after the other, where `waits` says which closers are waited at? A send
-- on a nil channel waits for ever.
abbrev pub passes : (ℕ → Bool) → List Effect → Bool
passes waits [] = true
passes waits (start r ∷ es) = passes (λ c. is_chan c r.closer || waits c) es
passes waits (stop none ∷ es) = false
passes waits (stop (some c) ∷ es) = waits c && passes (λ d. not (c == d) && waits d) es

-- No route of this id stands in the way: there is none, or its loop still runs.
abbrev pub Free : {S : Type 0} → (ℕ → Bool) → RouteManager S → Text → Type 0
Free ended rm id =
    (r : Route)
    → get rm id ≡ some r
    → (rm.routing ≡ true) × ((c : ℕ) → r.closer ≡ some c → ended c ≡ false)

passes-started :
    (waits : ℕ → Bool) (b : Bool) (s : Route) → passes waits (if b then start s ∷ [] else []) ≡ true
passes-started waits true s = refl
passes-started waits false s = refl

passes-stop :
    (waits : ℕ → Bool) (c : ℕ) (b : Bool) (s : Route)
    → passes waits (stop (some c) ∷ (if b then start s ∷ [] else [])) ≡ waits c
passes-stop waits c true s = ground arith
passes-stop waits c false s = ground arith

stop_old-some :
    (o : Option Route) (r : Route) (c : ℕ)
    → o ≡ some r
    → r.closer ≡ some c
    → stop_old o ≡ stop (some c) ∷ []
stop_old-some o r c e k = ground arith

module _ {S : Type 0} (rm : RouteManager S) (log : List Effect) (v : Inv rm log) (ended : ℕ → Bool)
    (id : Text) where
  waiting-Free :
      (r : Route) (c : ℕ)
      → lookup id rm.routes ≡ some r
      → r.closer ≡ some c
      → waiting ended log c ≡ true
      → Free ended rm id
  unfolding get
  waiting-Free r c e k h s e' = (
    elim (Bool-cases rm.routing) [
      | inl on ↦ on
      | inr off ↦ absurd (ground (arith, v.idle off c, h))
    ],
    λ d k'. ground (arith, e, e', k, k', h),
  )

  Free-waiting :
      (r : Route) (c : ℕ)
      → lookup id rm.routes ≡ some r
      → r.closer ≡ some c
      → Free ended rm id
      → waiting ended log c ≡ true
  unfolding get
  Free-waiting r c e k f =
      let (on, running) = f r e in ground (arith, v.held on c (id, r, e, k), running c k)

  none-Free : lookup id rm.routes ≡ none → Free ended rm id
  unfolding get
  none-Free e r e' = absurd (ground (arith, e, e'))

  passes-stop_removed :
      (passes (waiting ended log) (stop_removed (lookup id rm.routes)) ≡ true) ↔ Free ended rm id
  passes-stop_removed = elim (Option-cases (lookup id rm.routes)) [
    | inl e ↦ (λ h. none-Free e, λ f. rw e refl)
    | inr (r, e) ↦
        let (c, k, below) = v.known id r e in
        (
          λ h. waiting-Free r c e k (ground (arith, e, k, h)),
          λ f. ground (arith, e, k, Free-waiting r c e k f),
        )
  ]

  passes-stop_old :
      (b : Bool) (s : Route)
      → (passes
            (waiting ended log)
            (stop_old (lookup id rm.routes) ++ (if b then start s ∷ [] else []))
          ≡ true)
        ↔ Free ended rm id
  passes-stop_old b s = elim (Option-cases (lookup id rm.routes)) [
    | inl e ↦ (λ h. none-Free e, λ f. rw e (passes-started (waiting ended log) b s))
    | inr (r, e) ↦
        let (c, k, below) = v.known id r e in
        let same = passes-stop (waiting ended log) c b s in
        (
          λ h. waiting-Free r c e k (
              sym same
              ∙ (ap (λ es. passes (waiting ended log) (es ++ (if b then start s ∷ [] else [])))
                    (sym (stop_old-some (lookup id rm.routes) r c e k))
                  ∙ h)),
          λ f.
              ap (λ es. passes (waiting ended log) (es ++ (if b then start s ∷ [] else [])))
                (stop_old-some (lookup id rm.routes) r c e k)
              ∙ (same ∙ Free-waiting r c e k f),
        )
  ]

module _ {S : Type 0} (store : RouteStore S) (factories : Text → Option AdapterFactory) where
  passes-build :
      (fresh : Text) (rm : RouteManager S) (log : List Effect) (ended : ℕ → Bool)
      (p : Route × Result ℕ)
      → Inv rm log
      → (build store factories fresh rm p).error ≡ none
      → (passes (waiting ended log) (build store factories fresh rm p).effects ≡ true)
        ↔ Free ended rm (build store factories fresh rm p).route.id
  unfolding install
  passes-build fresh rm log ended (r, err x) v e = cc
  passes-build fresh rm log ended (r, ok a) v e =
      passes-stop_old rm log v ended (if r.id == [] then fresh else r.id) rm.routing _

  -- After any calls, and with whatever loops of routes at their end: `Remove` comes to an end exactly
  -- if the id has no route, or `Run` was called and the loop of its route still runs. Likewise `Add` of
  -- a route that an adapter takes, for the id that the route gets. Any other such call waits for ever,
  -- and has the manager's lock.
  pub passes_iff :
      {rm : RouteManager S} {log : List Effect} (ended : ℕ → Bool) (fresh : Text) (r : Route)
      (id : Text)
      → Reach store factories rm log
      → (add store factories fresh rm r).error ≡ none
      → ((passes (waiting ended log) (remove store rm id).2 ≡ true) ↔ Free ended rm id)
        × ((passes (waiting ended log) (add store factories fresh rm r).effects ≡ true)
            ↔ Free ended rm (add store factories fresh rm r).route.id)
  unfolding add remove
  passes_iff {rm} {log} ended fresh r id h e = (
    passes-stop_removed rm log (Reach-Inv store factories h) ended id,
    elim (Option-cases (factories (adapter_type r))) [
      | inl q ↦ absurd (ground (arith, q, e))
      | inr (f, q) ↦
          rw (q, add)
            (passes-build fresh rm log ended (f r) (Reach-Inv store factories h) (rw (q, add) at e))
    ],
  )

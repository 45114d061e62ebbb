-- ===== src/Router/Persist/Restart.antt =====
-- A program that stops and starts again: the routes that `Load` gets from the files of the manager
-- before it.
use logspout.Prelude.{
  ◌≡◌, ◌≢◌, refl, sym, ap, ◌∙◌, ℕ, true, false, List, [], ◌∷◌, ◌++◌, Option, none, some, Text,
  codes, text_key, ◌==◌, eq_iff, eq_refl, Option-cases, Bool-cases, inl, inr, ne→neq, if◌then◌else◌,
  Result, ok, arith, map, any, All, text_beq,
}
use mathlib.Core.Path.{subst}
use logspout.Map.{Map, lookup, insert, has, lookup-insert}
use logspout.Text.{split}
use logspout.Text.Split.{Lacks, split-append}
use logspout.Router.Route.{Route}
use logspout.Router.Manager.{RouteManager, AdapterFactory, new_manager, install, add_all, load, add}
use logspout.Router.Manager
use logspout.Router.Persist.{Files, filename, file_store, read_all, get_all}
use logspout.Router.Persist
use logspout.Router.Persist.Mirror.{
  Call, Settled, Settles, Mirror, written, perform_all, perform_all-Mirror, empty-Mirror,
}

-- A `url.Userinfo` has no fields that JSON keeps.
abbrev pub blank : Option Text → Option Text
blank none = none
blank (some user) = some []

-- What a route is that JSON has kept.
abbrev pub stored : Route → Route
stored r = record r {
  user = blank r.user;
  log_adapter = none;
  closed = false;
  closer = none;
  closer_rcv = none;
}

abbrev pub kept : Option Route → Option Route
kept none = none
kept (some r) = some (stored r)

abbrev pub json_file : Text → Text
json_file id = id ++ codes ".json"

-- A manager that has loaded the empty directory `d`.
abbrev pub opened : Files → RouteManager Files
opened d = record new_manager { persistor = some d }

blank-blank : (o : Option Text) → blank (blank o) ≡ blank o
blank-blank none = refl
blank-blank (some u) = refl

stored-stored : (r : Route) → stored (stored r) ≡ stored r
stored-stored r = ap (λ u. record (stored r) { user = u }) (blank-blank r.user)

split-json_file : (id : Text) → Lacks b'.' id → split (json_file id) b'.' ≡ id ∷ codes "json" ∷ []
unfolding split
split-json_file id h = split-append id (codes "json") b'.' h

kept-insert :
    (i j : Text) (r : Route) (m : Map Text Route)
    → kept (lookup j (insert i r m)) ≡ (if i == j then some (stored r) else kept (lookup j m))
kept-insert i j r m = ground (arith, lookup-insert i r j m)

-- The table after one more route, as the routes listed behind it leave it.
kept-either :
    (id j : Text) (r : Route) (ids : List Text) (rm : RouteManager Files) (m m' : Map Text Route)
    → r.id ≡ id
    → lookup id rm.routes ≡ some r
    → kept (lookup j m) ≡ (if r.id == j then some (stored (stored r)) else kept (lookup j m'))
    → (if any (λ i. i == j) ids then kept (lookup j rm.routes) else kept (lookup j m))
      ≡ (if any (λ i. i == j) (id ∷ ids) then kept (lookup j rm.routes) else kept (lookup j m'))
kept-either id j r ids rm m m' n e k = ground (arith, eq_iff id j, stored-stored r, n, e, k)

module _ (marshal : Route → Text) (unmarshal : Text → Result Route) (failure : Text → Text)
    (read_dir : Files → Text → Result (List Text)) (fs : Text)
    (factories : Text → Option AdapterFactory) where
  install-kept :
      (fresh : Text) (rm : RouteManager Files) (s : Route) (a : ℕ) (j : Text)
      → s.id ≢ []
      → kept (
          lookup j
            (install
              (file_store marshal unmarshal failure read_dir fs)
              fresh
              rm
              s
              a).manager.routes)
        ≡ (if s.id == j then some (stored s) else kept (lookup j rm.routes))
  unfolding install
  install-kept fresh rm s a j h =
      rw (ne→neq s.id [] h) (
        kept-insert s.id j (record s { closer = some rm.next_chan; log_adapter = some a })
          rm.routes)

  add-kept :
      (fresh : Text) (rm : RouteManager Files) (s : Route) (j : Text)
      → Settled factories s
      → s.id ≢ []
      → ((Manager.add (file_store marshal unmarshal failure read_dir fs) factories fresh rm s).error
          ≡ none)
        × (kept (
              lookup j
                (Manager.add
                  (file_store marshal unmarshal failure read_dir fs)
                  factories
                  fresh
                  rm
                  s).manager.routes)
            ≡ (if s.id == j then some (stored s) else kept (lookup j rm.routes)))
  unfolding add install
  add-kept fresh rm s j (f, a, e, q) h =
      rw (e, Manager.add) (rw q (refl, install-kept fresh rm s a j h))

  add_all-cons :
      (fresh : ℕ → Text) (rm : RouteManager Files) (s : Route) (ss : List Route)
      → (Manager.add
          (file_store marshal unmarshal failure read_dir fs)
          factories
          (fresh rm.next_chan)
          rm
          s).error
        ≡ none
      → ((add_all (file_store marshal unmarshal failure read_dir fs) factories fresh rm (s ∷ ss)).0
          ≡ (add_all
              (file_store marshal unmarshal failure read_dir fs)
              factories
              fresh
              (Manager.add
                (file_store marshal unmarshal failure read_dir fs)
                factories
                (fresh rm.next_chan)
                rm
                s).manager
              ss).0)
        × ((add_all
              (file_store marshal unmarshal failure read_dir fs)
              factories
              fresh
              rm
              (s ∷ ss)).1
            ≡ (add_all
                (file_store marshal unmarshal failure read_dir fs)
                factories
                fresh
                (Manager.add
                  (file_store marshal unmarshal failure read_dir fs)
                  factories
                  (fresh rm.next_chan)
                  rm
                  s).manager
                ss).1)
  unfolding add_all
  add_all-cons fresh rm s ss e = (rw (e, add_all) refl, rw (e, add_all) refl)

  -- An id of the listing: that of a route in the table, which the name of its file spells.
  abbrev pub Listed : RouteManager Files → Text → Type 0
  Listed rm id = (r : Route) × (lookup id rm.routes ≡ some r) × Lacks b'.' id × (id ≢ [])

  -- The decoder reads back the routes of a table.
  abbrev pub Decodes : RouteManager Files → Type 0
  Decodes rm =
      (id : Text) (r : Route) → Manager.get rm id ≡ some r → unmarshal (marshal r) ≡ ok (stored r)

  module _ (rm : RouteManager Files) (codec : Decodes rm) (d : Files)
      (mirror : Mirror marshal unmarshal failure read_dir fs factories rm d) where
    get-stored :
        (id : Text) (r : Route)
        → lookup id rm.routes ≡ some r
        → Persist.get marshal unmarshal failure read_dir fs d id ≡ ok (stored r)
    unfolding Persist.get Manager.get
    get-stored id r e = rw (mirror.same id ∙ ap (written marshal) e, Persist.get) (codec id r e)

    read_all-cons :
        (id : Text) (r : Route) (names : List Text)
        → lookup id rm.routes ≡ some r
        → Lacks b'.' id
        → read_all marshal unmarshal failure read_dir fs d (json_file id ∷ names)
          ≡ stored r ∷ read_all marshal unmarshal failure read_dir fs d names
    unfolding read_all text_beq
    read_all-cons id r names e h = rw (split-json_file id h) (rw (get-stored id r e) refl)

    add_all-kept :
        (fresh : ℕ → Text) (ids : List Text) (rm' : RouteManager Files)
        → All (Listed rm) ids
        → ((add_all
              (file_store marshal unmarshal failure read_dir fs)
              factories
              fresh
              rm'
              (read_all marshal unmarshal failure read_dir fs d (map json_file ids))).1
            ≡ none)
          × ((j : Text)
              → kept (
                  lookup j
                    (add_all
                      (file_store marshal unmarshal failure read_dir fs)
                      factories
                      fresh
                      rm'
                      (read_all marshal unmarshal failure read_dir fs d
                        (map json_file ids))).0.routes)
                ≡ (if any (λ i. i == j) ids
                    then kept (lookup j rm.routes)
                    else kept (lookup j rm'.routes)))
    unfolding add_all
    add_all-kept fresh [] rm' h = unfold read_all in (refl, λ j. refl)
    add_all-kept fresh (id ∷ ids) rm' ((r, e, dots, n), h) =
        let added = λ (j : Text).
          add-kept (fresh rm'.next_chan) rm' (stored r) j (mirror.settled id r (stored r) e refl)
            (λ q. n (sym (mirror.named id r e) ∙ q)) in
        let rest = read_all marshal unmarshal failure read_dir fs d (map json_file ids) in
        let step = add_all-cons fresh rm' (stored r) rest (added id).0 in
        let next =
          (Manager.add (file_store marshal unmarshal failure read_dir fs) factories
            (fresh rm'.next_chan) rm' (stored r)).manager in
        let (fine, same) = add_all-kept fresh ids next h in
        rw (read_all-cons id r (map json_file ids) e dots) (
          step.1 ∙ fine,
          λ j.
              ap (λ m. kept (lookup j m.routes)) step.0
              ∙ (same j
                  ∙ kept-either id j r ids rm next.routes rm'.routes (mirror.named id r e) e
                      (added j).1),
        )

  ids-Listed :
      (rm : RouteManager Files) (ids : List Text)
      → ((id : Text) → any (λ i. i == id) ids ≡ true → (r : Route) × (lookup id rm.routes ≡ some r))
      → All (λ id. Lacks b'.' id × (id ≢ [])) ids
      → All (Listed rm) ids
  ids-Listed rm [] h k = tt
  ids-Listed rm (id ∷ ids) h ((dots, n), k) =
      let (r, e) = h id (ground (arith, eq_refl id)) in
      ((r, e, dots, n), ids-Listed rm ids (λ j q. h j (ground (arith, q))) k)

  in_table :
      (rm : RouteManager Files) (d : Files) (id : Text)
      → Mirror marshal unmarshal failure read_dir fs factories rm d
      → has (filename fs id) d.contents ≡ true
      → (r : Route) × (lookup id rm.routes ≡ some r)
  unfolding has
  in_table rm d id m h = elim (Option-cases (lookup id rm.routes)) [
    | inl e ↦ absurd (ground (arith, m.same id, e, h))
    | inr (r, e) ↦ (r, e)
  ]

  not_in_table :
      (rm : RouteManager Files) (d : Files) (id : Text)
      → Mirror marshal unmarshal failure read_dir fs factories rm d
      → has (filename fs id) d.contents ≡ false
      → lookup id rm.routes ≡ none
  unfolding has
  not_in_table rm d id m h = ground (arith, m.same id, h)

  load-Mirror :
      (fresh : ℕ → Text) (rm : RouteManager Files) (d : Files) (ids : List Text)
      → Decodes rm
      → Mirror marshal unmarshal failure read_dir fs factories rm d
      → read_dir d fs ≡ ok (map json_file ids)
      → All (λ id. Lacks b'.' id × (id ≢ [])) ids
      → ((id : Text) → any (λ i. i == id) ids ≡ has (filename fs id) d.contents)
      → ((load (file_store marshal unmarshal failure read_dir fs) factories fresh new_manager d).1
          ≡ none)
        × ((id : Text)
            → kept (
                Manager.get
                  (load
                    (file_store marshal unmarshal failure read_dir fs)
                    factories
                    fresh
                    new_manager
                    d).0
                  id)
              ≡ kept (Manager.get rm id))
  unfolding load Manager.get get_all
  load-Mirror fresh rm d ids codec m listing ids_fine lists =
      let listed = ids-Listed rm ids (λ id q. in_table rm d id m (sym (lists id) ∙ q)) ids_fine in
      let (fine, same) = add_all-kept rm codec d m fresh ids new_manager listed in
      rw (listing, load, get_all)
        (rw fine (
          refl,
          λ id. same id ∙ elim (Bool-cases (any (λ i. i == id) ids)) [
            | inl q ↦ rw q refl
            | inr q ↦
                rw q (unfold lookup in sym (ap kept (not_in_table rm d id m (sym (lists id) ∙ q))))
          ],
        ))

  -- Routes outlive the program: after any calls of `Add`, `Remove` and `Run` on a manager whose store
  -- was empty, a manager that loads the store finds under every id the route that the first one finds,
  -- less the credentials, which are not kept. So it is where files can be written and removed, the
  -- directory lists the files that are there, no id of them is empty or has a dot, the decoder reads
  -- back the routes that are there, and a factory that accepted a route accepts what it left of it
  -- again, without the credentials.
  pub restart :
      Settles factories
      → (fresh : ℕ → Text) (calls : List Call) (start d : Files) (ids : List Text)
      → start.contents ≡ []
      → ((path : Text) → start.writable path ≡ true)
      → ((path : Text) → start.removable path ≡ true)
      → (perform_all marshal unmarshal failure read_dir fs factories calls (opened start)).persistor
        ≡ some d
      → Decodes (perform_all marshal unmarshal failure read_dir fs factories calls (opened start))
      → read_dir d fs ≡ ok (map json_file ids)
      → All (λ id. Lacks b'.' id × (id ≢ [])) ids
      → ((id : Text) → any (λ i. i == id) ids ≡ has (filename fs id) d.contents)
      → ((load (file_store marshal unmarshal failure read_dir fs) factories fresh new_manager d).1
          ≡ none)
        × ((id : Text)
            → kept (
                Manager.get
                  (load
                    (file_store marshal unmarshal failure read_dir fs)
                    factories
                    fresh
                    new_manager
                    d).0
                  id)
              ≡ kept (
                  Manager.get
                    (perform_all marshal unmarshal failure read_dir fs factories calls
                      (opened start))
                    id))
  restart settles fresh calls start d ids e w x p codec listing fine lists =
      let rm = perform_all marshal unmarshal failure read_dir fs factories calls (opened start) in
      let (d', m) =
        perform_all-Mirror marshal unmarshal failure read_dir fs factories settles calls
          (opened start) start
          (empty-Mirror marshal unmarshal failure read_dir fs factories start e w x) in
      let q : d' ≡ d = cc (m.kept, p) in
      load-Mirror fresh rm d ids codec
        (subst (Mirror marshal unmarshal failure read_dir fs factories rm) q m) listing fine lists

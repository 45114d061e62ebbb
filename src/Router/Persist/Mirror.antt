-- ===== src/Router/Persist/Mirror.antt =====
-- A manager that keeps its routes in the file store, over any calls of its methods.
use logspout.Prelude.{
  false, ◌≡◌, refl, sym, ap, ◌∙◌, ℕ, suc, true, List, [], ◌∷◌, Option, none, some, Text, text_key,
  ◌==◌, eq_iff, if◌then◌else◌, Result, ok, err, arith, Option-cases, inl, inr,
}
use logspout.Map.{lookup, insert, has, lookup-insert, lookup-delete}
use logspout.Map.Lookup.{lookup-insert_inv}
use logspout.Router.Route.{Route, adapter_type}
use logspout.Router.Manager.{
  RouteManager, AdapterFactory, Effect, new_manager, install, build, persist_add,
}
use logspout.Router.Manager
use logspout.Router.Persist.{Files, filename, file_store}
use logspout.Router.Persist
use logspout.Router.Persist.Store.{filename_same}

-- A call of a method; `adding` has the id that would be made of the time.
pub data Call : Type 0 where
  adding : Text → Route → Call
  removing : Text → Call
  running : Call

-- A route that can be set up again under its adapter's name, which the factory leaves as it is.
abbrev pub Settled : (Text → Option AdapterFactory) → Route → Type 0
Settled factories r =
    (f : AdapterFactory) × (a : ℕ) × (factories (adapter_type r) ≡ some f) × (f r ≡ (r, ok a))

-- What a factory has to go by in a route that comes from the store: not its id, its credentials, nor
-- what `Add` sets.
abbrev pub core : Route → Route
core r = record r {
  id = [];
  user = none;
  log_adapter = none;
  closed = false;
  closer = none;
  closer_rcv = none;
}

-- A factory that has accepted a route, and left it as `r'`, accepts that one again, also under another
-- id and without credentials, and leaves it as it is. For an adapter that dials this asks that the
-- address of the route can still be dialled.
abbrev pub Settles : (Text → Option AdapterFactory) → Type 0
Settles factories =
    (r r' s : Route) (f : AdapterFactory) (a : ℕ)
    → factories (adapter_type r) ≡ some f
    → f r ≡ (r', ok a)
    → core s ≡ core r'
    → Settled factories s

abbrev pub written : (Route → Text) → Option Route → Option Text
written marshal none = none
written marshal (some r) = some (marshal r)

module _ (marshal : Route → Text) (unmarshal : Text → Result Route) (failure : Text → Text)
    (read_dir : Files → Text → Result (List Text)) (fs : Text)
    (factories : Text → Option AdapterFactory) where
  perform : Call → RouteManager Files → RouteManager Files
  perform (adding fresh r) rm =
      (Manager.add (file_store marshal unmarshal failure read_dir fs) factories fresh rm r).manager
  perform (removing id) rm =
      (Manager.remove (file_store marshal unmarshal failure read_dir fs) rm id).0
  perform running rm = (Manager.run rm).0

  unfoldable pub perform_all : List Call → RouteManager Files → RouteManager Files
  unfolding perform
  perform_all [] rm = rm
  perform_all (c ∷ cs) rm = perform_all cs (perform c rm)

  -- The files are those of the routes in the table, as they were when they were added.
  pub record Mirror (rm : RouteManager Files) (d : Files) : Type 0 where
    pub kept : rm.persistor ≡ some d
    pub writes : (path : Text) → d.writable path ≡ true
    pub removes : (path : Text) → d.removable path ≡ true
    pub same :
        (id : Text) → lookup (filename fs id) d.contents ≡ written marshal (lookup id rm.routes)
    pub named : (id : Text) (r : Route) → lookup id rm.routes ≡ some r → r.id ≡ id
    pub settled :
        (id : Text) (r s : Route)
        → lookup id rm.routes ≡ some r
        → core s ≡ core r
        → Settled factories s

  lookup-add_file :
      (d : Files) (r : Route) (j : Text)
      → ((path : Text) → d.writable path ≡ true)
      → lookup (filename fs j) (Persist.add marshal unmarshal failure read_dir fs d r).0.contents
        ≡ (if r.id == j then some (marshal r) else lookup (filename fs j) d.contents)
  unfolding Persist.add
  lookup-add_file d r j h = ground (
    arith,
    h (filename fs r.id),
    lookup-insert (filename fs r.id) (marshal r) (filename fs j) d.contents,
    filename_same fs r.id j,
  )

  add_file_rights :
      (d : Files) (r : Route) (path : Text)
      → ((Persist.add marshal unmarshal failure read_dir fs d r).0.writable path ≡ d.writable path)
        × ((Persist.add marshal unmarshal failure read_dir fs d r).0.removable path
            ≡ d.removable path)
  unfolding Persist.add
  add_file_rights d r path = (ground arith, ground arith)

  put-Mirror :
      (rm : RouteManager Files) (d : Files) (r : Route) (n : ℕ)
      → Mirror rm d
      → ((s : Route) → core s ≡ core r → Settled factories s)
      → Mirror
          (record rm {
            routes = insert r.id r rm.routes;
            persistor =
                persist_add (file_store marshal unmarshal failure read_dir fs) r rm.persistor;
            next_chan = n;
          })
          (Persist.add marshal unmarshal failure read_dir fs d r).0
  put-Mirror rm d r n m k = record {
    kept = rw m.kept refl;
    writes = λ path. (add_file_rights d r path).0 ∙ m.writes path;
    removes = λ path. (add_file_rights d r path).1 ∙ m.removes path;
    same = λ j.
        ground (arith, lookup-add_file d r j m.writes, lookup-insert r.id r j rm.routes, m.same j);
    named = λ j s e. elim (lookup-insert_inv r.id j r s rm.routes e) [
      | inl (p, q) ↦ ap (λ x. x.id) (sym q) ∙ p
      | inr (p, q) ↦ m.named j s q
    ];
    settled = λ j t s e q. elim (lookup-insert_inv r.id j r t rm.routes e) [
      | inl (p, p') ↦ k s (q ∙ ap core (sym p'))
      | inr (p, p') ↦ m.settled j t s p' q
    ];
  }

  lookup-remove_file :
      (d : Files) (id j : Text)
      → ((path : Text) → d.removable path ≡ true)
      → lookup
          (filename fs j)
          (Persist.remove marshal unmarshal failure read_dir fs d id).0.contents
        ≡ (if id == j then none else lookup (filename fs j) d.contents)
  unfolding Persist.remove has
  lookup-remove_file d id j h = ground (
    arith,
    h (filename fs id),
    lookup-delete (filename fs id) (filename fs j) d.contents,
    filename_same fs id j,
    eq_iff id j,
  )

  remove_file_rights :
      (d : Files) (id path : Text)
      → ((Persist.remove marshal unmarshal failure read_dir fs d id).0.writable path
          ≡ d.writable path)
        × ((Persist.remove marshal unmarshal failure read_dir fs d id).0.removable path
            ≡ d.removable path)
  unfolding Persist.remove
  remove_file_rights d id path = (ground arith, ground arith)

  remove-Mirror :
      (rm : RouteManager Files) (d : Files) (id : Text)
      → Mirror rm d
      → Mirror
          (Manager.remove (file_store marshal unmarshal failure read_dir fs) rm id).0
          (Persist.remove marshal unmarshal failure read_dir fs d id).0
  unfolding Manager.remove
  remove-Mirror rm d id m = record {
    kept = rw m.kept refl;
    writes = λ path. (remove_file_rights d id path).0 ∙ m.writes path;
    removes = λ path. (remove_file_rights d id path).1 ∙ m.removes path;
    same = λ j.
        ground (arith, lookup-remove_file d id j m.removes, lookup-delete id j rm.routes, m.same j);
    named = λ j r e. m.named j r (ground (arith, e, lookup-delete id j rm.routes));
    settled = λ j r s e. m.settled j r s (ground (arith, e, lookup-delete id j rm.routes));
  }

  install-Mirror :
      (rm : RouteManager Files) (d : Files) (fresh : Text) (r : Route) (a : ℕ)
      → Mirror rm d
      → ((s : Route) → core s ≡ core r → Settled factories s)
      → (d' : Files) × Mirror
          (install (file_store marshal unmarshal failure read_dir fs) fresh rm r a).manager
          d'
  unfolding install
  install-Mirror rm d fresh r a m k =
      let id' : Text = if r.id == [] then fresh else r.id in
      let r' : Route = record r { id = id'; closer = some rm.next_chan; log_adapter = some a } in
      (
        (Persist.add marshal unmarshal failure read_dir fs d r').0,
        put-Mirror rm d r' (suc rm.next_chan) m k,
      )

  module _ (settles : Settles factories) where
    build-Mirror :
        (rm : RouteManager Files) (d : Files) (fresh : Text) (r : Route) (f : AdapterFactory)
        (p : Route × Result ℕ)
        → factories (adapter_type r) ≡ some f
        → f r ≡ p
        → Mirror rm d
        → (d' : Files) × Mirror
            (build (file_store marshal unmarshal failure read_dir fs) factories fresh rm p).manager
            d'
    build-Mirror rm d fresh r f (r', err x) e q m = (d, m)
    build-Mirror rm d fresh r f (r', ok a) e q m =
        install-Mirror rm d fresh r' a m (λ s h. settles r r' s f a e q h)

    add-Mirror :
        (rm : RouteManager Files) (d : Files) (fresh : Text) (r : Route)
        → Mirror rm d
        → (d' : Files) × Mirror
            (Manager.add
              (file_store marshal unmarshal failure read_dir fs)
              factories
              fresh
              rm
              r).manager
            d'
    unfolding Manager.add
    add-Mirror rm d fresh r m = elim (Option-cases (factories (adapter_type r))) [
      | inl e ↦ (d, rw (e, Manager.add) m)
      | inr (f, e) ↦ rw (e, Manager.add) (build-Mirror rm d fresh r f (f r) e refl m)
    ]

    run-Mirror : (rm : RouteManager Files) (d : Files) → Mirror rm d → Mirror (Manager.run rm).0 d
    unfolding Manager.run
    run-Mirror rm d m = record {
      kept = m.kept;
      writes = m.writes;
      removes = m.removes;
      same = m.same;
      named = m.named;
      settled = m.settled;
    }

    perform-Mirror :
        (c : Call) (rm : RouteManager Files) (d : Files)
        → Mirror rm d
        → (d' : Files) × Mirror (perform c rm) d'
    unfolding perform
    perform-Mirror (adding fresh r) rm d m = add-Mirror rm d fresh r m
    perform-Mirror (removing id) rm d m =
        ((Persist.remove marshal unmarshal failure read_dir fs d id).0, remove-Mirror rm d id m)
    perform-Mirror running rm d m = (d, run-Mirror rm d m)

    pub perform_all-Mirror :
        (cs : List Call) (rm : RouteManager Files) (d : Files)
        → Mirror rm d
        → (d' : Files) × Mirror (perform_all cs rm) d'
    unfolding perform_all
    perform_all-Mirror [] rm d m = (d, m)
    perform_all-Mirror (c ∷ cs) rm d m =
        let (d', m') = perform-Mirror c rm d m in perform_all-Mirror cs (perform c rm) d' m'

  -- What a manager is that has loaded an empty directory.
  pub empty-Mirror :
      (d : Files)
      → d.contents ≡ []
      → ((path : Text) → d.writable path ≡ true)
      → ((path : Text) → d.removable path ≡ true)
      → Mirror (record new_manager { persistor = some d }) d
  unfolding lookup
  empty-Mirror d e w x = record {
    kept = refl;
    writes = w;
    removes = x;
    same = λ id. rw e refl;
    named = λ id r q. cc;
    settled = λ id r s q h. absurd (ground arith);
  }

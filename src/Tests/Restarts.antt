-- ===== src/Tests/Restarts.antt =====
-- A manager that is started again.
use logspout.Prelude.{
  ◌≡◌, refl, sym, ap, ◌∙◌, true, List, [], ◌∷◌, ◌++◌, Option, none, some, Text, codes, text_key,
  ◌==◌, Result, ok, err, ℕ, if◌then◌else◌, arith, text_beq, Bool-cases, inl, inr, any,
}
use logspout.Map.{lookup, insert, delete, has}
use logspout.Text.Split.{any-Lacks}
use logspout.Router.Route.{Route, adapter_type}
use logspout.Router.Manager.{RouteManager, AdapterFactory, new_manager, load}
use logspout.Router.Manager
use logspout.Router.Persist.{Files, filename, file_store}
use logspout.Router.Persist
use logspout.Router.Persist.Store.{filename_same}
use logspout.Router.Persist.Mirror.{core, Call, adding, removing, running, perform_all}
use logspout.Router.Persist.Restart.{stored, kept, opened, restart}
use logspout.Tests.Data.{plain_route}

abbrev route_a : Route
route_a = record plain_route { id = codes "a"; address = codes "host:2" }

abbrev route_b : Route
route_b = record plain_route { id = codes "b" }

abbrev encode : Route → Text
encode r = r.address

abbrev decode : Text → Result Route
decode text = ok (record plain_route { id = codes "a"; address = text })

abbrev missing : Text → Text
missing path = codes "open " ++ path

abbrev routes_dir : Text
routes_dir = codes "/routes"

abbrev listing : Files → Text → Result (List Text)
listing d path = ok (codes "a.json" ∷ [])

-- An adapter that asks for an address.
abbrev reach : AdapterFactory
reach r = if r.address == [] then (r, err (codes "no address")) else (r, ok 3)

abbrev any_adapter : Text → Option AdapterFactory
any_adapter name = some reach

reach-again :
    (r r' s : Route) (f : AdapterFactory) (a : ℕ)
    → any_adapter (adapter_type r) ≡ some f
    → f r ≡ (r', ok a)
    → core s ≡ core r'
    → (g : AdapterFactory) × (c : ℕ) × (any_adapter (adapter_type s) ≡ some g) × (g s ≡ (s, ok c))
reach-again r r' s f a e q k =
    let same : s.address ≡ r'.address = ap (λ x. x.address) k in
    let e' : reach ≡ f = cc in
    let q' : reach r ≡ (r', ok a) = ap (λ h. h r) e' ∙ q in
    elim (Bool-cases (r.address == [])) [
      | inl n ↦ absurd (ground (arith, q', n))
      | inr n ↦
          let left : r ≡ r' = ground (arith, q', n) in
          let at : s.address ≡ r.address = same ∙ ap (λ x. x.address) (sym left) in
          (reach, 3, refl, rw at (rw n refl))
    ]

abbrev empty_dir : Files
empty_dir = record { contents = []; writable = λ path. true; removable = λ path. true }

abbrev left_dir : Files
left_dir = record empty_dir { contents = (codes "/routes/a.json", codes "host:2") ∷ [] }

abbrev calls : List Call
calls = adding [] route_a ∷ adding [] route_b ∷ running ∷ removing (codes "b") ∷ []

a_left :
    (perform_all encode decode missing listing routes_dir any_adapter calls
      (opened empty_dir)).persistor
    ≡ some left_dir
unfolding perform_all Manager.add Manager.remove Manager.run Persist.add Persist.remove insert
    delete has lookup filename text_beq Manager.install
a_left = refl

abbrev held_a : Route
held_a = record route_a { log_adapter = some 3; closer = some 0 }

table_left :
    (perform_all encode decode missing listing routes_dir any_adapter calls
      (opened empty_dir)).routes
    ≡ (codes "a", held_a) ∷ []
unfolding perform_all Manager.add Manager.remove Manager.run Persist.add Persist.remove insert
    delete has lookup filename text_beq Manager.install
table_left = refl

held_decodes :
    (id : Text) (r : Route)
    → lookup id ((codes "a", held_a) ∷ []) ≡ some r
    → decode (encode r) ≡ ok (stored r)
unfolding lookup
held_decodes id r h = elim (Bool-cases (codes "a" == id)) [
  | inl q ↦ let e : held_a ≡ r = ground (arith, q) in rw (← e) refl
  | inr q ↦ absurd (ground (arith, q))
]

only_a :
    (id : Text) (r : Route)
    → Manager.get
        (perform_all encode decode missing listing routes_dir any_adapter calls (opened empty_dir))
        id
      ≡ some r
    → decode (encode r) ≡ ok (stored r)
unfolding Manager.get
only_a id r e = held_decodes id r (ap (λ m. lookup id m) (sym table_left) ∙ e)

only_a_json :
    (id : Text)
    → any (λ i. i == id) (codes "a" ∷ []) ≡ has (filename routes_dir id) left_dir.contents
unfolding has lookup
only_a_json id =
    let same : (codes "/routes/a.json" == filename routes_dir id) ≡ (codes "a" == id) =
      unfold filename in filename_same routes_dir (codes "a") id in
    ground (arith, same)

restart_example :
    ((load
        (file_store encode decode missing listing routes_dir)
        any_adapter
        (λ n. [])
        new_manager
        left_dir).1
      ≡ none)
    × ((id : Text)
        → kept (
            Manager.get
              (load
                (file_store encode decode missing listing routes_dir)
                any_adapter
                (λ n. [])
                new_manager
                left_dir).0
              id)
          ≡ kept (
              Manager.get
                (perform_all encode decode missing listing routes_dir any_adapter calls
                  (opened empty_dir))
                id))
restart_example =
    restart encode decode missing listing routes_dir any_adapter reach-again (λ n. []) calls
      empty_dir left_dir (codes "a" ∷ []) refl (λ path. refl) (λ path. refl) a_left only_a refl
      ((any-Lacks (codes "a") b'.' refl, λ e. cc), tt) only_a_json

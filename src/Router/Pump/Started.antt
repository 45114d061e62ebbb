-- ===== src/Router/Pump/Started.antt =====
-- Who is told of an event, and that the messages of a container that starts reach the routes that
-- take it.
use logspout.Prelude.{
  ℕ, ◌≡◌, refl, ap, ◌∙◌, Bool, true, false, not, ◌&&◌, List, [], ◌∷◌, some, Text, text_key, nat_key,
  ◌==◌, eq_iff, eq_refl, if◌then◌else◌, map, any, arith,
}
use logspout.Cfg.{Env}
use logspout.Map.{Map, lookup, delete, has, keys, has-delete}
use logspout.Map.Lookup.{lookup-insert_self}
use logspout.Router.Message.{Container, Message}
use logspout.Router.Route.{Route, match_message}
use logspout.Router.Pump.{normal_id, new_container_pump, add}
use logspout.Router.Pump.Send.{receives, receives-add-remove}
use logspout.Router.Pump.Table.{LogsPump, put, pump_logs, selects, visit}
use logspout.Router.Pump.Events.{
  Event, Update, told, timed_out, drop_all, update, starts, pump_and_tell,
}

abbrev listed : ℕ → List ℕ → Bool
listed u us = any (λ v. v == u) us

listed-keys : (u : ℕ) (m : Map {0, 0} ℕ Unit) → listed u (keys m) ≡ has u m
unfolding has lookup
listed-keys u [] = refl
listed-keys u ((v, x) ∷ m) = ground (arith, listed-keys u m)

listed-told :
    (ready : ℕ → Bool) (u : ℕ) (us : List ℕ) → listed u (told ready us) ≡ (listed u us && ready u)
unfolding told
listed-told ready u [] = refl
listed-told ready u (v ∷ us) =
    ground (arith, listed-told ready u us, eq_iff v u, ap ready {x = v} {y = u})

listed-timed_out :
    (ready : ℕ → Bool) (u : ℕ) (us : List ℕ)
    → listed u (timed_out ready us) ≡ (listed u us && not (ready u))
unfolding timed_out
listed-timed_out ready u [] = refl
listed-timed_out ready u (v ∷ us) =
    ground (arith, listed-timed_out ready u us, eq_iff v u, ap ready {x = v} {y = u})

has-drop_all :
    (u : ℕ) (us : List ℕ) (m : Map {0, 0} ℕ Unit)
    → has u (drop_all us m) ≡ (if listed u us then false else has u m)
unfolding drop_all
has-drop_all u [] m = refl
has-drop_all u (v ∷ us) m = ground (arith, has-drop_all u us (delete v m), has-delete v u m)

listed-map :
    (u : ℕ) (x : Update) (us : List ℕ)
    → any (λ (d : ℕ × Update). d.0 == u) (map (λ v. (v, x)) us) ≡ listed u us
listed-map u x [] = refl
listed-map u x (v ∷ us) = ground (arith, listed-map u x us)

-- Is a route's channel sent an update of the pump `i`?
abbrev pub is_told : ℕ → ℕ → List (ℕ × Update) → Bool
is_told u i ds = any (λ (d : ℕ × Update). d.0 == u && d.1.pump == i) ds

is_told-map :
    (u i : ℕ) (e : Event) (us : List ℕ)
    → is_told u i (map (λ v. (v, record { event = e; pump = i })) us) ≡ listed u us
is_told-map u i e [] = refl
is_told-map u i e (v ∷ us) = ground (arith, is_told-map u i e us, eq_refl i)

-- An event of a container with a pump reaches every route that is listening and takes it within a
-- second; a route that does not is dropped, and no other is.
pub update_lem :
    (ready : ℕ → Bool) (e : Event) (p : LogsPump) (i u : ℕ)
    → lookup (normal_id e.id) p.pumps ≡ some i
    → (is_told u i (update ready e p).1 ≡ (has u p.routes && ready u))
      × (has u (update ready e p).0.routes ≡ (has u p.routes && ready u))
unfolding update
update_lem ready e p i u h =
    rw (h, update)
      (
        is_told-map u i e (told ready (keys p.routes))
            ∙ listed-told ready u (keys p.routes)
            ∙ ap (λ b. b && ready u) (listed-keys u p.routes),
        ground (
          arith,
          has-drop_all u (timed_out ready (keys p.routes)) p.routes,
          listed-timed_out ready u (keys p.routes),
          listed-keys u p.routes,
        ),
      )

-- The pump that `pump_logs` makes.
lookup-pump_logs :
    (env : Env) (id : Text) (c : Container) (p : LogsPump)
    → starts env id c p ≡ true
    → lookup (normal_id id) (pump_logs env id c p).pumps ≡ some p.next
unfolding pump_logs put starts
lookup-pump_logs env id c p h = ground (arith, lookup-insert_self (normal_id id) p.next p.pumps)

store-pump_logs :
    (env : Env) (id : Text) (c : Container) (p : LogsPump)
    → starts env id c p ≡ true
    → ((pump_logs env id c p).store p.next ≡ new_container_pump c)
      × ((pump_logs env id c p).routes ≡ p.routes)
unfolding pump_logs put starts
store-pump_logs env id c p h = ground (arith, eq_refl p.next)

store-update : (ready : ℕ → Bool) (e : Event) (p : LogsPump) → (update ready e p).0.store ≡ p.store
unfolding update
store-update ready e p = ground arith

-- The route `r`, with the logstream `ls`, visits a pump.
visit-store :
    (r : Route) (ls i : ℕ) (p : LogsPump) (ds : List ℕ) (c : Container)
    → p.store i ≡ new_container_pump c
    → selects r (p.store i).container ≡ some true
    → (visit r ls i (p, ds)).1.0.store i ≡ add (new_container_pump c) ls r
unfolding visit put
visit-store r ls i p ds c h s = rw (s, visit) (rw (eq_refl i, h) refl)

visit-receives :
    (r : Route) (ls i : ℕ) (p : LogsPump) (ds : List ℕ) (c : Container) (m : Message)
    → p.store i ≡ new_container_pump c
    → selects r c ≡ some true
    → receives ls ((visit r ls i (p, ds)).1.0.store i) m ≡ match_message r m.source
unfolding new_container_pump
visit-receives r ls i p ds c m h s =
    ap (λ cp. receives ls cp m)
      (visit-store r ls i p ds c h (ap (λ cp. selects r cp.container) h ∙ s))
    ∙ (receives-add-remove (new_container_pump c) ls r ls m tt).0
    ∙ rw (eq_refl ls) refl

pump_and_tell-starts :
    (env : Env) (ready : ℕ → Bool) (e : Event) (c : Container) (p : LogsPump)
    → starts env e.id c p ≡ true
    → pump_and_tell env ready e c p ≡ update ready e (pump_logs env e.id c p)
unfolding pump_and_tell
pump_and_tell-starts env ready e c p h = ground arith

-- When a container starts that is not to be left out and has no pump yet, a route that listens and is
-- ready is told of its new pump; if the route takes the container, then from its visit on it receives
-- of the pump's messages those that it matches.
pub start-receives :
    (env : Env) (ready : ℕ → Bool) (e : Event) (c : Container) (p : LogsPump) (r : Route) (ls u : ℕ)
    (ds : List ℕ) (m : Message)
    → starts env e.id c p ≡ true
    → has u p.routes ≡ true
    → ready u ≡ true
    → selects r c ≡ some true
    → (is_told u p.next (pump_and_tell env ready e c p).1 ≡ true)
      × (receives ls
            ((visit r ls p.next ((pump_and_tell env ready e c p).0, ds)).1.0.store p.next)
            m
          ≡ match_message r m.source)
start-receives env ready e c p r ls u ds m st hu hr s =
    let p₁ : LogsPump = pump_logs env e.id c p in
    let (made, same) = store-pump_logs env e.id c p st in
    rw (pump_and_tell-starts env ready e c p st) (
      (update_lem ready e p₁ p.next u (lookup-pump_logs env e.id c p st)).0
          ∙ ap (λ us. has u us && ready u) same
          ∙ rw (hu, hr) refl,
      visit-receives r ls p.next (update ready e p₁).0 ds c m
          (ap (λ f. f p.next) (store-update ready e p₁) ∙ made) s,
    )

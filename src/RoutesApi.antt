-- ===== src/RoutesApi.antt =====
-- routesapi/routesapi.go: the routes over HTTP. A request is one that `mux` has matched with a
-- handler; JSON and the answer of `http.NotFound` are parameters.
pub mod Effects
use logspout.Router.Manager.Blocking.{passes}
use logspout.Prelude.{
  ℕ, Bool, true, false, List, [], ◌∷◌, ◌++◌, Option, none, some, Text, codes, Result, ok, err,
  if◌then◌else◌,
}
use logspout.Router.Route.{Route}
use logspout.Router.Manager.{
  RouteStore, AdapterFactory, RouteManager, Effect, Outcome, get, get_all, add, remove,
}

pub data Request : Type 0 where
  get_route : Text → Request
  delete_route : Text → Request
  get_routes : Request
  post_route : Text → Request

pub record Response : Type 0 where
  pub status : ℕ
  pub json : Bool
  pub body : Text

-- What a handler leaves: its answer, the manager, and what it did to the routing goroutines.
pub record Served (S : Type 0) : Type 0 where
  pub response : Response
  pub manager : RouteManager S
  pub effects : List Effect

-- What is answered, where `waits` says which closers are waited at: the answer is written after `Add`
-- or `Remove` has sent on a closer, and a send that no one waits for never ends.
abbrev pub answer : {S : Type 0} → (ℕ → Bool) → Served S → Option Response
answer waits s = if passes waits s.effects then some s.response else none

-- The encoding of JSON, and what `http.NotFound` writes.
pub record Codec : Type 0 where
  pub marshal : Route → Text
  pub marshal_all : List Route → Text
  pub unmarshal : Text → Result Route
  pub not_found : Text

-- http.Error(w, text, http.StatusBadRequest)
abbrev pub bad_request : Text → Response
bad_request text = record { status = 400; json = false; body = text ++ codes "\n" }

module _ {S : Type 0} (codec : Codec) (store : RouteStore S)
    (factories : Text → Option AdapterFactory) (fresh : Text) where
  abbrev pub not_found : Response
  not_found = record { status = 404; json = false; body = codec.not_found }

  abbrev pub shown : Option Route → Response
  shown none = not_found
  shown (some r) = record { status = 200; json = false; body = codec.marshal r ++ codes "\n" }

  -- GET /routes/{id}
  unfoldable pub serve_get : RouteManager S → Text → Response
  serve_get rm id = shown (get rm id)

  -- DELETE /routes/{id}
  unfoldable pub serve_delete : RouteManager S → Text → Served S
  serve_delete rm id =
      let (rm', there, es) = remove store rm id in
      record {
        response = if there then record { status = 200; json = false; body = [] } else not_found;
        manager = rm';
        effects = es;
      }

  -- GET /routes
  unfoldable pub serve_get_all : RouteManager S → Response
  serve_get_all rm = record {
    status = 200;
    json = true;
    body = codec.marshal_all (get_all rm) ++ codes "\n";
  }

  -- The answer to what `Add` made of the route.
  abbrev pub added : Outcome S → Option Text → Served S
  added o (some e) = record {
    response = bad_request (codes "Bad route: " ++ e);
    manager = o.manager;
    effects = o.effects;
  }
  added o none = record {
    response = record { status = 201; json = true; body = codec.marshal o.route ++ codes "\n" };
    manager = o.manager;
    effects = o.effects;
  }

  abbrev pub decoded : RouteManager S → Result Route → Served S
  decoded rm (err e) = record {
    response = bad_request (codes "Bad request: " ++ e);
    manager = rm;
    effects = [];
  }
  decoded rm (ok r) = let o = add store factories fresh rm r in added o o.error

  -- POST /routes
  unfoldable pub serve_post : RouteManager S → Text → Served S
  serve_post rm body = decoded rm (codec.unmarshal body)

  abbrev pub unchanged : RouteManager S → Response → Served S
  unchanged rm response = record { response = response; manager = rm; effects = [] }

  unfoldable pub serve : RouteManager S → Request → Served S
  unfolding serve_get serve_delete serve_get_all serve_post
  serve rm (get_route id) = unchanged rm (serve_get rm id)
  serve rm (delete_route id) = serve_delete rm id
  serve rm get_routes = unchanged rm (serve_get_all rm)
  serve rm (post_route body) = serve_post rm body

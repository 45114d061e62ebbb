-- ===== src/Tests/Apis.antt =====
-- Runs and witnesses for the routes API.
use logspout.Text.{split}
use logspout.Prelude.{
  false, ◌≡◌, ◌⊎◌, refl, [], ◌∷◌, ◌++◌, Text, codes, text_key, Result, ok, err, text_beq,
}
use logspout.Map.{lookup, insert}
use logspout.Router.Route.{Route, adapter_type}
use logspout.Router.Manager.{add, install, get}
use logspout.RoutesApi.{Codec, get_route, post_route, serve}
use logspout.Router.Manager.Effects.{created}
use logspout.RoutesApi.Effects.{Created, Refused, serve-post_route}
use logspout.Tests.Data.{plain_route}
use logspout.Tests.Routing.{shelf, raw_only, fresh, start, one_route}

-- A route is encoded as its id; every body but the empty one is the plain route.
abbrev decode_plain : Text → Result Route
decode_plain [] = err (codes "EOF")
decode_plain (c ∷ s) = ok plain_route

abbrev codec : Codec
codec = record {
  marshal = λ r. r.id;
  marshal_all = λ rs. [];
  unmarshal = decode_plain;
  not_found = codes "404 page not found\n";
}

statuses :
    ((serve codec shelf raw_only fresh start (post_route (codes "{}"))).response.status ≡ 201)
    × ((serve codec shelf raw_only fresh start (post_route [])).response.status ≡ 400)
    × ((serve codec shelf raw_only fresh start (get_route fresh)).response.status ≡ 404)
    × ((serve codec shelf raw_only fresh one_route (get_route fresh)).response.body
        ≡ fresh ++ codes "\n")
unfolding serve add text_beq adapter_type split install get lookup insert
statuses = (refl, refl, refl, refl)

serve-post_route_example :
    Created codec shelf raw_only fresh []
      (λ c. false)
      start
      (serve codec shelf raw_only fresh start (post_route (codes "{}")))
    ⊎ Refused codec shelf raw_only fresh []
        (λ c. false)
        start
        (serve codec shelf raw_only fresh start (post_route (codes "{}")))
serve-post_route_example =
    serve-post_route codec shelf raw_only fresh [] (λ c. false) start created (codes "{}")

abbrev id_a : Text
id_a = codes "a"

-- ===== src/Tests/Stores.antt =====
-- Runs and witnesses for the file store, with an encoding that keeps a route's address.
use logspout.Prelude.{true, false, List, [], ◌∷◌, ◌++◌, Text, codes, text_key, Result, ok}
use logspout.Router.Route.{Route}
use logspout.Router.Persist.{Files}
use logspout.Tests.Data.{plain_route}

abbrev encode : Route → Text
encode r = r.address

abbrev decode : Text → Result Route
decode text = ok (record plain_route { address = text })

abbrev missing : Text → Text
missing path = codes "open " ++ path

abbrev listing : Files → Text → Result (List Text)
listing d path = ok []

abbrev one_file : Files
one_file = record {
  contents = (codes "/routes/a.json", codes "host:2") ∷ [];
  writable = λ path. true;
  removable = λ path. false;
}

abbrev route_a : Text
route_a = codes "a"

abbrev route_b : Route
route_b = record plain_route { id = codes "b" }

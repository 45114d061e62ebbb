-- ===== src/Router/Persist.antt =====
-- router/persist.go: the routes kept as JSON files in a directory. The file system has the contents
-- of the files, and which paths may be written and removed; the encoder and decoder of JSON are
-- parameters, and so are the texts of the system's errors and the listing of the directory.
pub mod Store
pub mod Mirror
pub mod Restart
use logspout.Prelude.{
  Bool, true, false, List, [], ◌∷◌, ◌++◌, Option, none, some, Text, codes, text_key, ◌==◌,
  if◌then◌else◌, Result, ok, err,
}
use logspout.Map.{Map, lookup, insert, delete, has}
use logspout.Text.{split}
use logspout.Router.Route.{Route}
use logspout.Router.Manager.{RouteStore}

pub record Files : Type 0 where
  pub contents : Map Text Text
  pub writable : Text → Bool
  pub removable : Text → Bool

-- Filename
unfoldable pub filename : Text → Text → Text
filename fs id = fs ++ (codes "/" ++ (id ++ codes ".json"))

module _ (marshal : Route → Text) (unmarshal : Text → Result Route) (failure : Text → Text)
    (read_dir : Files → Text → Result (List Text)) (fs : Text) where
  unfoldable pub get : Files → Text → Result Route
  get d id = elim (lookup (filename fs id) d.contents) [
    | none ↦ err (failure (filename fs id))
    | some text ↦ unmarshal text
  ]

  abbrev pub with_route : Result Route → List Route → List Route
  with_route (err e) rs = rs
  with_route (ok r) rs = r ∷ rs

  abbrev pub with_file : Files → List Text → List Route → List Route
  with_file d (id ∷ ext ∷ _) rs = if ext == codes "json" then with_route (get d id) rs else rs
  with_file d _ rs = rs

  unfoldable pub read_all : Files → List Text → List Route
  read_all d [] = []
  read_all d (name ∷ names) = with_file d (split name b'.') (read_all d names)

  unfoldable pub get_all : Files → Result (List Route)
  get_all d = elim (read_dir d fs) [ err e ↦ err e | ok names ↦ ok (read_all d names) ]

  -- Add, with its error
  unfoldable pub add : Files → Route → Files × Option Text
  add d r =
      if d.writable (filename fs r.id)
      then (record d { contents = insert (filename fs r.id) (marshal r) d.contents }, none)
      else (d, some (failure (filename fs r.id)))

  unfoldable pub remove : Files → Text → Files × Bool
  remove d id =
      if has (filename fs id) d.contents
      then if d.removable (filename fs id)
        then (record d { contents = delete (filename fs id) d.contents }, false)
        else (d, true)
      else (d, false)

  -- The store, as the interface that the route manager keeps its routes in.
  abbrev pub file_store : RouteStore Files
  file_store = record { get = get; get_all = get_all; add = add; remove = remove }

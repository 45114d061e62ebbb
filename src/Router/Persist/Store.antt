-- ===== src/Router/Persist/Store.antt =====
-- What the file store keeps: a route that is added is what `get` decodes, and what `remove` reports.
use logspout.Prelude.{
  ◌≡◌, refl, ap, true, not, ◌&&◌, List, [], ◌∷◌, ◌++◌, Text, codes, text_key, ◌==◌, eq_iff,
  if◌then◌else◌, Result, arith, length, length-append,
}
use logspout.Map.{has, lookup-insert}
use logspout.Router.Route.{Route}
use logspout.Router.Persist.{Files, filename, get, add, remove}

append-cancel_left : (a x y : Text) → a ++ x ≡ a ++ y → x ≡ y
append-cancel_left [] x y h = h
append-cancel_left (c ∷ a) x y h = append-cancel_left a x y (cc h)

append-cancel_right : (x y a : Text) → x ++ a ≡ y ++ a → x ≡ y
append-cancel_right [] [] a h = refl
append-cancel_right [] (d ∷ y) a h = absurd (omega (arith, ap length h, length-append (d ∷ y) a))
append-cancel_right (c ∷ x) [] a h = absurd (omega (arith, ap length h, length-append (c ∷ x) a))
append-cancel_right (c ∷ x) (d ∷ y) a h = cc (h, append-cancel_right x y a (cc h))

filename_inj : (fs i j : Text) → filename fs i ≡ filename fs j → i ≡ j
unfolding filename
filename_inj fs i j h =
    append-cancel_right i j (codes ".json")
      (append-cancel_left (codes "/") _ _ (append-cancel_left fs _ _ h))

pub filename_same : (fs i j : Text) → (filename fs i == filename fs j) ≡ (i == j)
filename_same fs i j = ground (
  arith,
  eq_iff (filename fs i) (filename fs j),
  eq_iff i j,
  filename_inj fs i j,
  ap (filename fs) {x = i} {y = j},
)

module _ (marshal : Route → Text) (unmarshal : Text → Result Route) (failure : Text → Text)
    (read_dir : Files → Text → Result (List Text)) (fs : Text) where
  -- After Add has written a route, Get of its id decodes what was encoded, and Get of another id
  -- returns what it did before.
  pub get-add_file :
      (d : Files) (r : Route) (j : Text)
      → d.writable (filename fs r.id) ≡ true
      → get marshal unmarshal failure read_dir fs
          (add marshal unmarshal failure read_dir fs d r).0
          j
        ≡ (if r.id == j
            then unmarshal (marshal r)
            else get marshal unmarshal failure read_dir fs d j)
  unfolding get add
  get-add_file d r j w = ground (
    arith,
    w,
    lookup-insert (filename fs r.id) (marshal r) (filename fs j) d.contents,
    filename_same fs r.id j,
  )

  -- Remove returns true exactly if the file is there and the system fails to remove it.
  pub remove_fails :
      (d : Files) (id : Text)
      → (remove marshal unmarshal failure read_dir fs d id).1
        ≡ has (filename fs id) d.contents && not (d.removable (filename fs id))
  unfolding remove
  remove_fails d id = ground arith

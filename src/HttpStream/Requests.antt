-- ===== src/HttpStream/Requests.antt =====
-- What a request for logs selects, and when it is answered 404.
use logspout.Prelude.{
  ℕ, ◌≡◌, ◌≢◌, ◌↔◌, ◌≤◌, ◌<◌, refl, Bool, true, false, [], ◌∷◌, none, some, Text, codes, text_key,
  nat_key, ◌==◌, eq_iff, length, length-take, arith, if◌then◌else◌, inl, inr, Bool-cases,
  Option-cases,
}
use logspout.Map.{Map}
use logspout.Text.{has_prefix}
use logspout.Glob.{path_match}
use logspout.Router.Message.{Container}
use logspout.Router.Route.{is_nil, match_container, rejects}
use logspout.Router.Pump.{normal_id, normal_name}
use logspout.Router.Pump.Table.{selects}
use logspout.HttpStream.{Request, requested, not_found, logs_handler, new_route}

abbrev pub matches : Text → Text → Bool
matches pattern name = elim (path_match pattern name) [ none ↦ false | some b ↦ b ]

-- Does the request ask for the container with this short id and this name?
abbrev pub asks_for : Request → Text → Text → Bool
asks_for req id name =
    if is_nil req.value
    then true
    else if req.predicate == codes "id"
    then has_prefix id req.value
    else if req.predicate == codes "name"
    then matches req.value name
    else true

no_pattern : (s : Text) → rejects [] s ≡ false
unfolding rejects path_match
no_pattern s = refl

match_container-new_route :
    (id name : Text) (labels : Map Text Text) → match_container new_route id name labels ≡ true
unfolding match_container
match_container-new_route id name labels = refl

match_container-by_id :
    (v id name : Text) (labels : Map Text Text)
    → is_nil v ≡ false
    → match_container (record new_route { filter_id = v }) id name labels ≡ has_prefix id v
unfolding match_container
match_container-by_id [] id name labels h = cc
match_container-by_id (c ∷ v) id name labels h = ground (arith, no_pattern name)

match_container-by_name :
    (v id name : Text) (labels : Map Text Text)
    → is_nil v ≡ false
    → match_container (record new_route { filter_name = v }) id name labels ≡ matches v name
unfolding match_container
match_container-by_name [] id name labels h = cc
match_container-by_name (c ∷ v) id name labels h = ground arith

-- The route of a request selects exactly the containers that it asks for: all, those whose short id
-- begins with the value, or those whose name the value matches as a pattern.
pub requested-match_container :
    (req : Request) (id name : Text) (labels : Map Text Text)
    → match_container (requested req) id name labels ≡ asks_for req id name
unfolding requested
requested-match_container req id name labels = elim (Bool-cases (is_nil req.value)) [
  | inl q ↦ rw q (match_container-new_route id name labels)
  | inr q ↦ elim (Bool-cases (req.predicate == codes "id")) [
    | inl e ↦ rw (q, e) (match_container-by_id req.value id name labels q)
    | inr e ↦ elim (Bool-cases (req.predicate == codes "name")) [
      | inl n ↦ rw (q, e, n) (match_container-by_name req.value id name labels q)
      | inr n ↦ rw (q, e, n) (match_container-new_route id name labels)
    ]
  ]
]

is_nil_iff : (s : Text) → (is_nil s ≡ true) ↔ (s ≡ [])
is_nil_iff [] = (λ h. refl, λ h. refl)
is_nil_iff (c ∷ s) = (λ h. cc, λ h. cc)

-- A request is answered 404 exactly if it asks for an id that no container with logs has; for any
-- other the logs are routed.
pub logs_handler-not_found_iff :
    (routing_from : Text → Bool) (closer_bi done : ℕ) (req : Request)
    → (logs_handler routing_from closer_bi done req ≡ not_found)
      ↔ ((req.value ≢ []) × (req.predicate ≡ codes "id") × (routing_from req.value ≡ false))
unfolding logs_handler
logs_handler-not_found_iff routing_from closer_bi done req =
    grind (arith, eq_iff req.predicate (codes "id"), is_nil_iff req.value)

nonempty : (s : Text) → 12 < length s → is_nil s ≡ false
nonempty [] h = absurd (omega arith)
nonempty (c ∷ s) h = refl

has_prefix-length : (s p : Text) → has_prefix s p ≡ true → length p ≤ length s
unfolding has_prefix
has_prefix-length s [] h = omega arith
has_prefix-length [] (c ∷ p) h = cc
has_prefix-length (d ∷ s) (c ∷ p) h = ground (arith, has_prefix-length s p)

length-normal_id : (id : Text) → length (normal_id id) ≤ 12
unfolding normal_id
length-normal_id id = ground (arith, length-take 12 id)

asks_for-long :
    (req : Request) (id name : Text)
    → req.predicate ≡ codes "id"
    → 12 < length req.value
    → asks_for req (normal_id id) name ≡ false
asks_for-long req id name p long = elim (Bool-cases (has_prefix (normal_id id) req.value)) [
  | inl q ↦
      absurd (omega (arith, has_prefix-length (normal_id id) req.value q, length-normal_id id))
  | inr q ↦ ground (arith, eq_iff req.predicate (codes "id"), nonempty req.value)
]

-- A request by an id of more than 12 bytes, such as a container's full id, selects no container,
-- since the ids that it is compared with are cut to 12: the cut of the request's id is never made.
pub long_id-selects :
    (req : Request) (c : Container)
    → req.predicate ≡ codes "id"
    → 12 < length req.value
    → selects (requested req) c ≢ some true
unfolding selects
long_id-selects req c p long h = elim (Option-cases (normal_name c.name)) [
  | inl e ↦ ground arith
  | inr (name, e) ↦ ground (
    arith,
    requested-match_container req (normal_id c.id) name c.labels,
    asks_for-long req c.id name p long,
  )
]

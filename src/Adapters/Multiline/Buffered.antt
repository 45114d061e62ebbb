-- ===== src/Adapters/Multiline/Buffered.antt =====
-- What is buffered: at most one entry for a container, under its id.
use logspout.Prelude.{
  ◌≡◌, refl, sym, ap, ◌∙◌, Bool, true, List, [], ◌∷◌, ◌++◌, append_assoc, append-nil, Option, none,
  some, Text, text_key, ◌==◌, if◌then◌else◌, arith, eq_iff, eq_refl, Bool-cases, inl, inr,
}
use logspout.Map.{Map, lookup, insert, delete, values}
use logspout.Map.Lookup.{
  Distinct, Distinct-insert, Distinct-delete, lookup-insert_inv, lookup-delete_inv,
}
use logspout.Router.Message.{Message}
use logspout.Adapters.Multiline.{flush}

-- The texts of a container's messages, in order.
abbrev pub lines_of : Text → List Message → List Text
lines_of c [] = []
lines_of c (m ∷ ms) =
    let rest = lines_of c ms in if m.container.id == c then m.text ∷ rest else rest

-- Each line with the separator behind it.
abbrev pub spell : Text → List Text → Text
spell sep [] = []
spell sep (l ∷ ls) = l ++ (sep ++ spell sep ls)

pub spell-append :
    (sep : Text) (xs ys : List Text) → spell sep (xs ++ ys) ≡ spell sep xs ++ spell sep ys
spell-append sep [] ys = refl
spell-append sep (x ∷ xs) ys = simp (spell-append sep xs ys, append_assoc)

pub lines_of-append :
    (c : Text) (xs ys : List Message) → lines_of c (xs ++ ys) ≡ lines_of c xs ++ lines_of c ys
lines_of-append c [] ys = refl
lines_of-append c (m ∷ xs) ys = ground (arith, lines_of-append c xs ys)

-- What is buffered for a container.
abbrev pub pending : Option Message → List Text
pending none = []
pending (some m) = m.text ∷ []

-- A container's messages are buffered under its id, and only if it is one of those that `on` names.
pub record Inv (on : Text → Bool) (buffers : Map Text Message) : Type 0 where
  pub distinct : Distinct buffers
  pub keyed :
      (id : Text) (m : Message)
      → lookup id buffers ≡ some m
      → (m.container.id ≡ id) × (on id ≡ true)

module _ (on : Text → Bool) where
  pub Inv-nil : Inv on []
  unfolding lookup
  Inv-nil = record { distinct = tt; keyed = λ id m h. cc }

  Inv-tail : (k : Text) (m : Message) (b : Map Text Message) → Inv on ((k, m) ∷ b) → Inv on b
  unfolding lookup
  Inv-tail k m b v = record {
    distinct = v.distinct.1;
    keyed = λ id w h. v.keyed id w (ground (arith, eq_iff k id, v.distinct.0));
  }

  pub Inv-insert :
      (k : Text) (m : Message) (b : Map Text Message)
      → m.container.id ≡ k
      → on k ≡ true
      → Inv on b
      → Inv on (insert k m b)
  Inv-insert k m b own h v = record {
    distinct = Distinct-insert k m b v.distinct;
    keyed = λ id w l. elim (lookup-insert_inv k id m w b l) [
      | inl (e, p) ↦ (ap (λ x. x.container.id) (sym p) ∙ own ∙ e, sym (ap on e) ∙ h)
      | inr (n, l') ↦ v.keyed id w l'
    ];
  }

  pub Inv-delete : (k : Text) (b : Map Text Message) → Inv on b → Inv on (delete k b)
  Inv-delete k b v = record {
    distinct = Distinct-delete k b v.distinct;
    keyed = λ id w l. v.keyed id w (lookup-delete_inv k id w b l).1;
  }

  -- Where a container has nothing buffered, none of the buffered messages is its own.
  pub lines_of-values :
      (c : Text) (b : Map Text Message) → Inv on b → lines_of c (values b) ≡ pending (lookup c b)
  unfolding lookup
  lines_of-values c [] v = refl
  lines_of-values c ((k, m) ∷ b) v = ground (
    arith,
    lines_of-values c b (Inv-tail k m b v),
    v.distinct.0,
    eq_iff k c,
    eq_iff m.container.id c,
    (v.keyed k m (ground (arith, eq_refl k))).0,
  )

  pub flush-absent :
      (due : Message → Bool) (c : Text) (b : Map Text Message)
      → lookup c b ≡ none
      → lookup c (flush due b).0 ≡ none
  unfolding flush lookup
  flush-absent due c [] h = refl
  flush-absent due c ((k, m) ∷ b) h = ground (arith, flush-absent due c b)

  -- A flush sends what it does not keep.
  pub flush_lines :
      (due : Message → Bool) (c : Text) (b : Map Text Message)
      → Inv on b
      → lines_of c (flush due b).1 ++ pending (lookup c (flush due b).0) ≡ pending (lookup c b)
  unfolding flush lookup
  flush_lines due c [] v = refl
  flush_lines due c ((k, m) ∷ b) v = ground (
    arith,
    flush_lines due c b (Inv-tail k m b v),
    v.distinct.0,
    eq_iff k c,
    eq_iff m.container.id c,
    (v.keyed k m (ground (arith, eq_refl k))).0,
    flush-absent due c b,
    append-nil (lines_of c (flush due b).1),
  )

  pub lookup-flush :
      (due : Message → Bool) (c : Text) (m : Message) (b : Map Text Message)
      → Distinct b
      → lookup c (flush due b).0 ≡ some m
      → lookup c b ≡ some m
  unfolding flush lookup
  lookup-flush due c m [] d h = h
  lookup-flush due c m ((k, w) ∷ b) d h =
      ground (arith, lookup-flush due c m b d.1, flush-absent due k b d.0, eq_iff k c)

  pub Distinct-flush :
      (due : Message → Bool) (b : Map Text Message) → Distinct b → Distinct (flush due b).0
  unfolding flush
  Distinct-flush due [] d = tt
  Distinct-flush due ((k, w) ∷ b) d = elim (Bool-cases (due w)) [
    | inl q ↦ rw q (Distinct-flush due b d.1)
    | inr q ↦ rw q (flush-absent due k b d.0, Distinct-flush due b d.1)
  ]

  pub Inv-flush : (due : Message → Bool) (b : Map Text Message) → Inv on b → Inv on (flush due b).0
  Inv-flush due b v = record {
    distinct = Distinct-flush due b v.distinct;
    keyed = λ id m h. v.keyed id m (lookup-flush due id m b v.distinct h);
  }

-- ===== src/Adapters/Multiline/Lines.antt =====
-- No line is lost, repeated, mixed with another container's or moved: for each container, what is
-- sent spells the lines that came in.
use mathlib.Core.Path.{subst}
use logspout.Prelude.{
  ◌≡◌, refl, sym, ap, ◌∙◌, Bool, true, false, List, [], ◌∷◌, ◌++◌, append_assoc, append-nil, Option,
  none, some, Text, text_key, arith, eq_iff, All, Bool-cases, Option-cases, inl, inr,
}
use logspout.Map.{lookup, values, lookup-insert, lookup-delete}
use logspout.Router.Message.{Message}
use logspout.Adapters.Multiline.{
  Adapter, multiline_container, is_first_line, is_last_line, extend, first_line, next_line,
  on_message, flushes, on_timer, Event, message, timer, step, run, stream,
}
use logspout.Adapters.Multiline.Buffered.{
  lines_of, spell, spell-append, lines_of-append, pending, Inv, Inv-nil, Inv-insert, Inv-delete,
  lines_of-values, flush_lines, Inv-flush,
}

-- The event brings a message for which `on` tells rightly whether its lines are collected.
abbrev pub Agrees : (Text → Bool) → Bool → Event → Type 0
Agrees on def (message m) = multiline_container m.container def ≡ on m.container.id
Agrees on def (timer now) = Unit

abbrev pub brought : Event → List Message
brought (message m) = m ∷ []
brought (timer now) = []

abbrev pub inputs : List Event → List Message
inputs [] = []
inputs (e ∷ es) = brought e ++ inputs es

module _ (on : Text → Bool) (c : Text) where
  first_line_lines :
      (a : Adapter) (m : Message) (o : Option Message)
      → lookup m.container.id a.buffers ≡ o
      → Inv on a.buffers
      → lines_of c (first_line a m o).1 ++ pending (lookup c (first_line a m o).0.buffers)
        ≡ pending (lookup c a.buffers) ++ lines_of c (m ∷ [])
  unfolding first_line
  first_line_lines a m none h v = ground (
    arith,
    lookup-insert m.container.id m c a.buffers,
    eq_iff m.container.id c,
    append-nil (pending (lookup c a.buffers)),
  )
  first_line_lines a m (some old) h v = ground (
    arith,
    lookup-insert m.container.id m c a.buffers,
    eq_iff m.container.id c,
    eq_iff old.container.id c,
    (v.keyed m.container.id old h).0,
    append-nil (pending (lookup c a.buffers)),
  )

  spell_extend : (sep x y : Text) → spell sep ((x ++ (sep ++ y)) ∷ []) ≡ spell sep (x ∷ y ∷ [])
  spell_extend sep x y = simp append_assoc

  next_line_lines :
      (a : Adapter) (m : Message) (o : Option Message)
      → lookup m.container.id a.buffers ≡ o
      → Inv on a.buffers
      → spell a.separator
          (lines_of c (next_line a m o).1 ++ pending (lookup c (next_line a m o).0.buffers))
        ≡ spell a.separator (pending (lookup c a.buffers) ++ lines_of c (m ∷ []))
  unfolding next_line
  next_line_lines a m none h v = ground (
    arith,
    lookup-insert m.container.id m c a.buffers,
    eq_iff m.container.id c,
    append-nil (pending (lookup c a.buffers)),
  )
  next_line_lines a m (some old) h v = ground (
    arith,
    lookup-insert m.container.id (extend a.separator old m) c a.buffers,
    lookup-delete m.container.id c a.buffers,
    eq_iff m.container.id c,
    eq_iff old.container.id c,
    (v.keyed m.container.id old h).0,
    append-nil (pending (lookup c a.buffers)),
    spell_extend a.separator old.text m.text,
  )

  -- A message that is not collected finds nothing buffered for its container.
  passed_lines :
      (a : Adapter) (m : Message)
      → on m.container.id ≡ false
      → Inv on a.buffers
      → lines_of c (m ∷ []) ++ pending (lookup c a.buffers)
        ≡ pending (lookup c a.buffers) ++ lines_of c (m ∷ [])
  passed_lines a m off v = elim (Option-cases (lookup c a.buffers)) [
    | inl e ↦ rw e (append-nil _)
    | inr (w, e) ↦ ground (
      arith,
      (v.keyed c w e).1,
      eq_iff m.container.id c,
      append-nil (pending (lookup c a.buffers)),
    )
  ]

  on_message_lines :
      (a : Adapter) (m : Message)
      → Agrees on a.enable_by_default (message m)
      → Inv on a.buffers
      → spell a.separator
          (lines_of c (on_message a m).1 ++ pending (lookup c (on_message a m).0.buffers))
        ≡ spell a.separator (pending (lookup c a.buffers) ++ lines_of c (m ∷ []))
  unfolding on_message
  on_message_lines a m g v = ground (
    arith,
    passed_lines a m,
    ap (spell a.separator) (first_line_lines a m (lookup m.container.id a.buffers) refl v),
    next_line_lines a m (lookup m.container.id a.buffers) refl v,
  )

  first_line-Inv :
      (a : Adapter) (m : Message) (o : Option Message)
      → on m.container.id ≡ true
      → Inv on a.buffers
      → Inv on (first_line a m o).0.buffers
  unfolding first_line
  first_line-Inv a m none h v = Inv-insert on m.container.id m a.buffers refl h v
  first_line-Inv a m (some old) h v = Inv-insert on m.container.id m a.buffers refl h v

  next_line-Inv :
      (a : Adapter) (m : Message) (o : Option Message)
      → lookup m.container.id a.buffers ≡ o
      → on m.container.id ≡ true
      → Inv on a.buffers
      → Inv on (next_line a m o).0.buffers
  unfolding next_line
  next_line-Inv a m none l h v = elim (Bool-cases (is_last_line a m)) [
    | inl q ↦ rw q v
    | inr q ↦ rw q (Inv-insert on m.container.id m a.buffers refl h v)
  ]
  next_line-Inv a m (some old) l h v = elim (Bool-cases (is_last_line a m)) [
    | inl q ↦ rw q (Inv-delete on m.container.id a.buffers v)
    | inr q ↦ rw q (
        Inv-insert on m.container.id (extend a.separator old m) a.buffers
          (v.keyed m.container.id old l).0 h v)
  ]

  on_message-Inv :
      (a : Adapter) (m : Message)
      → Agrees on a.enable_by_default (message m)
      → Inv on a.buffers
      → Inv on (on_message a m).0.buffers
  unfolding on_message
  on_message-Inv a m g v = elim (Bool-cases (multiline_container m.container a.enable_by_default)) [
    | inl q ↦ elim (Bool-cases (is_first_line a m)) [
      | inl f ↦ rw (q, f) (first_line-Inv a m (lookup m.container.id a.buffers) (sym g ∙ q) v)
      | inr f ↦ rw (q, f) (next_line-Inv a m (lookup m.container.id a.buffers) refl (sym g ∙ q) v)
    ]
    | inr q ↦ rw q v
  ]

  step-Inv :
      (a : Adapter) (e : Event)
      → Agrees on a.enable_by_default e
      → Inv on a.buffers
      → Inv on (step a e).0.buffers
  unfolding step on_timer
  step-Inv a (message m) g v = on_message-Inv a m g v
  step-Inv a (timer now) g v = Inv-flush on (flushes a now) a.buffers v

  step_lines :
      (a : Adapter) (e : Event)
      → Agrees on a.enable_by_default e
      → Inv on a.buffers
      → spell a.separator (lines_of c (step a e).1 ++ pending (lookup c (step a e).0.buffers))
        ≡ spell a.separator (pending (lookup c a.buffers) ++ lines_of c (brought e))
  unfolding step on_timer
  step_lines a (message m) g v = on_message_lines a m g v
  step_lines a (timer now) g v = ap (spell a.separator) (
      flush_lines on (flushes a now) c a.buffers v
      ∙ sym (append-nil (pending (lookup c a.buffers))))

  -- An event changes the buffers alone.
  step_settings :
      (a : Adapter) (e : Event) → (step a e).0 ≡ record a { buffers = (step a e).0.buffers }
  unfolding step on_message on_timer first_line next_line
  step_settings a (message m) = ground arith
  step_settings a (timer now) = refl

  splice :
      (x₁ x₂ l p' i p b : Text)
      → x₂ ++ l ≡ p' ++ i
      → x₁ ++ p' ≡ p ++ b
      → x₁ ++ (x₂ ++ l) ≡ p ++ (b ++ i)
  splice x₁ x₂ l p' i p b h k =
      ap (λ z. x₁ ++ z) h ∙ sym (append_assoc x₁ p' i) ∙ ap (λ z. z ++ i) k ∙ append_assoc p b i

  run_lines :
      (a : Adapter) (es : List Event)
      → All (Agrees on a.enable_by_default) es
      → Inv on a.buffers
      → spell a.separator (lines_of c (run a es).1 ++ lines_of c (values (run a es).0.buffers))
        ≡ spell a.separator (pending (lookup c a.buffers) ++ lines_of c (inputs es))
  unfolding run
  run_lines a [] g v = rw append-nil (ap (spell a.separator) (lines_of-values on c a.buffers v))
  run_lines a (e ∷ es) (g, gs) v =
      let a' = (step a e).0 in
      let same : a' ≡ record a { buffers = a'.buffers } = step_settings a e in
      let ih =
        run_lines a' es
          (subst (λ (b : Bool). All (Agrees on b) es) (sym (ap (λ x. x.enable_by_default) same)) gs)
          (step-Inv a e g v) in
      let rest =
        subst
          (λ (s : Text).
            spell s (lines_of c (run a' es).1 ++ lines_of c (values (run a' es).0.buffers))
            ≡ spell s (pending (lookup c a'.buffers) ++ lines_of c (inputs es)))
          (ap (λ x. x.separator) same) ih in
      simp (lines_of-append, append_assoc, spell-append)
        (splice (spell a.separator (lines_of c (step a e).1))
          (spell a.separator (lines_of c (run a' es).1))
          (spell a.separator (lines_of c (values (run a' es).0.buffers)))
          (spell a.separator (pending (lookup c a'.buffers)))
          (spell a.separator (lines_of c (inputs es)))
          (spell a.separator (pending (lookup c a.buffers)))
          (spell a.separator (lines_of c (brought e))) (simp spell-append at rest)
          (simp spell-append at (step_lines a e g v)))

-- For each container, what `Stream` sends spells the lines that it received, each followed by the
-- separator: none is lost, repeated, moved or given to another container, whatever the settings
-- and the times of the timer are, if a container's messages all agree on whether to collect.
pub stream_lines :
    (on : Text → Bool) (c : Text) (a : Adapter) (es : List Event)
    → All (Agrees on a.enable_by_default) es
    → a.buffers ≡ []
    → spell a.separator (lines_of c (stream a es)) ≡ spell a.separator (lines_of c (inputs es))
unfolding stream lookup
stream_lines on c a es g e = rw lines_of-append (
    run_lines on c a es g (rw e (Inv-nil on))
    ∙ ap (λ b. spell a.separator (pending (lookup c b) ++ lines_of c (inputs es))) e)

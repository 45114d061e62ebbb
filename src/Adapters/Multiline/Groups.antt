-- ===== src/Adapters/Multiline/Groups.antt =====
-- The entries that the lines of one container are grouped into, read from the last line back.
use logspout.Prelude.{
  ◌≡◌, refl, sym, ap, ◌∙◌, Bool, true, false, List, [], ◌∷◌, ◌++◌, append_assoc, Option, none, some,
  Text, text_key, arith, All, map, Bool-cases, inl, inr, eq_refl, if◌then◌else◌,
}
use logspout.Map.{Map, lookup, insert, delete, values}
use logspout.Router.Message.{Message}
use logspout.Adapters.Multiline.{
  Adapter, multiline_container, is_first_line, is_last_line, extend, first_line, next_line,
  on_message, Event, message, step, run, stream,
}

-- A line in front of the first of the entries behind it.
abbrev attach : Text → Message → List Message → List Message
attach sep m [] = m ∷ []
attach sep m (g ∷ gs) = record m { text = m.text ++ (sep ++ g.text) } ∷ gs

-- An entry begins at each first line.
pub groups_by_first : Text → (Message → Bool) → List Message → List Message
groups_by_first sep first [] = []
groups_by_first sep first (m ∷ []) = m ∷ []
groups_by_first sep first (m ∷ n ∷ ms) =
    let rest = groups_by_first sep first (n ∷ ms) in if first n then m ∷ rest else attach sep m rest

-- An entry ends at each last line.
pub groups_by_last : Text → (Message → Bool) → List Message → List Message
groups_by_last sep last [] = []
groups_by_last sep last (m ∷ ms) =
    let rest = groups_by_last sep last ms in if last m then m ∷ rest else attach sep m rest

extend_assoc :
    (sep : Text) (k m n : Message) → extend sep (extend sep k m) n ≡ extend sep k (extend sep m n)
extend_assoc sep k m n = ap (λ t. record k { text = t }) (simp append_assoc)

attach-attach :
    (sep : Text) (k m : Message) (gs : List Message)
    → attach sep (extend sep k m) gs ≡ attach sep k (attach sep m gs)
attach-attach sep k m [] = refl
attach-attach sep k m (g ∷ gs) = ap (λ x. x ∷ gs) (extend_assoc sep k m g)

stream_cons :
    (a : Adapter) (e : Event) (es : List Event)
    → stream a (e ∷ es) ≡ (step a e).1 ++ stream (step a e).0 es
unfolding stream run
stream_cons a e es = append_assoc (step a e).1 (run (step a e).0 es).1 _

run-state :
    (a : Adapter) (e : Event) (es : List Event)
    → (run a (e ∷ es)).0.buffers ≡ (run (step a e).0 es).0.buffers
unfolding run
run-state a e es = refl

-- Every message is of the container `c`, and its lines are collected.
abbrev pub Collected : Adapter → Text → Message → Type 0
Collected a c m =
    (m.container.id ≡ c) × (multiline_container m.container a.enable_by_default ≡ true)

module _ (a : Adapter) (c : Text) where
  abbrev holding : Map Text Message → Adapter
  holding b = record a { buffers = b }

  abbrev from : Map Text Message → List Message → List Message
  from b ms = stream (holding b) (map message ms)

  stream_nil : (b : Map Text Message) → from b [] ≡ values b
  unfolding stream run
  stream_nil b = refl

  -- The five ways in which a line is taken.
  starts :
      (m : Message) (ms : List Message)
      → Collected a c m
      → is_last_line a m ≡ false
      → from [] (m ∷ ms) ≡ from ((c, m) ∷ []) ms
  unfolding step on_message first_line next_line lookup insert is_first_line is_last_line
  starts m ms (own, on) l =
      stream_cons (holding []) (message m) (map message ms) ∙ rw own (ground arith)

  single :
      (m : Message) (ms : List Message)
      → Collected a c m
      → is_first_line a m ≡ false
      → is_last_line a m ≡ true
      → from [] (m ∷ ms) ≡ m ∷ from [] ms
  unfolding step on_message first_line next_line lookup is_first_line is_last_line
  single m ms (own, on) f l =
      stream_cons (holding []) (message m) (map message ms) ∙ rw own (ground arith)

  replaces :
      (old m : Message) (ms : List Message)
      → Collected a c m
      → is_first_line a m ≡ true
      → from ((c, old) ∷ []) (m ∷ ms) ≡ old ∷ from ((c, m) ∷ []) ms
  unfolding step on_message first_line lookup insert is_first_line
  replaces old m ms (own, on) f =
      stream_cons (holding ((c, old) ∷ [])) (message m) (map message ms)
      ∙ rw own (ground (arith, eq_refl c))

  continues :
      (old m : Message) (ms : List Message)
      → Collected a c m
      → is_first_line a m ≡ false
      → is_last_line a m ≡ false
      → from ((c, old) ∷ []) (m ∷ ms) ≡ from ((c, extend a.separator old m) ∷ []) ms
  unfolding step on_message next_line lookup insert is_first_line is_last_line
  continues old m ms (own, on) f l =
      stream_cons (holding ((c, old) ∷ [])) (message m) (map message ms)
      ∙ rw own (ground (arith, eq_refl c))

  finishes :
      (old m : Message) (ms : List Message)
      → Collected a c m
      → is_first_line a m ≡ false
      → is_last_line a m ≡ true
      → from ((c, old) ∷ []) (m ∷ ms) ≡ extend a.separator old m ∷ from [] ms
  unfolding step on_message next_line lookup delete is_first_line is_last_line
  finishes old m ms (own, on) f l =
      stream_cons (holding ((c, old) ∷ [])) (message m) (map message ms)
      ∙ rw own (ground (arith, eq_refl c))

  -- The entries that a buffered line and the lines behind it make.
  groups_step :
      (m n : Message) (ms : List Message)
      → is_first_line a n ≡ false
      → groups_by_first a.separator (is_first_line a) (m ∷ n ∷ ms)
        ≡ groups_by_first a.separator (is_first_line a) (extend a.separator m n ∷ ms)
  unfolding groups_by_first
  groups_step m n [] f = rw f
  groups_step m n (k ∷ ms) f = elim (Bool-cases (is_first_line a k)) [
    | inl q ↦ rw (f, q)
    | inr q ↦ rw (f, q) (sym (attach-attach a.separator m n _))
  ]

  not_last : (m : Message) → a.match_first_line ≡ true → is_last_line a m ≡ false
  unfolding is_last_line
  not_last m h = ground arith

  not_first : (m : Message) → a.match_first_line ≡ false → is_first_line a m ≡ false
  unfolding is_first_line
  not_first m h = ground arith

  from-groups_by_first :
      (old : Message) (ms : List Message)
      → a.match_first_line ≡ true
      → All (Collected a c) ms
      → from ((c, old) ∷ []) ms ≡ groups_by_first a.separator (is_first_line a) (old ∷ ms)
  unfolding groups_by_first
  from-groups_by_first old [] h all = stream_nil ((c, old) ∷ [])
  from-groups_by_first old (m ∷ ms) h (g, gs) = elim (Bool-cases (is_first_line a m)) [
    | inl f ↦ replaces old m ms g f ∙ ap (λ x. old ∷ x) (from-groups_by_first m ms h gs) ∙ rw f refl
    | inr f ↦
        continues old m ms g f (not_last m h)
        ∙ from-groups_by_first (extend a.separator old m) ms h gs
        ∙ sym (groups_step old m ms f)
  ]

  abbrev held : Option Message → Map Text Message
  held none = []
  held (some m) = (c, m) ∷ []

  abbrev attach_held : Option Message → List Message → List Message
  attach_held none gs = gs
  attach_held (some m) gs = attach a.separator m gs

  from-groups_by_last :
      (o : Option Message) (ms : List Message)
      → a.match_first_line ≡ false
      → All (Collected a c) ms
      → from (held o) ms ≡ attach_held o (groups_by_last a.separator (is_last_line a) ms)
  unfolding groups_by_last
  from-groups_by_last none [] h all = stream_nil []
  from-groups_by_last (some old) [] h all = stream_nil ((c, old) ∷ [])
  from-groups_by_last none (m ∷ ms) h (g, gs) = elim (Bool-cases (is_last_line a m)) [
    | inl l ↦
        single m ms g (not_first m h) l
        ∙ ap (λ x. m ∷ x) (from-groups_by_last none ms h gs)
        ∙ rw l refl
    | inr l ↦ starts m ms g l ∙ from-groups_by_last (some m) ms h gs ∙ rw l refl
  ]
  from-groups_by_last (some old) (m ∷ ms) h (g, gs) = elim (Bool-cases (is_last_line a m)) [
    | inl l ↦
        finishes old m ms g (not_first m h) l
        ∙ ap (λ x. extend a.separator old m ∷ x) (from-groups_by_last none ms h gs)
        ∙ rw l refl
    | inr l ↦
        continues old m ms g (not_first m h) l
        ∙ from-groups_by_last (some (extend a.separator old m)) ms h gs
        ∙ rw l (attach-attach a.separator old m (groups_by_last a.separator (is_last_line a) ms))
  ]

  from-first :
      (ms : List Message)
      → a.match_first_line ≡ true
      → All (Collected a c) ms
      → from [] ms ≡ groups_by_first a.separator (is_first_line a) ms
  unfolding groups_by_first
  from-first [] h all = stream_nil []
  from-first (m ∷ ms) h (g, gs) = starts m ms g (not_last m h) ∙ from-groups_by_first m ms h gs

  -- A line leaves one entry buffered, where the pattern marks first lines.
  replaced :
      (old m : Message)
      → Collected a c m
      → is_first_line a m ≡ true
      → (step (holding ((c, old) ∷ [])) (message m)).0 ≡ holding ((c, m) ∷ [])
  unfolding step on_message first_line lookup insert is_first_line
  replaced old m (own, on) f = rw own (ground (arith, eq_refl c))

  continued :
      (old m : Message)
      → Collected a c m
      → is_first_line a m ≡ false
      → is_last_line a m ≡ false
      → (step (holding ((c, old) ∷ [])) (message m)).0
        ≡ holding ((c, extend a.separator old m) ∷ [])
  unfolding step on_message next_line lookup insert is_first_line is_last_line
  continued old m (own, on) f l = rw own (ground (arith, eq_refl c))

  -- A line leaves one entry buffered, where the pattern marks first lines.
  held_on :
      (old m : Message)
      → Collected a c m
      → a.match_first_line ≡ true
      → (new : Message) × ((step (holding ((c, old) ∷ [])) (message m)).0 ≡ holding ((c, new) ∷ []))
  held_on old m g h = elim (Bool-cases (is_first_line a m)) [
    | inl f ↦ (m, replaced old m g f)
    | inr f ↦ (extend a.separator old m, continued old m g f (not_last m h))
  ]

  held_first :
      (m : Message)
      → Collected a c m
      → is_last_line a m ≡ false
      → (step (holding []) (message m)).0 ≡ holding ((c, m) ∷ [])
  unfolding step on_message first_line next_line lookup insert is_first_line is_last_line
  held_first m (own, on) l = rw own (ground arith)

  run_held :
      (old : Message) (ms : List Message)
      → All (Collected a c) ms
      → a.match_first_line ≡ true
      → (new : Message) × ((run (holding ((c, old) ∷ [])) (map message ms)).0.buffers
          ≡ (c, new) ∷ [])
  run_held old [] all h = unfold run in (old, refl)
  run_held old (m ∷ ms) (g, gs) h =
      let (next, e) = held_on old m g h in
      let (new, q) = run_held next ms gs h in
      (
        new,
        run-state (holding ((c, old) ∷ [])) (message m) (map message ms)
            ∙ (ap (λ x. (run x (map message ms)).0.buffers) e ∙ q),
      )

holding_nil : (a : Adapter) → a.buffers ≡ [] → a ≡ record a { buffers = [] }
holding_nil a e = ap (λ b. record a { buffers = b }) e

stream_buffered :
    (a : Adapter) (es : List Event) (p : Text × Message)
    → (run a es).0.buffers ≡ p ∷ []
    → stream a es ≡ (run a es).1 ++ p.1 ∷ []
unfolding stream
stream_buffered a es p e = ap (λ b. (run a es).1 ++ values b) e

-- Where the pattern marks first lines and no timer fires, the lines of a container are sent as the
-- entries that begin at each first line, with the lines of an entry joined by the separator.
pub stream-groups_by_first :
    (a : Adapter) (c : Text) (ms : List Message)
    → a.match_first_line ≡ true
    → a.buffers ≡ []
    → All (Collected a c) ms
    → stream a (map message ms) ≡ groups_by_first a.separator (is_first_line a) ms
stream-groups_by_first a c ms h e all =
    ap (λ x. stream x (map message ms)) (holding_nil a e) ∙ from-first a c ms h all

-- Where the pattern marks last lines and no timer fires, the lines of a container are sent as the
-- entries that end at each last line, with the lines of an entry joined by the separator.
pub stream-groups_by_last :
    (a : Adapter) (c : Text) (ms : List Message)
    → a.match_first_line ≡ false
    → a.buffers ≡ []
    → All (Collected a c) ms
    → stream a (map message ms) ≡ groups_by_last a.separator (is_last_line a) ms
stream-groups_by_last a c ms h e all =
    ap (λ x. stream x (map message ms)) (holding_nil a e) ∙ from-groups_by_last a c none ms h all

-- What is there before the last.
abbrev pub without_last : List Message → List Message
without_last [] = []
without_last (m ∷ []) = []
without_last (m ∷ n ∷ ms) = m ∷ without_last (n ∷ ms)

without_last-append : (ms : List Message) (m : Message) → without_last (ms ++ m ∷ []) ≡ ms
without_last-append [] m = refl
without_last-append (n ∷ []) m = refl
without_last-append (n ∷ k ∷ ms) m = ap (λ x. n ∷ x) (without_last-append (k ∷ ms) m)

start_held :
    (a : Adapter) (c : Text) (m : Message) (ms : List Message)
    → a.match_first_line ≡ true
    → a.buffers ≡ []
    → Collected a c m
    → All (Collected a c) ms
    → (new : Message) × ((run a (map message (m ∷ ms))).0.buffers ≡ (c, new) ∷ [])
start_held a c m ms h e g gs =
    let (new, q) = run_held a c m ms gs h in
    (
      new,
      run-state a (message m) (map message ms)
          ∙ (ap (λ x. (run x (map message ms)).0.buffers)
                (ap (λ x. (step x (message m)).0) (holding_nil a e)
                  ∙ held_first a c m g (not_last a c m h))
              ∙ q),
    )

-- While the channel is open and no timer fires, the entries are sent but for the last one, which may
-- still grow.
pub run-groups_by_first :
    (a : Adapter) (c : Text) (ms : List Message)
    → a.match_first_line ≡ true
    → a.buffers ≡ []
    → All (Collected a c) ms
    → (run a (map message ms)).1 ≡ without_last (groups_by_first a.separator (is_first_line a) ms)
run-groups_by_first a c [] h e all = unfold run groups_by_first in refl
run-groups_by_first a c (m ∷ ms) h e (g, gs) =
    let (new, q) = start_held a c m ms h e g gs in
    let sent = (run a (map message (m ∷ ms))).1 in
    sym (without_last-append sent new)
    ∙ ap without_last (
        sym (stream_buffered a (map message (m ∷ ms)) (c, new) q)
        ∙ stream-groups_by_first a c (m ∷ ms) h e (g, gs))

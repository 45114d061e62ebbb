-- ===== src/Adapters/Loki/Handled.antt =====
-- What `Stream` of adapters/loki/loki.go gives to its client.
use mathlib.Core.Path.{subst}
use logspout.Prelude.{
  ◌≡◌, refl, sym, ap, ◌∙◌, ◌↔◌, ◌≢◌, Bool, true, false, List, [], ◌∷◌, ◌++◌, append_assoc,
  append-nil, Option, none, some, Text, text_key, All, arith, Option-cases, inl, inr,
}
use logspout.Map.{Map}
use logspout.Text.{trim_space}
use logspout.Router.Message.{Message}
use logspout.Adapters.Loki.{Client, Adapter, labels_of, handled, stream, ℕ}

-- A line as Loki gets it, under its labels.
abbrev pub Line : Type 0
Line = Map Text Text × Text

-- The client keeps what it handles, in order; and once it is stopped it is stopped.
pub record Keeps {W : Type 0} (client : Client W) (kept : W → List Line) (stopped : W → Bool)
    : Type 0 where
  pub handle_kept :
      (c : ℕ) (labels : Map Text Text) (line : Text) (w : W)
      → kept (client.handle c labels line w) ≡ kept w ++ (labels, line) ∷ []
  pub stop_kept : (c : ℕ) (w : W) → kept (client.stop c w) ≡ kept w
  pub stop_stops : (c : ℕ) (w : W) → stopped (client.stop c w) ≡ true

-- The message without the blanks at its ends, if there is more of it.
abbrev pub entry : Map Text Text → Text → List Line
entry labels [] = []
entry labels (b ∷ line) = (labels, b ∷ line) ∷ []

-- The lines of the messages before the first one of a container without a name.
abbrev pub after_labels : List Line → Text → Option (Map Text Text) → List Line
after_labels more text none = []
after_labels more text (some labels) = entry labels text ++ more

abbrev pub Named : Message → Type 0
Named m = m.container.name ≢ []

module _ {W : Type 0} (client : Client W) (hostname : Text) where
  abbrev pub entries : List Message → List Line
  entries [] = []
  entries (m ∷ ms) =
      after_labels (entries ms) (trim_space m.text) (labels_of client hostname m.container)

  labels_of-Named :
      (m : Message) (labels : Map Text Text)
      → labels_of client hostname m.container ≡ some labels
      → Named m
  unfolding labels_of
  labels_of-Named m labels e n = absurd (ground (arith, e, n))

  unnamed : (m : Message) → labels_of client hostname m.container ≡ none → m.container.name ≡ []
  unfolding labels_of
  unnamed m e = ground (arith, e)

  stream_step :
      (a : Adapter) (m : Message) (ms : List Message) (w : W) (o : Option (Map Text Text))
      → labels_of client hostname m.container ≡ o
      → stream client hostname a (m ∷ ms) w ≡ elim o [
        | none ↦ (false, client.stop a.client w)
        | some labels ↦
            stream client hostname a ms
              (handled client hostname a.client labels (trim_space m.text) w)
      ]
  unfolding stream
  stream_step a m ms w o e =
      ap
        (λ l. elim l [
          | none ↦ (false, client.stop a.client w)
          | some labels ↦
              stream client hostname a ms
                (handled client hostname a.client labels (trim_space m.text) w)
        ])
        e

  module _ (kept : W → List Line) (stopped : W → Bool) (law : Keeps client kept stopped) where
    handled-kept :
        (c : ℕ) (labels : Map Text Text) (line : Text) (w : W)
        → kept (handled client hostname c labels line w) ≡ kept w ++ entry labels line
    handled-kept c labels [] w = sym (append-nil (kept w))
    handled-kept c labels (b ∷ line) w = law.handle_kept c labels (b ∷ line) w

    -- What holds behind the messages of a stream.
    record Handled (w : W) (ms : List Message) (r : Bool × W) : Type 0 where
      pub lines : kept r.1 ≡ kept w ++ entries ms
      pub ended : (r.0 ≡ true) ↔ All Named ms
      pub over : stopped r.1 ≡ true

    Handled-unnamed :
        (a : Adapter) (m : Message) (ms : List Message) (w : W)
        → labels_of client hostname m.container ≡ none
        → Handled w (m ∷ ms) (false, client.stop a.client w)
    Handled-unnamed a m ms w e = record {
      lines =
          law.stop_kept a.client w
          ∙ (sym (append-nil (kept w))
              ∙ ap (λ o. kept w ++ after_labels (entries ms) (trim_space m.text) o) (sym e));
      ended = (λ q. ground (arith, q), λ n. absurd (n.0 (unnamed m e)));
      over = law.stop_stops a.client w;
    }

    Handled-labelled :
        (c : ℕ) (m : Message) (ms : List Message) (w : W) (labels : Map Text Text) (r : Bool × W)
        → labels_of client hostname m.container ≡ some labels
        → Handled (handled client hostname c labels (trim_space m.text) w) ms r
        → Handled w (m ∷ ms) r
    Handled-labelled c m ms w labels r e h = record {
      lines =
          h.lines
          ∙ (ap (λ x. x ++ entries ms) (handled-kept c labels (trim_space m.text) w)
              ∙ (append_assoc (kept w) (entry labels (trim_space m.text)) (entries ms)
                  ∙ ap (λ o. kept w ++ after_labels (entries ms) (trim_space m.text) o) (sym e)));
      ended = (λ q. (labels_of-Named m labels e, h.ended.0 q), λ n. h.ended.1 n.1);
      over = h.over;
    }

    stream-Handled :
        (a : Adapter) (ms : List Message) (w : W) → Handled w ms (stream client hostname a ms w)
    stream-Handled a [] w =
        unfold stream in
        record {
          lines = law.stop_kept a.client w ∙ sym (append-nil (kept w));
          ended = (λ q. tt, λ n. refl);
          over = law.stop_stops a.client w;
        }
    stream-Handled a (m ∷ ms) w = elim (Option-cases (labels_of client hostname m.container)) [
      | inl e ↦
          subst (Handled w (m ∷ ms)) (sym (stream_step a m ms w none e))
            (Handled-unnamed a m ms w e)
      | inr (labels, e) ↦ subst (Handled w (m ∷ ms)) (sym (stream_step a m ms w (some labels) e)) (
          Handled-labelled a.client m ms w labels (stream client hostname a ms _) e
            (stream-Handled a ms (handled client hostname a.client labels (trim_space m.text) w)))
    ]

-- Loki gets each message once and in order, without the blanks at its ends and under the labels of its
-- container, but for those of blanks alone; when the channel is closed the client is stopped. At a
-- message of a container without a name the adapter panics: nothing of it or of what follows is sent,
-- and the client is stopped all the same. The client is one that keeps what it handles.
pub stream-entries :
    {W : Type 0} (client : Client W) (hostname : Text) (kept : W → List Line) (stopped : W → Bool)
    (law : Keeps client kept stopped) (a : Adapter) (ms : List Message) (w : W)
    → (kept (stream client hostname a ms w).1 ≡ kept w ++ entries client hostname ms)
      × (((stream client hostname a ms w).0 ≡ true) ↔ All Named ms)
      × (stopped (stream client hostname a ms w).1 ≡ true)
stream-entries client hostname kept stopped law a ms w =
    let h = stream-Handled client hostname kept stopped law a ms w in (h.lines, h.ended, h.over)

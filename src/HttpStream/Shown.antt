-- ===== src/HttpStream/Shown.antt =====
-- What `httpStreamer` writes for the messages of a logstream.
use mathlib.Core.Path.{subst}
use logspout.Prelude.{
  sym, ap, ◌∙◌, ◌-◌, ◌⊎◌, Option-cases, eq_iff, replicate, ℕ, ◌≡◌, ◌≢◌, refl, true, false, ◌&&◌,
  List, [], ◌∷◌, ◌++◌, append_assoc, some, Text, codes, text_key, length, arith, if◌then◌else◌, All,
  inl, inr, Bool-cases, ltb,
}
use logspout.Router.Message.{Message}
use logspout.Text.Runes.{rune_count}
use logspout.HttpStream.{
  color_of, Colorizer, Settings, Columns, reset_color, passed_over, named_line, written, stream_all,
  pad, get, lookup,
}

-- What may stand before a text: nothing, or with the logs of several containers the color of the
-- container, if colors are on, and its name behind blanks and before a bar.
pub data Label (set : Settings) (container : Text) : Text → Type 0 where
  no_name : set.multi ≡ false → Label set container []
  plain_name :
      (c : ℕ) (name : Text) (blanks : ℕ)
      → set.multi ≡ true
      → set.usecolor ≡ false
      → container ≡ c ∷ name
      → Label set container ((replicate blanks 32 ++ name) ++ codes "|")
  colored_name :
      (c : ℕ) (name : Text) (blanks i : ℕ)
      → set.multi ≡ true
      → set.usecolor ≡ true
      → container ≡ c ∷ name
      → Label set container (color_of i ++ ((replicate blanks 32 ++ name) ++ codes "|"))

-- A write shows a message: its encoding, or its text behind a label, and the end of a line, which takes
-- the color off where there is one.
pub data Shows (marshal : Message → Text) (set : Settings) (m : Message) : Text → Type 0 where
  as_json : set.usejson ≡ true → Shows marshal set m (marshal m ++ codes "\n")
  as_text :
      {label : Text}
      → set.usejson ≡ false
      → Label set m.container.name label
      → Shows marshal set m
          (label ++ (m.text ++ (if set.multi && set.usecolor then reset_color else codes "\n")))

-- Each message of the source that is asked for, or each one if none is, has a write of its own, in
-- order, and no other message has one.
pub data ShownBy (marshal : Message → Text) (set : Settings)
    : List Message → List Text → Type 0 where
  none_left : ShownBy marshal set [] []
  not_asked_for :
      {ms : List Message} {ts : List Text} (m : Message)
      → set.sources ≢ []
      → m.source ≢ set.sources
      → ShownBy marshal set ms ts
      → ShownBy marshal set (m ∷ ms) ts
  shown :
      {ms : List Message} {ts : List Text} (m : Message) (t : Text)
      → (set.sources ≡ []) ⊎ (m.source ≡ set.sources)
      → Shows marshal set m t
      → ShownBy marshal set ms ts
      → ShownBy marshal set (m ∷ ms) (t ∷ ts)

get-color : (c : Colorizer) (key : Text) → (i : ℕ) × ((get c key).0 ≡ color_of i)
unfolding get
get-color c key = elim (Option-cases (lookup key c)) [
  | inl e ↦ (length c, rw (e, get) refl)
  | inr (i, e) ↦ (i, rw (e, get) refl)
]

passed_over-true :
    (wanted : Text) (m : Message)
    → passed_over wanted m ≡ true
    → (wanted ≢ []) × (m.source ≢ wanted)
passed_over-true [] m h = cc
passed_over-true (c ∷ w) m h =
    (λ e. ground (arith, e), λ e. ground (arith, h, (eq_iff m.source (c ∷ w)).1 e))

passed_over-false :
    (wanted : Text) (m : Message)
    → passed_over wanted m ≡ false
    → (wanted ≡ []) ⊎ (m.source ≡ wanted)
passed_over-false [] m h = inl refl
passed_over-false (c ∷ w) m h = inr ((eq_iff m.source (c ∷ w)).0 (ground (arith, h)))

module _ (marshal : Message → Text) (set : Settings) where
  -- A line in its three parts, as one text.
  regroup :
      (a b t e : Text) → a ++ (b ++ (codes "|" ++ (t ++ e))) ≡ (a ++ (b ++ codes "|")) ++ (t ++ e)
  regroup a b t e = simp append_assoc

  regroup_plain : (b t e : Text) → b ++ (codes "|" ++ (t ++ e)) ≡ (b ++ codes "|") ++ (t ++ e)
  regroup_plain b t e = sym (append_assoc b (codes "|") (t ++ e))

  named_line-Shows :
      (s : Columns) (c : ℕ) (name : Text) (m : Message)
      → m.container.name ≡ c ∷ name
      → set.usejson ≡ false
      → set.multi ≡ true
      → Shows marshal set m (named_line set s name m.text).0
  unfolding pad
  named_line-Shows s c name m n j u =
      let width = if ltb s.name_width (length name) then length name else s.name_width in
      let blanks = width - rune_count name in
      elim (Bool-cases set.usecolor) [
        | inl q ↦
            let (i, e) = get-color s.colors name in
            subst (Shows marshal set m)
              (ap
                  (λ end.
                    (color_of i ++ ((replicate blanks 32 ++ name) ++ codes "|")) ++ (m.text ++ end))
                  {x = if set.multi && set.usecolor then reset_color else codes "\n"}
                  {y = reset_color} (rw (u, q) refl)
                ∙ (sym (regroup (color_of i) (replicate blanks 32 ++ name) m.text reset_color)
                    ∙ (ap
                          (λ x.
                            x
                            ++ ((replicate blanks 32 ++ name)
                                ++ (codes "|" ++ (m.text ++ reset_color))))
                          (sym e)
                        ∙ rw q refl)))
              (as_text j (colored_name c name blanks i u q n))
        | inr q ↦
            subst (Shows marshal set m)
              (ap (λ end. ((replicate blanks 32 ++ name) ++ codes "|") ++ (m.text ++ end))
                  {x = if set.multi && set.usecolor then reset_color else codes "\n"}
                  {y = codes "\n"} (rw (u, q) refl)
                ∙ (sym (regroup_plain (replicate blanks 32 ++ name) m.text (codes "\n"))
                    ∙ rw q refl))
              (as_text j (plain_name c name blanks u q n))
      ]

  written-Shows :
      (s : Columns) (m : Message) (name : Text)
      → m.container.name ≡ name
      → name ≢ []
      → (r : Text × Columns) × ((written marshal set s m ≡ some r) × Shows marshal set m r.0)
  unfolding written
  written-Shows s m [] e h = absurd (h refl)
  written-Shows s m (c ∷ name) e h = elim (Bool-cases set.usejson) [
    | inl j ↦ ((marshal m ++ codes "\n", s), (ground arith, as_json j))
    | inr j ↦ elim (Bool-cases set.multi) [
      | inl u ↦ (named_line set s name m.text, (ground arith, named_line-Shows s c name m e j u))
      | inr u ↦ (
        (m.text ++ codes "\n", s),
        (
          ground arith,
          subst (Shows marshal set m)
              (ap (λ end. m.text ++ end)
                {x = if set.multi && set.usecolor then reset_color else codes "\n"} {y = codes "\n"}
                (rw u refl))
              (as_text j (no_name u)),
        ),
      )
    ]
  ]

  -- The step of the loop for a message that is asked for.
  stream_all-written :
      (s : Columns) (m : Message) (ms : List Message) (r : Text × Columns)
      → passed_over set.sources m ≡ false
      → written marshal set s m ≡ some r
      → stream_all marshal set s (m ∷ ms)
        ≡ (r.0 ∷ (stream_all marshal set r.1 ms).0, (stream_all marshal set r.1 ms).1)
  unfolding stream_all
  stream_all-written s m ms r q e = ground arith

  stream_all-passed_over :
      (s : Columns) (m : Message) (ms : List Message)
      → passed_over set.sources m ≡ true
      → stream_all marshal set s (m ∷ ms) ≡ stream_all marshal set s ms
  unfolding stream_all
  stream_all-passed_over s m ms q = ground arith

  -- Every message of the source that is asked for, by the whole parameter as one name, is written once,
  -- in order and with its text whole, and no other is; any message is, where no source is asked for. Each
  -- container has a name.
  pub stream_all-ShownBy :
      (s : Columns) (ms : List Message)
      → All (λ m. m.container.name ≢ []) ms
      → ShownBy marshal set ms (stream_all marshal set s ms).0
        × ((stream_all marshal set s ms).1 ≡ true)
  stream_all-ShownBy s [] h = unfold stream_all in (none_left, refl)
  stream_all-ShownBy s (m ∷ ms) (hm, h) = elim (Bool-cases (passed_over set.sources m)) [
    | inl q ↦
        let (some_source, other) = passed_over-true set.sources m q in
        let (rest, fine) = stream_all-ShownBy s ms h in
        rw (stream_all-passed_over s m ms q) (not_asked_for m some_source other rest, fine)
    | inr q ↦
        let (r, (e, shows)) = written-Shows s m m.container.name refl hm in
        let (rest, fine) = stream_all-ShownBy r.1 ms h in
        rw (stream_all-written s m ms r q e)
          (shown m r.0 (passed_over-false set.sources m q) shows rest, fine)
  ]

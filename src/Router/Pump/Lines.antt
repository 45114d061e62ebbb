-- ===== src/Router/Pump/Lines.antt =====
-- How the output of a container is cut into messages.
use logspout.Prelude.{
  ℕ, zero, suc, ◌≤◌, ◌≡◌, refl, ◌∙◌, List, [], ◌∷◌, ◌++◌, none, some, Text, arith, length,
  length-append, All, nat_key,
}
use logspout.Prelude.Int.{ℤ}
use logspout.Text.{trim_suffix}
use logspout.Text.Trim.{trim_suffix-append}
use logspout.Text.Split.{Lacks}
use logspout.Router.Message.{Container, Message}
use logspout.Router.Pump.{read_string, read_lines, pump_input}

-- Lines, each with its end, and what comes after the last end.
abbrev pub terminated : List Text → Text → Text
terminated [] rest = rest
terminated (l ∷ ls) rest = l ++ 10 ∷ terminated ls rest

abbrev pub messages : Container → Text → (ℕ → ℤ) → ℕ → List Text → List Message
messages c source clock i [] = []
messages c source clock i (l ∷ ls) =
    (record { container = c; source = source; text = l; time = clock i })
    ∷ messages c source clock (suc i) ls

read_string-append :
    (l rest : Text) → Lacks 10 l → read_string (l ++ 10 ∷ rest) ≡ some (l ++ 10 ∷ [], rest)
unfolding read_string
read_string-append [] rest h = refl
read_string-append (c ∷ l) rest h = ground (arith, read_string-append l rest)

read_string-Lacks : (l : Text) → Lacks 10 l → read_string l ≡ none
unfolding read_string
read_string-Lacks [] h = refl
read_string-Lacks (c ∷ l) h = ground (arith, read_string-Lacks l)

read_lines_step :
    (c : Container) (source : Text) (clock : ℕ → ℤ) (fuel i : ℕ) (s line rest : Text)
    → read_string s ≡ some (line, rest)
    → read_lines c source clock (suc fuel) i s
      ≡ (record { container = c; source = source; text = trim_suffix line 10; time = clock i })
        ∷ read_lines c source clock fuel (suc i) rest
unfolding read_lines
read_lines_step c source clock fuel i s line rest h = ground arith

read_lines_end :
    (c : Container) (source : Text) (clock : ℕ → ℤ) (fuel i : ℕ) (s : Text)
    → read_string s ≡ none
    → read_lines c source clock fuel i s ≡ []
unfolding read_lines
read_lines_end c source clock zero i s h = refl
read_lines_end c source clock (suc fuel) i s h = ground arith

read_lines-terminated :
    (c : Container) (source : Text) (clock : ℕ → ℤ) (ls : List Text) (rest : Text) (fuel i : ℕ)
    → All (Lacks 10) ls
    → Lacks 10 rest
    → length (terminated ls rest) ≤ fuel
    → read_lines c source clock fuel i (terminated ls rest) ≡ messages c source clock i ls
read_lines-terminated c source clock [] rest fuel i h hr le =
    read_lines_end c source clock fuel i rest (read_string-Lacks rest hr)
read_lines-terminated c source clock (l ∷ ls) rest zero i (hl, h) hr le =
    absurd (omega (arith, length-append l (10 ∷ terminated ls rest)))
read_lines-terminated c source clock (l ∷ ls) rest (suc fuel) i (hl, h) hr le =
    read_lines_step c source clock fuel i _ _ _ (read_string-append l (terminated ls rest) hl)
    ∙ rw
        (
          trim_suffix-append l 10,
          read_lines-terminated c source clock ls rest fuel (suc i) h hr
              (omega (arith, length-append l (10 ∷ terminated ls rest))),
        )
        refl

-- Each line that has an end becomes one message, without its end, in order; what follows the last
-- end is dropped.
pub pump_input-terminated :
    (c : Container) (source : Text) (clock : ℕ → ℤ) (ls : List Text) (rest : Text)
    → All (Lacks 10) ls
    → Lacks 10 rest
    → pump_input c source clock (terminated ls rest) ≡ messages c source clock 0 ls
unfolding pump_input
pump_input-terminated c source clock ls rest h hr =
    read_lines-terminated c source clock ls rest (length (terminated ls rest)) 0 h hr (omega arith)

-- ===== src/Glob.antt =====
-- Go's `path.Match`, which the filters of a route are matched by. A pattern is cut at its stars
-- into chunks. `none` is `ErrBadPattern`; the loops run on fuel that bounds their rounds.
pub mod Literal
pub mod Reference
pub mod Greedy
pub mod Chunks
pub mod Correct
use logspout.Prelude.{
  ◌≡◌, refl, codes, ℕ, zero, suc, ◌+◌, Bool, true, false, not, ◌&&◌, ◌||◌, [], ◌∷◌, Text, nat_key,
  Option, none, some, leb, ◌==◌, if◌then◌else◌, length, drop, codes,
}
use logspout.Text.{contains_byte}
use logspout.Text.Runes.{decode_rune, rune_error, after_rune}

abbrev pub backslash : ℕ
backslash = 92

abbrev caret : ℕ
caret = 94

-- What a chunk comes to: the rest of the name behind it, no match, or a bad pattern.
pub data Chunk : Type 0 where
  rest : Text → Chunk
  failed : Chunk
  bad_pattern : Chunk

-- the leading stars of `scanChunk`
unfoldable pub skip_stars : Text → Bool × Text
skip_stars [] = (false, [])
skip_stars (c ∷ p) = let more = skip_stars p in if c == b'*' then (true, more.1) else (false, c ∷ p)

abbrev onto : ℕ → Text × Text → Text × Text
onto c (chunk, p) = (c ∷ chunk, p)

-- the loop `Scan` of `scanChunk`: the chunk and what follows it
unfoldable pub scan_chunk : Bool → Text → Text × Text
scan_chunk in_range [] = ([], [])
scan_chunk in_range (c ∷ []) = if c == b'*' && not in_range then ([], c ∷ []) else (c ∷ [], [])
scan_chunk in_range (c ∷ d ∷ p) =
    let escaped = onto c (onto d (scan_chunk in_range p)) in
    let here =
      onto c
        (scan_chunk (if c == b'[' then true else if c == b']' then false else in_range) (d ∷ p)) in
    if c == backslash then escaped else if c == b'*' && not in_range then ([], c ∷ d ∷ p) else here

-- `getEsc` behind its escape
unescaped : Text → Option (ℕ × Text)
unescaped chunk =
    let (r, n) = decode_rune chunk in
    if r == rune_error && n == 1
    then none
    else elim (drop n chunk) [ [] ↦ none | c ∷ more ↦ some (r, c ∷ more) ]

-- `getEsc`: a rune of a class, which may be escaped
unfoldable pub get_esc : Text → Option (ℕ × Text)
unfolding unescaped decode_rune
get_esc [] = none
get_esc (c ∷ chunk) =
    if c == b'-' || c == b']'
    then none
    else if c == backslash
    then elim chunk [ [] ↦ none | d ∷ more ↦ unescaped (d ∷ more) ]
    else unescaped (c ∷ chunk)

-- One range of a class: its two ends and the rest of the chunk.
unfoldable pub class_range : Text → Option (ℕ × ℕ × Text)
unfolding get_esc
class_range chunk = elim (get_esc chunk) [
  | none ↦ none
  | some (lo, []) ↦ none
  | some (lo, c ∷ more) ↦
      if c == b'-'
      then elim (get_esc more) [ none ↦ none | some (hi, chunk') ↦ some (lo, hi, chunk') ]
      else some (lo, lo, c ∷ more)
]

closes : Text → ℕ → Bool
closes [] n = false
closes (c ∷ _) n = c == b']' && not (n == 0)

-- The ranges of a class up to its `]`: whether one holds `r`, and the rest of the chunk.
unfoldable pub class_ranges : ℕ → ℕ → ℕ → Bool → Text → Option (Bool × Text)
unfolding class_range closes
class_ranges zero r n match chunk = none
class_ranges (suc f) r n match chunk = elim (closes chunk n) [
  | true ↦ some (match, drop 1 chunk)
  | false ↦ elim (class_range chunk) [
    | none ↦ none
    | some (lo, hi, chunk') ↦ class_ranges f r (n + 1) (match || (leb lo r && leb r hi)) chunk'
  ]
]

negated : Text → Bool
negated [] = false
negated (c ∷ _) = c == caret

abbrev pub is_empty : Text → Bool
is_empty [] = true
is_empty (_ ∷ _) = false

abbrev pub head_is : ℕ → Text → Bool
head_is c [] = false
head_is c (d ∷ _) = c == d

-- `matchChunk`. `out` says that the match has failed: the chunk is only checked from there on.
unfoldable pub match_chunk : ℕ → Bool → Text → Text → Chunk
unfolding class_ranges negated after_rune decode_rune
match_chunk f out [] s = if out then failed else rest s
match_chunk zero out (c ∷ chunk) s = bad_pattern
match_chunk (suc f) out (c ∷ chunk) s =
    let out' = out || is_empty s in
    let class : Chunk =
      elim (class_ranges (length chunk) (decode_rune s).0 0 false
        (if negated chunk then drop 1 chunk else chunk)) [
          | none ↦ bad_pattern
          | some (match, chunk') ↦
              match_chunk f (out' || (if match then negated chunk else not (negated chunk))) chunk'
                (if out' then s else after_rune s)
        ] in
    let one = match_chunk f (out' || head_is b'/' s) chunk (if out' then s else after_rune s) in
    let quoted : Chunk = elim chunk [
      | [] ↦ bad_pattern
      | d ∷ chunk' ↦ match_chunk f (out' || not (head_is d s)) chunk' (drop 1 s)
    ] in
    let byte = match_chunk f (out' || not (head_is c s)) chunk (drop 1 s) in
    if c == b'[' then class else if c == b'?' then one else if c == backslash then quoted else byte

-- matchChunk(chunk, s)
unfoldable pub match_here : Text → Text → Chunk
unfolding match_chunk
match_here chunk s = match_chunk (length chunk) false chunk s

-- The last loop of `Match`: is the remainder of the pattern well-formed?
unfoldable pub check_rest : ℕ → Text → Option Bool
unfolding skip_stars scan_chunk match_here
check_rest f [] = some false
check_rest zero (c ∷ p) = none
check_rest (suc f) (c ∷ p) =
    let (chunk, p') = scan_chunk false (skip_stars (c ∷ p)).1 in
    elim (match_here chunk []) [ bad_pattern ↦ none | _ ↦ check_rest f p' ]

-- Look for a chunk behind a star, at one byte further on each round; no `/` is skipped.
unfoldable pub skip : Text → Bool → Text → Chunk
unfolding match_here
skip chunk last [] = failed
skip chunk last (c ∷ s) =
    let more = skip chunk last s in
    if c == b'/' then failed else elim (match_here chunk s) [
      | rest [] ↦ rest []
      | rest (d ∷ t) ↦ if last then more else rest (d ∷ t)
      | failed ↦ more
      | bad_pattern ↦ bad_pattern
    ]

-- The chunk at the current position, which must end the name if it is the last.
unfoldable pub at_start : Text → Bool → Text → Chunk
unfolding match_here
at_start chunk last s = elim (match_here chunk s) [
  | rest [] ↦ rest []
  | rest (d ∷ t) ↦ if last then failed else rest (d ∷ t)
  | failed ↦ failed
  | bad_pattern ↦ bad_pattern
]

-- One round of the loop of `Match`, given the rounds after it, for a chunk and what follows it.
unfoldable pub match_round :
    (Text → Text → Option Bool) → ℕ → Bool → Text × Text → Text → Option Bool
unfolding check_rest skip at_start
match_round more f star (chunk, p) name =
    if star && is_empty chunk
    then some (not (contains_byte name b'/'))
    else elim (at_start chunk (is_empty p) name) [
      | rest t ↦ more p t
      | bad_pattern ↦ none
      | failed ↦ elim (if star then skip chunk (is_empty p) name else failed) [
        | rest t ↦ more p t
        | bad_pattern ↦ none
        | failed ↦ check_rest f p
      ]
    ]

-- The loop of `Match`; a round takes a byte of the pattern at least.
unfoldable pub match_loop : ℕ → Text → Text → Option Bool
unfolding match_round
match_loop f [] name = some (is_empty name)
match_loop zero (c ∷ p) name = none
match_loop (suc f) (c ∷ p) name =
    let (star, p₁) = skip_stars (c ∷ p) in
    match_round (match_loop f) f star (scan_chunk false p₁) name

-- path.Match(pattern, name)
unfoldable pub path_match : Text → Text → Option Bool
unfolding match_loop
path_match pattern name = match_loop (length pattern) pattern name

star_suffix : path_match (codes "*_db") (codes "my_db_db") ≡ some true
unfolding path_match
star_suffix = refl

class_match : path_match (codes "[a-c]?\\*") (codes "bx*") ≡ some true
unfolding path_match
class_match = refl

no_slash : path_match (codes "a*") (codes "a/b") ≡ some false
unfolding path_match
no_slash = refl

open_class : path_match (codes "x[a") (codes "y") ≡ none
unfolding path_match
open_class = refl

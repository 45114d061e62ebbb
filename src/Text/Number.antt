-- ===== src/Text/Number.antt =====
-- `strconv`: decimal numbers read and written. An `int` has 64 bits.
use logspout.Prelude.{
  ℕ, zero, suc, ◌+◌, ◌-◌, ◌*◌, ◌/◌, ◌%◌, ◌^◌, ◌≤◌, ◌≡◌, refl, Bool, true, false, not, ◌&&◌, List,
  [], ◌∷◌, Option, none, some, Text, codes, ltb, leb, ◌==◌, nat_key, arith, if◌then◌else◌, All,
  Bool-cases, inl, inr, text_key, ◌∙◌, ap,
}
use logspout.Prelude.Int.{ℤ, pos, negsuc}

-- What the digits of a text come to as a `uint64`.
pub data Digits : Type 0 where
  number : ℕ → Digits
  bad_digit too_large : Digits

abbrev pub is_digit : ℕ → Bool
is_digit c = leb b'0' c && leb c b'9'

-- the loop of `strconv.ParseUint` at base 10
unfoldable pub read_digits : ℕ → Text → Digits
read_digits n [] = number n
read_digits n (c ∷ s) =
    let n' : ℕ = n * 10 + (c - b'0') in
    let more = read_digits n' s in
    if not (is_digit c) then bad_digit else if ltb (2 ^ 64 - 1) n' then too_large else more

-- `strconv.Atoi`: the value, and whether it was read without an error. Out of range it is the
-- nearest value there is; where the text is no number it is 0.
pub record Read : Type 0 where
  pub value : ℤ
  pub fine : Bool

abbrev negate : ℕ → ℤ
negate zero = pos 0
negate (suc n) = negsuc n

of_digits : Bool → Digits → Read
of_digits neg bad_digit = record { value = pos 0; fine = false }
of_digits false too_large = record { value = pos (2 ^ 63 - 1); fine = false }
of_digits true too_large = record { value = negsuc (2 ^ 63 - 1); fine = false }
of_digits false (number n) =
    if ltb n (2 ^ 63)
    then record { value = pos n; fine = true }
    else record { value = pos (2 ^ 63 - 1); fine = false }
of_digits true (number n) =
    if ltb (2 ^ 63) n
    then record { value = negsuc (2 ^ 63 - 1); fine = false }
    else record { value = negate n; fine = true }

unsigned : Bool → Text → Read
unfolding of_digits read_digits
unsigned neg [] = record { value = pos 0; fine = false }
unsigned neg (c ∷ s) = of_digits neg (read_digits 0 (c ∷ s))

unfoldable pub atoi : Text → Read
unfolding unsigned
atoi [] = record { value = pos 0; fine = false }
atoi (c ∷ s) =
    if c == b'-'
    then unsigned true s
    else if c == b'+'
    then unsigned false s
    else unsigned false (c ∷ s)

-- `strconv.Itoa` of a number that is not negative; the fuel is the number itself.
unfoldable pub write_digits : ℕ → ℕ → Text → Text
write_digits zero n out = (b'0' + n % 10) ∷ out
write_digits (suc f) n out =
    let more = write_digits f (n / 10) ((b'0' + n % 10) ∷ out) in
    if ltb n 10 then (b'0' + n) ∷ out else more

unfoldable pub itoa : ℕ → Text
unfolding write_digits
itoa n = write_digits n n []

abbrev accepted : List Text
accepted = codes "1" ∷ codes "t" ∷ codes "T" ∷ codes "TRUE" ∷ codes "true" ∷ codes "True" ∷ []

abbrev refused : List Text
refused = codes "0" ∷ codes "f" ∷ codes "F" ∷ codes "FALSE" ∷ codes "false" ∷ codes "False" ∷ []

listed : List Text → Text → Bool
listed [] s = false
listed (t ∷ ts) s = if t == s then true else listed ts s

-- `strconv.ParseBool`
unfoldable pub parse_bool : Text → Option Bool
unfolding listed
parse_bool s =
    if listed accepted s then some true else if listed refused s then some false else none

abbrev pub IsDigit : ℕ → Type 0
IsDigit c = (b'0' ≤ c) × (c ≤ b'9')

-- The number that digits spell behind `n`.
abbrev pub spelt : ℕ → Text → ℕ
spelt n [] = n
spelt n (c ∷ s) = spelt (n * 10 + (c - b'0')) s

tenth : (f n : ℕ) → n ≤ suc f → ltb n 10 ≡ false → n / 10 ≤ f
tenth f n h q = ground arith

regroup_tenth : (n : ℕ) → n / 10 * 10 + (b'0' + n % 10 - b'0') ≡ n
regroup_tenth n = omega arith

write_digits-spelt : (f n : ℕ) (out : Text) → n ≤ f → spelt 0 (write_digits f n out) ≡ spelt n out
unfolding write_digits
write_digits-spelt zero n out h = ground arith
write_digits-spelt (suc f) n out h = elim (Bool-cases (ltb n 10)) [
  | inl q ↦ rw q (ground arith)
  | inr q ↦ rw q (
      write_digits-spelt f (n / 10) ((b'0' + n % 10) ∷ out) (tenth f n h q)
      ∙ ap (λ k. spelt k out) (regroup_tenth n))
]

write_digits-IsDigit :
    (f n : ℕ) (out : Text) → All IsDigit out → n ≤ f → All IsDigit (write_digits f n out)
unfolding write_digits
write_digits-IsDigit zero n out a h = ((omega arith, omega arith), a)
write_digits-IsDigit (suc f) n out a h = elim (Bool-cases (ltb n 10)) [
  | inl q ↦ rw q ((omega arith, ground arith), a)
  | inr q ↦ rw q (
      write_digits-IsDigit f (n / 10) ((b'0' + n % 10) ∷ out) ((omega arith, omega arith), a)
        (tenth f n h q))
]

-- The digits of `Itoa` spell the number.
pub itoa-spelt : (n : ℕ) → spelt 0 (itoa n) ≡ n
unfolding itoa
itoa-spelt n = write_digits-spelt n n [] (omega arith)

pub itoa-IsDigit : (n : ℕ) → All IsDigit (itoa n)
unfolding itoa
itoa-IsDigit n = write_digits-IsDigit n n [] tt (omega arith)

itoa_test : itoa 1205 ≡ codes "1205"
unfolding itoa
itoa_test = refl

atoi_tests :
    (atoi (codes "-12") ≡ record { value = negsuc 11; fine = true })
    × (atoi (codes "9223372036854775808")
        ≡ record { value = pos 9223372036854775807; fine = false })
    × (atoi (codes "1x") ≡ record { value = pos 0; fine = false })
unfolding atoi
atoi_tests = (refl, refl, refl)

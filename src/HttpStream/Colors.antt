-- ===== src/HttpStream/Colors.antt =====
-- The colors of a `Colorizer`: which keys share one, and that a key keeps its own.
use logspout.Prelude.{
  any, ap, not, ℕ, suc, ◌≡◌, ◌≢◌, ◌≤◌, ◌<◌, refl, sym, ◌∙◌, Bool, true, ◌&&◌, List, [], ◌∷◌, none,
  some, Text, text_key, nat_key, ◌==◌, eq_iff, length, arith, inl, inr, Option-cases, text_beq,
}
use logspout.Text.Number.{itoa}
use logspout.Map.{Map, lookup, insert, has, lookup-insert}
use logspout.Map.Lookup.{lookup-insert_inv, lookup-insert_self}
use logspout.HttpStream.{Colorizer, color_of, get, false}

-- The numbers that have a color of their own.
abbrev numbers : List ℕ
numbers = 0 ∷ 1 ∷ 2 ∷ 3 ∷ 4 ∷ 5 ∷ 6 ∷ 7 ∷ 8 ∷ 9 ∷ 10 ∷ 11 ∷ 12 ∷ 13 ∷ []

abbrev one_of : ℕ → List ℕ → Bool
one_of i is = any (λ k. k == i) is

numbers_below : (i : ℕ) → i < 14 → one_of i numbers ≡ true
numbers_below i h = ground arith

any-false :
    (p : ℕ → Bool) (is : List ℕ) (i : ℕ) → any p is ≡ false → one_of i is ≡ true → p i ≡ false
any-false p [] i h q = cc
any-false p (k ∷ is) i h q = ground (arith, any-false p is i, eq_iff k i, ap p {x = k} {y = i})

-- Do two numbers share a color that are not equal?
abbrev clash : ℕ → ℕ → Bool
clash i j = color_of i == color_of j && not (i == j)

no_clash : any (λ i. any (clash i) numbers) numbers ≡ false
unfolding color_of text_beq itoa
no_clash = refl

color_of_inj : (i j : ℕ) → i < 14 → j < 14 → color_of i ≡ color_of j → i ≡ j
color_of_inj i j hi hj e =
    let p : clash i j ≡ false =
      any-false (clash i) numbers j
        (any-false (λ k. any (clash k) numbers) numbers i no_clash (numbers_below i hi))
        (numbers_below j hj) in
    ground (arith, eq_iff (color_of i) (color_of j), eq_iff i j)

length-insert :
    {V : Type 0} (k : Text) (v : V) (m : Map Text V)
    → lookup k m ≡ none
    → length (insert k v m) ≡ suc (length m)
unfolding insert lookup
length-insert k v [] h = refl
length-insert k v ((j, w) ∷ m) h = ground (arith, length-insert k v m)

-- The numbers are below the size, and no two keys have the same one.
record Numbered (c : Colorizer) : Type 0 where
  pub below : (k : Text) (i : ℕ) → lookup k c ≡ some i → i < length c
  pub apart : (k j : Text) (i : ℕ) → lookup k c ≡ some i → lookup j c ≡ some i → k ≡ j

insert-Numbered :
    (c : Colorizer) (key : Text)
    → lookup key c ≡ none
    → Numbered c
    → Numbered (insert key (length c) c)
insert-Numbered c key e n = record {
  below = λ k i h. elim (lookup-insert_inv key k (length c) i c h) [
    | inl (_, q) ↦ omega (arith, length-insert key (length c) c e)
    | inr (_, q) ↦ omega (arith, n.below k i q, length-insert key (length c) c e)
  ];
  apart = λ k j i hk hj. elim (lookup-insert_inv key k (length c) i c hk) [
    | inl (p, q) ↦ elim (lookup-insert_inv key j (length c) i c hj) [
      | inl (p', q') ↦ sym p ∙ p'
      | inr (p', q') ↦ absurd (omega (arith, n.below j i q'))
    ]
    | inr (p, q) ↦ elim (lookup-insert_inv key j (length c) i c hj) [
      | inl (p', q') ↦ absurd (omega (arith, n.below k i q))
      | inr (p', q') ↦ n.apart k j i q q'
    ]
  ];
}

-- The colorizers that calls of `Get` lead to.
pub data Reached : Colorizer → Type 0 where
  fresh : Reached []
  asked : {c : Colorizer} (key : Text) → Reached c → Reached (get c key).1

get-Numbered : (c : Colorizer) (key : Text) → Numbered c → Numbered (get c key).1
unfolding get
get-Numbered c key n = elim (Option-cases (lookup key c)) [
  | inl e ↦ rw (e, get) (insert-Numbered c key e n)
  | inr (i, e) ↦ rw (e, get) n
]

Reached-Numbered : {c : Colorizer} → Reached c → Numbered c
unfolding lookup
Reached-Numbered fresh = record { below = λ k i h. cc; apart = λ k j i h h'. cc }
Reached-Numbered (asked {c} key r) = get-Numbered c key (Reached-Numbered r)

known : (c : Colorizer) (k : Text) → has k c ≡ true → (i : ℕ) × (lookup k c ≡ some i)
unfolding has
known c k h = elim (Option-cases (lookup k c)) [ inl e ↦ ground arith | inr p ↦ p ]

get_known : (c : Colorizer) (k : Text) (i : ℕ) → lookup k c ≡ some i → (get c k).0 ≡ color_of i
unfolding get
get_known c k i h = ground arith

-- While a colorizer knows 14 keys at most, two keys that it knows have different colors.
pub colors_differ :
    {c : Colorizer}
    → Reached c
    → length c ≤ 14
    → (k j : Text) → has k c ≡ true
    → has j c ≡ true
    → k ≢ j
    → (get c k).0 ≢ (get c j).0
colors_differ {c} r le k j hk hj ne e =
    let n = Reached-Numbered r in
    let (i, p) = known c k hk in
    let (l, q) = known c j hj in
    let s : i ≡ l =
      color_of_inj i l (omega (arith, n.below k i p)) (omega (arith, n.below j l q))
        (sym (get_known c k i p) ∙ e ∙ get_known c j l q) in
    ne (n.apart k j i p (q ∙ rw s refl))

abbrev pub get_all : Colorizer → List Text → Colorizer
get_all c [] = c
get_all c (k ∷ ks) = get_all (get c k).1 ks

get_keeps :
    (c : Colorizer) (k key : Text) (i : ℕ) → lookup k c ≡ some i → lookup k (get c key).1 ≡ some i
unfolding get
get_keeps c k key i h = ground (arith, lookup-insert key (length c) k c, eq_iff key k)

get_all_keeps :
    (c : Colorizer) (ks : List Text) (k : Text) (i : ℕ)
    → lookup k c ≡ some i
    → lookup k (get_all c ks) ≡ some i
get_all_keeps c [] k i h = h
get_all_keeps c (key ∷ ks) k i h = get_all_keeps (get c key).1 ks k i (get_keeps c k key i h)

get_kept :
    (c : Colorizer) (k : Text)
    → (i : ℕ) × (lookup k (get c k).1 ≡ some i) × ((get c k).0 ≡ color_of i)
unfolding get
get_kept c k = elim (Option-cases (lookup k c)) [
  | inl e ↦ rw (e, get) (length c, lookup-insert_self k (length c) c, refl)
  | inr (i, e) ↦ rw (e, get) (i, e, refl)
]

-- A key keeps the color that it got first, whatever keys are asked for later.
pub colors_stay :
    (c : Colorizer) (k : Text) (ks : List Text) → (get (get_all (get c k).1 ks) k).0 ≡ (get c k).0
colors_stay c k ks =
    let (i, p, q) = get_kept c k in
    get_known (get_all (get c k).1 ks) k i (get_all_keeps (get c k).1 ks k i p) ∙ sym q

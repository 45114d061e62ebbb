-- ===== src/Text/Trim.antt =====
-- What `trim_suffix` leaves.
use logspout.Prelude.{ℕ, ◌≡◌, [], ◌∷◌, ◌++◌, Text, arith, eq_refl, ap, nat_key}
use logspout.Text.{trim_suffix}

-- The byte is taken off a text that ends in it.
pub trim_suffix-append : (s : Text) (c : ℕ) → trim_suffix (s ++ c ∷ []) c ≡ s
unfolding trim_suffix
trim_suffix-append [] c = ground (arith, eq_refl c)
trim_suffix-append (d ∷ []) c = ground (arith, eq_refl c)
trim_suffix-append (d ∷ e ∷ s) c = ap (λ t. d ∷ t) (trim_suffix-append (e ∷ s) c)

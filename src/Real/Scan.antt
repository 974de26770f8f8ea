-- ===== src/Real/Scan.antt =====
-- `stream >> x` for a double: the longest text of the form of a decimal is taken, and strtod reads it.
use kvadra_top.Base.{ℕ, Bool, true, none, some, [], ◌∷◌, ◌++◌, ◌||◌, ◌&&◌, ◌==◌, if◌then◌else◌}
use kvadra_top.Text.{
  Bytes, Extract, Stream, stream, fail, formatted, skip_space, prefix, suffix, is_digit, is_empty,
}
use kvadra_top.Real.{Double}

abbrev pub is_sign : ℕ → Bool
is_sign c = c == b'+' || c == b'-'

abbrev pub Split : Type 0
Split = Bytes × Bytes

abbrev keep : Bytes → Split → Split
keep t (a, b) = (t ++ a, b)

digits_of : Bytes → Split
unfolding prefix suffix
digits_of s = (prefix is_digit s, suffix is_digit s)

signed : (Bytes → Split) → Bytes → Split
signed f [] = f []
signed f (c ∷ s) = if is_sign c then keep (c ∷ []) (f s) else f (c ∷ s)

exponent : Bytes → Split
unfolding signed digits_of
exponent [] = ([], [])
exponent (c ∷ s) =
    if c == b'e' || c == b'E' then keep (c ∷ []) (signed digits_of s) else ([], c ∷ s)

point : Bytes → Split
unfolding digits_of
point [] = ([], [])
point (c ∷ s) = if c == b'.' then keep (c ∷ []) (digits_of s) else ([], c ∷ s)

-- A point alone, or nothing.
abbrev lacks_digits : Bytes → Bool
lacks_digits [] = true
lacks_digits (c ∷ s) = is_empty s

-- Digits with at most one point; an exponent only behind a digit.
mantissa : Bytes → Split
unfolding digits_of point exponent
mantissa s =
    let (whole, s') = digits_of s in
    let (decimals, left) = point s' in
    if is_empty whole && lacks_digits decimals
    then (whole ++ decimals, left)
    else keep (whole ++ decimals) (exponent left)

unfoldable pub decimal_text : Bytes → Split
unfolding signed mantissa
decimal_text s = signed mantissa s

module _ (d : Double) where
  open d use {Real, real, scan}

  abbrev converted : Split → Real × Stream
  converted (t, left) = elim (scan t) [
    | none ↦ (real 0, fail left)
    | some (x, overflows) ↦ (x, if overflows then fail left else stream left)
  ]

  unfoldable pub read_double : Real → Extract Real
  unfolding skip_space decimal_text
  read_double old = formatted old (λ c s. converted (decimal_text (c ∷ s)))

-- ===== src/Real/Fixed.antt =====
-- Numbers with six decimals: a concrete `Double`, on which the model runs in tests. It meets the
-- laws, so theorems that suppose them can be applied.
use native.Mathlib.Nat.{mul-div_cancel_left, zero-div}
use native.Mathlib.Nat.{le-div_iff_mul-le, div-mul-le_self, le_trans}
use kvadra_top.Base.{
  ℕ, ◌+◌, ◌-◌, ◌*◌, ◌/◌, ◌≤◌, ◌<◌, ◌≡◌, refl, true, false, Option, none, some, [], ◌∷◌, ltb, arith,
  le→ltb, ltb→le, if◌then◌else◌,
}
use kvadra_top.Text.{Bytes, value, prefix, suffix, is_digit, is_empty, codes}
use kvadra_top.Real.{Double, Laws}

abbrev pub unit : ℕ
unit = 1_000_000

-- The digits behind the point, the first of which counts `worth`.
fraction : ℕ → Bytes → ℕ
fraction worth [] = 0
fraction worth (c ∷ s) = (c - b'0') * worth + fraction (worth / 10) s

behind_point : Bytes → ℕ
unfolding fraction
behind_point [] = 0
behind_point (c ∷ s) = fraction (unit / 10) s

unfoldable pub parse_decimal : Bytes → Option ℕ
unfolding value prefix suffix behind_point
parse_decimal s =
    if is_empty (prefix is_digit s)
    then none
    else some (value 0 (prefix is_digit s) * unit + behind_point (suffix is_digit s))

abbrev pub fixed : Double
fixed = record {
  Real = ℕ;
  real = λ n. n * unit;
  times = λ a b. a * b / unit;
  over = λ a b. a * unit / b;
  minus = λ a b. a - b;
  less = ltb;
  whole = λ a. a / unit;
  scan = λ t. elim (parse_decimal t) [ none ↦ none | some x ↦ some (x, false) ];
}

div_mono : (a b c : ℕ) → 0 < c → a ≤ b → a / c ≤ b / c
div_mono a b c h le = (le-div_iff_mul-le h).1 (le_trans (div-mul-le_self a c) le)

over_mono_fixed :
    (a b c : ℕ)
    → ltb b a ≡ false
    → ltb (0 * unit) c ≡ true
    → ltb (b * unit / c) (a * unit / c) ≡ false
over_mono_fixed a b c h p =
    le→ltb _ _ (div_mono (a * unit) (b * unit) c (ground arith) (omega (arith, ltb→le b a h)))

times_mono_fixed :
    (a b n : ℕ)
    → 0 < n
    → ltb b a ≡ false
    → ltb (b * (n * unit) / unit) (a * (n * unit) / unit) ≡ false
times_mono_fixed a b n pos h =
    le→ltb _ _
      (div_mono (a * (n * unit)) (b * (n * unit)) unit (omega arith) (grind (arith, ltb→le b a h)))

over_self_fixed : (n : ℕ) → 0 < n → n * unit * unit / (n * unit) ≡ 1 * unit
over_self_fixed n h = mul-div_cancel_left unit (omega arith)

pub fixed-Laws : Laws fixed
fixed-Laws = record {
  less_irrefl = λ a. ground arith;
  less_trans = λ a b c p q. ground arith;
  less_split = λ a b c p. ground arith;
  real_mono = λ m n h. ground arith;
  real_pos = λ n h. ground arith;
  zero_over = λ c h. zero-div c;
  over_self = over_self_fixed;
  over_mono = over_mono_fixed;
  times_mono = times_mono_fixed;
  one_times = λ n. omega arith;
  zero_times = λ n. omega arith;
}

scans : parse_decimal (codes "12.5") ≡ some 12_500_000
unfolding parse_decimal
scans = refl

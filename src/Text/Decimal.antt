-- ===== src/Text/Decimal.antt =====
-- std::stoi and std::stoul, and std::to_string on an `int`.
use kvadra_top.Base.{
  ℕ, zero, suc, ◌+◌, ◌-◌, ◌*◌, ◌/◌, ◌%◌, ◌^◌, ◌<◌, ◌≡◌, refl, Bool, [], ◌∷◌, ◌++◌, ltb,
  if◌then◌else◌, Result, ok, throw, invalid_argument, out_of_range, arith, Bool-cases, inl, inr,
}
use native.Mathlib.Nat.{pow-suc}
use kvadra_top.Text.Strings.{Bytes, is_digit, is_empty}
use kvadra_top.Text.Extraction.{
  ℤ, pos, negate, skip_space, prefix, value, with_sign, i32_max, u64_max,
}

-- The digits behind the sign; what follows them is not read.
unfoldable pub stoi_digits : Bool → Bytes → Result ℤ
unfolding prefix value
stoi_digits negative s =
    let v = value 0 (prefix is_digit s) in
    if is_empty (prefix is_digit s)
    then throw invalid_argument
    else if ltb (if negative then i32_max + 1 else i32_max) v
    then throw out_of_range
    else ok (if negative then negate v else pos v)

abbrev stoi_text : Bytes → Result ℤ
stoi_text [] = throw invalid_argument
stoi_text (c ∷ s) = with_sign stoi_digits c s

unfoldable pub stoi : Bytes → Result ℤ
unfolding skip_space stoi_digits
stoi s = stoi_text (skip_space s)

-- Behind its sign: strtoul negates the number modulo the width.
unfoldable pub stoul_digits : Bool → Bytes → Result ℕ
unfolding prefix value
stoul_digits negative s =
    let v = value 0 (prefix is_digit s) in
    if is_empty (prefix is_digit s)
    then throw invalid_argument
    else if ltb u64_max v
    then throw out_of_range
    else ok (if negative then (u64_max + 1 - v) % (u64_max + 1) else v)

abbrev stoul_text : Bytes → Result ℕ
stoul_text [] = throw invalid_argument
stoul_text (c ∷ s) = with_sign stoul_digits c s

unfoldable pub stoul : Bytes → Result ℕ
unfolding skip_space stoul_digits
stoul s = stoul_text (skip_space s)

-- The decimal digits, at most `places` of them; ten are enough for an `int`.
unfoldable pub decimal : ℕ → ℕ → Bytes
decimal zero n = []
decimal (suc places) n =
    let front = decimal places (n / 10) in
    if ltb n 10 then (b'0' + n) ∷ [] else front ++ (b'0' + n % 10) ∷ []

unfoldable pub to_string : ℕ → Bytes
unfolding decimal
to_string n = decimal 10 n

pub value-append : (n : ℕ) (s : Bytes) (c : ℕ) → value n (s ++ c ∷ []) ≡ value n s * 10 + (c - b'0')
unfolding value
value-append n [] c = refl
value-append n (d ∷ s) c = value-append (n * 10 + (d - b'0')) s c

pub value-decimal : (places n : ℕ) → n < 10 ^ places → value 0 (decimal places n) ≡ n
unfolding decimal value
value-decimal zero n h = omega arith
value-decimal (suc places) n h = elim (Bool-cases (ltb n 10)) [
  | inl e ↦ rw e (omega arith)
  | inr e ↦ rw e (
      rw (value-append 0 (decimal places (n / 10)) (b'0' + n % 10))
        (omega (arith, value-decimal places (n / 10) (omega (arith, pow-suc 10 places)))))
]

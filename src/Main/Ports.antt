-- ===== src/Main/Ports.antt =====
-- The port that an argument names.
use mathlib.Core.Path.{subst}
use kvadra_top.Base.{
  ℕ, zero, suc, ◌+◌, ◌/◌, ◌%◌, ◌^◌, ◌≤◌, ◌<◌, ◌≡◌, refl, ◌∙◌, ap, sym, inl, inr, true, false, some,
  [], ◌∷◌, ◌++◌, ltb, Bool-cases, le→ltb, All-append, arith, ok, ◌>>=◌,
}
use kvadra_top.Text.{
  Bytes, is_digit, prefix, value, decimal, to_string, value-decimal, stoul, stoul_digits, u64_max,
  Passes, skip_space-append, digit_not_space, digit_not_sign,
}
use kvadra_top.Main.Args.{port_of}

decimal-digits : (places n : ℕ) → Passes is_digit (decimal places n)
unfolding decimal
decimal-digits zero n = tt
decimal-digits (suc places) n = elim (Bool-cases (ltb n 10)) [
  | inl e ↦ rw e (ground arith, tt)
  | inr e ↦ rw e (
      All-append (λ c. is_digit c ≡ true) (decimal places (n / 10)) ((b'0' + n % 10) ∷ [])
        (decimal-digits places (n / 10)) (ground arith, tt))
]

decimal-cons : (places n : ℕ) → (c : ℕ) × (w : Bytes) × (decimal (suc places) n ≡ c ∷ w)
unfolding decimal
decimal-cons zero n = elim (Bool-cases (ltb n 10)) [
  | inl e ↦ (b'0' + n, [], rw e refl)
  | inr e ↦ (b'0' + n % 10, [], rw e refl)
]
decimal-cons (suc places) n = elim (Bool-cases (ltb n 10)) [
  | inl e ↦ (b'0' + n, [], rw e refl)
  | inr e ↦
      let (c, w, front) = decimal-cons places (n / 10) in
      (c, w ++ (b'0' + n % 10) ∷ [], rw e (ap (λ l. l ++ (b'0' + n % 10) ∷ []) front))
]

prefix_all : (w : Bytes) → Passes is_digit w → prefix is_digit w ≡ w
unfolding prefix
prefix_all [] h = refl
prefix_all (c ∷ w) h = rw h.0 (ap (λ l. c ∷ l) (prefix_all w h.1))

stoul_digits_lem :
    (c : ℕ) (w : Bytes)
    → Passes is_digit (c ∷ w)
    → value 0 (c ∷ w) ≤ u64_max
    → stoul_digits false (c ∷ w) ≡ ok (value 0 (c ∷ w))
unfolding stoul_digits
stoul_digits_lem c w h fits =
    rw (prefix_all (c ∷ w) h, stoul_digits) (rw (le→ltb u64_max (value 0 (c ∷ w)) fits) refl)

-- Text of digits in the range of an unsigned long is read whole.
stoul_lem :
    (c : ℕ) (w : Bytes)
    → Passes is_digit (c ∷ w)
    → value 0 (c ∷ w) ≤ u64_max
    → stoul (c ∷ w) ≡ ok (value 0 (c ∷ w))
unfolding stoul
stoul_lem c w h fits =
    let (minus, plus) = digit_not_sign c h.0 in
    rw (skip_space-append [] (c ∷ w) tt (digit_not_space c h.0), stoul)
      (rw (minus, plus) (stoul_digits_lem c w h fits))

stoul-decimal :
    (places n : ℕ) → n < 10 ^ suc places → n ≤ u64_max → stoul (decimal (suc places) n) ≡ ok n
stoul-decimal places n h fits =
    let (c, w, e) = decimal-cons places n in
    let v : value 0 (c ∷ w) ≡ n = ap (value 0) (sym e) ∙ value-decimal (suc places) n h in
    ap stoul e
    ∙ stoul_lem c w (subst (Passes is_digit) e (decimal-digits (suc places) n))
        (subst (λ m. m ≤ u64_max) (sym v) fits)
    ∙ ap ok v

to_string_lem : (n : ℕ) → to_string n ≡ decimal 10 n
unfolding to_string
to_string_lem n = refl

-- A number below 2^32 in decimal digits gives the port that is its value modulo 2^16; so a number
-- below 2^16 gives itself.
pub port_of-to_string : (n : ℕ) → n < 2 ^ 32 → port_of (some (to_string n)) ≡ ok (n % 2 ^ 16)
unfolding port_of
port_of-to_string n h =
    ap (λ r. r >>= λ k. ok (k % 2 ^ 16))
      (ap stoul (to_string_lem n) ∙ stoul-decimal 9 n (omega arith) (omega arith))

-- ===== src/Text/Extraction.antt =====
-- Extraction from a std::istringstream, `ss >> x`, as the libstdc++ of the "C" locale does it.
-- A stream is the characters left and the failbit. The end of input needs no bit of its own: the
-- next extraction fails on the empty rest. A failed sentry leaves the variable as it was (`old`);
-- text that is no number stores 0; a number out of range stores the bound; all three set failbit.
use kvadra_top.Base.{
  ℕ, zero, suc, ◌+◌, ◌-◌, ◌*◌, ◌%◌, ◌^◌, Bool, true, false, not, [], ◌∷◌, ltb, ◌==◌, if◌then◌else◌,
}
use kvadra_top.Text.Strings.{Bytes, is_digit, is_space, is_empty}

pub record Stream : Type 0 where
  pub rest : Bytes
  pub failed : Bool

abbrev pub stream : Bytes → Stream
stream s = record { rest = s; failed = false }

-- A chain of extractions: the variables live in the results.
abbrev pub Extract : Type 0 → Type 0
Extract A = Stream → A × Stream

infixl 5 ◌>>=◌
abbrev pub ◌>>=◌ : {A B : Type 0} → Extract A → (A → Extract B) → Extract B
◌>>=◌ m f s = let r = m s in f r.0 r.1

abbrev pub return : {A : Type 0} → A → Extract A
return a s = (a, s)

unfoldable pub skip_space : Bytes → Bytes
skip_space [] = []
skip_space (c ∷ s) = if is_space c then skip_space s else c ∷ s

-- The longest prefix whose bytes pass the test, and what follows it.
unfoldable pub prefix : (ℕ → Bool) → Bytes → Bytes
prefix p [] = []
prefix p (c ∷ s) = if p c then c ∷ prefix p s else []

unfoldable pub suffix : (ℕ → Bool) → Bytes → Bytes
suffix p [] = []
suffix p (c ∷ s) = if p c then suffix p s else c ∷ s

-- The number that decimal digits spell behind `n`.
unfoldable pub value : ℕ → Bytes → ℕ
value n [] = n
value n (c ∷ s) = value (n * 10 + (c - b'0')) s

abbrev pub fail : Bytes → Stream
fail s = record { rest = s; failed = true }

-- Signed integers: `negsuc n` is -(n + 1).
pub data ℤ : Type 0 where
  pos : ℕ → ℤ
  negsuc : ℕ → ℤ

abbrev pub negate : ℕ → ℤ
negate zero = pos zero
negate (suc n) = negsuc n

-- Conversion of a signed value to uint64_t.
abbrev pub to_u64 : ℤ → ℕ
to_u64 (pos n) = n % 2 ^ 64
to_u64 (negsuc n) = 2 ^ 64 - 1 - n % 2 ^ 64

-- Conversion of a `long` to `int`.
unfoldable pub to_int : ℤ → ℤ
to_int z = let w = to_u64 z % 2 ^ 32 in if ltb w (2 ^ 31) then pos w else negsuc (2 ^ 32 - 1 - w)

-- An unsigned number read behind its sign: strtoull negates it modulo the width.
unfoldable pub unsigned_digits : ℕ → Bool → Bytes → ℕ × Stream
unfolding prefix suffix value
unsigned_digits max negative s =
    let v = value 0 (prefix is_digit s) in
    let left = suffix is_digit s in
    if is_empty (prefix is_digit s)
    then (0, fail left)
    else if ltb max v
    then (max, fail left)
    else ((if negative then (max + 1 - v) % (max + 1) else v), stream left)

unfoldable pub signed_digits : ℕ → Bool → Bytes → ℤ × Stream
unfolding prefix suffix value
signed_digits max negative s =
    let v = value 0 (prefix is_digit s) in
    let left = suffix is_digit s in
    if is_empty (prefix is_digit s)
    then (pos 0, fail left)
    else if ltb (if negative then max + 1 else max) v
    then ((if negative then negsuc max else pos max), fail left)
    else ((if negative then negate v else pos v), stream left)

abbrev pub with_sign {ℓ} : {A : Type ℓ} → (Bool → Bytes → A) → ℕ → Bytes → A
with_sign f c s = if c == b'-' then f true s else if c == b'+' then f false s else f false (c ∷ s)

abbrev pub enter : {A : Type 0} → A → (ℕ → Bytes → A × Stream) → Bytes → A × Stream
enter old body [] = (old, fail [])
enter old body (c ∷ s) = body c s

-- What every formatted extraction does first (the sentry), and then `body` on the rest.
abbrev pub formatted : {A : Type 0} → A → (ℕ → Bytes → A × Stream) → Extract A
formatted old body st = if st.failed then (old, st) else enter old body (skip_space st.rest)

-- `ss >> c` for a char.
unfoldable pub read_char : ℕ → Extract ℕ
unfolding skip_space
read_char old = formatted old (λ c s. (c, stream s))

abbrev pub in_word : ℕ → Bool
in_word c = not (is_space c)

-- `ss >> word` for a std::string.
unfoldable pub read_word : Bytes → Extract Bytes
unfolding skip_space prefix suffix
read_word old = formatted old (λ c s. (c ∷ prefix in_word s, stream (suffix in_word s)))

-- `ss >> n` for an unsigned type whose greatest value is `max`, and for a signed one.
unfoldable pub read_unsigned : ℕ → ℕ → Extract ℕ
unfolding skip_space unsigned_digits
read_unsigned max old = formatted old (with_sign (unsigned_digits max))

unfoldable pub read_signed : ℕ → ℤ → Extract ℤ
unfolding skip_space signed_digits
read_signed max old = formatted old (with_sign (signed_digits max))

abbrev pub u64_max : ℕ
u64_max = 2 ^ 64 - 1

abbrev pub u32_max : ℕ
u32_max = 2 ^ 32 - 1

abbrev pub i64_max : ℕ
i64_max = 2 ^ 63 - 1

abbrev pub i32_max : ℕ
i32_max = 2 ^ 31 - 1

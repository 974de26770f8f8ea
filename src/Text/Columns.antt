-- ===== src/Text/Columns.antt =====
-- Lines of blank-separated columns, as the kernel prints them, and what extraction reads of them.
use kvadra_top.Base.{
  ℕ, ◌≤◌, ◌≡◌, refl, Bool, true, false, List, [], ◌∷◌, ◌++◌, ◌==◌, All, arith, le→ltb,
}
use kvadra_top.Text.Strings.{Bytes, is_digit, is_space}
use kvadra_top.Text.Extraction.{
  stream, skip_space, prefix, suffix, value, in_word, unsigned_digits, read_word, read_unsigned,
}

-- The text does not go on with a byte that passes the test.
abbrev pub Stops : (ℕ → Bool) → Bytes → Type 0
Stops p [] = Unit
Stops p (c ∷ s) = p c ≡ false

abbrev pub Passes : (ℕ → Bool) → Bytes → Type 0
Passes p = All (λ c. p c ≡ true)

pub skip_space-append :
    (pad s : Bytes) → Passes is_space pad → Stops is_space s → skip_space (pad ++ s) ≡ s
unfolding skip_space
skip_space-append [] [] hp hs = refl
skip_space-append [] (c ∷ s) hp hs = rw hs
skip_space-append (c ∷ pad) s hp hs = rw hp.0 (skip_space-append pad s hp.1 hs)

module _ (p : ℕ → Bool) where
  pub prefix-append : (w s : Bytes) → Passes p w → Stops p s → prefix p (w ++ s) ≡ w
  unfolding prefix
  prefix-append [] [] hw hs = refl
  prefix-append [] (c ∷ s) hw hs = rw hs
  prefix-append (c ∷ w) s hw hs = rw (hw.0, prefix-append w s hw.1 hs)

  pub suffix-append : (w s : Bytes) → Passes p w → Stops p s → suffix p (w ++ s) ≡ s
  unfolding suffix
  suffix-append [] [] hw hs = refl
  suffix-append [] (c ∷ s) hw hs = rw hs
  suffix-append (c ∷ w) s hw hs = rw hw.0 (suffix-append w s hw.1 hs)

-- A number in print: blanks, and then one digit or more.
pub record Column : Type 0 where
  pub pad : Bytes
  pub first : ℕ
  pub others : Bytes

abbrev pub numeral : Column → Bytes
numeral c = c.first ∷ c.others

-- The column, and the text behind it.
abbrev pub before : Column → Bytes → Bytes
before c s = c.pad ++ (numeral c ++ s)

abbrev pub number : Column → ℕ
number c = value 0 (numeral c)

pub record IsColumn (max : ℕ) (c : Column) : Type 0 where
  pub blanks : Passes is_space c.pad
  pub digits : Passes is_digit (numeral c)
  pub fits : number c ≤ max

pub digit_not_space : (c : ℕ) → is_digit c ≡ true → is_space c ≡ false
digit_not_space c h = ground arith

in_word→not_space : (c : ℕ) → in_word c ≡ true → is_space c ≡ false
in_word→not_space c h = ground arith

pub digit_not_sign : (c : ℕ) → is_digit c ≡ true → ((c == b'-') ≡ false) × ((c == b'+') ≡ false)
digit_not_sign c h = ground arith

module _ (max : ℕ) (c : Column) (s : Bytes) (v : IsColumn max c) (stop : Stops is_digit s) where
  unsigned_digits-numeral : unsigned_digits max false (numeral c ++ s) ≡ (number c, stream s)
  unfolding unsigned_digits
  unsigned_digits-numeral =
      rw (prefix-append is_digit (numeral c) s v.digits stop) (
        rw (suffix-append is_digit (numeral c) s v.digits stop) (rw (le→ltb max (number c) v.fits)))

  -- A column in range is read as the number that it prints, and the rest stays.
  pub read_unsigned-before :
      (old : ℕ) → read_unsigned max old (stream (before c s)) ≡ (number c, stream s)
  unfolding read_unsigned
  read_unsigned-before old =
      rw (skip_space-append c.pad (numeral c ++ s) v.blanks (digit_not_space c.first v.digits.0)) (
        rw (digit_not_sign c.first v.digits.0).0
          (rw (digit_not_sign c.first v.digits.0).1 unsigned_digits-numeral))

-- A word behind blanks is read whole.
pub read_word-before :
    (old pad : Bytes) (c : ℕ) (w s : Bytes)
    → Passes is_space pad
    → Passes in_word (c ∷ w)
    → Stops in_word s
    → read_word old (stream (pad ++ (c ∷ w ++ s))) ≡ (c ∷ w, stream s)
unfolding read_word
read_word-before old pad c w s hp hw stop =
    rw (skip_space-append pad (c ∷ w ++ s) hp (in_word→not_space c hw.0))
      (rw (prefix-append in_word w s hw.1 stop) (rw (suffix-append in_word w s hw.1 stop)))

-- Columns in a row, and the text behind them.
abbrev pub row : List Column → Bytes → Bytes
row [] s = s
row (c ∷ cs) s = before c (row cs s)

-- Each column is in range, and no digit follows it.
abbrev pub IsRow : ℕ → List Column → Bytes → Type 0
IsRow max [] s = Unit
IsRow max (c ∷ cs) s = IsColumn max c × Stops is_digit (row cs s) × IsRow max cs s

-- A row is read column by column.
pub read_unsigned-row :
    (max old : ℕ) (c : Column) (cs : List Column) (s : Bytes)
    → IsRow max (c ∷ cs) s
    → read_unsigned max old (stream (row (c ∷ cs) s)) ≡ (number c, stream (row cs s))
read_unsigned-row max old c cs s h = read_unsigned-before max c (row cs s) h.0 h.1 old

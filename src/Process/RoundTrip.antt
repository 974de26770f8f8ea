-- ===== src/Process/RoundTrip.antt =====
-- What is read of a line `pid (comm) fields` of /proc/<pid>/stat, for every command name.
use kvadra_top.Base.{
  ℕ, suc, ◌+◌, ◌-◌, ◌%◌, ◌^◌, ◌≤◌, ◌<◌, ◌≡◌, refl, sym, ap, ◌∙◌, some, [], ◌∷◌, ◌++◌, append_assoc,
  length, length-append, take, drop, take-append, ok, arith, le→ltb,
}
use mathlib.Core.Path.{ap₂}
use kvadra_top.Text.{
  Bytes, rfind, skip_space-append, digit_not_space, digit_not_sign, pos, Passes, Stops, Lacks,
  is_digit, stream, value, stoi, stoi_digits, prefix-append, find-append, rfind-append,
  drop-append_one, i32_max,
}
use kvadra_top.Process.Stat.{extract_fields, accept_fields, parse_at, parse_line}

-- Digits, in range of an `int`, and then a text that does not go on with a digit.
stoi-digits :
    (c : ℕ) (s rest : Bytes)
    → Passes is_digit (c ∷ s)
    → Stops is_digit rest
    → value 0 (c ∷ s) ≤ i32_max
    → stoi (c ∷ s ++ rest) ≡ ok (pos (value 0 (c ∷ s)))
unfolding stoi stoi_digits
stoi-digits c s rest h stop fits =
    rw (skip_space-append [] (c ∷ s ++ rest) tt (digit_not_space c h.0)) (
      rw (digit_not_sign c h.0).0 (
        rw (digit_not_sign c h.0).1 (
          rw (prefix-append is_digit (c ∷ s) rest h stop)
            (rw (le→ltb i32_max (value 0 (c ∷ s)) fits)))))

-- The digits of the pid, a blank, the name in parentheses, and the rest.
abbrev pub line_of : Bytes → Bytes → Bytes → Bytes
line_of digits comm tail = (digits ++ 32 ∷ []) ++ (b'(' ∷ (comm ++ (b')' ∷ tail)))

digits-Lacks : (digits : Bytes) → Passes is_digit digits → Lacks b'(' (digits ++ 32 ∷ [])
digits-Lacks [] h = (refl, tt)
digits-Lacks (c ∷ digits) h = (ground arith, digits-Lacks digits h.1)

size_exact : (p n : ℕ) → n < 2 ^ 64 → (p + suc n + 2 ^ 64 - p - 1) % 2 ^ 64 ≡ n
size_exact p n h = omega arith

module _ (front comm tail : Bytes) where
  -- The same line, cut at the closing parenthesis.
  at_close : (front ++ (b'(' ∷ comm)) ++ (b')' ∷ tail) ≡ front ++ (b'(' ∷ (comm ++ (b')' ∷ tail)))
  at_close = append_assoc front (b'(' ∷ comm) (b')' ∷ tail)

  close-length : length (front ++ (b'(' ∷ comm)) ≡ length front + suc (length comm)
  close-length = length-append front (b'(' ∷ comm)

  rfind-close :
      Lacks b')' tail
      → rfind b')' (front ++ (b'(' ∷ (comm ++ (b')' ∷ tail))))
        ≡ some (length front + suc (length comm))
  rfind-close h =
      ap (rfind b')') (sym at_close)
      ∙ rfind-append b')' (front ++ (b'(' ∷ comm)) tail h
      ∙ ap some close-length

  drop-close :
      drop (length front + suc (length comm) + 1) (front ++ (b'(' ∷ (comm ++ (b')' ∷ tail)))) ≡ tail
  drop-close =
      ap₂ drop (ap (λ n. n + 1) (sym close-length)) (sym at_close)
      ∙ drop-append_one (front ++ (b'(' ∷ comm)) b')' tail

  name_between :
      take (length comm) (drop (length front + 1) (front ++ (b'(' ∷ (comm ++ (b')' ∷ tail)))))
      ≡ comm
  name_between =
      ap (take (length comm)) (drop-append_one front b'(' (comm ++ (b')' ∷ tail)))
      ∙ take-append comm (b')' ∷ tail)

parse_at-line_of :
    (c : ℕ) (digits comm tail : Bytes)
    → Passes is_digit (c ∷ digits)
    → value 0 (c ∷ digits) ≤ i32_max
    → length comm < 2 ^ 64
    → let front = c ∷ digits ++ 32 ∷ [] in
      parse_at
        (length front)
        (length front + suc (length comm))
        (front ++ (b'(' ∷ (comm ++ (b')' ∷ tail))))
      ≡ ok (accept_fields (pos (value 0 (c ∷ digits))) comm (extract_fields (stream tail)))
unfolding parse_at
parse_at-line_of c digits comm tail h fits short =
    let front = c ∷ digits ++ 32 ∷ [] in
    rw (take-append front (b'(' ∷ (comm ++ (b')' ∷ tail)))) (
      rw (stoi-digits c digits (32 ∷ []) h refl fits) (
        rw (size_exact (length front) (length comm) short)
          (rw (name_between front comm tail) (rw (drop-close front comm tail)))))

-- The pid and the name are found whatever the name holds, blanks and parentheses included, if no `)`
-- follows behind the name's own; the fields are read from behind that.
pub parse_line-line_of :
    (c : ℕ) (digits comm tail : Bytes)
    → Passes is_digit (c ∷ digits)
    → value 0 (c ∷ digits) ≤ i32_max
    → length comm < 2 ^ 64
    → Lacks b')' tail
    → parse_line (line_of (c ∷ digits) comm tail)
      ≡ ok (accept_fields (pos (value 0 (c ∷ digits))) comm (extract_fields (stream tail)))
unfolding parse_line
parse_line-line_of c digits comm tail h fits short clean =
    let front = c ∷ digits ++ 32 ∷ [] in
    rw (find-append b'(' front (comm ++ (b')' ∷ tail)) (digits-Lacks (c ∷ digits) h), parse_line)
      (rw (rfind-close front comm tail clean, parse_line)
        (parse_at-line_of c digits comm tail h fits short))

-- ===== src/Text/Strings.antt =====
-- Byte strings and the members of std::string that the sources call: `find`, `rfind`, `substr`,
-- prefix tests, and the lines that a loop over `std::getline` sees.
use Prim.Native.Char.{code}
use Prim.Native.String.{String}
use kvadra_top.Base.{
  ℕ, suc, Bool, true, false, ◌&&◌, ◌||◌, Option, none, some, List, [], ◌∷◌, ◌==◌, leb,
  if◌then◌else◌, take, drop,
}

abbrev pub Bytes : Type 0
Bytes = List ℕ

-- The bytes of a literal.
abbrev pub codes : String → Bytes
codes String.[] = []
codes (String.◌∷◌ c s) = code c ∷ codes s

-- What is read of a file: nothing when it cannot be opened.
abbrev pub File : Type 0
File = Option Bytes

abbrev pub is_digit : ℕ → Bool
is_digit c = leb b'0' c && leb c b'9'

-- std::isspace in the "C" locale.
abbrev pub is_space : ℕ → Bool
is_space c = c == 32 || (leb 9 c && leb c 13)

abbrev pub is_empty : Bytes → Bool
is_empty [] = true
is_empty (c ∷ s) = false

unfoldable pub bytes_eq : Bytes → Bytes → Bool
bytes_eq [] [] = true
bytes_eq [] (d ∷ t) = false
bytes_eq (c ∷ s) [] = false
bytes_eq (c ∷ s) (d ∷ t) = c == d && bytes_eq s t

-- `s.rfind(p, 0) == 0`.
unfoldable pub starts_with : Bytes → Bytes → Bool
starts_with [] s = true
starts_with (c ∷ p) [] = false
starts_with (c ∷ p) (d ∷ s) = c == d && starts_with p s

abbrev pub suc? : Option ℕ → Option ℕ
suc? none = none
suc? (some i) = some (suc i)

-- `s.find(c)`; `none` is npos.
unfoldable pub find : ℕ → Bytes → Option ℕ
find c [] = none
find c (d ∷ s) = if d == c then some 0 else suc? (find c s)

abbrev pub or_first : Bool → Option ℕ → Option ℕ
or_first b (some i) = some (suc i)
or_first b none = if b then some 0 else none

-- `s.rfind(c)`: the last place.
unfoldable pub rfind : ℕ → Bytes → Option ℕ
rfind c [] = none
rfind c (d ∷ s) = or_first (d == c) (rfind c s)

-- `s.substr(pos)` and `s.substr(pos, count)`, for a `pos` that is at most the size.
abbrev pub substr_from : ℕ → Bytes → Bytes
substr_from = drop

abbrev pub substr : ℕ → ℕ → Bytes → Bytes
substr pos count s = take count (drop pos s)

abbrev pub push_front : ℕ → List Bytes → List Bytes
push_front c [] = (c ∷ []) ∷ []
push_front c (l ∷ ls) = (c ∷ l) ∷ ls

-- The lines that `while (std::getline(f, line))` sees: a newline ends a line, and an unfinished
-- last line counts if it is not empty.
unfoldable pub lines : Bytes → List Bytes
lines [] = []
lines (c ∷ s) = if c == 10 then [] ∷ lines s else push_front c (lines s)

-- `std::getline` called once: the line, or what the variable held before when nothing is left.
abbrev pub first_line : Bytes → List Bytes → Bytes
first_line old [] = old
first_line old (l ∷ ls) = l

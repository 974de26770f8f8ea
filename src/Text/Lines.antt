-- ===== src/Text/Lines.antt =====
-- A text that is printed line by line is read line by line.
use kvadra_top.Base.{ℕ, ◌≡◌, refl, Bool, not, List, [], ◌∷◌, ◌++◌, ◌==◌, All, arith, ap, ◌∙◌}
use kvadra_top.Text.Strings.{Bytes, lines}
use kvadra_top.Text.Columns.{Passes}

abbrev pub newline : ℕ
newline = 10

abbrev pub in_line : ℕ → Bool
in_line c = not (c == 10)

-- Each line with a newline behind it.
abbrev pub unlines : List Bytes → Bytes
unlines [] = []
unlines (l ∷ ls) = l ++ (newline ∷ unlines ls)

pub lines-line : (l s : Bytes) → Passes in_line l → lines (l ++ (newline ∷ s)) ≡ l ∷ lines s
unfolding lines
lines-line [] s h = refl
lines-line (c ∷ l) s h = ground (arith, lines-line l s h.1)

pub lines-unlines : (ls : List Bytes) → All (Passes in_line) ls → lines (unlines ls) ≡ ls
unfolding lines
lines-unlines [] h = refl
lines-unlines (l ∷ ls) h = lines-line l (unlines ls) h.0 ∙ ap (◌∷◌ l) (lines-unlines ls h.1)

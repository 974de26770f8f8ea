-- ===== src/Process/Names.antt =====
-- `all_digits`.
use kvadra_top.Base.{Bool, true, false, [], ◌∷◌, ◌&&◌}
use kvadra_top.Text.{Bytes, is_digit}

unfoldable pub digits_only : Bytes → Bool
digits_only [] = true
digits_only (c ∷ s) = is_digit c && digits_only s

unfoldable pub all_digits : Bytes → Bool
unfolding digits_only
all_digits [] = false
all_digits (c ∷ s) = digits_only (c ∷ s)

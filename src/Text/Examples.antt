-- ===== src/Text/Examples.antt =====
-- Runs of the text functions.
use kvadra_top.Base.{◌≡◌, refl, some, [], ◌∷◌}
use kvadra_top.Text.Strings.{codes, lines, rfind}
use kvadra_top.Text.Extraction.{
  pos, negsuc, fail, stream, ◌>>=◌, read_word, read_unsigned, read_signed, u64_max, u32_max,
  i64_max,
}

lines_test : lines (codes "ab\n\nc") ≡ codes "ab" ∷ [] ∷ codes "c" ∷ []
unfolding lines
lines_test = refl

rfind_test : rfind b')' (codes "(a) b) c") ≡ some 5
unfolding rfind
rfind_test = refl

reads_two :
    (do a ← read_unsigned u64_max 0; read_unsigned u64_max a) (stream (codes " 12  34x"))
    ≡ (34, stream (codes "x"))
unfolding read_unsigned
reads_two = refl

keeps_old :
    (do a ← read_unsigned u64_max 0; read_unsigned u64_max 7) (stream (codes " 12 ")) ≡ (7, fail [])
unfolding read_unsigned
keeps_old = refl

reads_negative : (read_signed i64_max (pos 0) (stream (codes "-20 7"))).0 ≡ negsuc 19
unfolding read_signed
reads_negative = refl

reads_out_of_range : (read_unsigned u32_max 5 (stream (codes "4294967296"))).0 ≡ u32_max
unfolding read_unsigned
reads_out_of_range = refl

reads_word : read_word [] (stream (codes "  cpu0 1")) ≡ (codes "cpu0", stream (codes " 1"))
unfolding read_word
reads_word = refl

-- ===== src/Map/Keys.antt =====
-- The orders of the keys: `int` and std::string, which compares bytes.
use kvadra_top.Base.{◌≡◌, refl, Bool, true, false, [], ◌∷◌, if◌then◌else◌, ltb, arith}
use kvadra_top.Text.{Bytes, ℤ, pos, negsuc}
use kvadra_top.Map.{KeyOrder}

unfoldable pub int_less : ℤ → ℤ → Bool
int_less (pos a) (pos b) = ltb a b
int_less (pos a) (negsuc b) = false
int_less (negsuc a) (pos b) = true
int_less (negsuc a) (negsuc b) = ltb b a

pub int_irrefl : (a : ℤ) → int_less a a ≡ false
unfolding int_less
int_irrefl a = ground arith

pub int_trans : (a b c : ℤ) → int_less a b ≡ true → int_less b c ≡ true → int_less a c ≡ true
unfolding int_less
int_trans a b c p q = ground arith

pub int_connex : (a b : ℤ) → int_less a b ≡ false → int_less b a ≡ false → a ≡ b
unfolding int_less
int_connex a b p q = ground arith

abbrev pub int_keys : KeyOrder ℤ
int_keys = record { less = int_less; irrefl = int_irrefl; trans = int_trans; connex = int_connex }

unfoldable pub bytes_less : Bytes → Bytes → Bool
bytes_less [] [] = false
bytes_less [] (d ∷ t) = true
bytes_less (c ∷ s) [] = false
bytes_less (c ∷ s) (d ∷ t) = if ltb c d then true else if ltb d c then false else bytes_less s t

pub bytes_irrefl : (s : Bytes) → bytes_less s s ≡ false
unfolding bytes_less
bytes_irrefl [] = refl
bytes_irrefl (c ∷ s) = ground (arith, bytes_irrefl s)

pub bytes_trans :
    (s t u : Bytes) → bytes_less s t ≡ true → bytes_less t u ≡ true → bytes_less s u ≡ true
unfolding bytes_less
bytes_trans s [] [] p q = cc
bytes_trans [] (d ∷ t) [] p q = cc
bytes_trans (c ∷ s) (d ∷ t) [] p q = cc
bytes_trans [] t (e ∷ u) p q = refl
bytes_trans (c ∷ s) [] (e ∷ u) p q = cc
bytes_trans (c ∷ s) (d ∷ t) (e ∷ u) p q = ground (arith, bytes_trans s t u)

pub bytes_connex : (s t : Bytes) → bytes_less s t ≡ false → bytes_less t s ≡ false → s ≡ t
unfolding bytes_less
bytes_connex [] [] p q = refl
bytes_connex [] (d ∷ t) p q = cc
bytes_connex (c ∷ s) [] p q = cc
bytes_connex (c ∷ s) (d ∷ t) p q = ground (arith, bytes_connex s t)

abbrev pub bytes_keys : KeyOrder Bytes
bytes_keys = record {
  less = bytes_less;
  irrefl = bytes_irrefl;
  trans = bytes_trans;
  connex = bytes_connex;
}

-- ===== src/Word.antt =====
-- uint64_t sums and differences: they wrap.
use kvadra_top.Base.{ℕ, ◌+◌, ◌-◌, ◌%◌, ◌^◌, ◌≤◌, ◌<◌, ◌≡◌, arith}

abbrev pub u64_mod : ℕ
u64_mod = 2 ^ 64

infixl 65 ◌+u◌ ◌-u◌
unfoldable pub ◌+u◌ : ℕ → ℕ → ℕ
a +u b = (a + b) % u64_mod

unfoldable pub ◌-u◌ : ℕ → ℕ → ℕ
a -u b = (a + u64_mod - b % u64_mod) % u64_mod

pub +u_lt : (a b : ℕ) → a +u b < u64_mod
unfolding ◌+u◌
+u_lt a b = omega arith

pub +u_mod : (a b c : ℕ) → a ≡ b % u64_mod → a +u c ≡ (b + c) % u64_mod
unfolding ◌+u◌
+u_mod a b c h = omega arith

-- A difference of wrapped values is exact when the true difference fits the width.
pub -u_exact : (a b : ℕ) → a ≤ b → b - a < u64_mod → b % u64_mod -u a % u64_mod ≡ b - a
unfolding ◌-u◌
-u_exact a b h fits = omega arith

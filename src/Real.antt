-- ===== src/Real.antt =====
-- C++ `double`, as an interface: what the sources do with it, and the laws of IEEE arithmetic that
-- the theorems use. The values are those other than NaN. The sources guard each division against
-- a zero divisor, so NaN does not come up. `+0` and `-0` are two values of which neither is less.
pub mod Order
pub mod Scan
pub mod Fixed
use kvadra_top.Base.{ℕ, ◌≤◌, ◌<◌, ◌≡◌, ◌⊎◌, Bool, true, false, Option, if◌then◌else◌}
use kvadra_top.Text.{Bytes}

-- `real n` is static_cast<double>(n), and also the literals 0.0, 100.0 and 1000.0; `whole` is
-- static_cast<uint64_t>(x); `less` is `<`; `scan` is the value that
-- extraction stores for a text, by strtod, and whether the text overflows, or nothing where it is no
-- number.
pub record Double : Type 1 where
  pub Real : Type 0
  pub real : ℕ → Real
  pub times : Real → Real → Real
  pub over : Real → Real → Real
  pub minus : Real → Real → Real
  pub less : Real → Real → Bool
  pub whole : Real → ℕ
  pub scan : Bytes → Option (Real × Bool)

pub record Laws (d : Double) : Type 0 where
  pub less_irrefl : (a : d.Real) → d.less a a ≡ false
  pub less_trans : (a b c : d.Real) → d.less a b ≡ true → d.less b c ≡ true → d.less a c ≡ true
  pub less_split : (a b c : d.Real) → d.less a c ≡ true → (d.less a b ≡ true) ⊎ (d.less b c ≡ true)
  pub real_mono : (m n : ℕ) → m ≤ n → d.less (d.real n) (d.real m) ≡ false
  pub real_pos : (n : ℕ) → 0 < n → d.less (d.real 0) (d.real n) ≡ true
  pub zero_over : (c : d.Real) → d.less (d.real 0) c ≡ true → d.over (d.real 0) c ≡ d.real 0
  pub over_self : (n : ℕ) → 0 < n → d.over (d.real n) (d.real n) ≡ d.real 1
  pub over_mono :
      (a b c : d.Real)
      → d.less b a ≡ false
      → d.less (d.real 0) c ≡ true
      → d.less (d.over b c) (d.over a c) ≡ false
  pub times_mono :
      (a b : d.Real) (n : ℕ)
      → 0 < n
      → d.less b a ≡ false
      → d.less (d.times b (d.real n)) (d.times a (d.real n)) ≡ false
  pub one_times : (n : ℕ) → d.times (d.real 1) (d.real n) ≡ d.real n
  pub zero_times : (n : ℕ) → d.times (d.real 0) (d.real n) ≡ d.real 0

module _ (d : Double) where
  open d use {Real, real, less}

  -- std::clamp and std::min, by their definitions.
  unfoldable pub clamp : Real → Real → Real → Real
  clamp v lo hi = if less v lo then lo else if less hi v then hi else v

  unfoldable pub minimum : Real → Real → Real
  minimum a b = if less b a then b else a

  -- `lo ≤ v ≤ hi`: the comparison `<` fails the other way round.
  abbrev pub Between : Real → Real → Real → Type 0
  Between lo hi v = (less v lo ≡ false) × (less hi v ≡ false)

  abbrev pub Percent : Real → Type 0
  Percent = Between (real 0) (real 100)

-- ===== src/Real/Order.antt =====
-- Consequences of the laws: bounds of clamps, minima and percentages.
use kvadra_top.Base.{ℕ, ◌≤◌, ◌<◌, ◌≡◌, true, false, arith}
use kvadra_top.Real.{Double, Laws, clamp, minimum, Between, Percent}

-- A part of a whole, in percent.
abbrev pub share : (d : Double) → ℕ → ℕ → d.Real
share d part total = d.times (d.over (d.real part) (d.real total)) (d.real 100)

module _ (d : Double) (laws : Laws d) where
  open d use {Real, real, over, times, less}
  open laws use {
    less_irrefl, less_trans, less_split, real_mono, real_pos, zero_over, over_self, over_mono,
    times_mono, one_times, zero_times,
  }

  pub less_asym : (a b : Real) → less a b ≡ true → less b a ≡ false
  less_asym a b h = ground (arith, less_trans a b a, less_irrefl a)

  pub not_less_trans : (a b c : Real) → less b a ≡ false → less c b ≡ false → less c a ≡ false
  not_less_trans a b c p q = ground (arith, less_split c b a)

  pub clamp-Between : (v lo hi : Real) → less hi lo ≡ false → Between d lo hi (clamp d v lo hi)
  unfolding clamp
  clamp-Between v lo hi h = ground (arith, less_irrefl lo, less_irrefl hi)

  pub minimum-le : (a b : Real) → less b (minimum d a b) ≡ false
  unfolding minimum
  minimum-le a b = ground (arith, less_irrefl b)

  pub share_nonneg : (part total : ℕ) → 0 < total → less (share d part total) (real 0) ≡ false
  share_nonneg part total h =
      let grows =
        times_mono (over (real 0) (real total)) (over (real part) (real total)) 100 (omega arith) (
          over_mono (real 0) (real part) (real total) (real_mono 0 part (omega arith))
            (real_pos total h)) in
      rw (zero_over (real total) (real_pos total h), zero_times 100) at grows

  pub share-Percent : (part total : ℕ) → 0 < total → part ≤ total → Percent d (share d part total)
  share-Percent part total h le = (share_nonneg part total h, below)
    where
      grows : less (share d total total) (share d part total) ≡ false
      grows =
          times_mono (over (real part) (real total)) (over (real total) (real total)) 100
            (omega arith)
            (over_mono (real part) (real total) (real total) (real_mono part total le)
              (real_pos total h))

      below : less (real 100) (share d part total) ≡ false
      below = cc (over_self total h, one_times 100, grows)

  -- A value that is not negative, over a positive one, is not negative.
  pub over_nonneg :
      (a c : Real)
      → less a (real 0) ≡ false
      → less (real 0) c ≡ true
      → less (over a c) (real 0) ≡ false
  over_nonneg a c h pos = let mono = over_mono (real 0) a c h pos in rw (zero_over c pos) at mono

  pub times_nonneg :
      (a : Real) (n : ℕ)
      → 0 < n
      → less a (real 0) ≡ false
      → less (times a (real n)) (real 0) ≡ false
  times_nonneg a n pos h = let mono = times_mono (real 0) a n pos h in rw (zero_times n) at mono

  pub minimum_nonneg :
      (a b : Real)
      → less a (real 0) ≡ false
      → less b (real 0) ≡ false
      → less (minimum d a b) (real 0) ≡ false
  unfolding minimum
  minimum_nonneg a b p q = ground arith

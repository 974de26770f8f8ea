-- ===== src/Cpu/Usage.antt =====
-- What `compute_usage` returns.
use kvadra_top.Base.{
  ℕ, ◌+◌, ◌-◌, ◌%◌, ◌≤◌, ◌<◌, ◌≡◌, ◌==◌, if◌then◌else◌, Bool-cases, inl, inr, arith,
}
use kvadra_top.Word.{◌+u◌, ◌-u◌, u64_mod, -u_exact}
use kvadra_top.Real.{Double, Laws, Percent, clamp}
use kvadra_top.Real.Order.{clamp-Between, share, share-Percent}
use kvadra_top.Cpu.Stat.{RawStat, total, active}
use kvadra_top.Cpu.Monitor.{compute_usage}

-- The sums without wrapping.
abbrev pub active_sum : RawStat → ℕ
active_sum s = s.user + s.nice + s.system + s.irq + s.softirq + s.steal

abbrev pub total_sum : RawStat → ℕ
total_sum s = active_sum s + s.idle + s.iowait

-- No counter went back between two readings.
pub record Grows (p c : RawStat) : Type 0 where
  pub user : p.user ≤ c.user
  pub nice : p.nice ≤ c.nice
  pub system : p.system ≤ c.system
  pub idle : p.idle ≤ c.idle
  pub iowait : p.iowait ≤ c.iowait
  pub irq : p.irq ≤ c.irq
  pub softirq : p.softirq ≤ c.softirq
  pub steal : p.steal ≤ c.steal

total-mod : (s : RawStat) → total s ≡ total_sum s % u64_mod
unfolding total ◌+u◌
total-mod s = omega arith

active-mod : (s : RawStat) → active s ≡ active_sum s % u64_mod
unfolding active ◌+u◌
active-mod s = omega arith

total_delta :
    (p c : RawStat)
    → Grows p c
    → total_sum c - total_sum p < u64_mod
    → total c -u total p ≡ total_sum c - total_sum p
total_delta p c g fits =
    rw (total-mod c, total-mod p) (-u_exact (total_sum p) (total_sum c) (omega arith) fits)

active_delta :
    (p c : RawStat)
    → Grows p c
    → total_sum c - total_sum p < u64_mod
    → active c -u active p ≡ active_sum c - active_sum p
active_delta p c g fits =
    rw (active-mod c, active-mod p)
      (-u_exact (active_sum p) (active_sum c) (omega arith) (omega arith))

module _ (d : Double) (laws : Laws d) where
  open d use {Real, real}

  -- The result lies between 0 and 100 for all pairs of rows, also when a counter went back and a
  -- difference wrapped around.
  pub compute_usage-Percent : (prev curr : RawStat) → Percent d (compute_usage d prev curr)
  unfolding compute_usage
  compute_usage-Percent prev curr = elim (Bool-cases (total curr -u total prev == 0)) [
    | inl e ↦ rw e (laws.less_irrefl (real 0), laws.real_mono 0 100 (omega arith))
    | inr e ↦ rw e (clamp-Between d laws _ (real 0) (real 100) (laws.real_mono 0 100 (omega arith)))
  ]

  clamp_id : (v : Real) → Percent d v → clamp d v (real 0) (real 100) ≡ v
  unfolding clamp
  clamp_id v h = rw (h.0, h.1)

  -- When no counter went back and fewer than 2^64 jiffies passed, the result is the active share of
  -- the jiffies that passed, in percent, or 0 when none passed. The sums may wrap around.
  pub compute_usage_exact :
      (prev curr : RawStat)
      → Grows prev curr
      → total_sum curr - total_sum prev < u64_mod
      → compute_usage d prev curr ≡ (
          if total_sum curr - total_sum prev == 0
          then real 0
          else share d (active_sum curr - active_sum prev) (total_sum curr - total_sum prev))
  unfolding compute_usage
  compute_usage_exact prev curr g fits =
      rw (total_delta prev curr g fits, active_delta prev curr g fits)
        (elim (Bool-cases (total_sum curr - total_sum prev == 0)) [
          | inl e ↦ rw e
          | inr e ↦ rw e (
              clamp_id
                (share d (active_sum curr - active_sum prev) (total_sum curr - total_sum prev))
                (share-Percent d laws (active_sum curr - active_sum prev)
                  (total_sum curr - total_sum prev) (ground arith) (omega arith)))
        ])

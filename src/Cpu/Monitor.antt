-- ===== src/Cpu/Monitor.antt =====
-- `compute_usage`, the constructor and `sample`.
use kvadra_top.Base.{ℕ, ◌+◌, ◌>>=◌, List, [], ◌∷◌, ◌==◌, if◌then◌else◌, Result, ok, throw}
use kvadra_top.Word.{◌-u◌}
use kvadra_top.Text.{File}
use kvadra_top.Real.{Double, clamp}
use kvadra_top.Snapshot.{CpuCore, CpuSnapshot}
use kvadra_top.Cpu.Stat.{RawStat, total, active, read_proc_stat}
use kvadra_top.Cpu.Load.{load_averages}

pub record CpuMonitor : Type 0 where
  pub prev_stats : List RawStat

-- The files that one call reads.
pub record CpuFiles : Type 0 where
  pub proc_stat : File
  pub loadavg : File

unfoldable pub init : File → Result CpuMonitor
init f = do rows ← read_proc_stat f; ok (record { prev_stats = rows })

module _ (d : Double) where
  open d use {Real, real, times, over}

  unfoldable pub compute_usage : RawStat → RawStat → Real
  unfolding total active ◌-u◌ clamp
  compute_usage prev curr =
      let total_delta = total curr -u total prev in
      let active_delta = active curr -u active prev in
      if total_delta == 0
      then real 0
      else clamp d (times (over (real active_delta) (real total_delta)) (real 100)) (real 0)
          (real 100)

  -- The loop over the cores: `prev` and `curr` begin at row `i + 1`, and `prev` may be shorter.
  unfoldable pub cores_from : ℕ → List RawStat → List RawStat → List (CpuCore d)
  unfolding compute_usage
  cores_from i prev [] = []
  cores_from i [] (c ∷ curr) =
      record { index = i; usage_percent = real 0 } ∷ cores_from (i + 1) [] curr
  cores_from i (p ∷ prev) (c ∷ curr) =
      record { index = i; usage_percent = compute_usage p c } ∷ cores_from (i + 1) prev curr

  -- The total and the cores.
  unfoldable pub usages : List RawStat → List RawStat → Real × List (CpuCore d)
  unfolding cores_from
  usages [] curr = (real 0, [])
  usages (p ∷ prev) [] = (real 0, [])
  usages (p ∷ prev) (c ∷ curr) = (compute_usage p c, cores_from 0 prev curr)

  abbrev pub snapshot_of : Real × List (CpuCore d) → Real × Real × Real → CpuSnapshot d
  snapshot_of (all, cores) (one, five, fifteen) = record {
    total_usage_percent = all;
    cores = cores;
    load_avg_1 = one;
    load_avg_5 = five;
    load_avg_15 = fifteen;
  }

  abbrev sampled : CpuMonitor → File → Result (List RawStat) → CpuMonitor × Result (CpuSnapshot d)
  sampled m loadavg (throw e) = (m, throw e)
  sampled m loadavg (ok curr) = (
    record { prev_stats = curr },
    ok (snapshot_of (usages m.prev_stats curr) (load_averages d loadavg)),
  )

  unfoldable pub sample : CpuMonitor → CpuFiles → CpuMonitor × Result (CpuSnapshot d)
  sample m f = sampled m f.loadavg (read_proc_stat f.proc_stat)

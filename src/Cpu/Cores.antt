-- ===== src/Cpu/Cores.antt =====
-- The cores of a snapshot, core by core.
use kvadra_top.Base.{
  ℕ, zero, suc, ◌+◌, ◌≡◌, refl, Option, none, some, List, [], ◌∷◌, get_elem?, ok, arith, ap, ◌∙◌,
}
use kvadra_top.Real.{Double}
use kvadra_top.Snapshot.{CpuCore, CpuSnapshot}
use kvadra_top.Cpu.Stat.{RawStat, read_proc_stat}
use kvadra_top.Cpu.Monitor.{
  CpuMonitor, CpuFiles, compute_usage, cores_from, usages, snapshot_of, sample,
}
use kvadra_top.Cpu.Load.{load_averages}

module _ (d : Double) where
  open d use {Real, real}

  -- The usage of one row against the row of the same place in the reading before.
  abbrev pub usage_since : Option RawStat → RawStat → Real
  usage_since none c = real 0
  usage_since (some p) c = compute_usage d p c

  -- The core that row `i` stands for.
  abbrev pub core_of : ℕ → Option RawStat → Option RawStat → Option (CpuCore d)
  core_of i p none = none
  core_of i p (some c) = some (record { index = i; usage_percent = usage_since p c })

  get_elem?-cores_from :
      (n : ℕ) (prev curr : List RawStat) (i : ℕ)
      → get_elem? (cores_from d n prev curr) i
        ≡ core_of (n + i) (get_elem? prev i) (get_elem? curr i)
  unfolding cores_from
  get_elem?-cores_from n [] [] i = refl
  get_elem?-cores_from n (p ∷ prev) [] i = refl
  get_elem?-cores_from n [] (c ∷ curr) zero = ground arith
  get_elem?-cores_from n [] (c ∷ curr) (suc i) =
      get_elem?-cores_from (n + 1) [] curr i
      ∙ ap (λ k. core_of k none (get_elem? curr i)) (omega arith)
  get_elem?-cores_from n (p ∷ prev) (c ∷ curr) zero = ground arith
  get_elem?-cores_from n (p ∷ prev) (c ∷ curr) (suc i) =
      get_elem?-cores_from (n + 1) prev curr i
      ∙ ap (λ k. core_of k (get_elem? prev i) (get_elem? curr i)) (omega arith)

  -- Of two readings that are not empty, the first rows give the total, and each row behind them is a
  -- core: it is numbered from 0 and measured against the row of the same place before, or 0 where there
  -- was none. The new rows replace the old ones.
  pub sample_cores :
      (m : CpuMonitor) (f : CpuFiles) (p c : RawStat) (prev curr : List RawStat)
      → m.prev_stats ≡ p ∷ prev
      → read_proc_stat f.proc_stat ≡ ok (c ∷ curr)
      → (snap : CpuSnapshot d) × (sample d m f ≡ (record { prev_stats = c ∷ curr }, ok snap))
        × (snap.total_usage_percent ≡ compute_usage d p c)
        × ((i : ℕ) → get_elem? snap.cores i ≡ core_of i (get_elem? prev i) (get_elem? curr i))
  unfolding sample usages
  sample_cores m f p c prev curr e r = (
    snapshot_of d (usages d (p ∷ prev) (c ∷ curr)) (load_averages d f.loadavg),
    rw (r, e),
    refl,
    λ i.
        get_elem?-cores_from 0 prev curr i
        ∙ ap (λ k. core_of k (get_elem? prev i) (get_elem? curr i)) (omega arith),
  )

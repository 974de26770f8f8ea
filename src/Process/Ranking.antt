-- ===== src/Process/Ranking.antt =====
-- The rest of `sample`: pids that are gone are erased, and the entries are sorted and cut.
use mathlib.Core.List.{Perm}
use kvadra_top.Base.{
  ℕ, ◌/◌, ◌≡◌, ◌⊎◌, Bool, true, false, ◌||◌, none, some, List, [], ◌∷◌, All, take, length, ltb,
  if◌then◌else◌, Result, ok, throw,
}
use kvadra_top.Text.{ℤ}
use kvadra_top.Map.{same}
use kvadra_top.Map.Keys.{int_keys}
use kvadra_top.Real.{Double}
use kvadra_top.Snapshot.{ProcessEntry}
use kvadra_top.Process.User.{read_uptime, read_total_cpu_ticks}
use kvadra_top.Process.Monitor.{ProcessMonitor, System, Context, total_delta_of, scan_dir}

-- No element is less than one that stands before it.
abbrev pub SortedBy {ℓ} : {E : Type ℓ} → (E → E → Bool) → List E → Type 0
SortedBy less [] = Unit
SortedBy less (x ∷ xs) = All (λ y. less y x ≡ false) xs × SortedBy less xs

-- What std::sort asks of a comparison.
pub record IsWeakOrder {ℓ} {E : Type ℓ} (less : E → E → Bool) : Type ℓ where
  pub irrefl : (a : E) → less a a ≡ false
  pub trans : (a b c : E) → less a b ≡ true → less b c ≡ true → less a c ≡ true
  pub split : (a b c : E) → less a c ≡ true → (less a b ≡ true) ⊎ (less b c ≡ true)

-- std::sort: the same elements in order. The order of equal elements is left open.
pub record Sorting (E : Type 0) : Type 0 where
  pub sort : (E → E → Bool) → List E → List E
  pub sort-perm : (less : E → E → Bool) (xs : List E) → IsWeakOrder less → Perm (sort less xs) xs
  pub sort-SortedBy :
      (less : E → E → Bool) (xs : List E) → IsWeakOrder less → SortedBy less (sort less xs)

module _ (d : Double) where
  open d use {Real, real, times, less}

  -- The inner loop: does an entry have the pid?
  unfoldable pub has_pid : ℤ → List (ProcessEntry d) → Bool
  has_pid pid [] = false
  has_pid pid (e ∷ entries) = same int_keys e.pid pid || has_pid pid entries

  -- The loop that erases from `prev_`.
  unfoldable pub prune : List (ProcessEntry d) → List (ℤ × ℕ) → List (ℤ × ℕ)
  unfolding has_pid
  prune entries [] = []
  prune entries ((pid, ticks) ∷ prev) =
      if has_pid pid entries then (pid, ticks) ∷ prune entries prev else prune entries prev

  -- The comparison of the call of std::sort.
  abbrev pub busier : ProcessEntry d → ProcessEntry d → Bool
  busier a b = less b.cpu_percent a.cpu_percent

  module _ (s : Sorting (ProcessEntry d)) where
    -- `if (entries.size() > 20) entries.resize(20);`
    unfoldable pub top : List (ProcessEntry d) → List (ProcessEntry d)
    top entries =
        let sorted = s.sort busier entries in
        if ltb 20 (length sorted) then take 20 sorted else sorted

    unfoldable pub context_of : ProcessMonitor → System → ℕ → Context d
    context_of m sys total_memory_kb = record {
      total_delta = total_delta_of m.prev_total_ticks (read_total_cpu_ticks sys.proc_stat);
      page_size_kb = sys.page_size / 1024;
      boot_jiffies = times (read_uptime d sys.uptime) (real m.hertz);
      hertz = m.hertz;
      total_memory_kb = total_memory_kb;
    }

    abbrev pub finished :
        ProcessMonitor
        → System
        → List (ℤ × ℕ) × Result (List (ProcessEntry d))
        → ProcessMonitor × Result (List (ProcessEntry d))
    finished m sys (prev, throw x) = (record m { prev = prev }, throw x)
    finished m sys (prev, ok entries) = (
      record m { prev = prune entries prev; prev_total_ticks = read_total_cpu_ticks sys.proc_stat },
      ok (top entries),
    )

    -- Without the directory the result is empty and the state stays.
    unfoldable pub sample :
        ProcessMonitor → System → ℕ → ProcessMonitor × Result (List (ProcessEntry d))
    sample m sys total_memory_kb = elim sys.dir [
      | none ↦ (m, ok [])
      | some dir ↦ finished m sys (scan_dir d (context_of m sys total_memory_kb) sys dir m.prev [])
    ]

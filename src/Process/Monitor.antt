-- ===== src/Process/Monitor.antt =====
-- The constructor, and the loop of `sample` over /proc.
use kvadra_top.Base.{
  ℕ, suc, ◌+◌, ◌-◌, ◌*◌, ◌%◌, ◌^◌, Bool, true, false, ◌&&◌, Option, none, some, List, [], ◌∷◌, ◌++◌,
  ltb, leb, if◌then◌else◌, Result, ok, throw, Exception,
}
use kvadra_top.Text.{Bytes, File, ℤ, pos, to_u64, stoi}
use kvadra_top.Map.{insert, lookup}
use kvadra_top.Map.Keys.{int_keys}
use kvadra_top.Real.{Double}
use kvadra_top.Snapshot.{ProcessEntry}
use kvadra_top.Process.Names.{all_digits}
use kvadra_top.Process.Stat.{ProcStat, read_proc_stat}
use kvadra_top.Process.User.{read_uid, uid_to_username, read_total_cpu_ticks}

-- `prev` maps a pid to its ticks at the last sample.
pub record ProcessMonitor : Type 0 where
  pub prev : List (ℤ × ℕ)
  pub hertz : ℕ
  pub prev_total_ticks : ℕ

pub data FileType : Type 0 where
  directory unknown other : FileType

pub record Dirent : Type 0 where
  pub d_type : FileType
  pub d_name : Bytes

-- What the system gives to one call. `dir` is the listing of /proc, if it can be opened.
pub record System : Type 0 where
  pub proc_stat : File
  pub uptime : File
  pub page_size : ℕ
  pub dir : Option (List Dirent)
  pub stat : ℤ → File
  pub status : ℤ → File
  pub passwd : ℕ → Option Bytes

-- `if (hertz_ <= 0) hertz_ = 100;`
unfoldable pub clock_ticks : ℤ → ℕ
clock_ticks (pos (suc n)) = suc n
clock_ticks _ = 100

unfoldable pub init : ℤ → File → ProcessMonitor
unfolding clock_ticks read_total_cpu_ticks
init ticks proc_stat = record {
  prev = [];
  hertz = clock_ticks ticks;
  prev_total_ticks = read_total_cpu_ticks proc_stat;
}

abbrev may_be_directory : FileType → Bool
may_be_directory directory = true
may_be_directory unknown = true
may_be_directory other = false

-- The two tests at the head of the loop.
unfoldable pub is_candidate : Dirent → Bool
unfolding all_digits
is_candidate e = may_be_directory e.d_type && all_digits e.d_name

-- `curr > prev ? curr - prev : 1`.
unfoldable pub total_delta_of : ℕ → ℕ → ℕ
total_delta_of prev curr = if ltb prev curr then curr - prev else 1

module _ (d : Double) where
  open d use {Real, real, times, over, minus, less, whole}

  -- The values that `sample` computes before its loop.
  pub record Context : Type 0 where
    pub total_delta : ℕ
    pub page_size_kb : ℕ
    pub boot_jiffies : Real
    pub hertz : ℕ
    pub total_memory_kb : ℕ

  unfoldable pub cpu_percent : ℕ → Option ℕ → ℕ → Real
  cpu_percent total_delta none cpu_ticks = real 0
  cpu_percent total_delta (some before) cpu_ticks =
      let proc_delta = if leb before cpu_ticks then cpu_ticks - before else 0 in
      if ltb 0 total_delta
      then times (over (real proc_delta) (real total_delta)) (real 100)
      else real 0

  unfoldable pub mem_percent : ℕ → ℕ → Real
  mem_percent rss_kb total_memory_kb =
      if ltb 0 total_memory_kb
      then times (over (real rss_kb) (real total_memory_kb)) (real 100)
      else real 0

  unfoldable pub uptime_of : Real → ℕ → ℕ → ℕ
  uptime_of boot_jiffies hertz starttime =
      if less (real starttime) boot_jiffies
      then whole (over (minus boot_jiffies (real starttime)) (real hertz))
      else 0

  -- `ps.utime + ps.stime`.
  unfoldable pub cpu_ticks_of : ProcStat → ℕ
  cpu_ticks_of ps = (ps.utime + ps.stime) % 2 ^ 64

  unfoldable pub entry_of : Context → System → List (ℤ × ℕ) → ℤ → ProcStat → ProcessEntry d
  unfolding cpu_percent mem_percent uptime_of cpu_ticks_of lookup read_uid uid_to_username
  entry_of ctx sys prev pid ps =
      let rss_kb = to_u64 ps.rss * ctx.page_size_kb % 2 ^ 64 in
      record {
        pid = pid;
        name = ps.comm;
        user = uid_to_username sys.passwd (read_uid (sys.status pid));
        state = ps.state;
        cpu_percent = cpu_percent ctx.total_delta (lookup int_keys pid prev) (cpu_ticks_of ps);
        mem_percent = mem_percent rss_kb ctx.total_memory_kb;
        mem_rss_kb = rss_kb;
        threads = ps.threads;
        uptime_seconds = uptime_of ctx.boot_jiffies ctx.hertz ps.starttime;
      }

  -- What a directory entry leads to: `continue`, an exception, or a process.
  pub data Visit : Type 0 where
    skipped : Visit
    failed : Exception → Visit
    found : ℤ → ProcStat → Visit

  abbrev visit_stat : ℤ → Result (Option ProcStat) → Visit
  visit_stat pid (throw e) = failed e
  visit_stat pid (ok none) = skipped
  visit_stat pid (ok (some ps)) = found pid ps

  abbrev visit_pid : System → Result ℤ → Visit
  visit_pid sys (throw e) = failed e
  visit_pid sys (ok pid) = visit_stat pid (read_proc_stat (sys.stat pid))

  unfoldable pub visit : System → Dirent → Visit
  unfolding is_candidate
  visit sys e = if is_candidate e then visit_pid sys (stoi e.d_name) else skipped

  -- The loop: the map changes also when an exception ends it.
  unfoldable pub scan_dir :
      Context
      → System
      → List Dirent
      → List (ℤ × ℕ)
      → List (ProcessEntry d)
      → List (ℤ × ℕ) × Result (List (ProcessEntry d))
  unfolding visit entry_of cpu_ticks_of insert
  scan_dir ctx sys [] prev entries = (prev, ok entries)
  scan_dir ctx sys (e ∷ rest) prev entries = elim (visit sys e) [
    | skipped ↦ scan_dir ctx sys rest prev entries
    | failed x ↦ (prev, throw x)
    | found pid ps ↦
        scan_dir ctx sys rest (insert int_keys pid (cpu_ticks_of ps) prev)
          (entries ++ entry_of ctx sys prev pid ps ∷ [])
  ]

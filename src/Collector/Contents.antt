-- ===== src/Collector/Contents.antt =====
-- What every snapshot holds, whatever the files hold.
use kvadra_top.Base.{
  Option-cases, inl, inr, ℕ, ◌≤◌, ◌+◌, ◌≡◌, sym, none, some, List, [], ◌∷◌, All, length, Result, ok,
  throw, arith,
}
use mathlib.Core.Path.{subst}
use kvadra_top.Text.{File, ℤ}
use kvadra_top.Time.{Instant}
use kvadra_top.Map.Keys.{bytes_keys}
use kvadra_top.Map.Reports.{InOrder}
use kvadra_top.Real.{Double, Laws, Percent}
use kvadra_top.Snapshot.{Snapshot, CpuCore, CpuSnapshot, NetworkInterface, DiskDevice, ProcessEntry}
use kvadra_top.Cpu
use kvadra_top.Cpu.{RawStat, CpuMonitor, CpuFiles, cores_from, usages, read_proc_stat}
use kvadra_top.Cpu.Usage.{compute_usage-Percent}
use kvadra_top.Memory
use kvadra_top.Memory.Bounds.{InBounds, sample-InBounds}
use kvadra_top.Network
use kvadra_top.Network.{NetworkMonitor}
use kvadra_top.Network.Interfaces
use kvadra_top.Disk
use kvadra_top.Disk.{DiskMonitor}
use kvadra_top.Disk.Devices
use kvadra_top.Process
use kvadra_top.Process.{ProcessMonitor, System, Sorting, top}
use kvadra_top.Process.Top.{Ranked, top_lem}
use kvadra_top.Collector.State.{Collector, Inputs}
use kvadra_top.Collector.Steps.{Step, next}
use kvadra_top.Collector.Run.{collect}

-- A call that returns, returns a value of the predicate.
abbrev pub Ensures : {A : Type 0} → (A → Type 0) → Result A → Type 0
Ensures P (throw x) = Unit
Ensures P (ok a) = P a

Ensures-next :
    {A B : Type 0} (P : A → Type 0) (Q : B → Type 0) (r : Collector × Result A) (f : A → Step B)
    → Ensures P r.1
    → ((c : Collector) (a : A) → P a → Ensures Q (f a c).1)
    → Ensures Q (next r f).1
Ensures-next P Q (c, throw x) f h k = tt
Ensures-next P Q (c, ok a) f h k = k c a h

Ensures-ok : {A : Type 0} (P : A → Type 0) (r : Result A) (a : A) → r ≡ ok a → P a → Ensures P r
Ensures-ok P r a e h = subst (Ensures P) (sym e) h

module _ (d : Double) (laws : Laws d) where
  open d use {Real, real}

  zero-Percent : Percent d (real 0)
  zero-Percent = (laws.less_irrefl (real 0), laws.real_mono 0 100 (omega arith))

  abbrev pub CoreInRange : CpuCore d → Type 0
  CoreInRange core = Percent d core.usage_percent

  pub record CpuInRange (cpu : CpuSnapshot d) : Type 0 where
    pub total : Percent d cpu.total_usage_percent
    pub cores : All CoreInRange cpu.cores

  cores_from-InRange :
      (i : ℕ) (prev curr : List RawStat) → All CoreInRange (cores_from d i prev curr)
  unfolding cores_from
  cores_from-InRange i [] [] = tt
  cores_from-InRange i (p ∷ prev) [] = tt
  cores_from-InRange i [] (c ∷ curr) = (zero-Percent, cores_from-InRange (i + 1) [] curr)
  cores_from-InRange i (p ∷ prev) (c ∷ curr) =
      (compute_usage-Percent d laws p c, cores_from-InRange (i + 1) prev curr)

  usages-InRange :
      (prev curr : List RawStat) (load : Real × Real × Real)
      → CpuInRange (Cpu.snapshot_of d (usages d prev curr) load)
  unfolding usages
  usages-InRange [] curr load = record { total = zero-Percent; cores = tt }
  usages-InRange (p ∷ prev) [] load = record { total = zero-Percent; cores = tt }
  usages-InRange (p ∷ prev) (c ∷ curr) load = record {
    total = compute_usage-Percent d laws p c;
    cores = cores_from-InRange 0 prev curr;
  }

  cpu-InRange :
      (m : CpuMonitor) (loadavg f : File)
      → Ensures CpuInRange (Cpu.sample d m (record { proc_stat = f; loadavg = loadavg })).1
  unfolding Cpu.sample read_proc_stat
  cpu-InRange m loadavg none = tt
  cpu-InRange m loadavg (some text) = usages-InRange m.prev_stats _ _

  memory-InBounds : (f : File) → Ensures (InBounds d laws) (Memory.sample d f)
  unfolding Memory.sample
  memory-InBounds none = tt
  memory-InBounds (some text) =
      let (snap, e, h) = sample-InBounds d laws text in Ensures-ok (InBounds d laws) _ snap e h

  abbrev pub InterfacesInRange : List (NetworkInterface d) → Type 0
  InterfacesInRange xs =
      InOrder bytes_keys (Interfaces.name_of d) xs × All (Interfaces.IsInterfaceReport d) xs

  network-InRange :
      (m : NetworkMonitor) (now : Instant) (f : File)
      → Ensures InterfacesInRange (Network.sample d m now f).1
  unfolding Network.sample Network.read_proc_net_dev
  network-InRange m now none = tt
  network-InRange m now (some text) =
      let (xs, e, order, h) = Interfaces.sample-IsInterfaceReport d laws m now text in
      Ensures-ok InterfacesInRange _ xs e (order, h)

  abbrev pub DevicesInRange : List (DiskDevice d) → Type 0
  DevicesInRange xs = InOrder bytes_keys (Devices.name_of d) xs × All (Devices.IsDeviceReport d) xs

  disk-InRange :
      (m : DiskMonitor) (now : Instant) (f : File)
      → Ensures DevicesInRange (Disk.sample d m now f).1
  unfolding Disk.sample Disk.read_proc_diskstats
  disk-InRange m now none = tt
  disk-InRange m now (some text) =
      let (xs, e, order, h) = Devices.sample-IsDeviceReport d laws m now text in
      Ensures-ok DevicesInRange _ xs e (order, h)

  abbrev pub IsTopList : List (ProcessEntry d) → Type 0
  IsTopList xs = Ranked d laws xs × (length xs ≤ 20)

  module _ (s : Sorting (ProcessEntry d)) where
    top-IsTopList : (entries : List (ProcessEntry d)) → IsTopList (top d s entries)
    top-IsTopList entries =
        let (dropped, same, ranked, most, count) = top_lem d laws s entries in (ranked, omega arith)

    finished-IsTopList :
        (m : ProcessMonitor) (sys : System) (r : List (ℤ × ℕ) × Result (List (ProcessEntry d)))
        → Ensures IsTopList (Process.finished d s m sys r).1
    finished-IsTopList m sys (prev, throw x) = tt
    finished-IsTopList m sys (prev, ok entries) = top-IsTopList entries

    processes-IsTopList :
        (m : ProcessMonitor) (sys : System) (total_kb : ℕ)
        → Ensures IsTopList (Process.sample d s m sys total_kb).1
    unfolding Process.sample
    processes-IsTopList m sys total_kb = elim (Option-cases sys.dir) [
      | inl n ↦ rw (n, Process.sample, Ensures) (tt, omega arith)
      | inr (dir, n) ↦ rw (n, Process.sample, Ensures) (finished-IsTopList m sys _)
    ]

    pub record InRange (snap : Snapshot d) : Type 0 where
      pub cpu : CpuInRange snap.cpu
      pub memory : InBounds d laws snap.memory
      pub network : InterfacesInRange snap.network
      pub disk : DevicesInRange snap.disk
      pub processes : IsTopList snap.processes

    collect-Ensures : (i : Inputs) (c : Collector) → Ensures InRange (collect d s i c).1
    unfolding collect
    collect-Ensures i c =
        Ensures-next (InBounds d laws) InRange _ _ (memory-InBounds i.meminfo) λ c memory in_memory.
          Ensures-next CpuInRange InRange _ _ (cpu-InRange c.cpu i.cpu.loadavg i.cpu.proc_stat)
            λ c cpu in_cpu.
              Ensures-next InterfacesInRange InRange _ _
                (network-InRange c.network i.network_time i.net_dev)
                λ c network in_network.
                  Ensures-next DevicesInRange InRange _ _
                    (disk-InRange c.disk i.disk_time i.diskstats)
                    λ c disk in_disk.
                      Ensures-next IsTopList InRange _ _
                        (processes-IsTopList c.processes i.processes memory.total_kb)
                        λ c processes in_processes. record {
                          cpu = in_cpu;
                          memory = in_memory;
                          network = in_network;
                          disk = in_disk;
                          processes = in_processes;
                        }

    -- Whatever the files hold, a snapshot that `collect` returns has all percentages of the CPU, of its
    -- cores, of the memory and of the disks between 0 and 100; used memory within the total; interfaces
    -- and disks in ascending order of their names, with no negative rate; and at most 20 processes,
    -- the busiest first.
    pub collect-InRange :
        (i : Inputs) (c after : Collector) (snap : Snapshot d)
        → collect d s i c ≡ (after, ok snap)
        → InRange snap
    collect-InRange i c after snap e = subst (λ r. Ensures InRange r.1) e (collect-Ensures i c)

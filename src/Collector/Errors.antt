-- ===== src/Collector/Errors.antt =====
-- What `collect` throws, and what an exception leaves behind.
use kvadra_top.Base.{
  ℕ, ◌≡◌, refl, ap, Bool, true, false, ◌&&◌, Option, none, some, List, [], ◌∷◌, ◌++◌, if◌then◌else◌,
  Result, ok, throw, runtime_error,
}
use kvadra_top.Text.{Bytes, File, codes, lines}
use kvadra_top.Time.{Instant}
use kvadra_top.Real.{Double}
use kvadra_top.Snapshot.{ProcessEntry, Snapshot}
use kvadra_top.Cpu
use kvadra_top.Cpu.{CpuFiles}
use kvadra_top.Memory
use kvadra_top.Network
use kvadra_top.Disk
use kvadra_top.Process
use kvadra_top.Process.{System, Sorting}
use kvadra_top.Info.{Machine}
use kvadra_top.Collector.State.{Collector, Inputs}
use kvadra_top.Collector.Steps.{next, return}
use kvadra_top.Collector.Run.{collect}

abbrev pub is_open : File → Bool
is_open none = false
is_open (some text) = true

-- The first of the files that cannot be opened.
abbrev pub first_missing : List (Bytes × File) → Option Bytes
first_missing [] = none
first_missing ((name, none) ∷ rest) = some name
first_missing ((name, some text) ∷ rest) = first_missing rest

-- The files that a collection must read, in the order in which it reads them.
abbrev pub needed : Inputs → List (Bytes × File)
needed i =
    (codes "/proc/meminfo", i.meminfo)
    ∷ (codes "/proc/stat", i.cpu.proc_stat)
    ∷ (codes "/proc/net/dev", i.net_dev)
    ∷ (codes "/proc/diskstats", i.diskstats)
    ∷ []

module _ (d : Double) (s : Sorting (ProcessEntry d)) (i : Inputs) (c : Collector) where
  -- Each monitor takes a new reading only if every monitor in front of it could.
  pub record TookTurns (after : Collector) : Type 0 where
    pub cpu : after.cpu ≡ (if is_open i.meminfo then (Cpu.sample d c.cpu i.cpu).0 else c.cpu)
    pub network : after.network ≡ (
        if is_open i.meminfo && is_open i.cpu.proc_stat
        then (Network.sample d c.network i.network_time i.net_dev).0
        else c.network)
    pub disk : after.disk ≡ (
        if is_open i.meminfo && (is_open i.cpu.proc_stat && is_open i.net_dev)
        then (Disk.sample d c.disk i.disk_time i.diskstats).0
        else c.disk)

  -- The snapshot fails as the list of processes does, and else contains it.
  abbrev pub Follows : Result (List (ProcessEntry d)) → Result (Snapshot d) → Type 0
  Follows (throw x) r = r ≡ throw x
  Follows (ok entries) r = (snap : Snapshot d) × (r ≡ ok snap) × (snap.processes ≡ entries)

  -- For the first missing file an exception names it, and the processes are not sampled; where no
  -- file is missing, the processes decide.
  abbrev pub Outcome : Option Bytes → Collector × Result (Snapshot d) → Type 0
  Outcome (some name) (after, r) =
      (r ≡ throw (runtime_error (codes "cannot open " ++ name))) × (after.processes ≡ c.processes)
  Outcome none (after, r) =
      (total_kb : ℕ) × (after.processes ≡ (Process.sample d s c.processes i.processes total_kb).0)
      × Follows (Process.sample d s c.processes i.processes total_kb).1 r

last_step :
    {A B : Type 0} (c : Collector) (r : Result A) (g : A → B)
    → (next (c, r) (λ a. return (g a))).0 ≡ c
last_step c (throw x) g = refl
last_step c (ok a) g = refl

last_step-Follows :
    (d : Double) (s : Sorting (ProcessEntry d)) (i : Inputs) (c after : Collector)
    (r : Result (List (ProcessEntry d))) (g : List (ProcessEntry d) → Snapshot d)
    → ((entries : List (ProcessEntry d)) → (g entries).processes ≡ entries)
    → Follows d s i c r (next (after, r) (λ a. return (g a))).1
last_step-Follows d s i c after (throw x) g h = refl
last_step-Follows d s i c after (ok entries) g h = (g entries, refl, h entries)

module _ (d : Double) (s : Sorting (ProcessEntry d)) (c : Collector) (ms : ℕ) (loadavg : File)
    (network_time disk_time : Instant) (processes : System) (machine : Machine) where
  abbrev inputs_of : File → File → File → File → Inputs
  inputs_of meminfo proc_stat net_dev diskstats = record {
    system_ms = ms;
    meminfo = meminfo;
    cpu = record { proc_stat = proc_stat; loadavg = loadavg };
    network_time = network_time;
    net_dev = net_dev;
    disk_time = disk_time;
    diskstats = diskstats;
    processes = processes;
    machine = machine;
  }

  abbrev Fails : Inputs → Type 0
  Fails i =
      Outcome d s i c (first_missing (needed i)) (collect d s i c)
      × TookTurns d s i c (collect d s i c).0

  inputs_of-Fails :
      (meminfo proc_stat net_dev diskstats : File)
      → Fails (inputs_of meminfo proc_stat net_dev diskstats)
  unfolding collect Cpu.read_proc_stat Network.read_proc_net_dev Disk.read_proc_diskstats
  inputs_of-Fails none p n k = ((refl, refl), record { cpu = refl; network = refl; disk = refl })
  inputs_of-Fails (some m) none n k =
      ((refl, refl), record { cpu = refl; network = refl; disk = refl })
  inputs_of-Fails (some m) (some p) none k =
      ((refl, refl), record { cpu = refl; network = refl; disk = refl })
  inputs_of-Fails (some m) (some p) (some n) none =
      ((refl, refl), record { cpu = refl; network = refl; disk = refl })
  inputs_of-Fails (some m) (some p) (some n) (some k) =
      let total = (Memory.snapshot_of d (Memory.parse_fields (lines m))).total_kb in
      let r = Process.sample d s c.processes processes total in
      let same =
        last_step {B = Snapshot d}
          (record {
            cpu = (Cpu.sample d c.cpu (record { proc_stat = some p; loadavg = loadavg })).0;
            network = (Network.sample d c.network network_time (some n)).0;
            disk = (Disk.sample d c.disk disk_time (some k)).0;
            processes = r.0;
          })
          r.1 _ in
      (
        (
          total,
          ap (λ (x : Collector). x.processes) same,
          last_step-Follows d s (inputs_of (some m) (some p) (some n) (some k)) c _ r.1 _
              (λ e. refl),
        ),
        record {
          cpu = ap (λ (x : Collector). x.cpu) same;
          network = ap (λ (x : Collector). x.network) same;
          disk = ap (λ (x : Collector). x.disk) same;
        },
      )

-- What `collect` gives and leaves, whichever files can be opened. For the first file that is missing
-- of meminfo, stat, net/dev and diskstats it throws an exception that names the file, and does not
-- sample the processes. Where all four can be opened it fails as the scan of the processes does, and
-- else gives a snapshot with their list. Each monitor takes its new reading where no file in front
-- of it in this order was missing, and keeps the old one otherwise.
pub collect_lem :
    (d : Double) (s : Sorting (ProcessEntry d)) (i : Inputs) (c : Collector)
    → Outcome d s i c (first_missing (needed i)) (collect d s i c)
      × TookTurns d s i c (collect d s i c).0
collect_lem d s i c =
    inputs_of-Fails d s c i.system_ms i.cpu.loadavg i.network_time i.disk_time i.processes i.machine
      i.meminfo i.cpu.proc_stat i.net_dev i.diskstats

-- ===== src/Main/Startup.antt =====
-- How the program starts and ends.
use kvadra_top.Base.{
  ℕ, suc, ◌<◌, ◌≡◌, refl, Option, none, some, List, [], ◌∷◌, ◌++◌, Result, throw, ok, Exception,
  runtime_error, arith,
}
use kvadra_top.Text.{Bytes, File, ℤ, codes}
use kvadra_top.Time.{Instant}
use kvadra_top.Real.{Double}
use kvadra_top.Snapshot.{ProcessEntry}
use kvadra_top.Cpu.{read_proc_stat}
use kvadra_top.Network.{read_proc_net_dev}
use kvadra_top.Disk.{read_proc_diskstats}
use kvadra_top.Process.{Sorting, System}
use kvadra_top.Info.{Machine}
use kvadra_top.Collector
use kvadra_top.Collector.{Collector, Inputs}
use kvadra_top.Collector.Errors.{first_missing}
use kvadra_top.Serializer.{Tree}
use kvadra_top.Main.Args.{port_of, frontend_dir}
use kvadra_top.Main.Loop.{World, Program, main_loop}
use kvadra_top.Main.Command.{Start, terminated, exited, program_of, main_with, main}
use kvadra_top.Main.Stops.{Ended, main_loop_ends}

-- The files that the constructors of the monitors read.
abbrev pub needed_at_start : Inputs → List (Bytes × File)
needed_at_start i =
    (codes "/proc/stat", i.cpu.proc_stat)
    ∷ (codes "/proc/net/dev", i.net_dev)
    ∷ (codes "/proc/diskstats", i.diskstats)
    ∷ []

-- What a constructor is given, for the first missing file.
abbrev Built : Option Bytes → Result Collector → Type 0
Built (some name) r = r ≡ throw (runtime_error (codes "cannot open " ++ name))
Built none r = (c : Collector) × (r ≡ ok c)

module _ (ticks : ℤ) (ms : ℕ) (meminfo loadavg : File) (network_time disk_time : Instant)
    (processes : System) (machine : Machine) where
  abbrev inputs_of : File → File → File → Inputs
  inputs_of proc_stat net_dev diskstats = record {
    system_ms = ms;
    meminfo = meminfo;
    cpu = record { proc_stat = proc_stat; loadavg = loadavg };
    network_time = network_time;
    net_dev = net_dev;
    disk_time = disk_time;
    diskstats = diskstats;
    processes = processes;
    machine = machine;
  }

  inputs_of-Built :
      (p n k : File)
      → Built
          (first_missing (needed_at_start (inputs_of p n k)))
          (Collector.init ticks (inputs_of p n k))
  unfolding Collector.init read_proc_stat read_proc_net_dev read_proc_diskstats
  inputs_of-Built none n k = refl
  inputs_of-Built (some p) none k = refl
  inputs_of-Built (some p) (some n) none = refl
  inputs_of-Built (some p) (some n) (some k) = (_, refl)

init-Built :
    (ticks : ℤ) (i : Inputs) → Built (first_missing (needed_at_start i)) (Collector.init ticks i)
init-Built ticks i =
    inputs_of-Built ticks i.system_ms i.meminfo i.cpu.loadavg i.network_time i.disk_time i.processes
      i.machine i.cpu.proc_stat i.net_dev i.diskstats

abbrev pub missing_problem : Option Bytes → Option Exception
missing_problem none = none
missing_problem (some name) = some (runtime_error (codes "cannot open " ++ name))

-- What keeps the program from starting: what the port says, else what the server throws, else the
-- first missing file.
abbrev pub problem : Result ℕ → Option Exception → Option Bytes → Option Exception
problem (throw x) bind missing = some x
problem (ok port) (some x) missing = some x
problem (ok port) none missing = missing_problem missing

abbrev pub first_problem : Start → Option Exception
first_problem a = problem (port_of a.port) a.bind (first_missing (needed_at_start a.inputs))

module _ (d : Double) (s : Sorting (ProcessEntry d)) (dump : Tree d → Result Bytes)
    (w : World) where
  main_with_terminates :
      (fuel : ℕ) (a : Start) (x : Exception) (r : Result ℕ) (bind : Option Exception)
      (missing : Option Bytes) (built : Result Collector)
      → Built missing built
      → problem r bind missing ≡ some x
      → main_with d s dump w fuel a r bind built ≡ terminated x
  unfolding main_with
  main_with_terminates fuel a x (throw y) bind missing built h e = cc
  main_with_terminates fuel a x (ok port) (some y) missing built h e = cc
  main_with_terminates fuel a x (ok port) none none built h e = absurd (ground arith)
  main_with_terminates fuel a x (ok port) none (some name) built h e = rw (h, main_with) (cc)

  -- Where the port is no number, or else the server cannot listen at it, or else one of /proc/stat,
  -- /proc/net/dev and /proc/diskstats cannot be opened when the collector is built, the program is
  -- terminated by the exception that says so; a missing file is named, the first of these three.
  pub main_terminates :
      (fuel : ℕ) (a : Start) (x : Exception)
      → first_problem a ≡ some x
      → main d s dump w fuel a ≡ terminated x
  unfolding main
  main_terminates fuel a x e =
      main_with_terminates fuel a x (port_of a.port) a.bind
        (first_missing (needed_at_start a.inputs)) (Collector.init a.ticks a.inputs)
        (init-Built a.ticks a.inputs) e

  abbrev Exits : ℕ → Start → Result ℕ → Option Exception → Result Collector → Type 0
  Exits fuel a r bind built =
      (port : ℕ) × (c : Collector) × (q : Program) × (r ≡ ok port)
      × (built ≡ ok c)
      × (main_loop d s dump w fuel (program_of a c) ≡ some q)
      × (main_with d s dump w fuel a r bind built ≡ exited port (frontend_dir a.dir) q)
      × Ended d s dump w (program_of a c) q

  main_with-Exits :
      (fuel : ℕ) (a : Start) (r : Result ℕ) (bind : Option Exception) (missing : Option Bytes)
      (built : Result Collector)
      → Built missing built
      → problem r bind missing ≡ none
      → suc w.signal < fuel
      → Exits fuel a r bind built
  unfolding main_with
  main_with-Exits fuel a (throw y) bind missing built h e f = absurd (ground arith)
  main_with-Exits fuel a (ok port) (some y) missing built h e f = absurd (ground arith)
  main_with-Exits fuel a (ok port) none (some name) built h e f = absurd (ground arith)
  main_with-Exits fuel a (ok port) none none built (c, h) e f =
      let (q, ends, ended) =
        main_loop_ends d s dump w (program_of a c) fuel (omega arith) (omega (arith, f)) in
      (port, c, q, refl, h, ends, rw (h, ends, main_with) refl, ended)

  -- Where nothing keeps the program from starting, it ends with status 0, however late the signal
  -- comes: with fuel for each read of the flag, its loop ends.
  pub main_exits :
      (fuel : ℕ) (a : Start)
      → first_problem a ≡ none
      → suc w.signal < fuel
      → (port : ℕ) × (c : Collector) × (q : Program) × (port_of a.port ≡ ok port)
        × (Collector.init a.ticks a.inputs ≡ ok c)
        × (main_loop d s dump w fuel (program_of a c) ≡ some q)
        × (main d s dump w fuel a ≡ exited port (frontend_dir a.dir) q)
        × Ended d s dump w (program_of a c) q
  unfolding main
  main_exits fuel a e f =
      main_with-Exits fuel a (port_of a.port) a.bind (first_missing (needed_at_start a.inputs))
        (Collector.init a.ticks a.inputs) (init-Built a.ticks a.inputs) e f

-- ===== src/Collector/State.antt =====
-- The members of the collector and its constructor.
use kvadra_top.Base.{ℕ, Result, ok, ◌>>=◌}
use kvadra_top.Text.{File, ℤ}
use kvadra_top.Time.{Instant}
use kvadra_top.Cpu
use kvadra_top.Cpu.{CpuMonitor, CpuFiles}
use kvadra_top.Network
use kvadra_top.Network.{NetworkMonitor}
use kvadra_top.Disk
use kvadra_top.Disk.{DiskMonitor}
use kvadra_top.Process
use kvadra_top.Process.{ProcessMonitor, System}
use kvadra_top.Info.{Machine}

pub record Collector : Type 0 where
  pub cpu : CpuMonitor
  pub network : NetworkMonitor
  pub disk : DiskMonitor
  pub processes : ProcessMonitor

-- What the system gives to one call: two clocks, the files and the machine. A clock is read where
-- the network and the disk monitor are sampled.
pub record Inputs : Type 0 where
  pub system_ms : ℕ
  pub meminfo : File
  pub cpu : CpuFiles
  pub network_time : Instant
  pub net_dev : File
  pub disk_time : Instant
  pub diskstats : File
  pub processes : System
  pub machine : Machine

-- The members are built in the order in which they are declared.
unfoldable pub init : ℤ → Inputs → Result Collector
unfolding Cpu.init Network.init Disk.init Process.init
init ticks i = do
  cpu ← Cpu.init i.cpu.proc_stat
  network ← Network.init i.network_time i.net_dev
  disk ← Disk.init i.disk_time i.diskstats
  ok (record {
    cpu = cpu;
    network = network;
    disk = disk;
    processes = Process.init ticks i.processes.proc_stat;
  })

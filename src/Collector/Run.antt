-- ===== src/Collector/Run.antt =====
-- `collect`: the monitors are sampled one after the other.
use kvadra_top.Base.{ℕ, List}
use kvadra_top.Text.{File}
use kvadra_top.Time.{Instant}
use kvadra_top.Real.{Double}
use kvadra_top.Snapshot.{
  Snapshot, MemorySnapshot, CpuSnapshot, NetworkInterface, DiskDevice, ProcessEntry,
}
use kvadra_top.Cpu
use kvadra_top.Cpu.{CpuFiles}
use kvadra_top.Memory
use kvadra_top.Network
use kvadra_top.Disk
use kvadra_top.Process
use kvadra_top.Process.{System, Sorting}
use kvadra_top.Info
use kvadra_top.Collector.State.{Inputs}
use kvadra_top.Collector.Steps.{Step, ◌>>=◌, return}

module _ (d : Double) (s : Sorting (ProcessEntry d)) where
  abbrev sample_memory : File → Step (MemorySnapshot d)
  unfolding Memory.sample
  sample_memory f c = (c, Memory.sample d f)

  abbrev sample_cpu : CpuFiles → Step (CpuSnapshot d)
  unfolding Cpu.sample
  sample_cpu f c = let r = Cpu.sample d c.cpu f in (record c { cpu = r.0 }, r.1)

  abbrev sample_network : Instant → File → Step (List (NetworkInterface d))
  unfolding Network.sample
  sample_network now f c =
      let r = Network.sample d c.network now f in (record c { network = r.0 }, r.1)

  abbrev sample_disk : Instant → File → Step (List (DiskDevice d))
  unfolding Disk.sample
  sample_disk now f c = let r = Disk.sample d c.disk now f in (record c { disk = r.0 }, r.1)

  abbrev sample_processes : System → ℕ → Step (List (ProcessEntry d))
  unfolding Process.sample
  sample_processes f total_kb c =
      let r = Process.sample d s c.processes f total_kb in (record c { processes = r.0 }, r.1)

  unfoldable pub collect : Inputs → Step (Snapshot d)
  unfolding sample_memory sample_cpu sample_network sample_disk sample_processes
  collect i = do
    memory ← sample_memory i.meminfo
    cpu ← sample_cpu i.cpu
    network ← sample_network i.network_time i.net_dev
    disk ← sample_disk i.disk_time i.diskstats
    processes ← sample_processes i.processes memory.total_kb
    return (record {
      timestamp_ms = i.system_ms;
      cpu = cpu;
      memory = memory;
      network = network;
      disk = disk;
      processes = processes;
      system = Info.collect d i.machine;
    })

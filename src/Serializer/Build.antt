-- ===== src/Serializer/Build.antt =====
-- `serialize_snapshot`: the tree of a snapshot, and its text.
use kvadra_top.Base.{[], ◌∷◌, map, Result}
use kvadra_top.Text.{Bytes, codes, pos}
use kvadra_top.Real.{Double}
use kvadra_top.Snapshot.{
  CpuCore, CpuSnapshot, MemorySnapshot, NetworkInterface, DiskDevice, ProcessEntry, SystemInfo,
  Snapshot,
}
use kvadra_top.Serializer.Json.{Json, unsigned, signed, real, text, object_of, array_of}

module _ (d : Double) where
  abbrev pub Tree : Type 0
  Tree = Json d.Real

  unfoldable pub core_tree : CpuCore d → Tree
  unfolding object_of
  core_tree c =
      object_of ((codes "index", signed (pos c.index)) ∷ (codes "usage", real c.usage_percent) ∷ [])

  unfoldable pub cpu_tree : CpuSnapshot d → Tree
  unfolding object_of array_of core_tree
  cpu_tree cpu = object_of (
      (codes "total", real cpu.total_usage_percent)
      ∷ (
        codes "load_avg",
        array_of (real cpu.load_avg_1 ∷ real cpu.load_avg_5 ∷ real cpu.load_avg_15 ∷ []),
      )
      ∷ (codes "cores", array_of (map core_tree cpu.cores))
      ∷ [])

  unfoldable pub memory_tree : MemorySnapshot d → Tree
  unfolding object_of
  memory_tree m = object_of (
      (codes "total_kb", unsigned m.total_kb)
      ∷ (codes "used_kb", unsigned m.used_kb)
      ∷ (codes "free_kb", unsigned m.free_kb)
      ∷ (codes "available_kb", unsigned m.available_kb)
      ∷ (codes "buffers_kb", unsigned m.buffers_kb)
      ∷ (codes "cached_kb", unsigned m.cached_kb)
      ∷ (codes "swap_total_kb", unsigned m.swap_total_kb)
      ∷ (codes "swap_used_kb", unsigned m.swap_used_kb)
      ∷ (codes "usage_percent", real m.usage_percent)
      ∷ [])

  unfoldable pub interface_tree : NetworkInterface d → Tree
  unfolding object_of
  interface_tree n = object_of (
      (codes "name", text n.name)
      ∷ (codes "rx_bytes", unsigned n.rx_bytes_total)
      ∷ (codes "tx_bytes", unsigned n.tx_bytes_total)
      ∷ (codes "rx_rate_bps", real n.rx_rate_bps)
      ∷ (codes "tx_rate_bps", real n.tx_rate_bps)
      ∷ [])

  unfoldable pub device_tree : DiskDevice d → Tree
  unfolding object_of
  device_tree x = object_of (
      (codes "name", text x.name)
      ∷ (codes "read_bytes", unsigned x.read_bytes_total)
      ∷ (codes "write_bytes", unsigned x.write_bytes_total)
      ∷ (codes "read_rate_bps", real x.read_rate_bps)
      ∷ (codes "write_rate_bps", real x.write_rate_bps)
      ∷ (codes "util_percent", real x.util_percent)
      ∷ [])

  -- The state is a text of one byte.
  unfoldable pub process_tree : ProcessEntry d → Tree
  unfolding object_of
  process_tree p = object_of (
      (codes "pid", signed p.pid)
      ∷ (codes "name", text p.name)
      ∷ (codes "user", text p.user)
      ∷ (codes "state", text (p.state ∷ []))
      ∷ (codes "cpu_percent", real p.cpu_percent)
      ∷ (codes "mem_percent", real p.mem_percent)
      ∷ (codes "mem_rss_kb", unsigned p.mem_rss_kb)
      ∷ (codes "threads", signed p.threads)
      ∷ (codes "uptime_s", unsigned p.uptime_seconds)
      ∷ [])

  unfoldable pub system_tree : SystemInfo d → Tree
  unfolding object_of
  system_tree s = object_of (
      (codes "hostname", text s.hostname)
      ∷ (codes "kernel", text s.kernel)
      ∷ (codes "os", text s.os_name)
      ∷ (codes "uptime_seconds", unsigned s.uptime_seconds)
      ∷ (codes "cpu_count", signed s.cpu_count)
      ∷ [])

  unfoldable pub snapshot_tree : Snapshot d → Tree
  unfolding object_of array_of cpu_tree memory_tree interface_tree device_tree process_tree
      system_tree
  snapshot_tree s = object_of (
      (codes "timestamp_ms", signed (pos s.timestamp_ms))
      ∷ (codes "cpu", cpu_tree s.cpu)
      ∷ (codes "memory", memory_tree s.memory)
      ∷ (codes "network", array_of (map interface_tree s.network))
      ∷ (codes "disk", array_of (map device_tree s.disk))
      ∷ (codes "processes", array_of (map process_tree s.processes))
      ∷ (codes "system", system_tree s.system)
      ∷ [])

  -- `j.dump()`, which throws on a text that is not UTF-8.
  unfoldable pub serialize_snapshot : (Tree → Result Bytes) → Snapshot d → Result Bytes
  unfolding snapshot_tree
  serialize_snapshot dump s = dump (snapshot_tree s)

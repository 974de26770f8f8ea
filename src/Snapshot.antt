-- ===== src/Snapshot.antt =====
-- backend/src/metrics/MetricsSnapshot.hpp: the data of one snapshot, over the type of doubles.
-- The `index` of a core is a number, the other `int` fields are integers, and a `char` is its byte.
-- `timestamp_ms` is a time after 1970.
use kvadra_top.Base.{ℕ, List}
use kvadra_top.Text.{Bytes, ℤ}
use kvadra_top.Real.{Double}

module _ (d : Double) where
  open d use {Real}

  pub record CpuCore : Type 0 where
    pub index : ℕ
    pub usage_percent : Real

  pub record CpuSnapshot : Type 0 where
    pub total_usage_percent : Real
    pub cores : List CpuCore
    pub load_avg_1 : Real
    pub load_avg_5 : Real
    pub load_avg_15 : Real

  pub record MemorySnapshot : Type 0 where
    pub total_kb : ℕ
    pub used_kb : ℕ
    pub free_kb : ℕ
    pub available_kb : ℕ
    pub buffers_kb : ℕ
    pub cached_kb : ℕ
    pub swap_total_kb : ℕ
    pub swap_used_kb : ℕ
    pub usage_percent : Real

  pub record NetworkInterface : Type 0 where
    pub name : Bytes
    pub rx_bytes_total : ℕ
    pub tx_bytes_total : ℕ
    pub rx_rate_bps : Real
    pub tx_rate_bps : Real

  pub record DiskDevice : Type 0 where
    pub name : Bytes
    pub read_bytes_total : ℕ
    pub write_bytes_total : ℕ
    pub read_rate_bps : Real
    pub write_rate_bps : Real
    pub util_percent : Real

  pub record ProcessEntry : Type 0 where
    pub pid : ℤ
    pub name : Bytes
    pub user : Bytes
    pub state : ℕ
    pub cpu_percent : Real
    pub mem_percent : Real
    pub mem_rss_kb : ℕ
    pub threads : ℤ
    pub uptime_seconds : ℕ

  pub record SystemInfo : Type 0 where
    pub hostname : Bytes
    pub kernel : Bytes
    pub os_name : Bytes
    pub uptime_seconds : ℕ
    pub cpu_count : ℤ

  pub record Snapshot : Type 0 where
    pub timestamp_ms : ℕ
    pub cpu : CpuSnapshot
    pub memory : MemorySnapshot
    pub network : List NetworkInterface
    pub disk : List DiskDevice
    pub processes : List ProcessEntry
    pub system : SystemInfo

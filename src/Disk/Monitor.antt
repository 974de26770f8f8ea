-- ===== src/Disk/Monitor.antt =====
-- The constructor and `sample`.
use kvadra_top.Base.{
  ℕ, ◌-◌, ◌*◌, ◌%◌, ◌^◌, Option, none, some, List, map, leb, if◌then◌else◌, Result, ok, throw,
  runtime_error, ◌>>=◌,
}
use kvadra_top.Text.{Bytes, File, codes, lines}
use kvadra_top.Map.{lookup}
use kvadra_top.Map.Keys.{bytes_keys}
use kvadra_top.Real.{Double, minimum}
use kvadra_top.Snapshot.{DiskDevice}
use kvadra_top.Time.{Instant, seconds_between}
use kvadra_top.Disk.Parse.{RawDisk, parse_diskstats}

abbrev pub sector_bytes : ℕ
sector_bytes = 512

pub record DiskMonitor : Type 0 where
  pub prev : List (Bytes × RawDisk)
  pub prev_time : Instant

unfoldable pub read_proc_diskstats : File → Result (List (Bytes × RawDisk))
unfolding parse_diskstats lines
read_proc_diskstats none = throw (runtime_error (codes "cannot open /proc/diskstats"))
read_proc_diskstats (some text) = ok (parse_diskstats (lines text))

unfoldable pub init : Instant → File → Result DiskMonitor
init now f = do rows ← read_proc_diskstats f; ok (record { prev = rows; prev_time = now })

-- `curr >= prev ? curr - prev : 0`.
unfoldable pub increase : ℕ → ℕ → ℕ
increase prev curr = if leb prev curr then curr - prev else 0

module _ (d : Double) where
  open d use {Real, real, times, over, less}

  -- The three values that a sample computes of a device.
  pub record Activity : Type 0 where
    pub read_rate : Real
    pub write_rate : Real
    pub util : Real

  abbrev pub idle : Activity
  idle = record { read_rate = real 0; write_rate = real 0; util = real 0 }

  abbrev pub byte_rate : ℕ → Real → Real
  byte_rate sectors elapsed_s = over (times (real sectors) (real sector_bytes)) elapsed_s

  unfoldable pub utilisation : ℕ → Real → Real
  unfolding minimum
  utilisation ticks elapsed_ms =
      if less (real 0) elapsed_ms
      then minimum d (times (over (real ticks) elapsed_ms) (real 100)) (real 100)
      else real 0

  unfoldable pub activity : Real → Option RawDisk → RawDisk → Activity
  unfolding increase utilisation
  activity elapsed_s none raw = idle
  activity elapsed_s (some p) raw =
      if less (real 0) elapsed_s
      then record {
        read_rate = byte_rate (increase p.read_sectors raw.read_sectors) elapsed_s;
        write_rate = byte_rate (increase p.write_sectors raw.write_sectors) elapsed_s;
        util = utilisation (increase p.io_ticks raw.io_ticks) (times elapsed_s (real 1000));
      }
      else idle

  -- The body of the loop over the map. The totals are uint64_t products.
  unfoldable pub device_of : Real → List (Bytes × RawDisk) → Bytes × RawDisk → DiskDevice d
  unfolding activity lookup
  device_of elapsed_s prev (name, raw) =
      let a = activity elapsed_s (lookup bytes_keys name prev) raw in
      record {
        name = name;
        read_bytes_total = raw.read_sectors * sector_bytes % 2 ^ 64;
        write_bytes_total = raw.write_sectors * sector_bytes % 2 ^ 64;
        read_rate_bps = a.read_rate;
        write_rate_bps = a.write_rate;
        util_percent = a.util;
      }

  abbrev sampled :
      DiskMonitor
      → Instant
      → Result (List (Bytes × RawDisk))
      → DiskMonitor × Result (List (DiskDevice d))
  sampled m now (throw e) = (m, throw e)
  sampled m now (ok curr) = (
    record { prev = curr; prev_time = now },
    ok (map (device_of (seconds_between d m.prev_time now) m.prev) curr),
  )

  unfoldable pub sample : DiskMonitor → Instant → File → DiskMonitor × Result (List (DiskDevice d))
  sample m now f = sampled m now (read_proc_diskstats f)

-- ===== src/Memory/Monitor.antt =====
-- `sample`.
use kvadra_top.Base.{ℕ, ◌-◌, none, some, List, if◌then◌else◌, ltb, Result, ok, throw, runtime_error}
use kvadra_top.Text.{Bytes, File, codes, lines}
use kvadra_top.Real.{Double}
use kvadra_top.Snapshot.{MemorySnapshot}
use kvadra_top.Memory.Fields.{parse_fields, get}

-- `a > b ? a - b : 0`.
unfoldable pub excess : ℕ → ℕ → ℕ
excess a b = if ltb b a then a - b else 0

module _ (d : Double) where
  open d use {Real, real, times, over}

  unfoldable pub usage : ℕ → ℕ → Real
  usage used total =
      if ltb 0 total then times (over (real used) (real total)) (real 100) else real 0

  -- The snapshot from the map of the fields.
  unfoldable pub snapshot_of : List (Bytes × ℕ) → MemorySnapshot d
  unfolding get excess usage
  snapshot_of fields =
      let total = get fields (codes "MemTotal") in
      let available = get fields (codes "MemAvailable") in
      let swap_total = get fields (codes "SwapTotal") in
      let used = excess total available in
      record {
        total_kb = total;
        used_kb = used;
        free_kb = get fields (codes "MemFree");
        available_kb = available;
        buffers_kb = get fields (codes "Buffers");
        cached_kb = get fields (codes "Cached");
        swap_total_kb = swap_total;
        swap_used_kb = excess swap_total (get fields (codes "SwapFree"));
        usage_percent = usage used total;
      }

  unfoldable pub sample : File → Result (MemorySnapshot d)
  unfolding snapshot_of parse_fields lines
  sample none = throw (runtime_error (codes "cannot open /proc/meminfo"))
  sample (some text) = ok (snapshot_of (parse_fields (lines text)))

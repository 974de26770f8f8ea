-- ===== src/Memory/Examples.antt =====
-- Runs of the memory monitor, and its theorems at concrete inputs.
use kvadra_top.Base.{◌≡◌, some, [], ◌∷◌, ok, arith}
use kvadra_top.Text.{codes, value}
use kvadra_top.Map.Keys.{bytes_less}
use kvadra_top.Real.Fixed.{fixed}
use kvadra_top.Snapshot.{MemorySnapshot}
use kvadra_top.Memory.Monitor.{sample}
use kvadra_top.Memory.Parse.{Entry, sample-entries}

abbrev total : Entry
total = record {
  first = b'M';
  others = codes "emTotal";
  column = record { pad = codes "    "; first = b'8'; others = codes "00" };
  tail = codes " kB";
}

abbrev available : Entry
available = record {
  first = b'M';
  others = codes "emAvailable";
  column = record { pad = codes " "; first = b'2'; others = codes "00" };
  tail = codes " kB";
}

sample-entries_example :
    (s : MemorySnapshot fixed) × (sample fixed
        (some (codes "MemTotal:    800 kB\nMemAvailable: 200 kB\n"))
      ≡ ok s)
    × (s.total_kb ≡ 800)
    × (s.free_kb ≡ 0)
    × (s.available_kb ≡ 200)
    × (s.buffers_kb ≡ 0)
    × (s.cached_kb ≡ 0)
    × (s.swap_total_kb ≡ 0)
    × (s.used_kb ≡ 600)
    × (s.swap_used_kb ≡ 0)
unfolding value bytes_less
sample-entries_example = sample-entries fixed (total ∷ available ∷ []) (ground arith)

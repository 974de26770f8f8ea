-- ===== src/Cpu/Examples.antt =====
-- Runs of the CPU monitor, and its theorems at concrete inputs.
use kvadra_top.Base.{ℕ, ◌≡◌, refl, some, [], ◌∷◌, ok, get_elem?, arith}
use kvadra_top.Text.{codes, value, Column, read_word, read_unsigned}
use kvadra_top.Real.Order.{share}
use kvadra_top.Real.Fixed.{fixed, parse_decimal, fixed-Laws}
use kvadra_top.Snapshot.{CpuSnapshot}
use kvadra_top.Cpu.Stat.{RawStat, read_proc_stat, parse_stat}
use kvadra_top.Cpu.Monitor.{CpuMonitor, CpuFiles, compute_usage, usages, sample}
use kvadra_top.Cpu.Load.{load_averages}
use kvadra_top.Cpu.Usage.{compute_usage_exact}
use kvadra_top.Cpu.Parse.{parse_stat-row}
use kvadra_top.Cpu.Cores.{core_of, sample_cores}

abbrev early : RawStat
early = record {
  user = 100;
  nice = 0;
  system = 50;
  idle = 800;
  iowait = 50;
  irq = 0;
  softirq = 0;
  steal = 0;
}

abbrev late : RawStat
late = record {
  user = 160;
  nice = 0;
  system = 65;
  idle = 1000;
  iowait = 75;
  irq = 0;
  softirq = 0;
  steal = 0;
}

quarter : compute_usage fixed early late ≡ 25_000_000
unfolding compute_usage
quarter = refl

compute_usage_exact_example : compute_usage fixed early late ≡ share fixed 75 300
compute_usage_exact_example =
    compute_usage_exact fixed fixed-Laws early late (omega arith) (omega arith)

abbrev column : ℕ → Column
column digit = record { pad = codes " "; first = digit; others = [] }

parse_stat-row_example : parse_stat (codes "cpu0 1 2 3 4 5 6 7 8 0") ≡ record {
  user = 1;
  nice = 2;
  system = 3;
  idle = 4;
  iowait = 5;
  irq = 6;
  softirq = 7;
  steal = 8;
}
unfolding value
parse_stat-row_example =
    parse_stat-row b'c' (codes "pu0") (column b'1') (column b'2') (column b'3') (column b'4')
      (column b'5') (column b'6') (column b'7') (column b'8') (codes " 0") (ground arith)
      (ground arith) (ground arith)

abbrev files : CpuFiles
files = record {
  proc_stat = some (codes "cpu 160 0 65 1000 75 0 0 0\ncpu0 160 0 65 1000 75 0 0 0\nintr 5\n");
  loadavg = some (codes "0.45 0.60 0.72 1/200 77");
}

abbrev monitor : CpuMonitor
monitor = record { prev_stats = early ∷ early ∷ [] }

reads_rows : read_proc_stat files.proc_stat ≡ ok (late ∷ late ∷ [])
unfolding read_proc_stat read_word read_unsigned
reads_rows = refl

sample_cores_example :
    (snap : CpuSnapshot fixed) × (sample fixed monitor files
      ≡ (record { prev_stats = late ∷ late ∷ [] }, ok snap))
    × (snap.total_usage_percent ≡ compute_usage fixed early late)
    × ((i : ℕ)
        → get_elem? snap.cores i
          ≡ core_of fixed i (get_elem? (early ∷ []) i) (get_elem? (late ∷ []) i))
sample_cores_example =
    sample_cores fixed monitor files early late (early ∷ []) (late ∷ []) refl reads_rows

load :
    (sample fixed monitor files).1
    ≡ ok (record {
      total_usage_percent = 25_000_000;
      cores = record { index = 0; usage_percent = 25_000_000 } ∷ [];
      load_avg_1 = 450_000;
      load_avg_5 = 600_000;
      load_avg_15 = 720_000;
    })
unfolding sample usages load_averages parse_decimal read_proc_stat read_word read_unsigned
load = refl

-- ===== src/Collector/Examples.antt =====
-- Runs of the collector, and its theorems at concrete inputs.
use kvadra_top.Base.{◌≡◌, refl, none, some, [], ◌∷◌, ok, throw, runtime_error}
use kvadra_top.Text.{codes, pos, negsuc, read_unsigned, read_word}
use kvadra_top.Real.Fixed.{fixed, fixed-Laws}
use kvadra_top.Snapshot.{Snapshot}
use kvadra_top.Map.Keys.{bytes_less}
use kvadra_top.Cpu.{read_proc_stat, usages, load_averages}
use kvadra_top.Network.{read_proc_net_dev, interface_of}
use kvadra_top.Disk.{read_proc_diskstats}
use kvadra_top.Info
use kvadra_top.Process.Insertion.{insertion_sort}
use kvadra_top.Collector.State.{Collector, Inputs, init}
use kvadra_top.Collector.Run.{collect}
use kvadra_top.Collector.Errors.{Outcome, TookTurns, first_missing, needed, collect_lem}
use kvadra_top.Collector.Contents.{InRange, collect-InRange}

abbrev old : Collector
old = record {
  cpu = record { prev_stats = [] };
  network = record { prev = []; prev_time = 0 };
  disk = record { prev = []; prev_time = 0 };
  processes = record { prev = []; hertz = 100; prev_total_ticks = 0 };
}

abbrev inputs : Inputs
inputs = record {
  system_ms = 5;
  meminfo = some (codes "MemTotal: 100 kB\nMemAvailable: 60 kB\n");
  cpu = record { proc_stat = some (codes "cpu 10 0 0 90 0 0 0 0\nintr 1\n"); loadavg = none };
  network_time = 1_000_000_000;
  net_dev = some (codes "Inter-\n face\n eth0: 5 0 0 0 0 0 0 0 7\n");
  disk_time = 1_000_000_000;
  diskstats = some (codes "");
  processes = record {
    proc_stat = none;
    uptime = none;
    page_size = 4096;
    dir = none;
    stat = λ pid. none;
    status = λ pid. none;
    passwd = λ uid. none;
  };
  machine = record {
    host = some (codes "pc");
    host_file = none;
    version = none;
    os_release = none;
    uptime = none;
    cpuinfo = none;
    online = pos 2;
  };
}

abbrev after : Collector
after = record {
  cpu = record {
    prev_stats =
        record {
          user = 10;
          nice = 0;
          system = 0;
          idle = 90;
          iowait = 0;
          irq = 0;
          softirq = 0;
          steal = 0;
        }
        ∷ [];
  };
  network = record {
    prev = (codes "eth0", record { rx_bytes = 5; tx_bytes = 7 }) ∷ [];
    prev_time = 1_000_000_000;
  };
  disk = record { prev = []; prev_time = 1_000_000_000 };
  processes = record { prev = []; hertz = 100; prev_total_ticks = 0 };
}

abbrev snap : Snapshot fixed
snap = record {
  timestamp_ms = 5;
  cpu = record {
    total_usage_percent = 0;
    cores = [];
    load_avg_1 = 0;
    load_avg_5 = 0;
    load_avg_15 = 0;
  };
  memory = record {
    total_kb = 100;
    used_kb = 40;
    free_kb = 0;
    available_kb = 60;
    buffers_kb = 0;
    cached_kb = 0;
    swap_total_kb = 0;
    swap_used_kb = 0;
    usage_percent = 40_000_000;
  };
  network =
      record {
        name = codes "eth0";
        rx_bytes_total = 5;
        tx_bytes_total = 7;
        rx_rate_bps = 0;
        tx_rate_bps = 0;
      }
      ∷ [];
  disk = [];
  processes = [];
  system = record {
    hostname = codes "pc";
    kernel = [];
    os_name = codes "Linux";
    uptime_seconds = 0;
    cpu_count = pos 2;
  };
}

collected : collect fixed insertion_sort inputs old ≡ (after, ok snap)
unfolding collect read_proc_stat read_proc_net_dev read_proc_diskstats read_unsigned usages
    load_averages bytes_less interface_of Info.collect
collected = refl

collect-InRange_example : InRange fixed fixed-Laws insertion_sort snap
collect-InRange_example =
    collect-InRange fixed fixed-Laws insertion_sort inputs old after snap collected

-- The disk statistics cannot be read.
abbrev no_disk : Inputs
no_disk = record inputs { diskstats = none }

collect_lem_example :
    Outcome fixed insertion_sort no_disk old
      (first_missing (needed no_disk))
      (collect fixed insertion_sort no_disk old)
    × TookTurns fixed insertion_sort no_disk old (collect fixed insertion_sort no_disk old).0
collect_lem_example = collect_lem fixed insertion_sort no_disk old

-- The new readings of the CPU and the network stay, though nothing is reported.
half_collected : collect fixed insertion_sort no_disk old ≡ (
  record after { disk = old.disk },
  throw (runtime_error (codes "cannot open /proc/diskstats")),
)
unfolding collect read_proc_stat read_proc_net_dev read_proc_diskstats read_unsigned read_word
half_collected = refl

-- Without /proc/stat there is no collector.
no_collector :
    init (negsuc 0) (record inputs { cpu = record { proc_stat = none; loadavg = none } })
    ≡ throw (runtime_error (codes "cannot open /proc/stat"))
unfolding init read_proc_stat
no_collector = refl

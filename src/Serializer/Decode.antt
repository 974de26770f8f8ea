-- ===== src/Serializer/Decode.antt =====
-- A reader of the tree, field by field: what the browser finds in a message.
use kvadra_top.Base.{ℕ, Option, none, some, List, [], ◌∷◌, if◌then◌else◌}
use kvadra_top.Text.{Bytes, codes, ℤ, pos, bytes_eq}
use kvadra_top.Real.{Double}
use kvadra_top.Snapshot.{
  CpuCore, CpuSnapshot, MemorySnapshot, NetworkInterface, DiskDevice, ProcessEntry, SystemInfo,
  Snapshot,
}
use kvadra_top.Serializer.Json.{
  Json, Items, Fields, unsigned, signed, real, text, array, object, nil, cons, end, field,
}

infixl 5 ◌>>=◌
abbrev pub ◌>>=◌ : {A B : Type 0} → Option A → (A → Option B) → Option B
◌>>=◌ none f = none
◌>>=◌ (some a) f = f a

module _ {R : Type 0} where
  unfoldable pub find_field : Bytes → Fields R → Option (Json R)
  unfolding bytes_eq
  find_field k end = none
  find_field k (field j v rest) = if bytes_eq k j then some v else find_field k rest

  abbrev pub get : Bytes → Json R → Option (Json R)
  unfolding find_field
  get k (object fields) = find_field k fields
  get k _ = none

  abbrev pub natural : Json R → Option ℕ
  natural (unsigned n) = some n
  natural (signed (pos n)) = some n
  natural _ = none

  abbrev pub integer : Json R → Option ℤ
  integer (signed z) = some z
  integer _ = none

  abbrev pub number : Json R → Option R
  number (real x) = some x
  number _ = none

  abbrev pub string : Json R → Option Bytes
  string (text s) = some s
  string _ = none

  abbrev pub char : Json R → Option ℕ
  char (text (c ∷ [])) = some c
  char _ = none

  unfoldable pub read_items : {A : Type 0} → (Json R → Option A) → Items R → Option (List A)
  read_items f nil = some []
  read_items f (cons j rest) = do a ← f j; as' ← read_items f rest; some (a ∷ as')

  abbrev pub list : {A : Type 0} → (Json R → Option A) → Json R → Option (List A)
  unfolding read_items
  list f (array items) = read_items f items
  list f _ = none

  abbrev pub at : {A : Type 0} → Bytes → (Json R → Option A) → Json R → Option A
  unfolding get
  at k f j = get k j >>= f

module _ (d : Double) where
  abbrev Reader : Type 0 → Type 0
  Reader A = Json d.Real → Option A

  unfoldable pub read_core : Reader (CpuCore d)
  unfolding at
  read_core j = do
    index ← at (codes "index") natural j
    usage ← at (codes "usage") number j
    some (record { index = index; usage_percent = usage })

  abbrev triple : List d.Real → Option (d.Real × d.Real × d.Real)
  triple (a ∷ b ∷ c ∷ []) = some (a, b, c)
  triple _ = none

  unfoldable pub read_cpu : Reader (CpuSnapshot d)
  unfolding at list read_core
  read_cpu j = do
    total ← at (codes "total") number j
    averages ← at (codes "load_avg") (list number) j
    (one, five, fifteen) ← triple averages
    cores ← at (codes "cores") (list read_core) j
    some (record {
      total_usage_percent = total;
      cores = cores;
      load_avg_1 = one;
      load_avg_5 = five;
      load_avg_15 = fifteen;
    })

  unfoldable pub read_memory : Reader (MemorySnapshot d)
  unfolding at
  read_memory j = do
    total ← at (codes "total_kb") natural j
    used ← at (codes "used_kb") natural j
    free ← at (codes "free_kb") natural j
    available ← at (codes "available_kb") natural j
    buffers ← at (codes "buffers_kb") natural j
    cached ← at (codes "cached_kb") natural j
    swap_total ← at (codes "swap_total_kb") natural j
    swap_used ← at (codes "swap_used_kb") natural j
    usage ← at (codes "usage_percent") number j
    some (record {
      total_kb = total;
      used_kb = used;
      free_kb = free;
      available_kb = available;
      buffers_kb = buffers;
      cached_kb = cached;
      swap_total_kb = swap_total;
      swap_used_kb = swap_used;
      usage_percent = usage;
    })

  unfoldable pub read_interface : Reader (NetworkInterface d)
  unfolding at
  read_interface j = do
    name ← at (codes "name") string j
    rx ← at (codes "rx_bytes") natural j
    tx ← at (codes "tx_bytes") natural j
    rx_rate ← at (codes "rx_rate_bps") number j
    tx_rate ← at (codes "tx_rate_bps") number j
    some (record {
      name = name;
      rx_bytes_total = rx;
      tx_bytes_total = tx;
      rx_rate_bps = rx_rate;
      tx_rate_bps = tx_rate;
    })

  unfoldable pub read_device : Reader (DiskDevice d)
  unfolding at
  read_device j = do
    name ← at (codes "name") string j
    rd ← at (codes "read_bytes") natural j
    wr ← at (codes "write_bytes") natural j
    read_rate ← at (codes "read_rate_bps") number j
    write_rate ← at (codes "write_rate_bps") number j
    util ← at (codes "util_percent") number j
    some (record {
      name = name;
      read_bytes_total = rd;
      write_bytes_total = wr;
      read_rate_bps = read_rate;
      write_rate_bps = write_rate;
      util_percent = util;
    })

  unfoldable pub read_process : Reader (ProcessEntry d)
  unfolding at
  read_process j = do
    pid ← at (codes "pid") integer j
    name ← at (codes "name") string j
    user ← at (codes "user") string j
    state ← at (codes "state") char j
    cpu ← at (codes "cpu_percent") number j
    mem ← at (codes "mem_percent") number j
    rss ← at (codes "mem_rss_kb") natural j
    threads ← at (codes "threads") integer j
    uptime ← at (codes "uptime_s") natural j
    some (record {
      pid = pid;
      name = name;
      user = user;
      state = state;
      cpu_percent = cpu;
      mem_percent = mem;
      mem_rss_kb = rss;
      threads = threads;
      uptime_seconds = uptime;
    })

  unfoldable pub read_system : Reader (SystemInfo d)
  unfolding at
  read_system j = do
    hostname ← at (codes "hostname") string j
    kernel ← at (codes "kernel") string j
    os ← at (codes "os") string j
    uptime ← at (codes "uptime_seconds") natural j
    cpus ← at (codes "cpu_count") integer j
    some (record {
      hostname = hostname;
      kernel = kernel;
      os_name = os;
      uptime_seconds = uptime;
      cpu_count = cpus;
    })

  unfoldable pub read_snapshot : Reader (Snapshot d)
  unfolding at list read_cpu read_memory read_interface read_device read_process read_system
  read_snapshot j = do
    ms ← at (codes "timestamp_ms") natural j
    cpu ← at (codes "cpu") read_cpu j
    memory ← at (codes "memory") read_memory j
    network ← at (codes "network") (list read_interface) j
    disk ← at (codes "disk") (list read_device) j
    processes ← at (codes "processes") (list read_process) j
    system ← at (codes "system") read_system j
    some (record {
      timestamp_ms = ms;
      cpu = cpu;
      memory = memory;
      network = network;
      disk = disk;
      processes = processes;
      system = system;
    })

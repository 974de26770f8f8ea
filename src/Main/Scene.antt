-- ===== src/Main/Scene.antt =====
-- A system and a client for runs of the program.
use kvadra_top.Base.{
  ℕ, zero, suc, true, none, some, ◌≡◌, refl, List, All, [], ◌∷◌, ◌++◌, Result, ok,
}
use kvadra_top.Text.{pos, Bytes, codes, negsuc}
use kvadra_top.Real.Fixed.{fixed}
use kvadra_top.Collector
use kvadra_top.Collector.{Collector, Inputs}
use kvadra_top.Process.Insertion.{insertion_sort}
use kvadra_top.Cpu.{read_proc_stat}
use kvadra_top.Network.{read_proc_net_dev}
use kvadra_top.Disk.{read_proc_diskstats}
use kvadra_top.Serializer.{Tree}
use kvadra_top.Serializer.Json.{Fields, end, field, signed, object}
use kvadra_top.Server.Session.{
  Session, http_read, upgrade, ws_accepted, ws_reading, post_run, ws_written,
}
use kvadra_top.Server.Hub.{accepts, handles, broadcasts, run, launch}
use kvadra_top.Main.Loop.{Io, accepted, handled, World, Program, main_loop, report}
use kvadra_top.Main.Command.{Start, exited, main}
use kvadra_top.Main.Subscribers.{Keeps}

abbrev pub collector : Collector
collector = record {
  cpu = record { prev_stats = [] };
  network = record { prev = []; prev_time = 0 };
  disk = record { prev = []; prev_time = 0 };
  processes = record { prev = []; hertz = 100; prev_total_ticks = 0 };
}

-- A system that tells nothing but empty files.
abbrev pub quiet : Inputs
quiet = record {
  system_ms = 1;
  meminfo = some [];
  cpu = record { proc_stat = some []; loadavg = none };
  network_time = 1;
  net_dev = some [];
  disk_time = 1;
  diskstats = some [];
  processes = record {
    proc_stat = none;
    uptime = none;
    page_size = 4096;
    dir = none;
    stat = λ pid. none;
    status = λ pid. none;
    passwd = λ uid. none;
  };
  machine = record {
    host = none;
    host_file = none;
    version = none;
    os_release = none;
    uptime = none;
    cpuinfo = none;
    online = negsuc 0;
  };
}

-- The memory cannot be read in round 1.
abbrev pub inputs : ℕ → Inputs
inputs zero = quiet
inputs (suc zero) = record quiet { meminfo = none }
inputs (suc (suc n)) = record quiet { system_ms = 3 }

-- The first message is written to the client before the broadcast of round 2.
abbrev pub brings : ℕ → List Io
brings (suc (suc zero)) = handled 0 post_run ∷ handled 0 (ws_written true) ∷ []
brings n = []

-- One client, which has connected before the loop.
abbrev pub world : World
world = record { inputs = inputs; meanwhile = brings; signal = 25 }

pub brings-Keeps : (r : ℕ) → All (Keeps 0) (brings r)
brings-Keeps zero = tt
brings-Keeps (suc zero) = tt
brings-Keeps (suc (suc zero)) = (refl, (refl, tt))
brings-Keeps (suc (suc (suc r))) = tt

-- The first member of an object that is a signed number.
abbrev pub stamp_in : Fields fixed.Real → ℕ
stamp_in end = 0
stamp_in (field k (signed (pos n)) rest) = n
stamp_in (field k v rest) = stamp_in rest

-- The timestamp of a snapshot.
abbrev pub stamp : Tree fixed → ℕ
stamp (object members) = stamp_in members
stamp j = 0

-- A printer that prints the timestamp alone, as one byte.
abbrev pub dump : Tree fixed → Result Bytes
dump j = ok (stamp j ∷ [])

abbrev pub start : Program
start = record {
  collector = collector;
  reads = 0;
  rounds = 0;
  trace = accepts true ∷ handles 0 (http_read upgrade) ∷ handles 0 (ws_accepted true) ∷ [];
}

abbrev pub first_text : Bytes
first_text = 1 ∷ []

abbrev pub third_text : Bytes
third_text = 3 ∷ []

abbrev pub finish : Program
finish = record {
  collector = record {
    cpu = record { prev_stats = [] };
    network = record { prev = []; prev_time = 1 };
    disk = record { prev = []; prev_time = 1 };
    processes = record { prev = []; hertz = 100; prev_total_ticks = 0 };
  };
  reads = 27;
  rounds = 3;
  trace =
      start.trace
      ++ broadcasts first_text
        ∷ handles 0 post_run
        ∷ handles 0 (ws_written true)
        ∷ broadcasts third_text
        ∷ [];
}

abbrev pub site : Bytes
site = codes "/srv"

abbrev pub client : Session
client = record {
  static_root = site;
  phase = ws_reading;
  queue = [];
  writes = [];
  posted = third_text ∷ [];
  sent = first_text ∷ [];
  replies = [];
  expires = some 30 ∷ none ∷ [];
  server_field = some (codes "KvadraTop/1.0");
}

pub served :
    run finish.trace (launch site)
    ≡ some (record {
      static_root = site;
      running = true;
      sessions = client ∷ [];
      registry = 0 ∷ [];
      accepting = true;
    })
unfolding run launch
served = refl

-- Started without arguments.
abbrev pub bare : Start
bare = record { port = none; dir = none; bind = none; ticks = pos 100; inputs = quiet; early = [] }

-- Started with one client that connects before the loop.
abbrev pub started : Start
started = record bare {
  dir = some site;
  early = accepted true ∷ handled 0 (http_read upgrade) ∷ handled 0 (ws_accepted true) ∷ [];
}

pub started_run : main fixed insertion_sort dump world 27 started ≡ exited 8080 site finish
unfolding main main_loop report Collector.init read_proc_stat read_proc_net_dev read_proc_diskstats
started_run = refl

-- ===== src/Serializer/Examples.antt =====
-- Runs of the serializer, and its theorems at concrete inputs.
use kvadra_top.Base.{◌≡◌, refl, true, false, some, [], ◌∷◌}
use kvadra_top.Text.{codes, pos}
use kvadra_top.Real.Fixed.{fixed}
use kvadra_top.Snapshot.{Snapshot}
use kvadra_top.Serializer.Json.{object, field, end, text, unsigned, object_of}
use kvadra_top.Serializer.Build.{snapshot_tree, Tree}
use kvadra_top.Serializer.Decode.{read_snapshot}
use kvadra_top.Serializer.RoundTrip.{read-snapshot_tree}
use kvadra_top.Serializer.Shape.{has_shape, snapshot, system_info}
use kvadra_top.Serializer.Typed.{snapshot_tree-shape}

abbrev snap : Snapshot fixed
snap = record {
  timestamp_ms = 1;
  cpu = record {
    total_usage_percent = 7;
    cores = record { index = 0; usage_percent = 7 } ∷ [];
    load_avg_1 = 1;
    load_avg_5 = 2;
    load_avg_15 = 3;
  };
  memory = record {
    total_kb = 100;
    used_kb = 40;
    free_kb = 10;
    available_kb = 60;
    buffers_kb = 1;
    cached_kb = 2;
    swap_total_kb = 3;
    swap_used_kb = 1;
    usage_percent = 4;
  };
  network =
      record {
        name = codes "eth0";
        rx_bytes_total = 5;
        tx_bytes_total = 7;
        rx_rate_bps = 0;
        tx_rate_bps = 0;
      }
      ∷ [];
  disk = [];
  processes =
      record {
        pid = pos 1;
        name = codes "init";
        user = codes "root";
        state = b'S';
        cpu_percent = 1;
        mem_percent = 2;
        mem_rss_kb = 3;
        threads = pos 1;
        uptime_seconds = 9;
      }
      ∷ [];
  system = record {
    hostname = codes "pc";
    kernel = [];
    os_name = codes "Linux";
    uptime_seconds = 0;
    cpu_count = pos 2;
  };
}

read-snapshot_tree_example : read_snapshot fixed (snapshot_tree fixed snap) ≡ some snap
read-snapshot_tree_example = read-snapshot_tree fixed snap

snapshot_tree-shape_example : has_shape snapshot (snapshot_tree fixed snap) ≡ true
snapshot_tree-shape_example = snapshot_tree-shape fixed snap

-- The members stand in ascending order, and a later value replaces an earlier one.
ordered :
    object_of ((codes "b", unsigned 1) ∷ (codes "a", unsigned 2) ∷ (codes "b", unsigned 3) ∷ []) ≡ (
      let t : Tree fixed =
        object (field (codes "a") (unsigned 2) (field (codes "b") (unsigned 3) end)) in
      t)
unfolding object_of
ordered = refl

missing_members :
    has_shape system_info (let t : Tree fixed = object (field (codes "os") (text []) end) in t)
    ≡ false
unfolding has_shape
missing_members = refl

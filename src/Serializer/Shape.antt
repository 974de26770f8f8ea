-- ===== src/Serializer/Shape.antt =====
-- frontend/src/types/metrics.ts: the interfaces that the browser gives the messages. A value has the
-- shape of an interface if it has these members and no others.
use kvadra_top.Base.{ℕ, suc, Bool, true, false, ◌&&◌, Option, none, some, ◌==◌}
use kvadra_top.Text.{Bytes, codes}
use kvadra_top.Serializer.Json.{
  Json, Items, Fields, unsigned, signed, real, text, array, object, nil, cons, end, field,
}
use kvadra_top.Serializer.Decode.{find_field}

mutual
  pub data Shape : Type 0 where
    number : Shape
    string : Shape
    list : Shape → Shape
    triple : Shape → Shape
    interface : Members → Shape

  pub data Members : Type 0 where
    done : Members
    member : Bytes → Shape → Members → Members

abbrev pub member_count : Members → ℕ
member_count done = 0
member_count (member k s ms) = suc (member_count ms)

module _ {R : Type 0} where
  abbrev pub field_count : Fields R → ℕ
  field_count end = 0
  field_count (field k v rest) = suc (field_count rest)

  unfoldable pub all_items : (Json R → Bool) → Items R → Bool
  all_items p nil = true
  all_items p (cons j rest) = p j && all_items p rest

  abbrev pub is_triple : (Json R → Bool) → Items R → Bool
  is_triple p (cons a (cons b (cons c nil))) = p a && (p b && p c)
  is_triple p _ = false

  abbrev pub is_present : (Json R → Bool) → Option (Json R) → Bool
  is_present p none = false
  is_present p (some j) = p j

  unfoldable mutual
    unfolding find_field all_items

    pub has_shape : Shape → Json R → Bool
    has_shape number (unsigned n) = true
    has_shape number (signed z) = true
    has_shape number (real x) = true
    has_shape string (text s) = true
    has_shape (list s) (array items) = all_items (has_shape s) items
    has_shape (triple s) (array items) = is_triple (has_shape s) items
    has_shape (interface ms) (object fields) =
        has_members ms fields && member_count ms == field_count fields
    has_shape _ _ = false

    pub has_members : Members → Fields R → Bool
    has_members done fields = true
    has_members (member k s ms) fields =
        is_present (has_shape s) (find_field k fields) && has_members ms fields

abbrev pub cpu_core : Shape
cpu_core = interface (member (codes "index") number (member (codes "usage") number done))

abbrev pub cpu_metrics : Shape
cpu_metrics = interface (
    member (codes "total") number
      (member (codes "load_avg") (triple number) (member (codes "cores") (list cpu_core) done)))

abbrev pub memory_metrics : Shape
memory_metrics = interface (
    member (codes "total_kb") number (
      member (codes "used_kb") number (
        member (codes "free_kb") number (
          member (codes "available_kb") number (
            member (codes "buffers_kb") number (
              member (codes "cached_kb") number (
                member (codes "swap_total_kb") number (
                  member (codes "swap_used_kb") number
                    (member (codes "usage_percent") number done)))))))))

abbrev pub network_interface : Shape
network_interface = interface (
    member (codes "name") string (
      member (codes "rx_bytes") number (
        member (codes "tx_bytes") number
          (member (codes "rx_rate_bps") number (member (codes "tx_rate_bps") number done)))))

abbrev pub disk_device : Shape
disk_device = interface (
    member (codes "name") string (
      member (codes "read_bytes") number (
        member (codes "write_bytes") number (
          member (codes "read_rate_bps") number
            (member (codes "write_rate_bps") number (member (codes "util_percent") number done))))))

abbrev pub process_entry : Shape
process_entry = interface (
    member (codes "pid") number (
      member (codes "name") string (
        member (codes "user") string (
          member (codes "state") string (
            member (codes "cpu_percent") number (
              member (codes "mem_percent") number (
                member (codes "mem_rss_kb") number
                  (member (codes "threads") number (member (codes "uptime_s") number done)))))))))

abbrev pub system_info : Shape
system_info = interface (
    member (codes "hostname") string (
      member (codes "kernel") string (
        member (codes "os") string
          (member (codes "uptime_seconds") number (member (codes "cpu_count") number done)))))

abbrev pub snapshot : Shape
snapshot = interface (
    member (codes "timestamp_ms") number (
      member (codes "cpu") cpu_metrics (
        member (codes "memory") memory_metrics (
          member (codes "network") (list network_interface) (
            member (codes "disk") (list disk_device) (
              member (codes "processes") (list process_entry)
                (member (codes "system") system_info done)))))))

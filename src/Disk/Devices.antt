-- ===== src/Disk/Devices.antt =====
-- What a sample reports.
use kvadra_top.Base.{
  ℕ, ◌-◌, ◌*◌, ◌%◌, ◌^◌, ◌≡◌, refl, none, some, List, [], ◌∷◌, map, All, true, false, if◌then◌else◌,
  ok, Option, ◌∙◌, Bool-cases, Option-cases, inl, inr, arith,
}
use kvadra_top.Text.{Bytes, lines}
use kvadra_top.Map.{lookup}
use kvadra_top.Map.Keys.{bytes_keys}
use kvadra_top.Map.Laws.{AllKeys-fill, fill-Ascending}
use kvadra_top.Map.Reports.{find_by, InOrder, entry_of, find_by-map, InOrder-map}
use kvadra_top.Real.{Double, Laws, Percent}
use kvadra_top.Real.Order.{over_nonneg, times_nonneg, minimum_nonneg, minimum-le}
use kvadra_top.Snapshot.{DiskDevice}
use kvadra_top.Time.{Instant, seconds_between}
use kvadra_top.Disk.Regex.{is_whole_disk}
use kvadra_top.Disk.Parse.{RawDisk, row_of, parse_diskstats}
use kvadra_top.Disk.Monitor.{
  DiskMonitor, Activity, idle, byte_rate, increase, utilisation, activity, device_of,
  read_proc_diskstats, sample,
}

increase-sub : (prev curr : ℕ) → increase prev curr ≡ curr - prev
unfolding increase
increase-sub prev curr = ground arith

row_of-whole :
    (line name : Bytes) (raw : RawDisk) → row_of line ≡ some (name, raw) → is_whole_disk name ≡ true
unfolding row_of
row_of-whole [] name raw h = cc
row_of-whole (c ∷ line) name raw h = ground arith

module _ (d : Double) where
  open d use {Real, real, less}

  abbrev pub name_of : DiskDevice d → Bytes
  name_of x = x.name

  -- What is said of one device.
  pub record IsDeviceReport (x : DiskDevice d) : Type 0 where
    pub whole : is_whole_disk x.name ≡ true
    pub read_rate : less x.read_rate_bps (real 0) ≡ false
    pub write_rate : less x.write_rate_bps (real 0) ≡ false
    pub util : Percent d x.util_percent

  -- What is reported of a name, by its rows in the reading before and in this one.
  abbrev pub report_of : Real → Bytes → Option RawDisk → Option RawDisk → Option (DiskDevice d)
  report_of elapsed name p none = none
  report_of elapsed name none (some c) = some (record {
    name = name;
    read_bytes_total = c.read_sectors * 512 % 2 ^ 64;
    write_bytes_total = c.write_sectors * 512 % 2 ^ 64;
    read_rate_bps = real 0;
    write_rate_bps = real 0;
    util_percent = real 0;
  })
  report_of elapsed name (some p) (some c) = some (record {
    name = name;
    read_bytes_total = c.read_sectors * 512 % 2 ^ 64;
    write_bytes_total = c.write_sectors * 512 % 2 ^ 64;
    read_rate_bps =
        if less (real 0) elapsed
        then byte_rate d (c.read_sectors - p.read_sectors) elapsed
        else real 0;
    write_rate_bps =
        if less (real 0) elapsed
        then byte_rate d (c.write_sectors - p.write_sectors) elapsed
        else real 0;
    util_percent =
        if less (real 0) elapsed
        then utilisation d (c.io_ticks - p.io_ticks) (d.times elapsed (real 1000))
        else real 0;
  })

  keeps_name :
      (elapsed : Real) (prev : List (Bytes × RawDisk)) (name : Bytes) (raw : RawDisk)
      → (device_of d elapsed prev (name, raw)).name ≡ name
  unfolding device_of
  keeps_name elapsed prev name raw = refl

  device_of-report_of :
      (elapsed : Real) (prev : List (Bytes × RawDisk)) (name : Bytes) (raw : RawDisk)
      → some (device_of d elapsed prev (name, raw))
        ≡ report_of elapsed name (lookup bytes_keys name prev) (some raw)
  unfolding device_of activity
  device_of-report_of elapsed prev name raw = elim (Option-cases (lookup bytes_keys name prev)) [
    | inl e ↦ rw (e, device_of)
    | inr (p, e) ↦
        rw (e, device_of)
          (simp increase-sub
            (elim (Bool-cases (less (real 0) elapsed)) [ inl t ↦ rw t | inr t ↦ rw t ]))
  ]

  entry_of-report_of :
      (elapsed : Real) (prev : List (Bytes × RawDisk)) (name : Bytes) (c : Option RawDisk)
      → entry_of bytes_keys name_of (device_of d elapsed prev) (keeps_name elapsed prev) name c
        ≡ report_of elapsed name (lookup bytes_keys name prev) c
  entry_of-report_of elapsed prev name none = refl
  entry_of-report_of elapsed prev name (some raw) = device_of-report_of elapsed prev name raw

  -- What a sample returns for a name, when the file can be read: a device exactly when the new reading
  -- has a row for the name, with that row's sectors in bytes (modulo 2^64), and with the rates and the
  -- utilisation of what each counter grew by since the last reading; they are 0 for a name that is new
  -- and when no time passed, and a counter that went back counts as unchanged. The new reading and
  -- its time replace the old ones.
  pub sample_devices :
      (m : DiskMonitor) (now : Instant) (text : Bytes)
      → let curr = parse_diskstats (lines text) in
        (result : List (DiskDevice d)) × (sample d m now (some text)
          ≡ (record { prev = curr; prev_time = now }, ok result))
        × ((name : Bytes)
            → find_by bytes_keys name_of name result
              ≡ report_of
                  (seconds_between d m.prev_time now)
                  name
                  (lookup bytes_keys name m.prev)
                  (lookup bytes_keys name curr))
  unfolding sample read_proc_diskstats
  sample_devices m now text =
      let curr = parse_diskstats (lines text) in
      let elapsed = seconds_between d m.prev_time now in
      (
        map (device_of d elapsed m.prev) curr,
        refl,
        λ name.
            find_by-map bytes_keys name_of (device_of d elapsed m.prev) (keeps_name elapsed m.prev)
              name curr
            ∙ entry_of-report_of elapsed m.prev name (lookup bytes_keys name curr),
      )

  module _ (laws : Laws d) where
    utilisation-Percent : (ticks : ℕ) (ms : Real) → Percent d (utilisation d ticks ms)
    unfolding utilisation
    utilisation-Percent ticks ms = elim (Bool-cases (less (real 0) ms)) [
      | inl t ↦ rw t (
        minimum_nonneg d laws _ (real 100)
            (times_nonneg d laws _ 100 (omega arith)
              (over_nonneg d laws (real ticks) ms (laws.real_mono 0 ticks (omega arith)) t))
            (laws.real_mono 0 100 (omega arith)),
        minimum-le d laws _ (real 100),
      )
      | inr t ↦ rw t (laws.less_irrefl (real 0), laws.real_mono 0 100 (omega arith))
    ]

    byte_rate_nonneg :
        (sectors : ℕ) (elapsed : Real)
        → less (real 0) elapsed ≡ true
        → less (byte_rate d sectors elapsed) (real 0) ≡ false
    byte_rate_nonneg sectors elapsed t =
        over_nonneg d laws _ elapsed
          (times_nonneg d laws (real sectors) 512 (omega arith)
            (laws.real_mono 0 sectors (omega arith)))
          t

    -- The three values in their ranges.
    record InRange (a : Activity d) : Type 0 where
      read_rate : less a.read_rate (real 0) ≡ false
      write_rate : less a.write_rate (real 0) ≡ false
      util : Percent d a.util

    idle-InRange : InRange (idle d)
    idle-InRange = record {
      read_rate = laws.less_irrefl (real 0);
      write_rate = laws.less_irrefl (real 0);
      util = (laws.less_irrefl (real 0), laws.real_mono 0 100 (omega arith));
    }

    activity-InRange :
        (elapsed : Real) (p : Option RawDisk) (raw : RawDisk) → InRange (activity d elapsed p raw)
    unfolding activity
    activity-InRange elapsed none raw = idle-InRange
    activity-InRange elapsed (some p) raw = elim (Bool-cases (less (real 0) elapsed)) [
      | inl t ↦ rw t (record {
        read_rate = byte_rate_nonneg _ elapsed t;
        write_rate = byte_rate_nonneg _ elapsed t;
        util = utilisation-Percent _ _;
      })
      | inr t ↦ rw t idle-InRange
    ]

    All-IsDeviceReport :
        (elapsed : Real) (prev rows : List (Bytes × RawDisk))
        → All (λ e. is_whole_disk e.0 ≡ true) rows
        → All IsDeviceReport (map (device_of d elapsed prev) rows)
    unfolding device_of
    All-IsDeviceReport elapsed prev [] h = tt
    All-IsDeviceReport elapsed prev ((name, raw) ∷ rows) h =
        let range = activity-InRange elapsed (lookup bytes_keys name prev) raw in
        (
          record {
            whole = h.0;
            read_rate = range.read_rate;
            write_rate = range.write_rate;
            util = range.util;
          },
          All-IsDeviceReport elapsed prev rows h.1,
        )

    -- Whatever the file holds, the devices of a sample ascend by name, so that none stands twice; each
    -- name is that of a whole disk; no rate is negative, and the utilisation lies between 0 and 100.
    pub sample-IsDeviceReport :
        (m : DiskMonitor) (now : Instant) (text : Bytes)
        → (result : List (DiskDevice d)) × ((sample d m now (some text)).1 ≡ ok result)
          × InOrder bytes_keys name_of result
          × All IsDeviceReport result
    unfolding sample read_proc_diskstats parse_diskstats
    sample-IsDeviceReport m now text =
        let elapsed = seconds_between d m.prev_time now in
        (
          map (device_of d elapsed m.prev) (parse_diskstats (lines text)),
          refl,
          InOrder-map bytes_keys name_of (device_of d elapsed m.prev) (keeps_name elapsed m.prev)
              (parse_diskstats (lines text)) (fill-Ascending bytes_keys row_of (lines text) [] tt),
          All-IsDeviceReport elapsed m.prev (parse_diskstats (lines text)) (
              AllKeys-fill bytes_keys row_of (λ n. is_whole_disk n ≡ true) (lines text) []
                row_of-whole tt),
        )

-- ===== src/Network/Interfaces.antt =====
-- What a sample reports.
use kvadra_top.Base.{
  ℕ, ◌-◌, ◌≡◌, ◌≢◌, refl, none, some, List, [], ◌∷◌, map, All, true, false, if◌then◌else◌, ok,
  Option, ◌∙◌, Bool-cases, Option-cases, inl, inr, arith, drop,
}
use kvadra_top.Text.{Bytes, codes, lines, bytes_eq}
use kvadra_top.Map.{lookup}
use kvadra_top.Map.Keys.{bytes_keys}
use kvadra_top.Map.Laws.{AllKeys-fill, fill-Ascending}
use kvadra_top.Map.Reports.{find_by, InOrder, entry_of, find_by-map, InOrder-map}
use kvadra_top.Real.{Double, Laws}
use kvadra_top.Real.Order.{over_nonneg}
use kvadra_top.Snapshot.{NetworkInterface}
use kvadra_top.Time.{Instant, seconds_between}
use kvadra_top.Network.Parse.{RawNet, row_of, row_at, parse_net_dev}
use kvadra_top.Network.Monitor.{
  NetworkMonitor, increase, rates, interface_of, read_proc_net_dev, sample,
}

bytes_eq_refl : (s : Bytes) → bytes_eq s s ≡ true
unfolding bytes_eq
bytes_eq_refl [] = refl
bytes_eq_refl (c ∷ s) = ground (arith, bytes_eq_refl s)

abbrev NotLo : Bytes → Type 0
NotLo name = bytes_eq name (codes "lo") ≡ false

row_of-NotLo : (line name : Bytes) (raw : RawNet) → row_of line ≡ some (name, raw) → NotLo name
unfolding row_of row_at
row_of-NotLo line name raw h = ground arith

increase-sub : (prev curr : ℕ) → increase prev curr ≡ curr - prev
unfolding increase
increase-sub prev curr = ground arith

module _ (d : Double) where
  open d use {Real, real, over, less}

  -- What is said of one interface.
  pub record IsInterfaceReport (x : NetworkInterface d) : Type 0 where
    pub not_loopback : x.name ≢ codes "lo"
    pub rx : less x.rx_rate_bps (real 0) ≡ false
    pub tx : less x.tx_rate_bps (real 0) ≡ false

  -- The rate that a counter gives: what it grew by in the time that passed, 0 if it went back.
  abbrev pub rate_since : Real → ℕ → ℕ → Real
  rate_since elapsed p c = if less (real 0) elapsed then over (real (c - p)) elapsed else real 0

  -- What is reported of a name, by its rows in the reading before and in this one.
  abbrev pub report_of : Real → Bytes → Option RawNet → Option RawNet → Option (NetworkInterface d)
  report_of elapsed name p none = none
  report_of elapsed name none (some c) = some (record {
    name = name;
    rx_bytes_total = c.rx_bytes;
    tx_bytes_total = c.tx_bytes;
    rx_rate_bps = real 0;
    tx_rate_bps = real 0;
  })
  report_of elapsed name (some p) (some c) = some (record {
    name = name;
    rx_bytes_total = c.rx_bytes;
    tx_bytes_total = c.tx_bytes;
    rx_rate_bps = rate_since elapsed p.rx_bytes c.rx_bytes;
    tx_rate_bps = rate_since elapsed p.tx_bytes c.tx_bytes;
  })

  interface_of-report_of :
      (elapsed : Real) (prev : List (Bytes × RawNet)) (name : Bytes) (raw : RawNet)
      → some (interface_of d elapsed prev (name, raw))
        ≡ report_of elapsed name (lookup bytes_keys name prev) (some raw)
  unfolding interface_of rates
  interface_of-report_of elapsed prev name raw = elim (Option-cases (lookup bytes_keys name prev)) [
    | inl e ↦ rw (e, interface_of)
    | inr (p, e) ↦
        rw (e, interface_of)
          (simp increase-sub
            (elim (Bool-cases (less (real 0) elapsed)) [ inl t ↦ rw t | inr t ↦ rw t ]))
  ]

  abbrev pub name_of : NetworkInterface d → Bytes
  name_of x = x.name

  keeps_name :
      (elapsed : Real) (prev : List (Bytes × RawNet)) (name : Bytes) (raw : RawNet)
      → (interface_of d elapsed prev (name, raw)).name ≡ name
  unfolding interface_of
  keeps_name elapsed prev name raw = refl

  entry_of-report_of :
      (elapsed : Real) (prev : List (Bytes × RawNet)) (name : Bytes) (c : Option RawNet)
      → entry_of bytes_keys name_of (interface_of d elapsed prev) (keeps_name elapsed prev) name c
        ≡ report_of elapsed name (lookup bytes_keys name prev) c
  entry_of-report_of elapsed prev name none = refl
  entry_of-report_of elapsed prev name (some raw) = interface_of-report_of elapsed prev name raw

  -- What a sample returns for a name, when the file can be read: an interface exactly when the new
  -- reading has a row for the name, with that row's totals, and for rates what each counter grew by
  -- since the last reading, over the time since then. A rate is 0 for a counter that went back (the
  -- difference stops at 0), for a name that is new, and when no time passed. The new reading and its
  -- time replace the old ones.
  pub sample_interfaces :
      (m : NetworkMonitor) (now : Instant) (text : Bytes)
      → let curr = parse_net_dev (lines text) in
        (result : List (NetworkInterface d)) × (sample d m now (some text)
          ≡ (record { prev = curr; prev_time = now }, ok result))
        × ((name : Bytes)
            → find_by bytes_keys name_of name result
              ≡ report_of
                  (seconds_between d m.prev_time now)
                  name
                  (lookup bytes_keys name m.prev)
                  (lookup bytes_keys name curr))
  unfolding sample read_proc_net_dev
  sample_interfaces m now text =
      let curr = parse_net_dev (lines text) in
      let elapsed = seconds_between d m.prev_time now in
      (
        map (interface_of d elapsed m.prev) curr,
        refl,
        λ name.
            find_by-map bytes_keys name_of (interface_of d elapsed m.prev)
              (keeps_name elapsed m.prev) name curr
            ∙ entry_of-report_of elapsed m.prev name (lookup bytes_keys name curr),
      )

  module _ (laws : Laws d) where
    rates_nonneg :
        (elapsed : Real) (p : Option RawNet) (raw : RawNet)
        → (less (rates d elapsed p raw).0 (real 0) ≡ false)
          × (less (rates d elapsed p raw).1 (real 0) ≡ false)
    unfolding rates
    rates_nonneg elapsed none raw = (laws.less_irrefl (real 0), laws.less_irrefl (real 0))
    rates_nonneg elapsed (some p) raw = elim (Bool-cases (less (real 0) elapsed)) [
      | inl t ↦ rw t (
        over_nonneg d laws (real _) elapsed (laws.real_mono 0 _ (omega arith)) t,
        over_nonneg d laws (real _) elapsed (laws.real_mono 0 _ (omega arith)) t,
      )
      | inr t ↦ rw t (laws.less_irrefl (real 0), laws.less_irrefl (real 0))
    ]

    All-IsInterfaceReport :
        (elapsed : Real) (prev rows : List (Bytes × RawNet))
        → All (λ e. NotLo e.0) rows
        → All IsInterfaceReport (map (interface_of d elapsed prev) rows)
    unfolding interface_of
    All-IsInterfaceReport elapsed prev [] h = tt
    All-IsInterfaceReport elapsed prev ((name, raw) ∷ rows) h =
        let nonneg = rates_nonneg elapsed (lookup bytes_keys name prev) raw in
        (
          record { not_loopback = λ e. cc (bytes_eq_refl name, h.0); rx = nonneg.0; tx = nonneg.1 },
          All-IsInterfaceReport elapsed prev rows h.1,
        )

    -- Whatever the file holds, the interfaces of a sample ascend by name, so that none stands twice;
    -- the loopback interface is not among them; and no rate is negative.
    pub sample-IsInterfaceReport :
        (m : NetworkMonitor) (now : Instant) (text : Bytes)
        → (result : List (NetworkInterface d)) × ((sample d m now (some text)).1 ≡ ok result)
          × InOrder bytes_keys name_of result
          × All IsInterfaceReport result
    unfolding sample read_proc_net_dev parse_net_dev
    sample-IsInterfaceReport m now text =
        let rows = drop 2 (lines text) in
        let elapsed = seconds_between d m.prev_time now in
        (
          map (interface_of d elapsed m.prev) (parse_net_dev (lines text)),
          refl,
          InOrder-map bytes_keys name_of (interface_of d elapsed m.prev) (keeps_name elapsed m.prev)
              (parse_net_dev (lines text)) (fill-Ascending bytes_keys row_of rows [] tt),
          All-IsInterfaceReport elapsed m.prev _
              (AllKeys-fill bytes_keys row_of NotLo rows [] row_of-NotLo tt),
        )

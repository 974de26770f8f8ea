-- ===== src/Network/Monitor.antt =====
-- The constructor and `sample`.
use kvadra_top.Base.{
  ℕ, ◌-◌, Option, none, some, List, map, leb, if◌then◌else◌, Result, ok, throw, runtime_error,
  ◌>>=◌,
}
use kvadra_top.Text.{Bytes, File, codes, lines}
use kvadra_top.Map.{lookup}
use kvadra_top.Map.Keys.{bytes_keys}
use kvadra_top.Real.{Double}
use kvadra_top.Snapshot.{NetworkInterface}
use kvadra_top.Time.{Instant, seconds_between}
use kvadra_top.Network.Parse.{RawNet, parse_net_dev}

pub record NetworkMonitor : Type 0 where
  pub prev : List (Bytes × RawNet)
  pub prev_time : Instant

unfoldable pub read_proc_net_dev : File → Result (List (Bytes × RawNet))
unfolding parse_net_dev lines
read_proc_net_dev none = throw (runtime_error (codes "cannot open /proc/net/dev"))
read_proc_net_dev (some text) = ok (parse_net_dev (lines text))

unfoldable pub init : Instant → File → Result NetworkMonitor
init now f = do rows ← read_proc_net_dev f; ok (record { prev = rows; prev_time = now })

-- `curr >= prev ? curr - prev : 0`: a counter that went back counts as no traffic.
unfoldable pub increase : ℕ → ℕ → ℕ
increase prev curr = if leb prev curr then curr - prev else 0

module _ (d : Double) where
  open d use {Real, real, over, less}

  -- The two rates.
  unfoldable pub rates : Real → Option RawNet → RawNet → Real × Real
  unfolding increase
  rates elapsed none raw = (real 0, real 0)
  rates elapsed (some p) raw =
      if less (real 0) elapsed
      then (
        over (real (increase p.rx_bytes raw.rx_bytes)) elapsed,
        over (real (increase p.tx_bytes raw.tx_bytes)) elapsed,
      )
      else (real 0, real 0)

  -- The body of the loop over the map.
  unfoldable pub interface_of : Real → List (Bytes × RawNet) → Bytes × RawNet → NetworkInterface d
  unfolding rates lookup
  interface_of elapsed prev (name, raw) =
      let (rx, tx) = rates elapsed (lookup bytes_keys name prev) raw in
      record {
        name = name;
        rx_bytes_total = raw.rx_bytes;
        tx_bytes_total = raw.tx_bytes;
        rx_rate_bps = rx;
        tx_rate_bps = tx;
      }

  abbrev sampled :
      NetworkMonitor
      → Instant
      → Result (List (Bytes × RawNet))
      → NetworkMonitor × Result (List (NetworkInterface d))
  sampled m now (throw e) = (m, throw e)
  sampled m now (ok curr) = (
    record { prev = curr; prev_time = now },
    ok (map (interface_of (seconds_between d m.prev_time now) m.prev) curr),
  )

  unfoldable pub sample :
      NetworkMonitor → Instant → File → NetworkMonitor × Result (List (NetworkInterface d))
  sample m now f = sampled m now (read_proc_net_dev f)

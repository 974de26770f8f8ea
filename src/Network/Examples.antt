-- ===== src/Network/Examples.antt =====
-- Runs of the network monitor, and its theorems at concrete inputs.
use kvadra_top.Base.{ℕ, ◌≡◌, refl, some, List, [], ◌∷◌, ok, arith}
use kvadra_top.Text.{Bytes, codes, value, lines, read_unsigned, Column}
use kvadra_top.Map.{lookup}
use kvadra_top.Map.Keys.{bytes_keys, bytes_less}
use kvadra_top.Map.Reports.{find_by}
use kvadra_top.Real.Fixed.{fixed}
use kvadra_top.Snapshot.{NetworkInterface}
use kvadra_top.Time.{seconds_between}
use kvadra_top.Network.Parse.{row_of, parse_net_dev}
use kvadra_top.Network.Monitor.{NetworkMonitor, sample, read_proc_net_dev, interface_of}
use kvadra_top.Network.Interfaces.{name_of, report_of, sample_interfaces}
use kvadra_top.Network.Rows.{Counters, row_of-row}

abbrev text : Bytes
text =
    codes
      "head\nhead\n    lo: 9 0 0 0 0 0 0 0 9 0\n  eth0: 3000 1 0 0 0 0 0 0 500 2\n wlan0:70 1 0 0 0 0 0 0 80 2\n"

abbrev monitor : NetworkMonitor
monitor = record {
  prev = (codes "eth0", record { rx_bytes = 1000; tx_bytes = 900 }) ∷ [];
  prev_time = 5_000_000_000;
}

-- Two seconds later eth0 received 2000 bytes; its other counter went back, and wlan0 is new.
two_seconds :
    (sample fixed monitor 7_000_000_000 (some text)).1
    ≡ ok (
        record {
          name = codes "eth0";
          rx_bytes_total = 3000;
          tx_bytes_total = 500;
          rx_rate_bps = 1_000_000_000;
          tx_rate_bps = 0;
        }
        ∷ record {
          name = codes "wlan0";
          rx_bytes_total = 70;
          tx_bytes_total = 80;
          rx_rate_bps = 0;
          tx_rate_bps = 0;
        }
        ∷ [])
unfolding sample read_proc_net_dev read_unsigned bytes_less interface_of seconds_between
two_seconds = refl

sample_interfaces_example :
    let curr = parse_net_dev (lines text) in
    (result : List (NetworkInterface fixed)) × (sample fixed monitor 7_000_000_000 (some text)
      ≡ (record { prev = curr; prev_time = 7_000_000_000 }, ok result))
    × ((name : Bytes)
        → find_by bytes_keys (name_of fixed) name result
          ≡ report_of fixed
              (seconds_between fixed 5_000_000_000 7_000_000_000)
              name
              (lookup bytes_keys name monitor.prev)
              (lookup bytes_keys name curr))
sample_interfaces_example = sample_interfaces fixed monitor 7_000_000_000 text

abbrev column : ℕ → Column
column digit = record { pad = codes " "; first = digit; others = [] }

abbrev counters : Counters
counters = record {
  rx = record { pad = []; first = b'7'; others = codes "0" };
  packets = column b'1';
  errs = column b'0';
  dropped = column b'0';
  fifo = column b'0';
  frame = column b'0';
  compressed = column b'0';
  multicast = column b'0';
  tx = column b'8';
}

row_of-row_example :
    row_of (codes " wlan0:70 1 0 0 0 0 0 0 8 2")
    ≡ some (codes "wlan0", record { rx_bytes = 70; tx_bytes = 8 })
unfolding value
row_of-row_example =
    row_of-row (codes " ") b'w' (codes "lan0") counters (codes " 2") (ground arith) refl
      (ground arith) (cc) (ground arith)

-- ===== src/Disk/Examples.antt =====
-- Runs of the disk monitor, and its theorems at concrete inputs.
use kvadra_top.Base.{◌↔◌, ◌≡◌, refl, true, false, some, List, [], ◌∷◌, ok}
use kvadra_top.Text.{Bytes, codes, lines, read_unsigned, read_word}
use kvadra_top.Map.{lookup}
use kvadra_top.Map.Keys.{bytes_keys, bytes_less}
use kvadra_top.Map.Reports.{find_by}
use kvadra_top.Real.Fixed.{fixed}
use kvadra_top.Snapshot.{DiskDevice}
use kvadra_top.Time.{seconds_between}
use kvadra_top.Disk.Regex.{is_whole_disk}
use kvadra_top.Disk.Parse.{parse_diskstats}
use kvadra_top.Disk.Monitor.{DiskMonitor, sample, read_proc_diskstats, device_of}
use kvadra_top.Disk.Names.{IsWholeDisk, is_whole_disk_lem}
use kvadra_top.Disk.Devices.{name_of, report_of, sample_devices}

abbrev text : Bytes
text = codes "   8  0 sda 1 0 20 0 1 0 8 0 0 900 5\n   8  1 sda1 1 0 20 0 1 0 8 0 0 900 5\n"

abbrev monitor : DiskMonitor
monitor = record {
  prev = (codes "sda", record { read_sectors = 10; write_sectors = 8; io_ticks = 400 }) ∷ [];
  prev_time = 0;
}

-- In a second sda read ten sectors and was busy for half of the time.
one_second :
    (sample fixed monitor 1_000_000_000 (some text)).1
    ≡ ok (
        record {
          name = codes "sda";
          read_bytes_total = 10240;
          write_bytes_total = 4096;
          read_rate_bps = 5_120_000_000;
          write_rate_bps = 0;
          util_percent = 50_000_000;
        }
        ∷ [])
unfolding sample read_proc_diskstats is_whole_disk read_unsigned read_word bytes_less device_of
    seconds_between
one_second = refl

whole_names : is_whole_disk (codes "nvme0n1") ≡ true
unfolding is_whole_disk
whole_names = refl

is_whole_disk_lem_example : (is_whole_disk (codes "sda1") ≡ true) ↔ IsWholeDisk (codes "sda1")
is_whole_disk_lem_example = is_whole_disk_lem (codes "sda1")

part_names : is_whole_disk (codes "nvme0n1p2") ≡ false
unfolding is_whole_disk
part_names = refl

sample_devices_example :
    let curr = parse_diskstats (lines text) in
    (result : List (DiskDevice fixed)) × (sample fixed monitor 1_000_000_000 (some text)
      ≡ (record { prev = curr; prev_time = 1_000_000_000 }, ok result))
    × ((name : Bytes)
        → find_by bytes_keys (name_of fixed) name result
          ≡ report_of fixed
              (seconds_between fixed 0 1_000_000_000)
              name
              (lookup bytes_keys name monitor.prev)
              (lookup bytes_keys name curr))
sample_devices_example = sample_devices fixed monitor 1_000_000_000 text

-- ===== src/Disk/Parse.antt =====
-- The reading of /proc/diskstats.
use kvadra_top.Base.{ℕ, Option, none, some, List, [], ◌∷◌, if◌then◌else◌}
use kvadra_top.Text.{
  Bytes, Extract, stream, ◌>>=◌, return, read_word, read_unsigned, u64_max, u32_max,
}
use kvadra_top.Map.{fill}
use kvadra_top.Map.Keys.{bytes_keys}
use kvadra_top.Disk.Regex.{is_whole_disk}

pub record RawDisk : Type 0 where
  pub read_sectors : ℕ
  pub write_sectors : ℕ
  pub io_ticks : ℕ

abbrev pub counter : Extract ℕ
counter = read_unsigned u64_max 0

unfoldable pub extract_disk : Extract (Bytes × RawDisk)
extract_disk = do
  major_num ← read_unsigned u32_max 0
  minor_num ← read_unsigned u32_max 0
  name ← read_word []
  reads_completed ← counter
  reads_merged ← counter
  sectors_read ← counter
  read_ms ← counter
  writes_completed ← counter
  writes_merged ← counter
  sectors_written ← counter
  write_ms ← counter
  io_in_progress ← counter
  io_ticks ← counter
  return {A = Bytes × RawDisk} (
    name,
    record { read_sectors = sectors_read; write_sectors = sectors_written; io_ticks = io_ticks },
  )

abbrev keep_whole : Bytes × RawDisk → Option (Bytes × RawDisk)
keep_whole (name, raw) = if is_whole_disk name then some (name, raw) else none

-- The body of the loop; `none` is `continue`.
unfoldable pub row_of : Bytes → Option (Bytes × RawDisk)
unfolding extract_disk
row_of [] = none
row_of (c ∷ line) = keep_whole (extract_disk (stream (c ∷ line))).0

unfoldable pub parse_diskstats : List Bytes → List (Bytes × RawDisk)
unfolding row_of fill
parse_diskstats lines = fill bytes_keys row_of lines []

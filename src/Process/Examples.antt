-- ===== src/Process/Examples.antt =====
-- Runs of the process monitor, and its theorems at concrete inputs.
use mathlib.Core.List.{Perm}
use kvadra_top.Base.{
  ℕ, ◌≡◌, refl, none, some, List, [], ◌∷◌, ◌++◌, ok, length, min, All, arith, ◌==◌, if◌then◌else◌,
}
use kvadra_top.Text.{
  Bytes, File, codes, value, ℤ, pos, negsuc, stream, read_char, read_word, read_unsigned,
  read_signed, stoi,
}
use kvadra_top.Map.Keys.{int_less}
use kvadra_top.Real.Fixed.{fixed, fixed-Laws, parse_decimal}
use kvadra_top.Snapshot.{ProcessEntry}
use kvadra_top.Process.Stat.{parse_line, read_proc_stat, extract_fields, accept_fields}
use kvadra_top.Process.Monitor.{ProcessMonitor, System, Dirent, FileType, total_delta_of, scan_dir}
use kvadra_top.Process.Ranking.{top, context_of, prune, sample}
use kvadra_top.Process.User.{read_uptime, read_total_cpu_ticks}
use kvadra_top.Process.RoundTrip.{line_of, parse_line-line_of}
use kvadra_top.Process.Top.{Ranked, AtMost, top_lem}
use kvadra_top.Process.Insertion.{insertion_sort}

abbrev tail : Bytes
tail = codes " S 1 1 1 0 -1 4 0 0 0 0 30 10 0 0 20 0 2 0 500 9000 25 0 0"

-- A command name with a blank and parentheses.
abbrev pub odd_name : Bytes
odd_name = codes "a) (b"

parse_line-line_of_example :
    parse_line (codes "42 (a) (b) S 1 1 1 0 -1 4 0 0 0 0 30 10 0 0 20 0 2 0 500 9000 25 0 0")
    ≡ ok (accept_fields (pos 42) odd_name (extract_fields (stream tail)))
unfolding value
parse_line-line_of_example =
    parse_line-line_of b'4' (codes "2") odd_name tail (ground arith) (omega arith) (omega arith)
      (ground arith)

abbrev entry : ℕ → ℕ → ProcessEntry fixed
entry pid cpu = record {
  pid = pos pid;
  name = codes "p";
  user = codes "u";
  state = b'S';
  cpu_percent = cpu;
  mem_percent = 0;
  mem_rss_kb = 0;
  threads = pos 1;
  uptime_seconds = 0;
}

abbrev entries : List (ProcessEntry fixed)
entries = entry 1 5 ∷ entry 2 9 ∷ []

top_lem_example :
    let kept = top fixed insertion_sort entries in
    (dropped : List (ProcessEntry fixed)) × Perm (kept ++ dropped) entries
    × Ranked fixed fixed-Laws kept
    × All (λ x. All (AtMost fixed fixed-Laws x) dropped) kept
    × (length kept ≡ min 20 (length entries))
top_lem_example = top_lem fixed fixed-Laws insertion_sort entries

top_run : top fixed insertion_sort entries ≡ entry 2 9 ∷ entry 1 5 ∷ []
unfolding top insertion_sort
top_run = refl

-- A small /proc: process 42, and a process that is gone by the time its file is read.
unfoldable pub stat_of : ℤ → File
stat_of (pos n) = if n == 42 then some (line_of (codes "42") odd_name tail) else none
stat_of (negsuc n) = none

abbrev pub entries_of_proc : List Dirent
entries_of_proc =
    record { d_type = FileType.directory; d_name = codes "42" }
    ∷ record { d_type = FileType.directory; d_name = codes "43" }
    ∷ record { d_type = FileType.other; d_name = codes "44" }
    ∷ record { d_type = FileType.directory; d_name = codes "self" }
    ∷ []

abbrev pub small : System
small = record {
  proc_stat = some (codes "cpu 100 0 0 100 0 0 0 0\n");
  uptime = some (codes "20.00 10.00\n");
  page_size = 4096;
  dir = some entries_of_proc;
  stat = stat_of;
  status = λ pid. some (codes "Name: x\nUid:\t1000\t1000\n");
  passwd = λ uid. none;
}

abbrev pub monitor : ProcessMonitor
monitor = record { prev = (pos 7, 1) ∷ (pos 42, 20) ∷ []; hertz = 100; prev_total_ticks = 100 }

abbrev reported : ProcessEntry fixed
reported = record {
  pid = pos 42;
  name = odd_name;
  user = codes "1000";
  state = b'S';
  cpu_percent = 20_000_000;
  mem_percent = 10_000_000;
  mem_rss_kb = 100;
  threads = pos 2;
  uptime_seconds = 15;
}

small_run :
    sample fixed insertion_sort monitor small 1000
    ≡ (record { prev = (pos 42, 40) ∷ []; hertz = 100; prev_total_ticks = 200 }, ok (reported ∷ []))
unfolding sample context_of scan_dir prune top insertion_sort stat_of read_proc_stat read_char
    read_word read_unsigned read_signed stoi int_less parse_decimal read_uptime read_total_cpu_ticks
    total_delta_of
small_run = refl

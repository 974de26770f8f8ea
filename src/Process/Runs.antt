-- ===== src/Process/Runs.antt =====
-- Two samples of a small /proc, and the theorems on samples at them.
use kvadra_top.Base.{◌≡◌, refl, some, none, List, [], ◌∷◌, ok, map, ◌==◌, if◌then◌else◌}
use kvadra_top.Text.{
  File, codes, ℤ, pos, negsuc, read_char, read_word, read_unsigned, read_signed, stoi,
}
use kvadra_top.Real.Fixed.{fixed}
use kvadra_top.Process.Stat.{read_proc_stat}
use kvadra_top.Process.Monitor.{System}
use kvadra_top.Process.Ranking.{top, context_of, sample}
use kvadra_top.Process.RoundTrip.{line_of}
use kvadra_top.Process.Insertion.{insertion_sort}
use kvadra_top.Process.Living.{Found, living, entry}
use kvadra_top.Process.Samples.{Keeps, described, sample_entries, second_sample}
use kvadra_top.Process.Examples.{odd_name, entries_of_proc, stat_of, small, monitor}

abbrev first : List Found
first =
    (
      pos 42,
      record {
        pid = pos 42;
        comm = odd_name;
        state = b'S';
        utime = 30;
        stime = 10;
        rss = pos 25;
        threads = pos 2;
        starttime = 500;
      },
    )
    ∷ []

living_run : living fixed small entries_of_proc ≡ ok first
unfolding living stat_of read_proc_stat read_char read_word read_unsigned read_signed stoi
living_run = refl

-- One hundred ticks later, of which the process has had 60.
later_stat : ℤ → File
later_stat (pos n) =
    if n == 42
    then some (
        line_of (codes "42") odd_name
          (codes " S 1 1 1 0 -1 4 0 0 0 0 80 20 0 0 20 0 2 0 500 9000 25 0 0"))
    else none
later_stat (negsuc n) = none

abbrev later : System
later = record small { proc_stat = some (codes "cpu 150 0 0 150 0 0 0 0\n"); stat = later_stat }

abbrev second : List Found
second =
    (
      pos 42,
      record {
        pid = pos 42;
        comm = odd_name;
        state = b'S';
        utime = 80;
        stime = 20;
        rss = pos 25;
        threads = pos 2;
        starttime = 500;
      },
    )
    ∷ []

later-living : living fixed later entries_of_proc ≡ ok second
unfolding living later_stat read_proc_stat read_char read_word read_unsigned read_signed stoi
later-living = refl

sample_entries_example :
    ((sample fixed insertion_sort monitor small 1000).1
      ≡ ok (
          top fixed insertion_sort (
            map
              (entry fixed (context_of fixed insertion_sort monitor small 1000) small monitor.prev)
              first)))
    × Keeps fixed insertion_sort monitor
        (sample fixed insertion_sort monitor small 1000).0
        small
        first
sample_entries_example =
    sample_entries fixed insertion_sort monitor small 1000 entries_of_proc first refl living_run
      (tt, tt)

second_sample_example :
    (sample fixed insertion_sort (sample fixed insertion_sort monitor small 1000).0 later 1000).1
    ≡ ok (
        top fixed insertion_sort
          (map (described fixed insertion_sort monitor small later 1000 first) second))
second_sample_example =
    second_sample fixed insertion_sort monitor small later 1000 1000 entries_of_proc entries_of_proc
      first second refl living_run (tt, tt) refl later-living (tt, tt)

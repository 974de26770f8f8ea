-- ===== src/Process/Stat.antt =====
-- ProcStat and the reading of /proc/<pid>/stat.
use kvadra_top.Base.{
  ℕ, ◌+◌, ◌-◌, ◌*◌, ◌%◌, ◌^◌, Option, none, some, List, [], ◌∷◌, ltb, if◌then◌else◌, take, drop,
  Result, ok,
}
use kvadra_top.Base
use kvadra_top.Text.{
  to_int, Bytes, File, ℤ, pos, lines, find, rfind, substr, Stream, Extract, stream, ◌>>=◌, return,
  read_char, read_unsigned, read_signed, u64_max, i64_max, stoi,
}

pub record ProcStat : Type 0 where
  pub pid : ℤ
  pub comm : Bytes
  pub state : ℕ
  pub utime : ℕ
  pub stime : ℕ
  pub rss : ℤ
  pub threads : ℤ
  pub starttime : ℕ

-- The fields behind the name that are kept.
pub record Fields : Type 0 where
  pub state : ℕ
  pub utime : ℕ
  pub stime : ℕ
  pub threads : ℤ
  pub starttime : ℕ
  pub rss : ℤ

abbrev pub long : Extract ℤ
long = read_signed i64_max (pos 0)

abbrev pub ulong : Extract ℕ
ulong = read_unsigned u64_max 0

-- The chain of twenty-two extractions.
unfoldable pub extract_fields : Extract Fields
extract_fields = do
  state ← read_char 0
  ppid ← long
  pgrp ← long
  session ← long
  tty_nr ← long
  tpgid ← long
  flags ← ulong
  minflt ← ulong
  cminflt ← ulong
  majflt ← ulong
  cmajflt ← ulong
  utime ← ulong
  stime ← ulong
  cutime ← long
  cstime ← long
  priority ← long
  nice ← long
  num_threads ← long
  itrealvalue ← long
  starttime ← ulong
  vsize ← ulong
  rss ← long
  return (record {
    state = state;
    utime = utime;
    stime = stime;
    threads = num_threads;
    starttime = starttime;
    rss = rss;
  })

-- `if (ss.fail()) return false;`, and the fields that are passed out.
unfoldable pub accept_fields : ℤ → Bytes → Fields × Stream → Option ProcStat
unfolding to_int
accept_fields pid comm (f, left) =
    if left.failed
    then none
    else some (record {
      pid = pid;
      comm = comm;
      state = f.state;
      utime = f.utime;
      stime = f.stime;
      rss = f.rss;
      threads = to_int f.threads;
      starttime = f.starttime;
    })

-- The line with its parentheses at `open_paren` and `close_paren`. The length of the name is a size_t.
unfoldable pub parse_at : ℕ → ℕ → Bytes → Result (Option ProcStat)
unfolding accept_fields extract_fields
parse_at open_paren close_paren line =
    let size = (close_paren + 2 ^ 64 - open_paren - 1) % 2 ^ 64 in
    Base.◌>>=◌ (stoi (take open_paren line)) (λ pid. ok (
      accept_fields pid (substr (open_paren + 1) size line)
        (extract_fields (stream (drop (close_paren + 1) line)))))

unfoldable pub parse_line : Bytes → Result (Option ProcStat)
unfolding parse_at find rfind
parse_line line = elim (find b'(' line) [
  | none ↦ ok none
  | some open_paren ↦ elim (rfind b')' line) [
    | none ↦ ok none
    | some close_paren ↦ parse_at open_paren close_paren line
  ]
]

abbrev parse_first : List Bytes → Result (Option ProcStat)
parse_first [] = ok none
parse_first (line ∷ rest) = parse_line line

-- `none` where the source returns false.
unfoldable pub read_proc_stat : File → Result (Option ProcStat)
unfolding parse_line lines
read_proc_stat none = ok none
read_proc_stat (some text) = parse_first (lines text)

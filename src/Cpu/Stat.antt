-- ===== src/Cpu/Stat.antt =====
-- RawStat and the reading of /proc/stat.
use kvadra_top.Base.{ℕ, none, some, List, [], ◌∷◌, if◌then◌else◌, Result, ok, throw, runtime_error}
use kvadra_top.Word.{◌+u◌}
use kvadra_top.Text.{
  Bytes, File, codes, starts_with, lines, Extract, stream, ◌>>=◌, return, read_word, read_unsigned,
  u64_max,
}

pub record RawStat : Type 0 where
  pub user : ℕ
  pub nice : ℕ
  pub system : ℕ
  pub idle : ℕ
  pub iowait : ℕ
  pub irq : ℕ
  pub softirq : ℕ
  pub steal : ℕ

unfoldable pub total : RawStat → ℕ
unfolding ◌+u◌
total s = s.user +u s.nice +u s.system +u s.idle +u s.iowait +u s.irq +u s.softirq +u s.steal

unfoldable pub active : RawStat → ℕ
unfolding ◌+u◌
active s = s.user +u s.nice +u s.system +u s.irq +u s.softirq +u s.steal

-- One `ss >> field` for a counter that starts at 0.
abbrev pub counter : Extract ℕ
counter = read_unsigned u64_max 0

-- The body of the loop: the label and the eight counters of a line.
unfoldable pub extract_stat : Extract RawStat
extract_stat = do
  label ← read_word []
  user ← counter
  nice ← counter
  system ← counter
  idle ← counter
  iowait ← counter
  irq ← counter
  softirq ← counter
  steal ← counter
  return (record {
    user = user;
    nice = nice;
    system = system;
    idle = idle;
    iowait = iowait;
    irq = irq;
    softirq = softirq;
    steal = steal;
  })

unfoldable pub parse_stat : Bytes → RawStat
unfolding extract_stat
parse_stat line = (extract_stat (stream line)).0

-- The loop over the lines, with its `break` at the first line that is no cpu line.
unfoldable pub cpu_rows : List Bytes → List RawStat
unfolding parse_stat starts_with
cpu_rows [] = []
cpu_rows (line ∷ rest) =
    if starts_with (codes "cpu") line then parse_stat line ∷ cpu_rows rest else []

unfoldable pub read_proc_stat : File → Result (List RawStat)
unfolding cpu_rows lines
read_proc_stat none = throw (runtime_error (codes "cannot open /proc/stat"))
read_proc_stat (some text) = ok (cpu_rows (lines text))

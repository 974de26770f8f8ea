-- ===== src/Info/Gather.antt =====
-- The other parts of `collect`, and `collect`.
use kvadra_top.Base.{
  ℕ, zero, suc, ◌+◌, ◌-◌, ◌^◌, Bool, true, false, ltb, Option, none, some, List, [], ◌∷◌,
  if◌then◌else◌,
}
use kvadra_top.Text.{
  Bytes, File, codes, lines, first_line, starts_with, stream, ℤ, pos, negsuc, to_int,
}
use kvadra_top.Real.{Double}
use kvadra_top.Real.Scan.{read_double}
use kvadra_top.Snapshot.{SystemInfo}
use kvadra_top.Info.Release.{os_name}
use kvadra_top.Info.Kernel.{kernel}

-- What the system gives to one call: `host` is the name that gethostname gives, if it succeeds, and
-- `online` is sysconf(_SC_NPROCESSORS_ONLN).
pub record Machine : Type 0 where
  pub host : Option Bytes
  pub host_file : File
  pub version : File
  pub os_release : File
  pub uptime : File
  pub cpuinfo : File
  pub online : ℤ

unfoldable pub hostname : Option Bytes → File → Bytes
unfolding lines
hostname (some name) file = name
hostname none none = []
hostname none (some text) = first_line [] (lines text)

-- `++count` of an `int`, which wraps around here; C++ leaves it undefined behind 2^31 - 1.
unfoldable pub increment : ℤ → ℤ
increment (pos n) = if ltb (n + 1) (2 ^ 31) then pos (n + 1) else negsuc (2 ^ 31 - 1)
increment (negsuc zero) = pos 0
increment (negsuc (suc n)) = negsuc n

-- The loop over the lines, with the `int` that counts those that begin with "processor".
unfoldable pub count_processors : ℤ → List Bytes → ℤ
unfolding increment starts_with
count_processors count [] = count
count_processors count (line ∷ rest) =
    count_processors (if starts_with (codes "processor") line then increment count else count) rest

unfoldable pub counted : File → ℤ
unfolding count_processors lines
counted none = pos 0
counted (some text) = count_processors (pos 0) (lines text)

unfoldable pub online_count : ℤ → ℤ
unfolding to_int
online_count (pos (suc n)) = to_int (pos (suc n))
online_count _ = pos 1

abbrev pub is_zero : ℤ → Bool
is_zero (pos zero) = true
is_zero _ = false

unfoldable pub cpu_count : File → ℤ → ℤ
unfolding counted online_count
cpu_count file online =
    let count = counted file in if is_zero count then online_count online else count

module _ (d : Double) where
  unfoldable pub uptime_seconds : File → ℕ
  unfolding read_double
  uptime_seconds none = 0
  uptime_seconds (some text) = d.whole (read_double d (d.real 0) (stream text)).0

  unfoldable pub collect : Machine → SystemInfo d
  unfolding hostname kernel os_name uptime_seconds cpu_count
  collect m = record {
    hostname = hostname m.host m.host_file;
    kernel = kernel m.version;
    os_name = os_name m.os_release;
    uptime_seconds = uptime_seconds m.uptime;
    cpu_count = cpu_count m.cpuinfo m.online;
  }

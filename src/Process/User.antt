-- ===== src/Process/User.antt =====
-- The owner of a process, the uptime and the total of the CPU ticks.
use kvadra_top.Base.{ℕ, Option, none, some, List, [], ◌∷◌, if◌then◌else◌, drop}
use kvadra_top.Text.{
  Bytes, File, codes, ℤ, pos, negsuc, lines, starts_with, stream, read_signed, i32_max, to_string,
}
use kvadra_top.Real.{Double}
use kvadra_top.Real.Scan.{read_double}
use kvadra_top.Cpu.{total, extract_stat}

-- The first line that begins with `Uid:` decides.
unfoldable pub find_uid : List Bytes → ℤ
unfolding starts_with read_signed
find_uid [] = negsuc 0
find_uid (line ∷ rest) =
    if starts_with (codes "Uid:") line
    then (read_signed i32_max (negsuc 0) (stream (drop 4 line))).0
    else find_uid rest

unfoldable pub read_uid : File → ℤ
unfolding find_uid lines
read_uid none = negsuc 0
read_uid (some text) = find_uid (lines text)

-- `passwd` is getpwuid_r: the name that the user database gives, if it gives one.
unfoldable pub uid_to_username : (ℕ → Option Bytes) → ℤ → Bytes
unfolding to_string
uid_to_username passwd (negsuc n) = codes "?"
uid_to_username passwd (pos uid) = elim (passwd uid) [ none ↦ to_string uid | some name ↦ name ]

unfoldable pub read_uptime : (d : Double) → File → d.Real
unfolding read_double
read_uptime d none = d.real 0
read_uptime d (some text) = (read_double d (d.real 0) (stream text)).0

-- The same extractions and the same sum as in the CPU monitor.
unfoldable pub read_total_cpu_ticks : File → ℕ
unfolding total extract_stat
read_total_cpu_ticks none = 0
read_total_cpu_ticks (some text) = total (extract_stat (stream text)).0

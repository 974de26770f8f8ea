-- ===== src/Cpu/Load.antt =====
-- The load averages of `sample`, from /proc/loadavg; they are 0 where the file does not give them.
use kvadra_top.Base.{none, some}
use kvadra_top.Text.{File, stream, ◌>>=◌, return}
use kvadra_top.Real.{Double}
use kvadra_top.Real.Scan.{read_double}

module _ (d : Double) where
  open d use {Real, real}

  unfoldable pub load_averages : File → Real × Real × Real
  unfolding read_double
  load_averages none = (real 0, real 0, real 0)
  load_averages (some text) =
      ((do
        one ← read_double d (real 0)
        five ← read_double d (real 0)
        fifteen ← read_double d (real 0)
        return {A = Real × Real × Real} (one, five, fifteen))
        (stream text)).0

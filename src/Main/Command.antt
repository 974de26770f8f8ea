-- ===== src/Main/Command.antt =====
-- `main` as a whole.
use kvadra_top.Base.{ℕ, Option, none, some, List, map, Result, throw, ok, Exception}
use kvadra_top.Text.{Bytes, ℤ}
use kvadra_top.Real.{Double}
use kvadra_top.Snapshot.{ProcessEntry}
use kvadra_top.Process.{Sorting}
use kvadra_top.Collector
use kvadra_top.Collector.{Collector, Inputs}
use kvadra_top.Serializer.{Tree}
use kvadra_top.Main.Args.{port_of, frontend_dir}
use kvadra_top.Main.Loop.{Io, as_action, World, Program, main_loop}

-- What `main` is called with, and what happens before its loop: `bind` is what the acceptor throws
-- where it cannot listen at the port, and `ticks` is sysconf(_SC_CLK_TCK).
pub record Start : Type 0 where
  pub port : Option Bytes
  pub dir : Option Bytes
  pub bind : Option Exception
  pub ticks : ℤ
  pub inputs : Inputs
  pub early : List Io

-- How the program ends: an exception that nothing catches, or status 0 with the port and the
-- directory it has served. `unfinished` says that the fuel has run out.
pub data Outcome : Type 0 where
  terminated : Exception → Outcome
  exited : ℕ → Bytes → Program → Outcome
  unfinished : Outcome

abbrev pub outcome_of : ℕ → Bytes → Option Program → Outcome
outcome_of port dir none = unfinished
outcome_of port dir (some q) = exited port dir q

abbrev pub program_of : Start → Collector → Program
program_of a c = record { collector = c; reads = 0; rounds = 0; trace = map as_action a.early }

module _ (d : Double) (s : Sorting (ProcessEntry d)) (dump : Tree d → Result Bytes)
    (w : World) where
  -- What is thrown by the port, by the server or by the collector, in this order, ends the program.
  unfoldable pub main_with : ℕ → Start → Result ℕ → Option Exception → Result Collector → Outcome
  unfolding frontend_dir main_loop
  main_with fuel a (throw x) bind built = terminated x
  main_with fuel a (ok port) (some x) built = terminated x
  main_with fuel a (ok port) none (throw x) = terminated x
  main_with fuel a (ok port) none (ok c) =
      outcome_of port (frontend_dir a.dir) (main_loop d s dump w fuel (program_of a c))

  unfoldable pub main : ℕ → Start → Outcome
  unfolding port_of Collector.init main_with
  main fuel a = main_with fuel a (port_of a.port) a.bind (Collector.init a.ticks a.inputs)

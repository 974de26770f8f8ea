-- ===== src/Main/Loop.antt =====
-- The main loop.
use kvadra_top.Base.{
  ℕ, zero, suc, Bool, true, false, Option, none, some, List, [], ◌∷◌, ◌++◌, map, ltb, Result, throw,
  ok,
}
use kvadra_top.Text.{Bytes}
use kvadra_top.Real.{Double}
use kvadra_top.Snapshot.{Snapshot, ProcessEntry}
use kvadra_top.Process.{Sorting}
use kvadra_top.Collector.{Collector, Inputs, collect}
use kvadra_top.Serializer.{Tree, serialize_snapshot}
use kvadra_top.Server.{Event, Action, accepts, handles, broadcasts}

-- What the thread of the io_context does.
pub data Io : Type 0 where
  accepted : Bool → Io
  handled : ℕ → Event → Io

abbrev pub as_action : Io → Action
as_action (accepted b) = accepts b
as_action (handled i e) = handles i e

-- What happens around the main thread: what the system gives to round `n`, what the other thread does
-- before the broadcast of that round, and how often the flag is read before the signal comes.
pub record World : Type 0 where
  pub inputs : ℕ → Inputs
  pub meanwhile : ℕ → List Io
  pub signal : ℕ

-- `reads` counts the reads of the flag, `rounds` those of the loop, and `trace` is what the server
-- has gone through.
pub record Program : Type 0 where
  pub collector : Collector
  pub reads : ℕ
  pub rounds : ℕ
  pub trace : List Action

-- `g_running`, at its read number `k`.
abbrev pub is_running : World → ℕ → Bool
is_running w k = ltb k w.signal

-- The loop of naps: the flag is not read after the last of them. The result counts the reads.
unfoldable pub nap : World → ℕ → ℕ → ℕ
nap w zero k = k
nap w (suc left) k = elim (is_running w k) [ true ↦ nap w left (suc k) | false ↦ suc k ]

abbrev pub broadcast_of : Result Bytes → List Bytes
broadcast_of (throw x) = []
broadcast_of (ok json) = json ∷ []

module _ (d : Double) (s : Sorting (ProcessEntry d)) (dump : Tree d → Result Bytes) where
  unfoldable pub serialized : Collector × Result (Snapshot d) → Collector × Result Bytes
  unfolding serialize_snapshot
  serialized (c, throw x) = (c, throw x)
  serialized (c, ok snap) = (c, serialize_snapshot d dump snap)

  -- The body of the try block up to the broadcast.
  unfoldable pub report : Inputs → Collector → Collector × Result Bytes
  unfolding collect serialized
  report i c = serialized (collect d s i c)

  module _ (w : World) where
    -- One round: an exception is caught, and nothing is broadcast.
    unfoldable pub round : Program → Program
    unfolding report nap
    round p =
        let r = report (w.inputs p.rounds) p.collector in
        record {
          collector = r.0;
          reads = nap w 10 (suc p.reads);
          rounds = suc p.rounds;
          trace =
              p.trace
              ++ (map as_action (w.meanwhile p.rounds) ++ map broadcasts (broadcast_of r.1));
        }

    unfoldable pub main_loop : ℕ → Program → Option Program
    unfolding round
    main_loop zero p = none
    main_loop (suc fuel) p = elim (is_running w p.reads) [
      | true ↦ main_loop fuel (round p)
      | false ↦ some (record p { reads = suc p.reads })
    ]

-- ===== src/Main/Service.antt =====
-- The whole program, for one client.
use mathlib.Core.Path.{subst}
use kvadra_top.Base.{
  ℕ, suc, ◌+◌, ◌-◌, ◌/◌, ◌<◌, ◌≡◌, refl, ◌∙◌, ap, inl, inr, Bool, true, false, some, List, [], ◌∷◌,
  ◌++◌, map, All, Option-cases, Result, ok, get_elem?, arith,
}
use kvadra_top.Text.{Bytes}
use kvadra_top.Real.{Double}
use kvadra_top.Snapshot.{ProcessEntry}
use kvadra_top.Process.{Sorting}
use kvadra_top.Collector
use kvadra_top.Collector.{Collector}
use kvadra_top.Serializer.{Tree}
use kvadra_top.Server.Session.{Session}
use kvadra_top.Server.Hub.{Hub, run, launch}
use kvadra_top.Server.Listening.{listens, heard}
use kvadra_top.Main.Loop.{Io, accepted, handled, as_action, World, Program}
use kvadra_top.Main.Command.{Start, exited, program_of, main}
use kvadra_top.Main.Startup.{first_problem, main_terminates, main_exits}
use kvadra_top.Main.Reports.{reports}
use kvadra_top.Main.Subscribers.{listening, Keeps, main_loop-heard}

-- Nothing is heard before the first broadcast.
heard-early : (i : ℕ) (b : Bool) (ios : List Io) → heard i b (map as_action ios) ≡ []
heard-early i b [] = refl
heard-early i b (accepted opened ∷ ios) = heard-early i b ios
heard-early i b (handled j e ∷ ios) = heard-early i (listens i (as_action (handled j e)) b) ios

module _ (d : Double) (s : Sorting (ProcessEntry d)) (dump : Tree d → Result Bytes)
    (w : World) where
  -- The whole program, with fuel for each read of the flag, for a client that listens when the main
  -- loop begins and whose connection does not fail afterwards: when the program has ended with status
  -- 0, what the client was sent, its queue and its posted messages together are the texts of the
  -- rounds in which nothing was thrown, once each and in the order of the rounds. The rounds start
  -- with a new collector, and there is one for every eleven reads of the flag before the signal, the
  -- last one begun counted.
  pub main_serves :
      (fuel i port : ℕ) (a : Start) (dir : Bytes) (q : Program) (hub : Hub) (x : Session)
      → suc w.signal < fuel
      → main d s dump w fuel a ≡ exited port dir q
      → listening i false (map as_action a.early) ≡ true
      → ((r : ℕ) → All (Keeps i) (w.meanwhile r))
      → run q.trace (launch dir) ≡ some hub
      → get_elem? hub.sessions i ≡ some x
      → (c : Collector) × (Collector.init a.ticks a.inputs ≡ ok c)
        × (x.sent ++ (x.queue ++ x.posted) ≡ reports d s dump w ((w.signal + 10) / 11) 0 c)
  main_serves fuel i port a dir q hub x f exits on keeps reached at =
      elim (Option-cases (first_problem a)) [
        | inr (y, e) ↦ absurd (let stopped = main_terminates d s dump w fuel a y e in cc)
        | inl e ↦
            let (at_port, c, p, read, built, ends, leaves, ended) =
              main_exits d s dump w fuel a e f in
            let same : p ≡ q = cc in
            let count : q.rounds - 0 ≡ (w.signal + 10) / 11 =
              subst (λ (z : Program). z.rounds - 0 ≡ (w.signal + 10) / 11) same
                (omega (arith, ended.rounds)) in
            (
              c,
              built,
              main_loop-heard d s dump w (program_of a c) q fuel i dir hub x on keeps
                    (ends ∙ ap some same) reached at
                  ∙ ap (λ l. l ++ reports d s dump w (q.rounds - 0) 0 c)
                      (heard-early i false a.early)
                  ∙ ap (λ n. reports d s dump w n 0 c) count,
            )
      ]

-- ===== src/Main/Subscribers.antt =====
-- What a client hears of the main loop.
use kvadra_top.Base.{
  ℕ, zero, suc, ◌-◌, ◌≡◌, refl, ◌∙◌, ap, sym, Bool, true, false, some, List, [], ◌∷◌, ◌++◌, map,
  append_assoc, All, arith, Result, get_elem?,
}
use kvadra_top.Text.{Bytes}
use kvadra_top.Real.{Double}
use kvadra_top.Snapshot.{ProcessEntry}
use kvadra_top.Process.{Sorting}
use kvadra_top.Collector.{Collector}
use kvadra_top.Serializer.{Tree}
use kvadra_top.Server.Session.{Session}
use kvadra_top.Server.Hub.{Hub, Action, broadcasts, run, launch}
use kvadra_top.Server.Listening.{listens, said, heard}
use kvadra_top.Server.Clients.{run-heard}
use kvadra_top.Main.Loop.{
  Io, accepted, handled, as_action, World, Program, broadcast_of, report, main_loop,
}
use kvadra_top.Main.Reports.{reports, course, main_loop-trace}

-- Whether client `i` listens after the actions.
abbrev pub listening : ℕ → Bool → List Action → Bool
listening i b [] = b
listening i b (a ∷ rest) = listening i (listens i a b) rest

heard-append :
    (i : ℕ) (b : Bool) (xs ys : List Action)
    → heard i b (xs ++ ys) ≡ heard i b xs ++ heard i (listening i b xs) ys
heard-append i b [] ys = refl
heard-append i b (a ∷ xs) ys =
    ap (λ l. said a b ++ l) (heard-append i (listens i a b) xs ys)
    ∙ sym (
        append_assoc (said a b) (heard i (listens i a b) xs)
          (heard i (listening i (listens i a b) xs) ys))

-- An event after which a client that listens still listens.
abbrev pub Keeps : ℕ → Io → Type 0
Keeps i io = listens i (as_action io) true ≡ true

heard-io :
    (i : ℕ) (ios : List Io) (rest : List Action)
    → All (Keeps i) ios
    → heard i true (map as_action ios ++ rest) ≡ heard i true rest
heard-io i [] rest h = refl
heard-io i (accepted b ∷ ios) rest h = heard-io i ios rest h.1
heard-io i (handled j e ∷ ios) rest h =
    ap (λ b. heard i b (map as_action ios ++ rest)) h.0 ∙ heard-io i ios rest h.1

heard-map :
    (i : ℕ) (ms : List Bytes) (rest : List Action)
    → heard i true (map broadcasts ms ++ rest) ≡ ms ++ heard i true rest
heard-map i [] rest = refl
heard-map i (m ∷ ms) rest = ap (λ l. m ∷ l) (heard-map i ms rest)

module _ (d : Double) (s : Sorting (ProcessEntry d)) (dump : Tree d → Result Bytes)
    (w : World) where
  heard-course :
      (i k n : ℕ) (c : Collector)
      → ((r : ℕ) → All (Keeps i) (w.meanwhile r))
      → heard i true (course d s dump w k n c) ≡ reports d s dump w k n c
  unfolding reports course
  heard-course i zero n c h = refl
  heard-course i (suc k) n c h =
      let r = report d s dump (w.inputs n) c in
      heard-io i (w.meanwhile n)
        (map broadcasts (broadcast_of r.1) ++ course d s dump w k (suc n) r.0) (h n)
      ∙ heard-map i (broadcast_of r.1) (course d s dump w k (suc n) r.0)
      ∙ ap (λ l. broadcast_of r.1 ++ l) (heard-course i k (suc n) r.0 h)

  -- The whole program, for a client that listens at some point of the main loop and whose connection
  -- does not fail afterwards: when the loop has ended, what the client was sent, its queue and its
  -- posted messages together are what it had heard before, and then the text of each later round in
  -- which nothing was thrown, once and in the order of the rounds.
  pub main_loop-heard :
      (p q : Program) (fuel i : ℕ) (root : Bytes) (hub : Hub) (x : Session)
      → listening i false p.trace ≡ true
      → ((r : ℕ) → All (Keeps i) (w.meanwhile r))
      → main_loop d s dump w fuel p ≡ some q
      → run q.trace (launch root) ≡ some hub
      → get_elem? hub.sessions i ≡ some x
      → x.sent ++ (x.queue ++ x.posted)
        ≡ heard i false p.trace ++ reports d s dump w (q.rounds - p.rounds) p.rounds p.collector
  main_loop-heard p q fuel i root hub x on keeps ends reached at =
      let (k, count, trace) = main_loop-trace d s dump w fuel p q ends in
      let rounds : q.rounds - p.rounds ≡ k = omega arith in
      (run-heard root q.trace hub i x reached at).0
      ∙ ap (heard i false) trace
      ∙ heard-append i false p.trace (course d s dump w k p.rounds p.collector)
      ∙ ap (λ b. heard i false p.trace ++ heard i b (course d s dump w k p.rounds p.collector)) on
      ∙ ap (λ l. heard i false p.trace ++ l) (heard-course i k p.rounds p.collector keeps)
      ∙ ap (λ n. heard i false p.trace ++ reports d s dump w n p.rounds p.collector) (sym rounds)

-- ===== src/Main/Reports.antt =====
-- What the loop broadcasts, and what a client hears of it.
use kvadra_top.Base.{
  ℕ, zero, suc, ◌+◌, ◌-◌, ◌/◌, ◌≤◌, ◌<◌, ◌≡◌, refl, ◌∙◌, ap, sym, inl, inr, none, some, List, [],
  ◌∷◌, ◌++◌, map, append_assoc, append-nil, arith, ltb, Bool-cases, Result,
}
use kvadra_top.Text.{Bytes}
use kvadra_top.Real.{Double}
use kvadra_top.Snapshot.{ProcessEntry}
use kvadra_top.Process.{Sorting}
use kvadra_top.Collector.{Collector}
use kvadra_top.Serializer.{Tree}
use kvadra_top.Server.Hub.{Action, accepts, handles, broadcasts}
use kvadra_top.Main.Loop.{
  Io, accepted, handled, as_action, World, Program, broadcast_of, report, round, main_loop,
}
use kvadra_top.Main.Stops.{main_loop_ends}

-- The messages of all broadcasts.
abbrev pub broadcasts_in : List Action → List Bytes
broadcasts_in [] = []
broadcasts_in (broadcasts m ∷ rest) = m ∷ broadcasts_in rest
broadcasts_in (accepts b ∷ rest) = broadcasts_in rest
broadcasts_in (handles i e ∷ rest) = broadcasts_in rest

broadcasts_in-append :
    (xs ys : List Action) → broadcasts_in (xs ++ ys) ≡ broadcasts_in xs ++ broadcasts_in ys
broadcasts_in-append [] ys = refl
broadcasts_in-append (broadcasts m ∷ xs) ys = ap (λ l. m ∷ l) (broadcasts_in-append xs ys)
broadcasts_in-append (accepts b ∷ xs) ys = broadcasts_in-append xs ys
broadcasts_in-append (handles i e ∷ xs) ys = broadcasts_in-append xs ys

broadcasts_in-io :
    (ios : List Io) (rest : List Action)
    → broadcasts_in (map as_action ios ++ rest) ≡ broadcasts_in rest
broadcasts_in-io [] rest = refl
broadcasts_in-io (accepted b ∷ ios) rest = broadcasts_in-io ios rest
broadcasts_in-io (handled i e ∷ ios) rest = broadcasts_in-io ios rest

broadcasts_in-map :
    (ms : List Bytes) (rest : List Action)
    → broadcasts_in (map broadcasts ms ++ rest) ≡ ms ++ broadcasts_in rest
broadcasts_in-map [] rest = refl
broadcasts_in-map (m ∷ ms) rest = ap (λ l. m ∷ l) (broadcasts_in-map ms rest)

module _ (d : Double) (s : Sorting (ProcessEntry d)) (dump : Tree d → Result Bytes)
    (w : World) where
  -- The texts of `k` rounds from round `n` on, of those in which nothing was thrown.
  unfoldable pub reports : ℕ → ℕ → Collector → List Bytes
  reports zero n c = []
  reports (suc k) n c =
      let r = report d s dump (w.inputs n) c in broadcast_of r.1 ++ reports k (suc n) r.0

  -- What the server goes through in these rounds.
  unfoldable pub course : ℕ → ℕ → Collector → List Action
  course zero n c = []
  course (suc k) n c =
      let r = report d s dump (w.inputs n) c in
      map as_action (w.meanwhile n) ++ (map broadcasts (broadcast_of r.1) ++ course k (suc n) r.0)

  pub main_loop-trace :
      (fuel : ℕ) (p q : Program)
      → main_loop d s dump w fuel p ≡ some q
      → (k : ℕ) × (q.rounds ≡ p.rounds + k) × (q.trace ≡ p.trace ++ course k p.rounds p.collector)
  unfolding main_loop round course
  main_loop-trace zero p q e = absurd (let k : none ≡ some q = e in cc)
  main_loop-trace (suc fuel) p q e = elim (Bool-cases (ltb p.reads w.signal)) [
    | inr f ↦
        let same : record p { reads = suc p.reads } ≡ q =
          (let k : some (record p { reads = suc p.reads }) ≡ some q = rw (f, main_loop) at e in
            cc) in
        (
          0,
          ap (λ (x : Program). x.rounds) (sym same) ∙ omega arith,
          ap (λ (x : Program). x.trace) (sym same) ∙ sym (append-nil p.trace),
        )
    | inl t ↦
        let next : main_loop d s dump w fuel (round d s dump w p) ≡ some q =
          rw (t, main_loop) at e in
        let (k, count, trace) = main_loop-trace fuel (round d s dump w p) q next in
        let r = report d s dump (w.inputs p.rounds) p.collector in
        let rest = course k (suc p.rounds) r.0 in
        (
          suc k,
          count ∙ omega arith,
          trace
              ∙ append_assoc p.trace
                  (map as_action (w.meanwhile p.rounds) ++ map broadcasts (broadcast_of r.1)) rest
              ∙ ap (λ l. p.trace ++ l)
                  (append_assoc (map as_action (w.meanwhile p.rounds))
                    (map broadcasts (broadcast_of r.1)) rest),
        )
  ]

  broadcasts_in-course : (k n : ℕ) (c : Collector) → broadcasts_in (course k n c) ≡ reports k n c
  unfolding reports course
  broadcasts_in-course zero n c = refl
  broadcasts_in-course (suc k) n c =
      let r = report d s dump (w.inputs n) c in
      broadcasts_in-io (w.meanwhile n) (map broadcasts (broadcast_of r.1) ++ course k (suc n) r.0)
      ∙ broadcasts_in-map (broadcast_of r.1) (course k (suc n) r.0)
      ∙ ap (λ l. broadcast_of r.1 ++ l) (broadcasts_in-course k (suc n) r.0)

  -- The course of a loop that has fuel for each read of the flag.
  pub main_loop-course :
      (p : Program) (fuel : ℕ)
      → p.reads ≤ suc w.signal
      → suc w.signal < p.reads + fuel
      → (q : Program) × (main_loop d s dump w fuel p ≡ some q)
        × (q.trace ≡ p.trace ++ course ((w.signal + 10 - p.reads) / 11) p.rounds p.collector)
  main_loop-course p fuel le h =
      let (q, ends, ended) = main_loop_ends d s dump w p fuel le h in
      let (k, count, trace) = main_loop-trace fuel p q ends in
      let same : k ≡ (w.signal + 10 - p.reads) / 11 = omega (arith, ended.rounds) in
      (q, ends, trace ∙ ap (λ n. p.trace ++ course n p.rounds p.collector) same)

  -- The loop ends, and it has broadcast the text of each round in which nothing was thrown, once and
  -- in the order of the rounds, and nothing else. There is one round for every eleven reads of the
  -- flag before the signal, the last one begun counted.
  pub main_loop-reports :
      (p : Program) (fuel : ℕ)
      → p.reads ≤ suc w.signal
      → suc w.signal < p.reads + fuel
      → (q : Program) × (main_loop d s dump w fuel p ≡ some q)
        × (broadcasts_in q.trace
            ≡ broadcasts_in p.trace
              ++ reports ((w.signal + 10 - p.reads) / 11) p.rounds p.collector)
  main_loop-reports p fuel le h =
      let (q, ends, trace) = main_loop-course p fuel le h in
      let k = (w.signal + 10 - p.reads) / 11 in
      (
        q,
        ends,
        ap broadcasts_in trace
            ∙ broadcasts_in-append p.trace (course k p.rounds p.collector)
            ∙ ap (λ l. broadcasts_in p.trace ++ l) (broadcasts_in-course k p.rounds p.collector),
      )

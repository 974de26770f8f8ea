-- ===== src/Main/Stops.antt =====
-- When the loop ends.
use kvadra_top.Base.{
  ℕ, zero, suc, ◌+◌, ◌-◌, ◌/◌, ◌≤◌, ◌<◌, ◌≡◌, refl, ◌∙◌, ◌⊎◌, inl, inr, true, some, arith, ltb,
  Bool-cases, ltb→lt, ltb→le, Result,
}
use native.Mathlib.Decide.{dec_le}
use kvadra_top.Text.{Bytes}
use kvadra_top.Real.{Double}
use kvadra_top.Snapshot.{ProcessEntry}
use kvadra_top.Process.{Sorting}
use kvadra_top.Serializer.{Tree}
use kvadra_top.Main.Loop.{World, Program, nap, round, main_loop}

-- The naps end in full before the signal, and else at the first read behind it.
nap_full : (w : World) (left k : ℕ) → k + left ≤ w.signal → nap w left k ≡ k + left
unfolding nap
nap_full w zero k h = omega arith
nap_full w (suc left) k h =
    let on : ltb k w.signal ≡ true = ground arith in
    rw (on, nap) (nap_full w left (suc k) (omega arith) ∙ omega arith)

nap_cut :
    (w : World) (left k : ℕ) → k ≤ w.signal → w.signal < k + left → nap w left k ≡ suc w.signal
unfolding nap
nap_cut w zero k le h = absurd (omega arith)
nap_cut w (suc left) k le h = elim (Bool-cases (ltb k w.signal)) [
  | inl e ↦ rw (e, nap) (nap_cut w left (suc k) (ltb→lt k w.signal e) (omega arith))
  | inr e ↦ rw (e, nap) (omega (arith, ltb→le k w.signal e))
]

module _ (d : Double) (s : Sorting (ProcessEntry d)) (dump : Tree d → Result Bytes)
    (w : World) where
  -- The loop has ended: each round began with a read of the flag and had ten more, unless the signal
  -- came, and then the flag was read at most twice more.
  pub record Ended (p q : Program) : Type 0 where
    pub rounds : q.rounds ≡ p.rounds + (w.signal + 10 - p.reads) / 11
    pub late : w.signal < q.reads
    pub soon : q.reads ≤ w.signal + 2

  -- The reads of a round.
  abbrev Advances : ℕ → ℕ → Type 0
  Advances k n = ((k + 11 ≤ w.signal) × (n ≡ k + 11)) ⊎ ((w.signal < k + 11) × (n ≡ suc w.signal))

  count_step :
      (k n r : ℕ)
      → k < w.signal
      → Advances k n
      → suc r + (w.signal + 10 - n) / 11 ≡ r + (w.signal + 10 - k) / 11
  count_step k n r h (inl a) = omega arith
  count_step k n r h (inr a) = omega arith

  round-reads : (p : Program) → p.reads < w.signal → Advances p.reads (round d s dump w p).reads
  unfolding round
  round-reads p h = elim (dec_le (p.reads + 11) w.signal) [
    | yes le ↦ inl (le, nap_full w 10 (suc p.reads) (omega arith) ∙ omega arith)
    | no gt ↦ inr (omega arith, nap_cut w 10 (suc p.reads) h (omega arith))
  ]

  round-rounds : (p : Program) → (round d s dump w p).rounds ≡ suc p.rounds
  unfolding round
  round-rounds p = refl

  stops :
      (fuel : ℕ) (p : Program)
      → p.reads ≤ suc w.signal
      → suc w.signal < p.reads + fuel
      → (q : Program) × (main_loop d s dump w fuel p ≡ some q) × Ended p q
  unfolding main_loop
  stops zero p le h = absurd (omega arith)
  stops (suc fuel) p le h = elim (Bool-cases (ltb p.reads w.signal)) [
    | inr e ↦
        let past : w.signal ≤ p.reads = ltb→le p.reads w.signal e in
        (
          record p { reads = suc p.reads },
          rw (e, main_loop) refl,
          record { rounds = omega arith; late = omega arith; soon = omega arith },
        )
    | inl e ↦
        let before : p.reads < w.signal = ltb→lt p.reads w.signal e in
        let advances = round-reads p before in
        let counted : (round d s dump w p).rounds ≡ suc p.rounds = round-rounds p in
        let (q, ends, h) = stops fuel (round d s dump w p) (omega arith) (omega arith) in
        (
          q,
          rw (e, main_loop) ends,
          record {
            rounds =
                h.rounds ∙ count_step p.reads (round d s dump w p).reads p.rounds before advances;
            late = h.late;
            soon = h.soon;
          },
        )
  ]

  -- The loop ends, however late the signal comes, with fuel for each read of the flag: there is one
  -- round for every eleven reads before the signal, the last one begun counted; no round begins
  -- behind the signal, and the flag is read at most twice more.
  pub main_loop_ends :
      (p : Program) (fuel : ℕ)
      → p.reads ≤ suc w.signal
      → suc w.signal < p.reads + fuel
      → (q : Program) × (main_loop d s dump w fuel p ≡ some q) × Ended p q
  main_loop_ends p fuel le h = stops fuel p le h

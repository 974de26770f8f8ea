-- ===== src/Process/Samples.antt =====
-- What `sample` returns and keeps, and what a second sample makes of it.
use mathlib.Core.Path.{subst}
use Prim.Native.Nat.{max}
use kvadra_top.Base.{
  ℕ, ◌-◌, ◌≡◌, refl, sym, ap, ◌∙◌, inl, inr, true, Option, none, some, List, [], ◌∷◌, map,
  if◌then◌else◌, Result, ok, Option-cases, arith, ltb, leb,
}
use kvadra_top.Text.{ℤ}
use kvadra_top.Map.{lookup}
use kvadra_top.Map.Keys.{int_keys}
use kvadra_top.Real.{Double}
use kvadra_top.Snapshot.{ProcessEntry}
use kvadra_top.Process.User.{read_total_cpu_ticks}
use kvadra_top.Process.Monitor.{
  ProcessMonitor, System, Dirent, Context, cpu_ticks_of, entry_of, scan_dir, total_delta_of,
  cpu_percent,
}
use kvadra_top.Process.Ranking.{Sorting, prune, top, context_of, finished, sample}
use kvadra_top.Process.Cache.{lookup-prune}
use kvadra_top.Process.Living.{
  Found, Distinct, living, ticks_in, insert_all, Agree, Scanned, lookup-insert_all, entry,
  has_pid-entries, scan_dir-Scanned,
}

total_delta_of-max : (a b : ℕ) → total_delta_of a b ≡ max 1 (b - a)
unfolding total_delta_of
total_delta_of-max a b = ground arith

growth : (a b : ℕ) → (if leb a b then b - a else 0) ≡ b - a
growth a b = ground arith

counted : (n : ℕ) → ltb 0 (max 1 n) ≡ true
counted n = ground arith

module _ (d : Double) (s : Sorting (ProcessEntry d)) where
  kept_ticks :
      (ctx : Context d) (sys : System) (before : List (ℤ × ℕ)) (xs : List Found) (k : ℤ)
      → Distinct xs
      → lookup int_keys k (prune d (map (entry d ctx sys before) xs) (insert_all d xs before))
        ≡ ticks_in d xs k
  kept_ticks ctx sys before xs k n =
      lookup-prune d (map (entry d ctx sys before) xs) k (insert_all d xs before)
      ∙ rw (has_pid-entries d ctx sys before xs k, lookup-insert_all d xs k before n)
          (elim (Option-cases (ticks_in d xs k)) [ inl e ↦ rw e refl | inr (t, e) ↦ rw e refl ])

  Agree-self : (before : List (ℤ × ℕ)) (xs : List Found) → Agree d before before xs
  Agree-self before [] = tt
  Agree-self before (x ∷ xs) = (refl, Agree-self before xs)

  scan_dir-living :
      (ctx : Context d) (sys : System) (dir : List Dirent) (before : List (ℤ × ℕ)) (xs : List Found)
      → living d sys dir ≡ ok xs
      → Distinct xs
      → scan_dir d ctx sys dir before []
        ≡ (insert_all d xs before, ok (map (entry d ctx sys before) xs))
  scan_dir-living ctx sys dir before xs l n =
      subst (λ r. Scanned d ctx sys r before [] before (scan_dir d ctx sys dir before [])) l
        (scan_dir-Scanned d ctx sys dir before before []) n (Agree-self before xs)

  sample-scan :
      (m : ProcessMonitor) (sys : System) (total_kb : ℕ) (dir : List Dirent)
      (out : List (ℤ × ℕ) × Result (List (ProcessEntry d)))
      → sys.dir ≡ some dir
      → scan_dir d (context_of d s m sys total_kb) sys dir m.prev [] ≡ out
      → sample d s m sys total_kb ≡ finished d s m sys out
  unfolding sample
  sample-scan m sys total_kb dir out e scan =
      subst
        (λ o.
          elim o as (λ _. ProcessMonitor × Result (List (ProcessEntry d))) [
            | none ↦ (m, ok [])
            | some l ↦
                finished d s m sys (scan_dir d (context_of d s m sys total_kb) sys l m.prev [])
          ]
          ≡ finished d s m sys out)
        (sym e) (ap (finished d s m sys) scan)

  -- What a sample keeps for the next one.
  pub record Keeps (m after : ProcessMonitor) (sys : System) (xs : List Found) : Type 0 where
    pub ticks : (k : ℤ) → lookup int_keys k after.prev ≡ ticks_in d xs k
    pub total : after.prev_total_ticks ≡ read_total_cpu_ticks sys.proc_stat
    pub hertz : after.hertz ≡ m.hertz

  -- For a listing of /proc that names no pid twice, and whose names and files make nothing throw: a
  -- sample gives the entries of the processes whose files can be read, each computed against the
  -- ticks and the total of the monitor before the sample, sorted and cut to 20. Afterwards the monitor
  -- holds the ticks of these processes, of those that are cut too, and of no other, and the new total.
  pub sample_entries :
      (m : ProcessMonitor) (sys : System) (total_kb : ℕ) (dir : List Dirent) (xs : List Found)
      → sys.dir ≡ some dir
      → living d sys dir ≡ ok xs
      → Distinct xs
      → let r = sample d s m sys total_kb in
        (r.1 ≡ ok (top d s (map (entry d (context_of d s m sys total_kb) sys m.prev) xs)))
        × Keeps m r.0 sys xs
  sample_entries m sys total_kb dir xs e l n =
      let ctx = context_of d s m sys total_kb in
      let same =
        sample-scan m sys total_kb dir
          (insert_all d xs m.prev, ok (map (entry d ctx sys m.prev) xs)) e
          (scan_dir-living ctx sys dir m.prev xs l n) in
      subst (λ r. (r.1 ≡ ok (top d s (map (entry d ctx sys m.prev) xs))) × Keeps m r.0 sys xs)
        (sym same)
        (refl, record { ticks = λ k. kept_ticks ctx sys m.prev xs k n; total = refl; hertz = refl })

  -- The share of the CPU since another sample, for the ticks of the process and the total then and
  -- now. The differences stop at 0, and the total counts as 1 where it has not grown.
  abbrev pub share : Option ℕ → ℕ → ℕ → ℕ → d.Real
  share none ticks total_then total_now = d.real 0
  share (some ticks_then) ticks total_then total_now =
      d.times (d.over (d.real (ticks - ticks_then)) (d.real (max 1 (total_now - total_then))))
        (d.real 100)

  cpu_percent-share :
      (o : Option ℕ) (ticks total_then total_now : ℕ)
      → cpu_percent d (total_delta_of total_then total_now) o ticks
        ≡ share o ticks total_then total_now
  unfolding cpu_percent
  cpu_percent-share none ticks total_then total_now = refl
  cpu_percent-share (some before) ticks total_then total_now =
      rw
        (
          total_delta_of-max total_then total_now,
          growth before ticks,
          counted (total_now - total_then),
        )
        refl

  module _ (m : ProcessMonitor) (before now : System) (total_kb : ℕ) (xs : List Found) where
    -- An entry of the second of two samples: as without a history, but for the CPU usage, which is
    -- the share since the first.
    abbrev pub described : Found → ProcessEntry d
    described (pid, ps) = record (entry d (context_of d s m now total_kb) now [] (pid, ps)) {
      cpu_percent =
          share (ticks_in d xs pid) (cpu_ticks_of d ps) (read_total_cpu_ticks before.proc_stat)
            (read_total_cpu_ticks now.proc_stat);
    }

    abbrev monitor : List (ℤ × ℕ) → ℕ → ℕ → ProcessMonitor
    monitor prev hertz total = record { prev = prev; hertz = hertz; prev_total_ticks = total }

    entry-described_parts :
        (prev : List (ℤ × ℕ)) (hertz total : ℕ) (y : Found)
        → hertz ≡ m.hertz
        → total ≡ read_total_cpu_ticks before.proc_stat
        → lookup int_keys y.0 prev ≡ ticks_in d xs y.0
        → entry d (context_of d s (monitor prev hertz total) now total_kb) now prev y ≡ described y
    unfolding entry_of context_of
    entry-described_parts prev hertz total (pid, ps) h t l =
        rw
          (
            h,
            t,
            l,
            cpu_percent-share (ticks_in d xs pid) (cpu_ticks_of d ps)
                (read_total_cpu_ticks before.proc_stat) (read_total_cpu_ticks now.proc_stat),
          )
          refl

    entries-described :
        (after : ProcessMonitor) (ys : List Found)
        → Keeps m after before xs
        → map (entry d (context_of d s after now total_kb) now after.prev) ys ≡ map described ys
    entries-described after [] h = refl
    entries-described after (y ∷ ys) h =
        ap (λ e. e ∷ map (entry d (context_of d s after now total_kb) now after.prev) ys)
          (entry-described_parts after.prev after.hertz after.prev_total_ticks y h.hertz h.total
            (h.ticks y.0))
        ∙ ap (λ es. described y ∷ es) (entries-described after ys h)

  -- Of two samples, for listings as above: the second gives the entries of its processes, sorted and
  -- cut to 20, with the CPU usage that each has made since the first, as a share of the growth of the
  -- total; a process that the first did not find has 0. What the monitor held before the first does
  -- not matter.
  pub second_sample :
      (m : ProcessMonitor) (before now : System) (kb_before kb_now : ℕ)
      (dir_before dir_now : List Dirent) (xs ys : List Found)
      → before.dir ≡ some dir_before
      → living d before dir_before ≡ ok xs
      → Distinct xs
      → now.dir ≡ some dir_now
      → living d now dir_now ≡ ok ys
      → Distinct ys
      → (sample d s (sample d s m before kb_before).0 now kb_now).1
        ≡ ok (top d s (map (described m before now kb_now xs) ys))
  second_sample m before now kb_before kb_now dir_before dir_now xs ys e l n e' l' n' =
      let after = (sample d s m before kb_before).0 in
      (sample_entries after now kb_now dir_now ys e' l' n').0
      ∙ ap (λ es. ok (top d s es))
          (entries-described m before now kb_now xs after ys
            (sample_entries m before kb_before dir_before xs e l n).1)

-- ===== src/Process/Cache.antt =====
-- The cache of ticks: after a sample it holds exactly the processes of that sample.
use kvadra_top.Base.{
  ℕ, ◌≡◌, sym, ap, ◌∙◌, Bool, true, false, ◌||◌, Option, none, some, List, [], ◌∷◌, ◌++◌,
  if◌then◌else◌, Result, ok, throw, Bool-cases, inl, inr, arith,
}
use mathlib.Core.Path.{subst}
use kvadra_top.Text.{ℤ}
use kvadra_top.Map.{same, lookup, insert}
use kvadra_top.Map.Keys.{int_keys}
use kvadra_top.Map.Laws.{same-eq, lookup-insert}
use kvadra_top.Real.{Double}
use kvadra_top.Snapshot.{ProcessEntry}
use kvadra_top.Process.Stat.{ProcStat}
use kvadra_top.Process.Monitor.{
  ProcessMonitor, System, Dirent, Context, Visit, skipped, failed, found, visit, cpu_ticks_of,
  entry_of, scan_dir,
}
use kvadra_top.Process.Ranking.{Sorting, has_pid, prune, context_of, sample}

abbrev pub is_some {ℓ} : {A : Type ℓ} → Option A → Bool
is_some none = false
is_some (some a) = true

or_left : (a b : Bool) → (a || b) ≡ true → b ≡ false → a ≡ true
or_left a b p q = ground arith

module _ (d : Double) where
  pub lookup-prune :
      (entries : List (ProcessEntry d)) (pid : ℤ) (prev : List (ℤ × ℕ))
      → lookup int_keys pid (prune d entries prev)
        ≡ (if has_pid d pid entries then lookup int_keys pid prev else none)
  unfolding prune lookup
  lookup-prune entries pid [] = elim (Bool-cases (has_pid d pid entries)) [
    | inl t ↦ rw t
    | inr t ↦ rw t
  ]
  lookup-prune entries pid ((j, v) ∷ prev) = elim (Bool-cases (same int_keys j pid)) [
    | inl s ↦
        rw (ap (λ k. has_pid d k entries) (same-eq int_keys j pid s))
          (elim (Bool-cases (has_pid d pid entries)) [
            | inl t ↦ rw t (rw s)
            | inr t ↦ rw t (lookup-prune entries pid prev ∙ rw t)
          ])
    | inr s ↦ elim (Bool-cases (has_pid d j entries)) [
      | inl t ↦ rw t (rw s (lookup-prune entries pid prev))
      | inr t ↦ rw t (rw s (lookup-prune entries pid prev))
    ]
  ]

  has_pid-append :
      (pid : ℤ) (entries : List (ProcessEntry d)) (e : ProcessEntry d)
      → has_pid d pid (entries ++ e ∷ []) ≡ has_pid d pid entries || same int_keys e.pid pid
  unfolding has_pid
  has_pid-append pid [] e = ground arith
  has_pid-append pid (x ∷ entries) e = ground (arith, has_pid-append pid entries e)

  -- Each entry found so far has its ticks in the map.
  abbrev Covers : List (ProcessEntry d) → List (ℤ × ℕ) → Type 0
  Covers entries prev =
      (pid : ℤ) → has_pid d pid entries ≡ true → is_some (lookup int_keys pid prev) ≡ true

  Covers-found :
      (ctx : Context d) (sys : System) (prev : List (ℤ × ℕ)) (entries : List (ProcessEntry d))
      (pid : ℤ) (ps : ProcStat)
      → Covers entries prev
      → Covers
          (entries ++ entry_of d ctx sys prev pid ps ∷ [])
          (insert int_keys pid (cpu_ticks_of d ps) prev)
  unfolding entry_of
  Covers-found ctx sys prev entries pid ps h k e =
      rw (lookup-insert int_keys pid k (cpu_ticks_of d ps) prev)
        (elim (Bool-cases (same int_keys pid k)) [
          | inl s ↦ rw s
          | inr s ↦
              let old =
                or_left _ _ (sym (has_pid-append k entries (entry_of d ctx sys prev pid ps)) ∙ e)
                  s in
              rw s (h k old)
        ])

  abbrev CoversIf : List (ℤ × ℕ) × Result (List (ProcessEntry d)) → Type 0
  CoversIf (prev, ok entries) = Covers entries prev
  CoversIf (prev, r) = Unit

  scan_dir-Covers :
      (ctx : Context d) (sys : System) (dir : List Dirent) (prev : List (ℤ × ℕ))
      (entries : List (ProcessEntry d))
      → Covers entries prev
      → CoversIf (scan_dir d ctx sys dir prev entries)
  unfolding scan_dir
  scan_dir-Covers ctx sys [] prev entries h = h
  scan_dir-Covers ctx sys (e ∷ rest) prev entries h =
      step (visit d sys e) (scan_dir-Covers ctx sys rest)
    where
      step :
          (v : Visit d)
          → ((p : List (ℤ × ℕ)) (es : List (ProcessEntry d))
              → Covers es p
              → CoversIf (scan_dir d ctx sys rest p es))
          → CoversIf (elim v [
            | skipped ↦ scan_dir d ctx sys rest prev entries
            | failed x ↦ (prev, throw x)
            | found pid ps ↦
                scan_dir d ctx sys rest
                  (insert int_keys pid (cpu_ticks_of d ps) prev)
                  (entries ++ entry_of d ctx sys prev pid ps ∷ [])
          ])
      step skipped ih = ih prev entries h
      step (failed x) ih = tt
      step (found pid ps) ih = ih _ _ (Covers-found ctx sys prev entries pid ps h)

  -- After a sample that went through the directory, the cache has ticks for a pid exactly when a
  -- process with that pid was found, before the list is cut to 20. So the map does not grow.
  pub cache_lem :
      (sorting : Sorting (ProcessEntry d)) (m : ProcessMonitor) (sys : System) (total_memory_kb : ℕ)
      (dir : List Dirent) (prev : List (ℤ × ℕ)) (entries : List (ProcessEntry d))
      → sys.dir ≡ some dir
      → scan_dir d (context_of d sorting m sys total_memory_kb) sys dir m.prev []
        ≡ (prev, ok entries)
      → (pid : ℤ)
      → is_some (lookup int_keys pid (sample d sorting m sys total_memory_kb).0.prev)
        ≡ has_pid d pid entries
  unfolding sample
  cache_lem sorting m sys total_memory_kb dir prev entries e scan pid =
      rw (e, sample)
        (rw scan (
          rw (lookup-prune entries pid prev) (elim (Bool-cases (has_pid d pid entries)) [
            | inl t ↦ rw t (covers pid t)
            | inr t ↦ rw t
          ])))
    where
      covers : Covers entries prev
      covers = subst CoversIf scan (
          scan_dir-Covers (context_of d sorting m sys total_memory_kb) sys dir m.prev []
            (λ k e. unfold has_pid in cc))

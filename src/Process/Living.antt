-- ===== src/Process/Living.antt =====
-- The processes that a listing of /proc leads to, told without the state of the monitor, and the loop
-- of `sample` over them.
use mathlib.Core.Path.{subst}
use kvadra_top.Base.{
  ℕ, ◌≡◌, refl, sym, ap, ◌∙◌, inl, inr, false, Option, none, some, List, [], ◌∷◌, ◌++◌, map,
  append_assoc, append-nil, All, if◌then◌else◌, Result, ok, throw, ◌>>=◌, Bool-cases,
}
use kvadra_top.Text.{ℤ}
use kvadra_top.Map.{same, lookup, insert}
use kvadra_top.Map.Keys.{int_keys}
use kvadra_top.Map.Laws.{same-eq, same_self, lookup-insert}
use kvadra_top.Real.{Double}
use kvadra_top.Snapshot.{ProcessEntry}
use kvadra_top.Process.Stat.{ProcStat}
use kvadra_top.Process.Monitor.{
  System, Dirent, Context, Visit, skipped, failed, found, visit, cpu_ticks_of, entry_of, scan_dir,
}
use kvadra_top.Process.Ranking.{has_pid}
use kvadra_top.Process.Cache.{is_some}

abbrev pub Found : Type 0
Found = ℤ × ProcStat

-- No pid is listed twice.
abbrev pub Distinct : List Found → Type 0
Distinct [] = Unit
Distinct (x ∷ xs) = All (λ (y : Found). same int_keys x.0 y.0 ≡ false) xs × Distinct xs

module _ (d : Double) where
  abbrev pub and_found : Visit d → Result (List Found) → Result (List Found)
  and_found skipped rest = rest
  and_found (failed x) rest = throw x
  and_found (found pid ps) rest = rest >>= λ xs. ok ((pid, ps) ∷ xs)

  -- The processes whose files can be read, in the order of the listing, or what a name or a file
  -- makes the loop throw.
  unfoldable pub living : System → List Dirent → Result (List Found)
  unfolding visit
  living sys [] = ok []
  living sys (e ∷ rest) = and_found (visit d sys e) (living sys rest)

  -- The ticks of the process with a pid.
  abbrev pub ticks_in : List Found → ℤ → Option ℕ
  ticks_in [] k = none
  ticks_in ((pid, ps) ∷ rest) k =
      if same int_keys pid k then some (cpu_ticks_of d ps) else ticks_in rest k

  -- The map after the loop.
  abbrev pub insert_all : List Found → List (ℤ × ℕ) → List (ℤ × ℕ)
  insert_all [] prev = prev
  insert_all ((pid, ps) ∷ rest) prev =
      insert_all rest (insert int_keys pid (cpu_ticks_of d ps) prev)

  abbrev pub or_else : Option ℕ → Option ℕ → Option ℕ
  or_else none o = o
  or_else (some t) o = some t

  ticks_in-none :
      (pid : ℤ) (rest : List Found)
      → All (λ (y : Found). same int_keys pid y.0 ≡ false) rest
      → ticks_in rest pid ≡ none
  ticks_in-none pid [] h = refl
  ticks_in-none pid ((k, ps) ∷ rest) h = elim (Bool-cases (same int_keys k pid)) [
    | inl s ↦ absurd (
        let e : k ≡ pid = same-eq int_keys k pid s in
        let n : same int_keys pid pid ≡ false = subst (λ z. same int_keys pid z ≡ false) e h.0 in
        cc (same_self int_keys pid))
    | inr s ↦ rw s (ticks_in-none pid rest h.1)
  ]

  pub lookup-insert_all :
      (xs : List Found) (k : ℤ) (prev : List (ℤ × ℕ))
      → Distinct xs
      → lookup int_keys k (insert_all xs prev) ≡ or_else (ticks_in xs k) (lookup int_keys k prev)
  lookup-insert_all [] k prev h = refl
  lookup-insert_all ((pid, ps) ∷ xs) k prev h =
      lookup-insert_all xs k (insert int_keys pid (cpu_ticks_of d ps) prev) h.1
      ∙ rw (lookup-insert int_keys pid k (cpu_ticks_of d ps) prev)
          (elim (Bool-cases (same int_keys pid k)) [
            | inl s ↦
                let gone : ticks_in xs k ≡ none =
                  subst (λ z. ticks_in xs z ≡ none) (same-eq int_keys pid k s)
                    (ticks_in-none pid xs h.0) in
                rw (s, gone) refl
            | inr s ↦ rw s refl
          ])

  -- An entry depends on the map at its own pid only.
  abbrev pub Agree : List (ℤ × ℕ) → List (ℤ × ℕ) → List Found → Type 0
  Agree prev before = All (λ (y : Found). lookup int_keys y.0 prev ≡ lookup int_keys y.0 before)

  Agree-insert :
      (pid : ℤ) (t : ℕ) (prev before : List (ℤ × ℕ)) (xs : List Found)
      → All (λ (y : Found). same int_keys pid y.0 ≡ false) xs
      → Agree prev before xs
      → Agree (insert int_keys pid t prev) before xs
  Agree-insert pid t prev before [] n h = tt
  Agree-insert pid t prev before (x ∷ xs) n h = (
    lookup-insert int_keys pid x.0 t prev ∙ rw n.0 h.0,
    Agree-insert pid t prev before xs n.1 h.1,
  )

  module _ (ctx : Context d) (sys : System) where
    abbrev pub entry : List (ℤ × ℕ) → Found → ProcessEntry d
    entry prev (pid, ps) = entry_of d ctx sys prev pid ps

    entry-lookup :
        (prev before : List (ℤ × ℕ)) (x : Found)
        → lookup int_keys x.0 prev ≡ lookup int_keys x.0 before
        → entry prev x ≡ entry before x
    unfolding entry_of
    entry-lookup prev before (pid, ps) e = rw e refl

    pub has_pid-entries :
        (before : List (ℤ × ℕ)) (xs : List Found) (k : ℤ)
        → has_pid d k (map (entry before) xs) ≡ is_some (ticks_in xs k)
    unfolding has_pid entry_of
    has_pid-entries before [] k = refl
    has_pid-entries before ((pid, ps) ∷ xs) k = elim (Bool-cases (same int_keys pid k)) [
      | inl s ↦ rw s refl
      | inr s ↦ rw s (has_pid-entries before xs k)
    ]

    -- What the loop gives for a listing whose processes are known.
    abbrev pub Scanned :
        Result (List Found)
        → List (ℤ × ℕ)
        → List (ProcessEntry d)
        → List (ℤ × ℕ)
        → List (ℤ × ℕ) × Result (List (ProcessEntry d))
        → Type 0
    Scanned (throw x) before entries prev out = out.1 ≡ throw x
    Scanned (ok xs) before entries prev out =
        Distinct xs
        → Agree prev before xs
        → out ≡ (insert_all xs prev, ok (entries ++ map (entry before) xs))

    Scanned-found :
        (pid : ℤ) (ps : ProcStat) (r : Result (List Found)) (before prev : List (ℤ × ℕ))
        (entries : List (ProcessEntry d)) (out : List (ℤ × ℕ) × Result (List (ProcessEntry d)))
        → Scanned r before
            (entries ++ entry prev (pid, ps) ∷ [])
            (insert int_keys pid (cpu_ticks_of d ps) prev)
            out
        → Scanned (and_found (found pid ps) r) before entries prev out
    Scanned-found pid ps (throw x) before prev entries out h = h
    Scanned-found pid ps (ok xs) before prev entries out h = λ n a.
        h n.1 (Agree-insert pid (cpu_ticks_of d ps) prev before xs n.0 a.1)
        ∙ ap (λ e. (insert_all xs (insert int_keys pid (cpu_ticks_of d ps) prev), ok e))
            (append_assoc entries (entry prev (pid, ps) ∷ []) (map (entry before) xs)
              ∙ ap (λ e. entries ++ e ∷ map (entry before) xs)
                  (entry-lookup prev before (pid, ps) a.0))

    pub scan_dir-Scanned :
        (dir : List Dirent) (before prev : List (ℤ × ℕ)) (entries : List (ProcessEntry d))
        → Scanned (living sys dir) before entries prev (scan_dir d ctx sys dir prev entries)
    unfolding scan_dir living
    scan_dir-Scanned [] before prev entries =
        λ n a. ap (λ e. (prev, ok e)) (sym (append-nil entries))
    scan_dir-Scanned (e ∷ rest) before prev entries =
        step (visit d sys e) (λ p es. scan_dir-Scanned rest before p es)
      where
        step :
            (v : Visit d)
            → ((p : List (ℤ × ℕ)) (es : List (ProcessEntry d))
                → Scanned (living sys rest) before es p (scan_dir d ctx sys rest p es))
            → Scanned (and_found v (living sys rest)) before entries prev (elim v [
              | skipped ↦ scan_dir d ctx sys rest prev entries
              | failed x ↦ (prev, throw x)
              | found pid ps ↦
                  scan_dir d ctx sys rest
                    (insert int_keys pid (cpu_ticks_of d ps) prev)
                    (entries ++ entry_of d ctx sys prev pid ps ∷ [])
            ])
        step skipped ih = ih prev entries
        step (failed x) ih = refl
        step (found pid ps) ih =
            Scanned-found pid ps (living sys rest) before prev entries _ (ih _ _)

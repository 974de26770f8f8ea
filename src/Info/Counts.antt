-- ===== src/Info/Counts.antt =====
-- What `collect` gives whatever the machine has.
use mathlib.Core.Path.{subst}
use kvadra_top.Base.{
  List, true, sym, ap, refl, ◌+◌, ◌∙◌, if◌then◌else◌, ltb, lt→ltb, ◌%◌, ℕ, zero, suc, ◌≤◌, ◌<◌, ◌^◌,
  ◌≡◌, ◌≢◌, inl, inr, none, some, [], ◌∷◌, arith, Bool-cases,
}
use kvadra_top.Text.{Bytes, File, ℤ, pos, negsuc, to_int, lines, codes, starts_with}
use kvadra_top.Real.{Double}
use kvadra_top.Info.Release.{pretty_name, or_linux, os_name}
use kvadra_top.Info.Gather.{
  Machine, increment, count_processors, is_zero, counted, online_count, cpu_count, collect,
}

or_linux-ne-nil : (name : Bytes) → or_linux name ≢ []
or_linux-ne-nil [] e = ground arith
or_linux-ne-nil (c ∷ name) e = ground arith

os_name-ne-nil : (file : File) → os_name file ≢ []
unfolding os_name
os_name-ne-nil none = or_linux-ne-nil []
os_name-ne-nil (some text) = or_linux-ne-nil (pretty_name (lines text))

-- An `int` from `lo` on.
abbrev pub AtLeast : ℕ → ℤ → Type 0
AtLeast lo (pos n) = lo ≤ n
AtLeast lo (negsuc n) = ⊥

-- What a `long` below 2^31 holds.
abbrev pub AtMostInt : ℤ → Type 0
AtMostInt (pos n) = n < 2 ^ 31
AtMostInt (negsuc n) = Unit

-- How many of the lines begin with "processor".
abbrev pub processors : List Bytes → ℕ
processors [] = 0
processors (line ∷ rest) =
    let more = processors rest in if starts_with (codes "processor") line then suc more else more

abbrev pub processors_in : File → ℕ
processors_in none = 0
processors_in (some text) = processors (lines text)

-- Below 2^31 the `int` counts them.
count_processors-processors :
    (n : ℕ) (ls : List Bytes)
    → n + processors ls < 2 ^ 31
    → count_processors (pos n) ls ≡ pos (n + processors ls)
unfolding count_processors increment
count_processors-processors n [] h = ap pos (omega arith)
count_processors-processors n (line ∷ rest) h =
    elim (Bool-cases (starts_with (codes "processor") line)) [
      | inr e ↦ rw e (count_processors-processors n rest (rw e at h))
      | inl e ↦
          let bound : n + suc (processors rest) < 2 ^ 31 = rw e at h in
          let small : ltb (n + 1) (2 ^ 31) ≡ true = lt→ltb (n + 1) (2 ^ 31) (omega arith) in
          rw (e, small)
            (count_processors-processors (n + 1) rest (omega arith) ∙ ap pos (omega arith))
    ]

counted-processors_in :
    (file : File) → processors_in file < 2 ^ 31 → counted file ≡ pos (processors_in file)
unfolding counted
counted-processors_in none h = refl
counted-processors_in (some text) h =
    count_processors-processors 0 (lines text) (omega arith) ∙ ap pos (omega arith)

-- The processors of a file, or those that are online where it has none, or one where there is an error.
abbrev pub count_of : ℕ → ℤ → ℕ
count_of (suc n) online = suc n
count_of zero (pos (suc n)) = suc n
count_of zero (pos zero) = 1
count_of zero (negsuc n) = 1

online_count-count_of :
    (online : ℤ) → AtMostInt online → online_count online ≡ pos (count_of 0 online)
unfolding online_count to_int
online_count-count_of (pos zero) h = refl
online_count-count_of (pos (suc k)) h =
    let same : (suc k % 2 ^ 64) % 2 ^ 32 ≡ suc k = omega arith in
    let small = lt→ltb (suc k) (2 ^ 31) h in rw (same, small) refl
online_count-count_of (negsuc k) h = refl

fallback :
    (n : ℕ) (online : ℤ)
    → AtMostInt online
    → (if is_zero (pos n) then online_count online else pos n) ≡ pos (count_of n online)
fallback zero online h = online_count-count_of online h
fallback (suc n) online h = refl

count_of_pos : (n : ℕ) (online : ℤ) → 1 ≤ count_of n online
count_of_pos (suc n) online = omega arith
count_of_pos zero (pos zero) = omega arith
count_of_pos zero (pos (suc n)) = omega arith
count_of_pos zero (negsuc n) = omega arith

cpu_count-count_of :
    (file : File) (online : ℤ)
    → processors_in file < 2 ^ 31
    → AtMostInt online
    → cpu_count file online ≡ pos (count_of (processors_in file) online)
unfolding cpu_count
cpu_count-count_of file online few h =
    ap (λ c. if is_zero c then online_count online else c) (counted-processors_in file few)
    ∙ fallback (processors_in file) online h

-- Where fewer than 2^31 lines of /proc/cpuinfo begin with "processor", and the system reports fewer
-- than 2^31 processors or an error: the name of the system is not empty; and the number of CPUs is that
-- of these lines, or of the processors that the system reports where there are no such lines, or 1
-- where it reports none or an error; so it is at least 1. This holds whatever the files hold else and
-- whether they can be opened.
pub collect_defaults :
    (d : Double) (m : Machine)
    → processors_in m.cpuinfo < 2 ^ 31
    → AtMostInt m.online
    → ((collect d m).os_name ≢ [])
      × ((collect d m).cpu_count ≡ pos (count_of (processors_in m.cpuinfo) m.online))
      × AtLeast 1 (collect d m).cpu_count
unfolding collect
collect_defaults d m few h =
    let exact = cpu_count-count_of m.cpuinfo m.online few h in
    (
      os_name-ne-nil m.os_release,
      exact,
      subst (AtLeast 1) (sym exact) (count_of_pos (processors_in m.cpuinfo) m.online),
    )

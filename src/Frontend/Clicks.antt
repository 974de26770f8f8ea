-- ===== src/Frontend/Clicks.antt =====
-- Which column and direction the clicks on the headings choose.
use mathlib.Core.Path.{subst}
use kvadra_top.Base.{
  ℕ, zero, suc, ◌≡◌, refl, sym, ap, ◌∙◌, inl, inr, Bool, true, false, Bool-cases, List, [], ◌∷◌,
  if◌then◌else◌, ◌==◌, arith,
}
use kvadra_top.Text.{Bytes}
use kvadra_top.Real.{Double}
use kvadra_top.Frontend.Table.{
  SortKey, by_pid, by_name, by_user, by_cpu_percent, by_mem_percent, by_mem_rss_kb, by_threads,
  Sign, same_key, place_of, ArraySort, Entry, ProcessTable, update, update_sort_indicators, click,
  constructed, TableInput, clicks, updates, table,
}

abbrev key_at : ℕ → SortKey
key_at n =
    if n == 0
    then by_pid
    else if n == 1
    then by_name
    else if n == 2
    then by_user
    else if n == 3
    then by_cpu_percent
    else if n == 4
    then by_mem_percent
    else if n == 5
    then by_mem_rss_kb
    else by_threads

key_at-place_of : (k : SortKey) → key_at (place_of k) ≡ k
key_at-place_of by_pid = refl
key_at-place_of by_name = refl
key_at-place_of by_user = refl
key_at-place_of by_cpu_percent = refl
key_at-place_of by_mem_percent = refl
key_at-place_of by_mem_rss_kb = refl
key_at-place_of by_threads = refl

pub same_key_eq : (a b : SortKey) → same_key a b ≡ true → a ≡ b
same_key_eq a b e =
    let places : place_of a ≡ place_of b = ground arith in
    sym (key_at-place_of a) ∙ ap key_at places ∙ key_at-place_of b

-- The clicked headings, the last one first.
abbrev pub clicked : {d : Double} → List (TableInput d) → List SortKey → List SortKey
clicked [] before = before
clicked (clicks key ∷ rest) before = clicked rest (key ∷ before)
clicked (updates processes ∷ rest) before = clicked rest before

-- The heading clicked last; at the start, that of the CPU usage.
abbrev pub last_key : List SortKey → SortKey
last_key [] = by_cpu_percent
last_key (key ∷ before) = key

-- How often a heading was clicked in succession, at last. The start counts as a click.
abbrev pub streak : SortKey → List SortKey → ℕ
streak key [] = if same_key by_cpu_percent key then 1 else 0
streak key (k ∷ before) = let more = streak key before in if same_key k key then suc more else 0

abbrev pub is_even : ℕ → Bool
is_even zero = true
is_even (suc n) = if is_even n then false else true

module _ (d : Double) (locale_compare : Bytes → Bytes → Sign) (s : ArraySort (Entry d)) where
  -- The column is that of the heading clicked last, and the direction is ascending where this heading
  -- was clicked in succession an even number of times.
  abbrev pub IsChosen : List SortKey → ProcessTable d → Type 0
  IsChosen before t =
      (t.sort_key ≡ last_key before) × (t.sort_asc ≡ is_even (streak (last_key before) before))

  streak_other :
      (key : SortKey) (before : List SortKey)
      → same_key (last_key before) key ≡ false
      → streak key before ≡ 0
  streak_other key [] e = rw e refl
  streak_other key (k ∷ before) e = rw e refl

  streak_again :
      (key : SortKey) (before : List SortKey) → streak key (key ∷ before) ≡ suc (streak key before)
  streak_again key before = let e : same_key key key ≡ true = ground arith in rw e refl

  click-IsChosen :
      (key : SortKey) (before : List SortKey) (t : ProcessTable d)
      → IsChosen before t
      → IsChosen (key ∷ before) (click d key t)
  unfolding click update_sort_indicators
  click-IsChosen key before t (k, a) =
      subst
        (λ n.
          let after =
            if same_key t.sort_key key
            then record t { sort_asc = if t.sort_asc then false else true }
            else record t { sort_key = key; sort_asc = false } in
          (after.sort_key ≡ key) × (after.sort_asc ≡ is_even n))
        (sym (streak_again key before))
        (elim (Bool-cases (same_key t.sort_key key)) [
          | inl e ↦
              let here = same_key_eq t.sort_key key e in
              rw e (
                here,
                ap (λ b. if b then false else true)
                    (a ∙ ap (λ x. is_even (streak x before)) (sym k ∙ here)),
              )
          | inr e ↦
              let other : same_key (last_key before) key ≡ false =
                subst (λ x. same_key x key ≡ false) k e in
              rw (e, streak_other key before other) (refl, refl)
        ])

  table-IsChosen :
      (inputs : List (TableInput d)) (before : List SortKey) (t : ProcessTable d)
      → IsChosen before t
      → IsChosen (clicked inputs before) (table d locale_compare s inputs t)
  unfolding table update
  table-IsChosen [] before t h = h
  table-IsChosen (clicks key ∷ rest) before t h =
      table-IsChosen rest (key ∷ before) (click d key t) (click-IsChosen key before t h)
  table-IsChosen (updates processes ∷ rest) before t h =
      table-IsChosen rest before (update d locale_compare s processes t) h

  -- After any clicks and updates the table keeps, for its next update, the column of the heading that
  -- was clicked last, at first that of the CPU usage; and the ascending direction where this heading was
  -- clicked an even number of times in succession, with the start counted as a click of the CPU usage.
  pub table-constructed :
      (inputs : List (TableInput d))
      → let t = table d locale_compare s inputs (constructed d) in
        let clicks_back = clicked inputs [] in
        (t.sort_key ≡ last_key clicks_back)
        × (t.sort_asc ≡ is_even (streak (last_key clicks_back) clicks_back))
  unfolding constructed
  table-constructed inputs = table-IsChosen inputs [] (constructed d) (refl, refl)

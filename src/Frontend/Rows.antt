-- ===== src/Frontend/Rows.antt =====
-- What the process table shows.
use mathlib.Core.Path.{subst}
use kvadra_top.Base.{
  All, All-map, ◌≡◌, refl, sym, ap, ◌∙◌, inl, inr, Bool, true, false, Bool-cases, List, [], ◌∷◌,
  map, if◌then◌else◌, arith,
}
use kvadra_top.Text.{Bytes}
use kvadra_top.Real.{Double, Laws}
use kvadra_top.Frontend.Table.{
  SortKey, by_pid, by_name, by_user, by_cpu_percent, by_mem_percent, by_mem_rss_kb, by_threads,
  Sign, below, same, above, negated, is_above, is_same, sign_by, same_key, IsOrder, Ordered, ties,
  ArraySort, heading_of, columns, Entry, ProcessTable, compare, compare_values, member_of, update,
  update_sort_indicators, click, constructed, TableInput, clicks, updates, table,
}
use kvadra_top.Frontend.Clicks.{same_key_eq, clicked, last_key, streak, is_even, table-constructed}
use kvadra_top.Frontend.Shown.{
  IsShown, AtMost, MayPrecede, Ranked, neither_less, level, level_with, Shows, AreHeadings,
}
use kvadra_top.Frontend.Orders.{above-less, weak, compare-IsOrder}

same-negated : (x : Sign) → is_same (negated x) ≡ is_same x
same-negated below = refl
same-negated same = refl
same-negated above = refl

Shows-heading_of : (key : SortKey) (asc : Bool) (k : SortKey) → Shows key asc (heading_of k key asc)
Shows-heading_of key asc k = elim (Bool-cases (same_key k key)) [
  | inl e ↦ inl (same_key_eq k key e, rw e refl)
  | inr e ↦
      inr (λ eq. absurd (let f : same_key k key ≡ true = rw eq (ground arith) in cc), rw e refl)
]

All-Shows :
    (key : SortKey) (asc : Bool) (ks : List SortKey)
    → All (Shows key asc) (map (λ k. heading_of k key asc) ks)
All-Shows key asc [] = tt
All-Shows key asc (k ∷ ks) = (Shows-heading_of key asc k, All-Shows key asc ks)

AreHeadings-columns :
    (key : SortKey) (asc : Bool) → AreHeadings key asc (map (λ k. heading_of k key asc) columns)
AreHeadings-columns key asc = (refl, All-Shows key asc columns)

module _ (d : Double) (laws : Laws d) (locale_compare : Bytes → Bytes → Sign)
    (by_locale : IsOrder locale_compare) where
  -- What the signs of the comparison say.
  AtMost-compare :
      (key : SortKey) (a b : Entry d)
      → is_above (compare d locale_compare key true a b) ≡ false
      → AtMost d locale_compare key a b
  unfolding compare member_of compare_values
  AtMost-compare by_pid a b p =
      sym (above-less d.less (weak d laws locale_compare by_locale) a.pid b.pid) ∙ p
  AtMost-compare by_name a b p = p
  AtMost-compare by_user a b p = p
  AtMost-compare by_cpu_percent a b p =
      sym (above-less d.less (weak d laws locale_compare by_locale) a.cpu_percent b.cpu_percent) ∙ p
  AtMost-compare by_mem_percent a b p =
      sym (above-less d.less (weak d laws locale_compare by_locale) a.mem_percent b.mem_percent) ∙ p
  AtMost-compare by_mem_rss_kb a b p =
      sym (above-less d.less (weak d laws locale_compare by_locale) a.mem_rss_kb b.mem_rss_kb) ∙ p
  AtMost-compare by_threads a b p =
      sym (above-less d.less (weak d laws locale_compare by_locale) a.threads b.threads) ∙ p

  MayPrecede-compare :
      (key : SortKey) (asc : Bool) (a b : Entry d)
      → is_above (compare d locale_compare key asc a b) ≡ false
      → MayPrecede d locale_compare key asc a b
  unfolding compare
  MayPrecede-compare key true a b p = AtMost-compare key a b p
  MayPrecede-compare key false a b p =
      AtMost-compare key b a
        (ap is_above ((compare-IsOrder d laws locale_compare by_locale key true).flip a b) ∙ p)

  level-same : (x y : d.Real) → is_same (sign_by d.less x y) ≡ neither_less d locale_compare x y
  level-same x y = elim (Bool-cases (d.less x y)) [
    | inl e ↦ rw e refl
    | inr e ↦ elim (Bool-cases (d.less y x)) [ inl f ↦ rw (e, f) refl | inr f ↦ rw (e, f) refl ]
  ]

  level-compare_up :
      (key : SortKey) (a b : Entry d)
      → is_same (compare d locale_compare key true a b) ≡ level d locale_compare key a b
  unfolding compare member_of compare_values
  level-compare_up by_pid a b = level-same a.pid b.pid
  level-compare_up by_name a b = refl
  level-compare_up by_user a b = refl
  level-compare_up by_cpu_percent a b = level-same a.cpu_percent b.cpu_percent
  level-compare_up by_mem_percent a b = level-same a.mem_percent b.mem_percent
  level-compare_up by_mem_rss_kb a b = level-same a.mem_rss_kb b.mem_rss_kb
  level-compare_up by_threads a b = level-same a.threads b.threads

  level-compare :
      (key : SortKey) (asc : Bool) (a b : Entry d)
      → is_same (compare d locale_compare key asc a b) ≡ level d locale_compare key a b
  unfolding compare
  level-compare key true a b = level-compare_up key a b
  level-compare key false a b =
      same-negated (compare d locale_compare key true a b) ∙ level-compare_up key a b

  Ranked-Ordered :
      (key : SortKey) (asc : Bool) (xs : List (Entry d))
      → Ordered (compare d locale_compare key asc) xs
      → Ranked d locale_compare key asc xs
  Ranked-Ordered key asc [] h = tt
  Ranked-Ordered key asc (x ∷ xs) h = (
    All-map (λ y. is_above (compare d locale_compare key asc x y) ≡ false)
        (MayPrecede d locale_compare key asc x) xs (MayPrecede-compare key asc x) h.0,
    Ranked-Ordered key asc xs h.1,
  )

  ties-level_with :
      (key : SortKey) (asc : Bool) (a : Entry d) (xs : List (Entry d))
      → ties (compare d locale_compare key asc) a xs ≡ level_with d locale_compare key a xs
  ties-level_with key asc a [] = refl
  ties-level_with key asc a (x ∷ xs) =
      ap
        (λ b.
          if b
          then x ∷ ties (compare d locale_compare key asc) a xs
          else ties (compare d locale_compare key asc) a xs)
        (level-compare key asc a x)
      ∙ ap (λ l. if level d locale_compare key a x then x ∷ l else l) (ties-level_with key asc a xs)

  module _ (s : ArraySort (Entry d)) where
    IsMarked : ProcessTable d → Type 0
    IsMarked t = t.headings ≡ map (λ key. heading_of key t.sort_key t.sort_asc) columns

    click-IsMarked : (key : SortKey) (t : ProcessTable d) → IsMarked t → IsMarked (click d key t)
    unfolding click update_sort_indicators IsMarked
    click-IsMarked key t h = elim (Bool-cases (same_key t.sort_key key)) [
      | inl e ↦ rw (e, click, h) refl
      | inr e ↦ rw (e, click, h) refl
    ]

    table-IsMarked :
        (inputs : List (TableInput d)) (t : ProcessTable d)
        → IsMarked t
        → IsMarked (table d locale_compare s inputs t)
    unfolding table update IsMarked
    table-IsMarked [] t h = h
    table-IsMarked (clicks key ∷ rest) t h =
        table-IsMarked rest (click d key t) (click-IsMarked key t h)
    table-IsMarked (updates processes ∷ rest) t h =
        table-IsMarked rest (update d locale_compare s processes t) h

    update-IsShown :
        (processes : List (Entry d)) (t : ProcessTable d)
        → IsMarked t
        → IsShown d locale_compare t.sort_key t.sort_asc processes
            (update d locale_compare s processes t)
    unfolding update IsMarked
    update-IsShown processes t h =
        let cmp = compare d locale_compare t.sort_key t.sort_asc in
        let order = compare-IsOrder d laws locale_compare by_locale t.sort_key t.sort_asc in
        record {
          same_rows = s.sort-perm cmp processes order;
          ranked =
              Ranked-Ordered t.sort_key t.sort_asc (s.sort cmp processes)
                (s.sort-Ordered cmp processes order);
          stable = λ a.
              sym (ties-level_with t.sort_key t.sort_asc a (s.sort cmp processes))
              ∙ s.sort-ties cmp processes a order
              ∙ ties-level_with t.sort_key t.sort_asc a processes;
          counted = refl;
          headings =
              subst (AreHeadings t.sort_key t.sort_asc) (sym h)
                (AreHeadings-columns t.sort_key t.sort_asc);
        }

    -- Where localeCompare is an order: after any clicks and updates, and then an update with the
    -- processes of a snapshot, the table shows these processes in the column of the heading that was
    -- clicked last, at first the CPU usage; ascending where that heading was clicked an even number of
    -- times in succession, with the start counted as a click of the CPU usage, and descending otherwise.
    -- That is: the rows are the processes; of two rows the upper one is not greater in that column
    -- where it ascends, and not less where it descends; rows that are level in it stand in the order in
    -- which they came; the count is theirs; and of the seven headings that one alone shows a direction,
    -- this one.
    pub table_shows :
        (inputs : List (TableInput d)) (processes : List (Entry d))
        → let back = clicked inputs [] in
          let key = last_key back in
          IsShown d locale_compare key
            (is_even (streak key back))
            processes
            (update d locale_compare s processes (table d locale_compare s inputs (constructed d)))
    unfolding constructed IsMarked
    table_shows inputs processes =
        let t = table d locale_compare s inputs (constructed d) in
        let (k, a) = table-constructed d locale_compare s inputs in
        subst
          (λ x.
            IsShown d locale_compare (last_key (clicked inputs [])) x processes
              (update d locale_compare s processes t))
          a
          (subst
            (λ x.
              IsShown d locale_compare x t.sort_asc processes
                (update d locale_compare s processes t))
            k (update-IsShown processes t (table-IsMarked inputs (constructed d) refl)))

-- ===== src/Frontend/Shown.antt =====
-- What the rows and the headings of the process table mean, said without its comparison.
use mathlib.Core.List.{Perm}
use kvadra_top.Base.{
  length, ◌≡◌, ◌≢◌, ◌⊎◌, Bool, true, false, ◌&&◌, not, some, none, List, [], ◌∷◌, All, map,
  if◌then◌else◌,
}
use kvadra_top.Text.{Bytes}
use kvadra_top.Real.{Double}
use kvadra_top.Frontend.Table.{
  SortKey, by_pid, by_name, by_user, by_cpu_percent, by_mem_percent, by_mem_rss_kb, by_threads,
  Sign, is_above, is_same, Heading, Entry, ProcessTable,
}

-- A heading shows the direction where it is that of the key, and nothing where it is not.
abbrev pub Shows : SortKey → Bool → Heading → Type 0
Shows key asc h = ((h.key ≡ key) × (h.mark ≡ some asc)) ⊎ ((h.key ≢ key) × (h.mark ≡ none))

-- The headings of the table, from left to right, one for each column that it can be sorted by.
abbrev pub AreHeadings : SortKey → Bool → List Heading → Type 0
AreHeadings key asc hs =
    (map (λ (h : Heading). h.key) hs
      ≡ by_pid ∷ by_name ∷ by_user ∷ by_cpu_percent ∷ by_mem_percent ∷ by_mem_rss_kb ∷ by_threads
        ∷ [])
    × All (Shows key asc) hs

module _ (d : Double) (locale_compare : Bytes → Bytes → Sign) where
  -- In the column of the key, `a` is not greater than `b`.
  abbrev pub AtMost : SortKey → Entry d → Entry d → Type 0
  AtMost by_pid a b = d.less b.pid a.pid ≡ false
  AtMost by_name a b = is_above (locale_compare a.name b.name) ≡ false
  AtMost by_user a b = is_above (locale_compare a.user b.user) ≡ false
  AtMost by_cpu_percent a b = d.less b.cpu_percent a.cpu_percent ≡ false
  AtMost by_mem_percent a b = d.less b.mem_percent a.mem_percent ≡ false
  AtMost by_mem_rss_kb a b = d.less b.mem_rss_kb a.mem_rss_kb ≡ false
  AtMost by_threads a b = d.less b.threads a.threads ≡ false

  -- `a` may stand above `b`: ascending, it is not greater; descending, it is not less.
  abbrev pub MayPrecede : SortKey → Bool → Entry d → Entry d → Type 0
  MayPrecede key true a b = AtMost key a b
  MayPrecede key false a b = AtMost key b a

  abbrev pub Ranked : SortKey → Bool → List (Entry d) → Type 0
  Ranked key asc [] = Unit
  Ranked key asc (x ∷ xs) = All (MayPrecede key asc x) xs × Ranked key asc xs

  abbrev pub neither_less : d.Real → d.Real → Bool
  neither_less a b = not (d.less a b) && not (d.less b a)

  -- In the column of the key, neither is greater.
  abbrev pub level : SortKey → Entry d → Entry d → Bool
  level by_pid a b = neither_less a.pid b.pid
  level by_name a b = is_same (locale_compare a.name b.name)
  level by_user a b = is_same (locale_compare a.user b.user)
  level by_cpu_percent a b = neither_less a.cpu_percent b.cpu_percent
  level by_mem_percent a b = neither_less a.mem_percent b.mem_percent
  level by_mem_rss_kb a b = neither_less a.mem_rss_kb b.mem_rss_kb
  level by_threads a b = neither_less a.threads b.threads

  -- The entries that are level with `a`, in their order.
  abbrev pub level_with : SortKey → Entry d → List (Entry d) → List (Entry d)
  level_with key a [] = []
  level_with key a (x ∷ xs) = if level key a x then x ∷ level_with key a xs else level_with key a xs

  -- What a table shows for a list of processes, in a column and a direction: the processes, in order,
  -- those that are level in the order of the list; their number; and the headings.
  pub record IsShown (key : SortKey) (asc : Bool) (processes : List (Entry d)) (t : ProcessTable d)
      : Type 0 where
    pub same_rows : Perm t.rows processes
    pub ranked : Ranked key asc t.rows
    pub stable : (a : Entry d) → level_with key a t.rows ≡ level_with key a processes
    pub counted : t.count ≡ length processes
    pub headings : AreHeadings key asc t.headings

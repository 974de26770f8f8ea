-- ===== src/Frontend/Table.antt =====
-- frontend/src/components/ProcessTable.ts: the order of the table, and its headings.
use mathlib.Core.List.{Perm}
use kvadra_top.Base.{
  ℕ, ◌≡◌, Bool, true, false, Option, none, some, List, [], ◌∷◌, All, map, length, if◌then◌else◌,
  ◌==◌,
}
use kvadra_top.Text.{Bytes}
use kvadra_top.Real.{Double}

pub data SortKey : Type 0 where
  by_pid by_name by_user by_cpu_percent by_mem_percent by_mem_rss_kb by_threads : SortKey

-- The sign of the result of a comparison.
pub data Sign : Type 0 where
  below same above : Sign

abbrev pub negated : Sign → Sign
negated below = above
negated same = same
negated above = below

abbrev pub is_above : Sign → Bool
is_above above = true
is_above _ = false

abbrev pub is_same : Sign → Bool
is_same same = true
is_same _ = false

-- The sign of `a - b`, for numbers.
abbrev pub sign_by : {A : Type 0} → (A → A → Bool) → A → A → Sign
sign_by less a b = if less a b then below else if less b a then above else same

-- The place of a key in the type of keys.
abbrev pub place_of : SortKey → ℕ
place_of by_pid = 0
place_of by_name = 1
place_of by_user = 2
place_of by_cpu_percent = 3
place_of by_mem_percent = 4
place_of by_mem_rss_kb = 5
place_of by_threads = 6

-- `===` on keys.
abbrev pub same_key : SortKey → SortKey → Bool
same_key a b = place_of a == place_of b

module _ {E : Type 0} where
  -- What Array.sort asks of a comparison.
  pub record IsOrder (cmp : E → E → Sign) : Type 0 where
    pub flip : (a b : E) → cmp b a ≡ negated (cmp a b)
    pub trans :
        (a b c : E)
        → is_above (cmp a b) ≡ false
        → is_above (cmp b c) ≡ false
        → is_above (cmp a c) ≡ false

  -- No element is above one behind it.
  abbrev pub Ordered : (E → E → Sign) → List E → Type 0
  Ordered cmp [] = Unit
  Ordered cmp (x ∷ xs) = All (λ y. is_above (cmp x y) ≡ false) xs × Ordered cmp xs

  -- The elements that compare equal to `a`.
  abbrev pub ties : (E → E → Sign) → E → List E → List E
  ties cmp a [] = []
  ties cmp a (x ∷ xs) = if is_same (cmp a x) then x ∷ ties cmp a xs else ties cmp a xs

-- Array.sort: the same elements in order, and those that compare equal stay in theirs.
pub record ArraySort (E : Type 0) : Type 0 where
  pub sort : (E → E → Sign) → List E → List E
  pub sort-perm : (cmp : E → E → Sign) (xs : List E) → IsOrder cmp → Perm (sort cmp xs) xs
  pub sort-Ordered : (cmp : E → E → Sign) (xs : List E) → IsOrder cmp → Ordered cmp (sort cmp xs)
  pub sort-ties :
      (cmp : E → E → Sign) (xs : List E) (a : E)
      → IsOrder cmp
      → ties cmp a (sort cmp xs) ≡ ties cmp a xs

-- A heading, and whether it shows `sort-asc` (true) or `sort-desc`.
pub record Heading : Type 0 where
  pub key : SortKey
  pub mark : Option Bool

-- The heading of `key` where the table is sorted by `sort_key`.
abbrev pub heading_of : SortKey → SortKey → Bool → Heading
heading_of key sort_key asc = record {
  key = key;
  mark = if same_key key sort_key then some asc else none;
}

-- The headings that can be clicked, from left to right.
abbrev pub columns : List SortKey
columns =
    by_pid ∷ by_name ∷ by_user ∷ by_cpu_percent ∷ by_mem_percent ∷ by_mem_rss_kb ∷ by_threads ∷ []

module _ (d : Double) where
  open d use {Real, less}

  -- ProcessEntry of types/metrics.ts; a number is a double.
  pub record Entry : Type 0 where
    pub pid : Real
    pub name : Bytes
    pub user : Bytes
    pub state : Bytes
    pub cpu_percent : Real
    pub mem_percent : Real
    pub mem_rss_kb : Real
    pub threads : Real
    pub uptime_s : Real

  -- A member of an entry.
  pub data Value : Type 0 where
    text : Bytes → Value
    number : Real → Value

  -- The members of the table, and what it shows: the count, the headings and the rows.
  pub record ProcessTable : Type 0 where
    pub sort_key : SortKey
    pub sort_asc : Bool
    pub count : ℕ
    pub headings : List Heading
    pub rows : List Entry

  -- `a[key]`.
  unfoldable pub member_of : SortKey → Entry → Value
  member_of by_pid a = number a.pid
  member_of by_name a = text a.name
  member_of by_user a = text a.user
  member_of by_cpu_percent a = number a.cpu_percent
  member_of by_mem_percent a = number a.mem_percent
  member_of by_mem_rss_kb a = number a.mem_rss_kb
  member_of by_threads a = number a.threads

  module _ (locale_compare : Bytes → Bytes → Sign) where
    -- A text and a number would differ by NaN, which counts as 0.
    unfoldable pub compare_values : Value → Value → Sign
    compare_values (text a) (text b) = locale_compare a b
    compare_values (number a) (number b) = sign_by less a b
    compare_values _ _ = same

    unfoldable pub compare : SortKey → Bool → Entry → Entry → Sign
    unfolding member_of compare_values
    compare key asc a b =
        let cmp = compare_values (member_of key a) (member_of key b) in
        if asc then cmp else negated cmp

    unfoldable pub update : ArraySort Entry → List Entry → ProcessTable → ProcessTable
    unfolding compare
    update s processes t = record t {
      count = length processes;
      rows = s.sort (compare t.sort_key t.sort_asc) processes;
    }

  -- The classes are removed from each heading, and one is added where it is that of the key.
  unfoldable pub update_sort_indicators : ProcessTable → ProcessTable
  update_sort_indicators t = record t {
    headings = map (λ (h : Heading). heading_of h.key t.sort_key t.sort_asc) t.headings;
  }

  -- The handler of a click on a heading. The rows wait for the next update.
  unfoldable pub click : SortKey → ProcessTable → ProcessTable
  unfolding update_sort_indicators
  click key t = update_sort_indicators (
      if same_key t.sort_key key
      then record t { sort_asc = if t.sort_asc then false else true }
      else record t { sort_key = key; sort_asc = false })

  unfoldable pub constructed : ProcessTable
  constructed = record {
    sort_key = by_cpu_percent;
    sort_asc = false;
    count = 0;
    headings = map (λ key. heading_of key by_cpu_percent false) columns;
    rows = [];
  }

-- A click on a heading, or an update with the processes of a snapshot.
pub data TableInput (d : Double) : Type 0 where
  clicks : SortKey → TableInput d
  updates : List (Entry d) → TableInput d

module _ (d : Double) (locale_compare : Bytes → Bytes → Sign) (s : ArraySort (Entry d)) where
  unfoldable pub table : List (TableInput d) → ProcessTable d → ProcessTable d
  unfolding click update
  table [] t = t
  table (clicks key ∷ rest) t = table rest (click d key t)
  table (updates processes ∷ rest) t = table rest (update d locale_compare s processes t)

-- ===== src/Frontend/Runs.antt =====
-- Runs of the process table, of the escaping and of a history, and the theorems at concrete inputs.
use kvadra_top.Base.{
  ℕ, ◌≡◌, refl, sym, ap, ◌∙◌, ◌⊎◌, inl, inr, true, Bool-cases, List, [], ◌∷◌, ◌++◌, All, map,
  replicate,
}
use kvadra_top.Text.{Bytes, codes}
use kvadra_top.Real.Fixed.{fixed, fixed-Laws}
use kvadra_top.Map.Keys.{bytes_less, bytes_irrefl, bytes_trans, bytes_connex}
use kvadra_top.Frontend.Table.{
  Sign, sign_by, by_user, Entry, ProcessTable, IsOrder, heading_of, columns, update, constructed,
  TableInput, clicks, updates, table,
}
use kvadra_top.Frontend.Insertion.{stable_sort}
use kvadra_top.Frontend.Rows.{table_shows}
use kvadra_top.Frontend.Orders.{sign_by-IsOrder}
use kvadra_top.Frontend.Shown.{IsShown, Ranked}
use kvadra_top.Frontend.Escape.{escape_html, shown, Harmless, escape_html_lem}
use kvadra_top.Frontend.History.{updated}

-- A locale that compares bytes.
abbrev by_bytes : Bytes → Bytes → Sign
by_bytes = sign_by bytes_less

bytes-split :
    (a b c : Bytes) → bytes_less a c ≡ true → (bytes_less a b ≡ true) ⊎ (bytes_less b c ≡ true)
bytes-split a b c p = elim (Bool-cases (bytes_less a b)) [
  | inl e ↦ inl e
  | inr e ↦ elim (Bool-cases (bytes_less b a)) [
    | inl f ↦ inr (bytes_trans b a c f p)
    | inr f ↦ let eq = bytes_connex a b e f in inr (ap (λ x. bytes_less x c) (sym eq) ∙ p)
  ]
]

by_bytes-IsOrder : IsOrder by_bytes
by_bytes-IsOrder =
    sign_by-IsOrder bytes_less
      (record { irrefl = bytes_irrefl; trans = bytes_trans; split = bytes-split })

abbrev entry : ℕ → Bytes → Bytes → ℕ → Entry fixed
entry pid name user percent = record {
  pid = pid;
  name = name;
  user = user;
  state = codes "S";
  cpu_percent = percent;
  mem_percent = 0;
  mem_rss_kb = 0;
  threads = 1;
  uptime_s = 0;
}

abbrev shell : Entry fixed
shell = entry 7 (codes "sh") (codes "root") 5

abbrev editor : Entry fixed
editor = entry 8 (codes "ed") (codes "ann") 30

abbrev daemon : Entry fixed
daemon = entry 9 (codes "cron") (codes "root") 50

abbrev processes : List (Entry fixed)
processes = shell ∷ editor ∷ daemon ∷ []

-- The heading of the users is clicked twice.
abbrev twice : List (TableInput fixed)
twice = updates processes ∷ clicks by_user ∷ clicks by_user ∷ []

abbrev by_users : ProcessTable fixed
by_users = record {
  sort_key = by_user;
  sort_asc = true;
  count = 3;
  headings = map (λ key. heading_of key by_user true) columns;
  rows = editor ∷ shell ∷ daemon ∷ [];
}

-- The rows wait for the next update: they are still in the order of the CPU usage.
twice_run :
    table fixed by_bytes stable_sort twice (constructed fixed)
    ≡ record by_users { rows = daemon ∷ editor ∷ shell ∷ [] }
unfolding table constructed stable_sort
twice_run = refl

abbrev updated_table : ProcessTable fixed
updated_table =
    update fixed by_bytes stable_sort processes
      (table fixed by_bytes stable_sort twice (constructed fixed))

updated_run : updated_table ≡ by_users
unfolding table constructed update stable_sort bytes_less
updated_run = refl

table_shows_example : IsShown fixed by_bytes by_user true processes updated_table
table_shows_example =
    table_shows fixed fixed-Laws by_bytes by_bytes-IsOrder stable_sort twice processes

-- Said of the rows, one by one.
by_users-Ranked : Ranked fixed by_bytes by_user true by_users.rows
unfolding bytes_less
by_users-Ranked = ((refl, (refl, tt)), ((refl, tt), (tt, tt)))

escape_html_lem_example :
    (shown (escape_html (codes "<a&b>")) ≡ codes "<a&b>")
    × All Harmless (escape_html (codes "<a&b>"))
escape_html_lem_example = escape_html_lem (codes "<a&b>")

escaped : escape_html (codes "<\"&>") ≡ codes "&lt;&quot;&amp;&gt;"
unfolding escape_html
escaped = refl

abbrev usages : List ℕ
usages = 4 ∷ 5 ∷ []

windowed : updated (replicate 60 0) usages ≡ replicate 58 0 ++ usages
unfolding updated
windowed = refl

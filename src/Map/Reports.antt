-- ===== src/Map/Reports.antt =====
-- A list that a loop over a map makes, one value for each entry, seen by its keys.
use kvadra_top.Base.{
  ◌≡◌, refl, true, Option, none, some, List, [], ◌∷◌, map, All, if◌then◌else◌, Bool-cases, inl, inr,
}
use kvadra_top.Map.{KeyOrder, same, lookup, Ascending}
use kvadra_top.Map.Laws.{same-eq}

module _ {K : Type 0} (o : KeyOrder K) {B : Type 0} (key : B → K) where
  -- The first value with the key.
  abbrev pub find_by : K → List B → Option B
  find_by k [] = none
  find_by k (x ∷ xs) = if same o (key x) k then some x else find_by k xs

  -- The keys ascend, so none stands twice.
  abbrev pub InOrder : List B → Type 0
  InOrder [] = Unit
  InOrder (x ∷ xs) = All (λ y. o.less (key x) (key y) ≡ true) xs × InOrder xs

module _ {K : Type 0} (o : KeyOrder K) {B : Type 0} (key : B → K) {V : Type 0} (f : K × V → B)
    (keeps : (k : K) (v : V) → key (f (k, v)) ≡ k) where
  abbrev pub entry_of : K → Option V → Option B
  entry_of k none = none
  entry_of k (some v) = some (f (k, v))

  pub find_by-map :
      (k : K) (rows : List (K × V)) → find_by o key k (map f rows) ≡ entry_of k (lookup o k rows)
  unfolding lookup
  find_by-map k [] = refl
  find_by-map k ((j, v) ∷ rows) = rw (keeps j v) (elim (Bool-cases (same o j k)) [
    | inl s ↦ rw s (rw (same-eq o j k s))
    | inr s ↦ rw s (find_by-map k rows)
  ])

  pub All-map_keys :
      (P : B → Type 0) (rows : List (K × V)) → All (λ e. P (f e)) rows → All P (map f rows)
  All-map_keys P [] h = tt
  All-map_keys P (e ∷ rows) h = (h.0, All-map_keys P rows h.1)

  keys_after :
      (j : K) (rows : List (K × V))
      → All (λ e. o.less j e.0 ≡ true) rows
      → All (λ y. o.less j (key y) ≡ true) (map f rows)
  keys_after j [] h = tt
  keys_after j ((k, v) ∷ rows) h = (rw (keeps k v) h.0, keys_after j rows h.1)

  pub InOrder-map : (rows : List (K × V)) → Ascending o rows → InOrder o key (map f rows)
  InOrder-map [] h = tt
  InOrder-map ((k, v) ∷ rows) h = (rw (keeps k v) (keys_after k rows h.0), InOrder-map rows h.1)

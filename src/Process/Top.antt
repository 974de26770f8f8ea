-- ===== src/Process/Top.antt =====
-- The list of processes that a sample returns.
use mathlib.Core.List.{Perm, Permᴰ}
use mathlib.Core.Logic.{∥∥₁_elim}
use native.Mathlib.Nat.{ℕ_set}
use kvadra_top.Base.{
  ℕ, zero, suc, ◌≡◌, sym, refl, ap, ◌∙◌, ◌⊎◌, inl, inr, Bool, false, List, [], ◌∷◌, ◌++◌, All,
  All-take, All-drop, take, drop, length, min, ltb, take-append-drop, length-take, take_all,
  Bool-cases, ltb→le,
}
use kvadra_top.Real.{Double, Laws}
use kvadra_top.Snapshot.{ProcessEntry}
use kvadra_top.Process.Ranking.{SortedBy, IsWeakOrder, Sorting, busier, top}

length-permᴰ {ℓ} : {E : Type ℓ} {xs ys : List E} → Permᴰ xs ys → length xs ≡ length ys
length-permᴰ Permᴰ.nil = refl
length-permᴰ (Permᴰ.cons e p) = ap suc (length-permᴰ p)
length-permᴰ (Permᴰ.swap e f) = refl
length-permᴰ (Permᴰ.trans p q) = length-permᴰ p ∙ length-permᴰ q

length-perm {ℓ} : {E : Type ℓ} {xs ys : List E} → Perm xs ys → length xs ≡ length ys
length-perm p = ∥∥₁_elim p (ℕ_set _ _) length-permᴰ

-- A cut of a sorted list: the front is sorted, and nothing behind is less than anything in front.
module _ {ℓ} {E : Type ℓ} (less : E → E → Bool) where
  SortedBy-take : (n : ℕ) (xs : List E) → SortedBy less xs → SortedBy less (take n xs)
  SortedBy-take zero xs h = tt
  SortedBy-take (suc n) [] h = tt
  SortedBy-take (suc n) (x ∷ xs) h =
      (All-take (λ y. less y x ≡ false) n xs h.0, SortedBy-take n xs h.1)

  abbrev pub NoneBefore : List E → List E → Type 0
  NoneBefore kept dropped = All (λ x. All (λ y. less y x ≡ false) dropped) kept

  NoneBefore-take : (n : ℕ) (xs : List E) → SortedBy less xs → NoneBefore (take n xs) (drop n xs)
  NoneBefore-take zero xs h = tt
  NoneBefore-take (suc n) [] h = tt
  NoneBefore-take (suc n) (x ∷ xs) h =
      (All-drop (λ y. less y x ≡ false) n xs h.0, NoneBefore-take n xs h.1)

module _ (d : Double) (laws : Laws d) where
  busier-IsWeakOrder : IsWeakOrder (busier d)
  busier-IsWeakOrder = record {
    irrefl = λ a. laws.less_irrefl a.cpu_percent;
    trans = λ a b c p q. laws.less_trans c.cpu_percent b.cpu_percent a.cpu_percent q p;
    split = λ a b c p. swap (laws.less_split c.cpu_percent b.cpu_percent a.cpu_percent p);
  }
    where
      swap : {A B : Type 0} → A ⊎ B → B ⊎ A
      swap (inl a) = inr a
      swap (inr b) = inl b

  top-take :
      (s : Sorting (ProcessEntry d)) (entries : List (ProcessEntry d))
      → top d s entries ≡ take 20 (s.sort (busier d) entries)
  unfolding top
  top-take s entries = elim (Bool-cases (ltb 20 (length (s.sort (busier d) entries)))) [
    | inl e ↦ rw e
    | inr e ↦ rw e (sym (take_all 20 (s.sort (busier d) entries) (ltb→le 20 _ e)))
  ]

  -- `y` is not busier than `x`.
  abbrev pub AtMost : ProcessEntry d → ProcessEntry d → Type 0
  AtMost x y = d.less x.cpu_percent y.cpu_percent ≡ false

  -- The busiest process first.
  abbrev pub Ranked : List (ProcessEntry d) → Type 0
  Ranked [] = Unit
  Ranked (x ∷ xs) = All (AtMost x) xs × Ranked xs

  SortedBy-Ranked : (xs : List (ProcessEntry d)) → SortedBy (busier d) xs → Ranked xs
  SortedBy-Ranked [] h = tt
  SortedBy-Ranked (x ∷ xs) h = (h.0, SortedBy-Ranked xs h.1)

  -- The result is sorted by CPU usage, the busiest process first; it holds 20 of the entries, or all
  -- where there are fewer; and none of those left out is busier than one that is kept.
  pub top_lem :
      (s : Sorting (ProcessEntry d)) (entries : List (ProcessEntry d))
      → let kept = top d s entries in
        (dropped : List (ProcessEntry d)) × Perm (kept ++ dropped) entries
        × Ranked kept
        × All (λ x. All (AtMost x) dropped) kept
        × (length kept ≡ min 20 (length entries))
  top_lem s entries =
      let sorted = s.sort (busier d) entries in
      let same = s.sort-perm (busier d) entries busier-IsWeakOrder in
      rw (top-take s entries) (
        drop 20 sorted,
        rw (take-append-drop 20 sorted) same,
        SortedBy-Ranked (take 20 sorted) (
            SortedBy-take (busier d) 20 sorted
              (s.sort-SortedBy (busier d) entries busier-IsWeakOrder)),
        NoneBefore-take (busier d) 20 sorted
            (s.sort-SortedBy (busier d) entries busier-IsWeakOrder),
        length-take 20 sorted ∙ ap (min 20) (length-perm same),
      )

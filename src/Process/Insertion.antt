-- ===== src/Process/Insertion.antt =====
-- A `Sorting` for runs of the model: insertion sort. It shows that what is asked of std::sort can be met.
use mathlib.Core.List.{Perm}
use mathlib.Core.List.Perm
use kvadra_top.Base.{
  ◌≡◌, Bool, true, false, List, [], ◌∷◌, All, All-map, if◌then◌else◌, Bool-cases, inl, inr, arith,
}
use kvadra_top.Process.Ranking.{SortedBy, IsWeakOrder, Sorting}

module _ {E : Type 0} (less : E → E → Bool) where
  -- Behind the elements that are not greater.
  pub place : E → List E → List E
  place x [] = x ∷ []
  place x (y ∷ ys) = if less x y then x ∷ y ∷ ys else y ∷ place x ys

  pub sort_list : List E → List E
  unfolding place
  sort_list [] = []
  sort_list (x ∷ xs) = place x (sort_list xs)

  place-perm : (x : E) (ys : List E) → Perm (place x ys) (x ∷ ys)
  unfolding place
  place-perm x [] = Perm.refl (x ∷ [])
  place-perm x (y ∷ ys) = elim (Bool-cases (less x y)) [
    | inl e ↦ rw e (Perm.refl (x ∷ y ∷ ys))
    | inr e ↦ rw e (Perm.trans (Perm.cons y (place-perm x ys)) (Perm.swap x y ys))
  ]

  pub sort_list-perm : (xs : List E) → Perm (sort_list xs) xs
  unfolding sort_list
  sort_list-perm [] = Perm.refl []
  sort_list-perm (x ∷ xs) =
      Perm.trans (place-perm x (sort_list xs)) (Perm.cons x (sort_list-perm xs))

  All-place : (P : E → Type 0) (x : E) (ys : List E) → P x → All P ys → All P (place x ys)
  unfolding place
  All-place P x [] p h = (p, tt)
  All-place P x (y ∷ ys) p h = elim (Bool-cases (less x y)) [
    | inl e ↦ rw e (p, h)
    | inr e ↦ rw e (h.0, All-place P x ys p h.1)
  ]

  module _ (order : IsWeakOrder less) where
    asym : (a b : E) → less a b ≡ true → less b a ≡ false
    asym a b h = ground (arith, order.trans a b a, order.irrefl a)

    not_less_trans : (a b c : E) → less b a ≡ false → less c b ≡ false → less c a ≡ false
    not_less_trans a b c p q = ground (arith, order.split c b a)

    place-SortedBy : (x : E) (ys : List E) → SortedBy less ys → SortedBy less (place x ys)
    unfolding place
    place-SortedBy x [] h = (tt, tt)
    place-SortedBy x (y ∷ ys) h = elim (Bool-cases (less x y)) [
      | inl e ↦ rw e (
        (
          asym x y e,
          All-map (λ z. less z y ≡ false) (λ z. less z x ≡ false) ys
              (λ z. not_less_trans x y z (asym x y e)) h.0,
        ),
        h,
      )
      | inr e ↦ rw e (All-place (λ z. less z y ≡ false) x ys e h.0, place-SortedBy x ys h.1)
    ]

    pub sort_list-SortedBy : (xs : List E) → SortedBy less (sort_list xs)
    unfolding sort_list
    sort_list-SortedBy [] = tt
    sort_list-SortedBy (x ∷ xs) = place-SortedBy x (sort_list xs) (sort_list-SortedBy xs)

unfoldable pub insertion_sort : {E : Type 0} → Sorting E
unfolding sort_list
insertion_sort = record {
  sort = sort_list;
  sort-perm = λ less xs order. sort_list-perm less xs;
  sort-SortedBy = λ less xs order. sort_list-SortedBy less order xs;
}

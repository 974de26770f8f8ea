-- ===== src/Frontend/Insertion.antt =====
-- An `ArraySort` for runs of the table: a stable insertion sort. It shows that what is asked of
-- Array.sort can be met.
use mathlib.Core.List.{Perm}
use mathlib.Core.List.Perm
use kvadra_top.Base.{
  ◌≡◌, refl, ap, ◌∙◌, true, false, List, [], ◌∷◌, All, All-map, if◌then◌else◌, Bool-cases, inl, inr,
  arith,
}
use kvadra_top.Frontend.Table.{
  Sign, below, same, above, negated, is_above, is_same, IsOrder, Ordered, ties, ArraySort,
}

same_not_above :
    (x : Sign) → is_same x ≡ true → (is_above x ≡ false) × (is_above (negated x) ≡ false)
same_not_above below e = absurd (ground arith)
same_not_above same e = (refl, refl)
same_not_above above e = absurd (ground arith)

above_negated : (x : Sign) → is_above x ≡ true → is_above (negated x) ≡ false
above_negated below e = absurd (ground arith)
above_negated same e = absurd (ground arith)
above_negated above e = refl

module _ {E : Type 0} (cmp : E → E → Sign) where
  -- In front of the elements that are not below.
  pub place : E → List E → List E
  place x [] = x ∷ []
  place x (y ∷ ys) = let rest = place x ys in if is_above (cmp x y) then y ∷ rest else x ∷ y ∷ ys

  pub sort_list : List E → List E
  unfolding place
  sort_list [] = []
  sort_list (x ∷ xs) = place x (sort_list xs)

  place-perm : (x : E) (ys : List E) → Perm (place x ys) (x ∷ ys)
  unfolding place
  place-perm x [] = Perm.refl (x ∷ [])
  place-perm x (y ∷ ys) = elim (Bool-cases (is_above (cmp x y))) [
    | inl e ↦ rw e (Perm.trans (Perm.cons y (place-perm x ys)) (Perm.swap x y ys))
    | inr e ↦ rw e (Perm.refl (x ∷ y ∷ ys))
  ]

  pub sort_list-perm : (xs : List E) → Perm (sort_list xs) xs
  unfolding sort_list
  sort_list-perm [] = Perm.refl []
  sort_list-perm (x ∷ xs) =
      Perm.trans (place-perm x (sort_list xs)) (Perm.cons x (sort_list-perm xs))

  All-place : (P : E → Type 0) (x : E) (ys : List E) → P x → All P ys → All P (place x ys)
  unfolding place
  All-place P x [] p h = (p, tt)
  All-place P x (y ∷ ys) p h = elim (Bool-cases (is_above (cmp x y))) [
    | inl e ↦ rw e (h.0, All-place P x ys p h.1)
    | inr e ↦ rw e (p, h)
  ]

  module _ (order : IsOrder cmp) where
    not_above : (x y : E) → is_above (cmp x y) ≡ true → is_above (cmp y x) ≡ false
    not_above x y e = ap is_above (order.flip x y) ∙ above_negated (cmp x y) e

    place-Ordered : (x : E) (ys : List E) → Ordered cmp ys → Ordered cmp (place x ys)
    unfolding place
    place-Ordered x [] h = (tt, tt)
    place-Ordered x (y ∷ ys) h = elim (Bool-cases (is_above (cmp x y))) [
      | inl e ↦ rw e (
        All-place (λ z. is_above (cmp y z) ≡ false) x ys (not_above x y e) h.0,
        place-Ordered x ys h.1,
      )
      | inr e ↦ rw e (
        (
          e,
          All-map (λ z. is_above (cmp y z) ≡ false) (λ z. is_above (cmp x z) ≡ false) ys
              (λ z. order.trans x y z e) h.0,
        ),
        h,
      )
    ]

    pub sort_list-Ordered : (xs : List E) → Ordered cmp (sort_list xs)
    unfolding sort_list
    sort_list-Ordered [] = tt
    sort_list-Ordered (x ∷ xs) = place-Ordered x (sort_list xs) (sort_list-Ordered xs)

    -- Two elements that compare equal to a third are not above each other.
    tied :
        (a x y : E)
        → is_same (cmp a x) ≡ true
        → is_same (cmp a y) ≡ true
        → is_above (cmp x y) ≡ false
    tied a x y p q =
        order.trans x a y (ap is_above (order.flip a x) ∙ (same_not_above (cmp a x) p).1)
          (same_not_above (cmp a y) q).0

    ties-place : (a x : E) (ys : List E) → ties cmp a (place x ys) ≡ ties cmp a (x ∷ ys)
    unfolding place
    ties-place a x [] = refl
    ties-place a x (y ∷ ys) = elim (Bool-cases (is_above (cmp x y))) [
      | inr e ↦ rw e refl
      | inl e ↦ elim (Bool-cases (is_same (cmp a x))) [
        | inr f ↦
            rw (e, f)
              (ap (λ l. if is_same (cmp a y) then y ∷ l else l) (ties-place a x ys ∙ rw f refl))
        | inl f ↦ elim (Bool-cases (is_same (cmp a y))) [
          | inr g ↦ rw (e, f, g) (ties-place a x ys ∙ rw f refl)
          | inl g ↦ absurd (let no = tied a x y f g in ground arith)
        ]
      ]
    ]

    pub sort_list-ties : (xs : List E) (a : E) → ties cmp a (sort_list xs) ≡ ties cmp a xs
    unfolding sort_list
    sort_list-ties [] a = refl
    sort_list-ties (x ∷ xs) a =
        ties-place a x (sort_list xs)
        ∙ ap (λ l. if is_same (cmp a x) then x ∷ l else l) (sort_list-ties xs a)

unfoldable pub stable_sort : {E : Type 0} → ArraySort E
unfolding sort_list
stable_sort = record {
  sort = sort_list;
  sort-perm = λ cmp xs order. sort_list-perm cmp xs;
  sort-Ordered = λ cmp xs order. sort_list-Ordered cmp order xs;
  sort-ties = λ cmp xs a order. sort_list-ties cmp order xs a;
}

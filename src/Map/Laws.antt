-- ===== src/Map/Laws.antt =====
-- Laws of the maps: lookup after insertion, and the order of the keys.
use kvadra_top.Base.{
  ◌≡◌, refl, inl, inr, true, Option, none, some, List, [], ◌∷◌, if◌then◌else◌, All, arith, ap, ◌∙◌,
  Bool-cases, Option-cases, All-map,
}
use mathlib.Core.Path.{subst}
use kvadra_top.Map.{KeyOrder, same, lookup, insert, fill, Ascending}

module _ {K : Type 0} (o : KeyOrder K) where
  open o use {less, irrefl, trans, connex}

  pub same-eq : (a b : K) → same o a b ≡ true → a ≡ b
  same-eq a b h = connex a b (ground arith) (ground arith)

  pub same_self : (a : K) → same o a a ≡ true
  same_self a = rw (irrefl a)

  module _ {V : Type 0} where
    pub lookup-insert :
        (k j : K) (v : V) (m : List (K × V))
        → lookup o j (insert o k v m) ≡ (if same o k j then some v else lookup o j m)
    unfolding lookup insert
    lookup-insert k j v [] = refl
    lookup-insert k j v ((i, w) ∷ m) =
        ground
          (arith, connex k i, irrefl k, irrefl i, lookup-insert k j v m, connex i j, connex k j)

    -- A predicate on the keys.
    abbrev pub AllKeys : (K → Type 0) → List (K × V) → Type 0
    AllKeys P = All (λ e. P e.0)

    pub AllKeys-insert :
        (P : K → Type 0) (k : K) (v : V) (m : List (K × V))
        → P k
        → AllKeys P m
        → AllKeys P (insert o k v m)
    unfolding insert
    AllKeys-insert P k v [] p h = (p, tt)
    AllKeys-insert P k v ((j, w) ∷ m) p h = elim (Bool-cases (less k j)) [
      | inl e ↦ rw e (p, h)
      | inr e ↦ rw e (elim (Bool-cases (less j k)) [
        | inl e' ↦ rw e' (h.0, AllKeys-insert P k v m p h.1)
        | inr e' ↦ rw e' h
      ])
    ]

    pub AllKeys-lookup :
        (P : K → Type 0) (k : K) (v : V) (m : List (K × V))
        → AllKeys P m
        → lookup o k m ≡ some v
        → P k
    unfolding lookup
    AllKeys-lookup P k v [] h e = cc
    AllKeys-lookup P k v ((j, w) ∷ m) h e = elim (Bool-cases (same o j k)) [
      | inl s ↦ subst P (same-eq j k s) h.0
      | inr s ↦ AllKeys-lookup P k v m h.1 (rw s at e)
    ]

    pub insert-Ascending :
        (k : K) (v : V) (m : List (K × V)) → Ascending o m → Ascending o (insert o k v m)
    unfolding insert
    insert-Ascending k v [] h = (tt, tt)
    insert-Ascending k v ((j, w) ∷ m) h = elim (Bool-cases (less k j)) [
      | inl e ↦ rw e (
          (
            (
              e,
              All-map (λ x. less j x.0 ≡ true) (λ x. less k x.0 ≡ true) m (λ x. trans k j x.0 e)
                  h.0,
            ),
            h,
          ))
      | inr e ↦ rw e (elim (Bool-cases (less j k)) [
        | inl e' ↦
            rw e' (AllKeys-insert (λ i. less j i ≡ true) k v m e' h.0, insert-Ascending k v m h.1)
        | inr e' ↦ rw e' h
      ])
    ]

    module _ {ℓ} {L : Type ℓ} (f : L → Option (K × V)) where
      pub fill-Ascending :
          (ls : List L) (m : List (K × V)) → Ascending o m → Ascending o (fill o f ls m)
      unfolding fill
      fill-Ascending [] m h = h
      fill-Ascending (l ∷ ls) m h = elim (Option-cases (f l)) [
        | inl e ↦ rw (e, fill) (fill-Ascending ls m h)
        | inr ((k, v), e) ↦
            rw (e, fill) (fill-Ascending ls (insert o k v m) (insert-Ascending k v m h))
      ]

      -- What every line gives to the map holds of all its keys.
      pub AllKeys-fill :
          (P : K → Type 0) (ls : List L) (m : List (K × V))
          → ((l : L) (k : K) (v : V) → f l ≡ some (k, v) → P k)
          → AllKeys P m
          → AllKeys P (fill o f ls m)
      unfolding fill
      AllKeys-fill P [] m p h = h
      AllKeys-fill P (l ∷ ls) m p h = elim (Option-cases (f l)) [
        | inl e ↦ rw (e, fill) (AllKeys-fill P ls m p h)
        | inr ((k, v), e) ↦
            rw (e, fill)
              (AllKeys-fill P ls (insert o k v m) p (AllKeys-insert P k v m (p l k v e) h))
      ]

      -- The last line for a key decides, and what stood there before if there is no such line.
      abbrev pub latest : K → List L → Option V → Option V
      latest k [] old = old
      latest k (l ∷ ls) old =
          latest k ls (elim (f l) [ none ↦ old | some (j, v) ↦ if same o j k then some v else old ])

      pub latest-some :
          (k j : K) (v : V) (l : L) (ls : List L) (old : Option V)
          → f l ≡ some (j, v)
          → latest k (l ∷ ls) old ≡ latest k ls (if same o j k then some v else old)
      latest-some k j v l ls old e =
          ap
            (λ x.
              latest k ls
                (elim x [ none ↦ old | some (i, w) ↦ if same o i k then some w else old ]))
            e

      pub lookup-fill :
          (k : K) (ls : List L) (m : List (K × V))
          → lookup o k (fill o f ls m) ≡ latest k ls (lookup o k m)
      unfolding fill
      lookup-fill k [] m = refl
      lookup-fill k (l ∷ ls) m = elim (Option-cases (f l)) [
        | inl e ↦ rw (e, fill) (lookup-fill k ls m)
        | inr ((j, v), e) ↦
            rw (e, fill)
              (lookup-fill k ls (insert o j v m) ∙ ap (latest k ls) (lookup-insert j k v m))
      ]

-- ===== src/Frontend/History.antt =====
-- The history of a chart, as the panels of frontend/src/components keep it.
use kvadra_top.Base.{
  ℕ, zero, suc, ◌≡◌, refl, ap, ◌∙◌, true, List, [], ◌∷◌, ◌++◌, append_assoc, append-nil, replicate,
  length, drop, ltb, if◌then◌else◌, arith, sym,
}

module _ {A : Type 0} where
  -- `push`, and `shift` where the history has become longer than HISTORY_LENGTH.
  unfoldable pub pushed : A → List A → List A
  pushed v history =
      let longer = history ++ v ∷ [] in if ltb 60 (length longer) then drop 1 longer else longer

  -- The history after an update with each of the values.
  unfoldable pub updated : List A → List A → List A
  unfolding pushed
  updated history [] = history
  updated history (v ∷ vs) = updated (pushed v history) vs

  length-last : (t : List A) (v : A) → length (t ++ v ∷ []) ≡ suc (length t)
  length-last [] v = refl
  length-last (x ∷ t) v = ap suc (length-last t v)

  pushed-full : (x v : A) (t : List A) → length t ≡ 59 → pushed v (x ∷ t) ≡ t ++ v ∷ []
  unfolding pushed
  pushed-full x v t e =
      let full : ltb 60 (suc (length (t ++ v ∷ []))) ≡ true = ground (arith, length-last t v) in
      rw full refl

  updated-full :
      (history vs : List A)
      → length history ≡ 60
      → (updated history vs ≡ drop (length vs) (history ++ vs)) × (length (updated history vs) ≡ 60)
  unfolding updated
  updated-full [] vs e = absurd (omega arith)
  updated-full (x ∷ t) [] e = (sym (append-nil (x ∷ t)), e)
  updated-full (x ∷ t) (v ∷ vs) e =
      let (window, full) = updated-full (t ++ v ∷ []) vs (length-last t v ∙ e) in
      rw (pushed-full x v t (omega arith))
        (window ∙ ap (drop (length vs)) (append_assoc t (v ∷ []) vs), full)

  pub length-replicate : (n : ℕ) (a : A) → length (replicate n a) ≡ n
  length-replicate zero a = refl
  length-replicate (suc n) a = ap suc (length-replicate n a)

  -- After an update with each of some values, from the history that a panel starts with, the history
  -- is the last 60 of the sixty zeros of the start and the values behind them.
  pub updated-replicate :
      (z : A) (vs : List A)
      → (updated (replicate 60 z) vs ≡ drop (length vs) (replicate 60 z ++ vs))
        × (length (updated (replicate 60 z) vs) ≡ 60)
  updated-replicate z vs = updated-full (replicate 60 z) vs (length-replicate 60 z)

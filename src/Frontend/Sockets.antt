-- ===== src/Frontend/Sockets.antt =====
-- The last of the WebSockets, behind others that are closed.
use kvadra_top.Base.{
  ℕ, zero, suc, ◌≡◌, refl, ap, ◌⊎◌, inl, inr, true, some, List, [], ◌∷◌, ◌++◌, All, get_elem?,
  length, arith, sym, ◌∙◌,
}
use kvadra_top.Frontend.Page.{ReadyState, is_closed, set_at}

abbrev pub AllClosed : List ReadyState → Type 0
AllClosed = All (λ r. is_closed r ≡ true)

pub get_elem?-last :
    (old : List ReadyState) (r : ReadyState) → get_elem? (old ++ r ∷ []) (length old) ≡ some r
get_elem?-last [] r = refl
get_elem?-last (x ∷ old) r = get_elem?-last old r

pub set_at-last :
    (old : List ReadyState) (r x : ReadyState)
    → set_at (length old) x (old ++ r ∷ []) ≡ old ++ x ∷ []
set_at-last [] r x = refl
set_at-last (y ∷ old) r x = ap (λ l. y ∷ l) (set_at-last old r x)

-- A WebSocket is closed, or it is the last one.
pub get_elem?-cases :
    (old : List ReadyState) (r z : ReadyState) (i : ℕ)
    → AllClosed old
    → get_elem? (old ++ r ∷ []) i ≡ some z
    → (is_closed z ≡ true) ⊎ ((i ≡ length old) × (z ≡ r))
get_elem?-cases [] r z zero h e = inr (refl, cc)
get_elem?-cases [] r z (suc i) h e = absurd (ground arith)
get_elem?-cases (x ∷ old) r z zero h e =
    let same : x ≡ z = cc in inl (ap is_closed (sym same) ∙ h.0)
get_elem?-cases (x ∷ old) r z (suc i) h e = elim (get_elem?-cases old r z i h.1 e) [
  | inl c ↦ inl c
  | inr (p, q) ↦ inr (ap suc p, q)
]

pub AllClosed-get_elem? :
    (old : List ReadyState) (z : ReadyState) (i : ℕ)
    → AllClosed old
    → get_elem? old i ≡ some z
    → is_closed z ≡ true
AllClosed-get_elem? [] z i h e = absurd (ground arith)
AllClosed-get_elem? (x ∷ old) z zero h e = let same : x ≡ z = cc in ap is_closed (sym same) ∙ h.0
AllClosed-get_elem? (x ∷ old) z (suc i) h e = AllClosed-get_elem? old z i h.1 e

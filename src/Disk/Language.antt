-- ===== src/Disk/Language.antt =====
-- The language of a regular expression, and that the matcher decides it.
use mathlib.Core.Path.{subst}
use kvadra_top.Base.{
  ◌↔◌, ℕ, ◌≤◌, ◌≡◌, refl, ◌∙◌, ap, sym, ◌⊎◌, inl, inr, true, List, [], ◌∷◌, ◌++◌, All, ◌&&◌, leb,
  Bool-cases, arith,
}
use kvadra_top.Text.{Bytes}
use kvadra_top.Disk.Regex.{
  Regex, nothing, empty, range, seq, alt, plus, nullable, derive, regex_match,
}

abbrev pub concat : List Bytes → Bytes
concat [] = []
concat (u ∷ us) = u ++ concat us

-- The language of an expression.
abbrev pub Matches : Regex → Bytes → Type 0
Matches nothing s = ⊥
Matches empty s = s ≡ []
Matches (range lo hi) s = (c : ℕ) × (s ≡ c ∷ []) × (lo ≤ c) × (c ≤ hi)
Matches (seq r q) s = (u : Bytes) × (v : Bytes) × (s ≡ u ++ v) × Matches r u × Matches q v
Matches (alt r q) s = Matches r s ⊎ Matches q s
Matches (plus r) s =
    (u : Bytes) × (us : List Bytes) × (s ≡ u ++ concat us) × Matches r u × All (Matches r) us

nullable-Matches : (r : Regex) → nullable r ≡ true → Matches r []
unfolding nullable
nullable-Matches nothing h = ground arith
nullable-Matches empty h = refl
nullable-Matches (range lo hi) h = absurd (ground arith)
nullable-Matches (seq r q) h =
    ([], [], refl, nullable-Matches r (ground arith), nullable-Matches q (ground arith))
nullable-Matches (alt r q) h = elim (Bool-cases (nullable r)) [
  | inl e ↦ inl (nullable-Matches r e)
  | inr e ↦ inr (nullable-Matches q (ground arith))
]
nullable-Matches (plus r) h = ([], [], refl, nullable-Matches r h, tt)

derive-Matches : (c : ℕ) (r : Regex) (s : Bytes) → Matches (derive c r) s → Matches r (c ∷ s)
unfolding derive
derive-Matches c nothing s h = h
derive-Matches c empty s h = absurd h
derive-Matches c (range lo hi) s h = elim (Bool-cases (leb lo c && leb c hi)) [
  | inl e ↦
      let nil : s ≡ [] = rw (e, derive) at h in (c, ap (λ t. c ∷ t) nil, ground arith, ground arith)
  | inr e ↦ absurd (rw (e, derive) at h)
]
derive-Matches c (seq r q) s h = elim (Bool-cases (nullable r)) [
  | inl e ↦
      let either : Matches (seq (derive c r) q) s ⊎ Matches (derive c q) s = rw (e, derive) at h in
      elim either [
        | inl (u, v, p, m, n) ↦ (c ∷ u, v, ap (λ t. c ∷ t) p, derive-Matches c r u m, n)
        | inr m ↦ ([], c ∷ s, refl, nullable-Matches r e, derive-Matches c q s m)
      ]
  | inr e ↦
      let (u, v, p, m, n) : Matches (seq (derive c r) q) s = rw (e, derive) at h in
      (c ∷ u, v, ap (λ t. c ∷ t) p, derive-Matches c r u m, n)
]
derive-Matches c (alt r q) s (inl h) = inl (derive-Matches c r s h)
derive-Matches c (alt r q) s (inr h) = inr (derive-Matches c q s h)
derive-Matches c (plus r) s (u, v, e, m, inl n) =
    (c ∷ u, [], ap (λ t. c ∷ t) (e ∙ ap (λ t. u ++ t) n), derive-Matches c r u m, tt)
derive-Matches c (plus r) s (u, v, e, m, inr (w, ws, p, k, ks)) =
    (c ∷ u, w ∷ ws, ap (λ t. c ∷ t) (e ∙ ap (λ t. u ++ t) p), derive-Matches c r u m, (k, ks))

regex_match-Matches : (s : Bytes) (r : Regex) → regex_match s r ≡ true → Matches r s
unfolding regex_match
regex_match-Matches [] r h = nullable-Matches r h
regex_match-Matches (c ∷ s) r h = derive-Matches c r s (regex_match-Matches s (derive c r) h)

append-nil_cases : (u v : Bytes) → [] ≡ u ++ v → (u ≡ []) × (v ≡ [])
append-nil_cases [] v e = (refl, sym e)
append-nil_cases (x ∷ u) v e = absurd (ground arith)

append-cons_cases :
    (c : ℕ) (s u v : Bytes)
    → c ∷ s ≡ u ++ v
    → ((u ≡ []) × (v ≡ c ∷ s)) ⊎ ((w : Bytes) × (u ≡ c ∷ w) × (s ≡ w ++ v))
append-cons_cases c s [] v e = inl (refl, sym e)
append-cons_cases c s (x ∷ u) v e =
    inr (u, (let same : c ≡ x = cc in ap (λ y. y ∷ u) (sym same)), cc)

-- The first piece that is not empty.
first_piece :
    (P : Bytes → Type 0) (c : ℕ) (s u : Bytes) (us : List Bytes)
    → c ∷ s ≡ u ++ concat us
    → P u
    → All P us
    → (w : Bytes) × (ws : List Bytes) × (s ≡ w ++ concat ws) × P (c ∷ w) × All P ws
first_piece P c s [] [] e p ps = absurd (ground arith)
first_piece P c s [] (v ∷ vs) e p ps = first_piece P c s v vs e ps.0 ps.1
first_piece P c s (x ∷ u) us e p ps =
    let same : x ≡ c = cc in (u, us, cc, subst P (ap (λ y. y ∷ u) same) p, ps)

Matches-nullable : (r : Regex) → Matches r [] → nullable r ≡ true
unfolding nullable
Matches-nullable nothing h = absurd h
Matches-nullable empty h = refl
Matches-nullable (range lo hi) (c, e, l, u) = absurd (ground arith)
Matches-nullable (seq r q) (u, v, e, m, n) =
    let (u_nil, v_nil) = append-nil_cases u v e in
    rw (Matches-nullable r (subst (Matches r) u_nil m))
      (Matches-nullable q (subst (Matches q) v_nil n))
Matches-nullable (alt r q) (inl h) = rw (Matches-nullable r h) refl
Matches-nullable (alt r q) (inr h) = let e = Matches-nullable q h in ground arith
Matches-nullable (plus r) (u, us, e, m, n) =
    Matches-nullable r (subst (Matches r) ((append-nil_cases u (concat us) e).0) m)

Matches-derive : (c : ℕ) (r : Regex) (s : Bytes) → Matches r (c ∷ s) → Matches (derive c r) s
unfolding derive
Matches-derive c nothing s h = absurd h
Matches-derive c empty s h = absurd (ground arith)
Matches-derive c (range lo hi) s (x, e, l, u) =
    let nil : s ≡ [] = cc in
    let inside : (leb lo c && leb c hi) ≡ true = ground arith in rw (inside, derive) nil
Matches-derive c (seq r q) s (u, v, e, m, n) = elim (append-cons_cases c s u v e) [
  | inl (u_nil, v_all) ↦
      let skip = Matches-nullable r (subst (Matches r) u_nil m) in
      rw (skip, derive) (inr (Matches-derive c q s (subst (Matches q) v_all n)))
  | inr (w, u_w, rest) ↦
      let front : Matches (seq (derive c r) q) s =
        (w, v, rest, Matches-derive c r w (subst (Matches r) u_w m), n) in
      elim (Bool-cases (nullable r)) [
        | inl k ↦ rw (k, derive) (inl front)
        | inr k ↦ rw (k, derive) front
      ]
]
Matches-derive c (alt r q) s (inl h) = inl (Matches-derive c r s h)
Matches-derive c (alt r q) s (inr h) = inr (Matches-derive c q s h)
Matches-derive c (plus r) s (u, us, e, m, n) =
    let (w, ws, rest, p, ps) = first_piece (Matches r) c s u us e m n in
    (w, concat ws, rest, Matches-derive c r w p, pieces ws ps)
  where
    pieces : (ws : List Bytes) → All (Matches r) ws → Matches (alt empty (plus r)) (concat ws)
    pieces [] ps = inl refl
    pieces (v ∷ vs) ps = inr (v, vs, refl, ps.0, ps.1)

Matches-regex_match : (s : Bytes) (r : Regex) → Matches r s → regex_match s r ≡ true
unfolding regex_match
Matches-regex_match [] r h = Matches-nullable r h
Matches-regex_match (c ∷ s) r h = Matches-regex_match s (derive c r) (Matches-derive c r s h)

-- The matcher accepts a text exactly when the text is in the language of the expression.
pub regex_match_lem : (s : Bytes) (r : Regex) → (regex_match s r ≡ true) ↔ Matches r s
regex_match_lem s r = (regex_match-Matches s r, Matches-regex_match s r)

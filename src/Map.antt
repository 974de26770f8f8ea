-- ===== src/Map.antt =====
-- std::map as the sources use it: an association list that `insert` keeps in ascending order of the
-- keys, which is the order in which the range-for loops go through it.
pub mod Keys
pub mod Laws
pub mod Reports
use kvadra_top.Base.{
  ℕ, ◌≡◌, ◌⊎◌, Bool, true, false, Option, none, some, List, [], ◌∷◌, if◌then◌else◌, ◌||◌, not, All,
}

-- What std::map asks of its comparison.
pub record KeyOrder (K : Type 0) : Type 0 where
  pub less : K → K → Bool
  pub irrefl : (a : K) → less a a ≡ false
  pub trans : (a b c : K) → less a b ≡ true → less b c ≡ true → less a c ≡ true
  pub connex : (a b : K) → less a b ≡ false → less b a ≡ false → a ≡ b

module _ {K : Type 0} (o : KeyOrder K) where
  open o use {less}

  -- Two keys are one if neither is less.
  abbrev pub same : K → K → Bool
  same a b = not (less a b || less b a)

  module _ {V : Type 0} where
    -- `m.find(k)`, `m.count(k)` and `m.at(k)`.
    unfoldable pub lookup : K → List (K × V) → Option V
    lookup k [] = none
    lookup k ((j, v) ∷ m) = if same j k then some v else lookup k m

    -- `m[k] = v`.
    unfoldable pub insert : K → V → List (K × V) → List (K × V)
    insert k v [] = (k, v) ∷ []
    insert k v ((j, w) ∷ m) =
        if less k j
        then (k, v) ∷ (j, w) ∷ m
        else if less j k
        then (j, w) ∷ insert k v m
        else (j, v) ∷ m

    -- A loop over lines that enters the key and value of each line that gives them; `none` is the
    -- `continue` of the source.
    unfoldable pub fill {ℓ} :
        {L : Type ℓ} → (L → Option (K × V)) → List L → List (K × V) → List (K × V)
    unfolding insert
    fill f [] m = m
    fill f (l ∷ ls) m = fill f ls (elim (f l) [ none ↦ m | some (k, v) ↦ insert k v m ])

    -- The keys ascend, so no key stands twice.
    abbrev pub Ascending : List (K × V) → Type 0
    Ascending [] = Unit
    Ascending ((k, v) ∷ m) = All (λ e. less k e.0 ≡ true) m × Ascending m

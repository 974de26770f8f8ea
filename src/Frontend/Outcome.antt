-- ===== src/Frontend/Outcome.antt =====
-- Of the state after a step, where there is one; and what every step keeps, a run keeps.
use mathlib.Core.Path.{subst}
use kvadra_top.Base.{
  ◌≡◌, refl, Bool, true, false, Option, none, some, List, [], ◌∷◌, All, inl, inr, Option-cases,
  if◌then◌else◌,
}
use kvadra_top.Text.{Bytes}
use kvadra_top.Frontend.Page.{ReadyState, Call}
use kvadra_top.Frontend.Service.{Service, Input, step, run}

module _ {S : Type 0} (P : S → Type 0) where
  abbrev pub After : Option S → Type 0
  After none = Unit
  After (some s) = P s

  pub at_socket :
      (o : Option ReadyState) (f : ReadyState → Option S)
      → ((r : ReadyState) → o ≡ some r → After (f r))
      → After (elim o [ none ↦ none | some r ↦ f r ])
  at_socket none f h = tt
  at_socket (some r) f h = h r refl

  pub if_waiting : (b : Bool) (s : S) → P s → After (if b then some s else none)
  if_waiting true s h = h
  if_waiting false s h = tt

module _ {J : Type 0} (parse : Bytes → Option J) (throws : Call J → Bool) (P : Service J → Type 0)
    (Allowed : Input → Type 0)
    (keeps : (e : Input) (s : Service J) → Allowed e → P s → After P (step parse throws e s)) where
  pub run_keeps :
      (inputs : List Input) (s after : Service J)
      → All Allowed inputs
      → P s
      → run parse throws inputs s ≡ some after
      → P after
  unfolding run
  run_keeps [] s after a h e = subst P (let same : s ≡ after = cc in same) h
  run_keeps (x ∷ rest) s after a h e = elim (Option-cases (step parse throws x s)) [
    | inl m ↦ absurd (let k : none ≡ some after = rw (m, run) at e in cc)
    | inr (next, m) ↦
        let k : run parse throws rest next ≡ some after = rw (m, run) at e in
        run_keeps rest next after a.1 (subst (After P) m (keeps x s a.0 h)) k
  ]

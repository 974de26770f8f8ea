-- ===== src/Frontend/Page.antt =====
-- What the browser keeps for the page: its WebSockets, its timers, and the calls of the callbacks.
use kvadra_top.Base.{ℕ, zero, suc, ◌==◌, Bool, true, false, List, [], ◌∷◌, if◌then◌else◌}

-- The `readyState` of a WebSocket; `closed` from its `close` event on.
pub data ReadyState : Type 0 where
  connecting opened closing closed : ReadyState

-- A call of a callback, which is known by a number.
pub data Call (J : Type 0) : Type 0 where
  connection : ℕ → Bool → Call J
  snapshot : ℕ → J → Call J

abbrev pub is_closed : ReadyState → Bool
is_closed closed = true
is_closed _ = false

module _ {A : Type 0} where
  abbrev pub set_at : ℕ → A → List A → List A
  set_at i a [] = []
  set_at zero a (x ∷ xs) = a ∷ xs
  set_at (suc i) a (x ∷ xs) = x ∷ set_at i a xs

abbrev pub without : ℕ → List ℕ → List ℕ
without t [] = []
without t (x ∷ xs) = if x == t then without t xs else x ∷ without t xs

abbrev pub has : ℕ → List ℕ → Bool
has t [] = false
has t (x ∷ xs) = if x == t then true else has t xs

-- `close()` of a WebSocket: its `close` event comes later.
abbrev pub closing_from : ReadyState → ReadyState
closing_from connecting = closing
closing_from opened = closing
closing_from closing = closing
closing_from closed = closed

-- forEach over the callbacks stops at the first that throws. The result says whether one did.
module _ {J : Type 0} (throws : Call J → Bool) where
  unfoldable pub for_each : List (Call J) → List (Call J) × Bool
  for_each [] = ([], false)
  for_each (c ∷ cs) =
      let rest = for_each cs in if throws c then (c ∷ [], true) else (c ∷ rest.0, rest.1)

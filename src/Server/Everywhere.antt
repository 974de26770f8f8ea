-- ===== src/Server/Everywhere.antt =====
-- What every handler of a session keeps holds of every session of the server.
use kvadra_top.Base.{
  ◌&&◌, ℕ, zero, suc, ◌≡◌, inl, inr, Bool, true, false, Option, none, some, List, [], ◌∷◌, All,
  All-append, get_elem?, Bool-cases, Option-cases, arith,
}
use mathlib.Core.Path.{subst}
use kvadra_top.Text.{Bytes}
use kvadra_top.Server.Session.{Session, Change, Event, start, send, handle}
use kvadra_top.Server.Registry.{while_running}
use kvadra_top.Server.Hub.{
  Hub, Action, accepts, handles, broadcasts, launch, modify, lock, send_all, broadcast, on_accept,
  on_event, apply_change, step, run,
}

-- Of the session after a handler, where the handler runs.
abbrev pub After : (Session → Type 0) → Option (Session × Change) → Type 0
After P none = Unit
After P (some (after, c)) = P after

module _ (P : Session → Type 0) (P_start : (root : Bytes) → P (start root))
    (P_send : (m : Bytes) (s : Session) → P s → P (send m s))
    (P_handle : (e : Event) (s : Session) → P s → After P (handle e s)) where
  at_index : (ss : List Session) (i : ℕ) (s : Session) → get_elem? ss i ≡ some s → All P ss → P s
  at_index [] i s e h = absurd (ground arith)
  at_index (x ∷ ss) zero s e h = let same : x ≡ s = cc in subst P same h.0
  at_index (x ∷ ss) (suc i) s e h = at_index ss i s e h.1

  All-modify :
      (i : ℕ) (f : Session → Session) (ss : List Session)
      → ((s : Session) → P s → P (f s))
      → All P ss
      → All P (modify i f ss)
  All-modify i f [] k h = tt
  All-modify zero f (x ∷ ss) k h = (k x h.0, h.1)
  All-modify (suc i) f (x ∷ ss) k h = (h.0, All-modify i f ss k h.1)

  All-send_all : (m : Bytes) (is : List ℕ) (ss : List Session) → All P ss → All P (send_all m is ss)
  unfolding send_all
  All-send_all m [] ss h = h
  All-send_all m (i ∷ is) ss h = elim (Bool-cases (lock ss i)) [
    | inl e ↦
        rw (e, send_all)
          (All-send_all m is (modify i (send m) ss) (All-modify i (send m) ss (P_send m) h))
    | inr e ↦ rw (e, send_all) (All-send_all m is ss h)
  ]

  abbrev Holds : Option Hub → Type 0
  Holds none = Unit
  Holds (some h) = All P h.sessions

  on_event-Holds : (i : ℕ) (e : Event) (h : Hub) → All P h.sessions → Holds (on_event i e h)
  unfolding on_event apply_change
  on_event-Holds i e h v = elim (Option-cases (get_elem? h.sessions i)) [
    | inl n ↦ rw (n, Holds, on_event) tt
    | inr (s, n) ↦ elim (Option-cases (handle e s)) [
      | inl m ↦ rw (n, Holds, on_event, m) tt
      | inr ((after, c), m) ↦
          let kept : P after = subst (After P) m (P_handle e s (at_index h.sessions i s n v)) in
          rw (n, Holds, on_event, m) (All-modify i (λ _. after) h.sessions (λ _ _. kept) v)
    ]
  ]

  on_accept-Holds :
      (success : Bool) (h : Hub) → All P h.sessions → All P (on_accept success h).sessions
  unfolding on_accept
  on_accept-Holds false h v = v
  on_accept-Holds true h v =
      All-append P h.sessions (start h.static_root ∷ []) v (P_start h.static_root, tt)

  step-Holds : (a : Action) (h : Hub) → All P h.sessions → Holds (step a h)
  unfolding step broadcast
  step-Holds (accepts success) h v =
      while_running Holds (h.running && h.accepting) (some (on_accept success h)) tt
        (on_accept-Holds success h v)
  step-Holds (handles i e) h v =
      while_running Holds h.running (on_event i e h) tt (on_event-Holds i e h v)
  step-Holds (broadcasts m) h v = All-send_all m h.registry h.sessions v

  run-Holds :
      (actions : List Action) (h after : Hub)
      → All P h.sessions
      → run actions h ≡ some after
      → All P after.sessions
  unfolding run
  run-Holds [] h after v e =
      let same : h ≡ after = cc in subst (λ (x : Hub). All P x.sessions) same v
  run-Holds (a ∷ rest) h after v e = elim (Option-cases (step a h)) [
    | inl n ↦ absurd (let k : none ≡ some after = rw (n, run) at e in cc)
    | inr (next, n) ↦
        let k : run rest next ≡ some after = rw (n, run) at e in
        run-Holds rest next after (subst Holds n (step-Holds a h v)) k
  ]

  pub everywhere :
      (root : Bytes) (actions : List Action) (h : Hub) (i : ℕ) (s : Session)
      → run actions (launch root) ≡ some h
      → get_elem? h.sessions i ≡ some s
      → P s
  unfolding launch
  everywhere root actions h i s e n =
      at_index h.sessions i s n (run-Holds actions (launch root) h tt e)

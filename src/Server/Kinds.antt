-- ===== src/Server/Kinds.antt =====
-- A connection is used in one of two ways: over HTTP or for messages.
use mathlib.Core.Path.{subst}
use kvadra_top.Base.{
  ◌&&◌, ℕ, zero, suc, ◌≡◌, refl, ap, sym, ◌⊎◌, inl, inr, Bool, true, false, Option, none, some,
  List, [], ◌∷◌, ◌++◌, ◌==◌, get_elem?, arith, Bool-cases, Option-cases, ==_iff,
}
use kvadra_top.Text.{Bytes}
use kvadra_top.Server.Session.{Session, Change, Event, start, send, is_alive, handle}
use kvadra_top.Server.Hub.{
  Hub, member, launch, Action, accepts, handles, broadcasts, step, run, on_accept, do_accept,
  on_event, replaced, apply_change,
}
use kvadra_top.Server.Queue.{history}
use kvadra_top.Server.Registration.{
  get_elem?-modify, get_elem?-modify_other, deliver, broadcast_lem,
}
use kvadra_top.Server.Handshake.{Agrees, IsFresh}
use kvadra_top.Server.Registry.{while_running, IsConsistent, launch-IsConsistent, StaysConsistent}
use kvadra_top.Server.Reachable.{step-IsConsistent}
use kvadra_top.Server.Apart.{is_closing, Apart, After, handle-After}

abbrev Separate : Option Session → Type 0
Separate none = Unit
Separate (some s) = Apart s.phase s

accepted-Separate :
    (root : Bytes) (ss : List Session) (i : ℕ)
    → Separate (get_elem? ss i)
    → Separate (get_elem? (ss ++ start root ∷ []) i)
unfolding start
accepted-Separate root [] zero h = inl refl
accepted-Separate root [] (suc i) h = tt
accepted-Separate root (x ∷ ss) zero h = h
accepted-Separate root (x ∷ ss) (suc i) h = accepted-Separate root ss i h

-- A registered session waits for frames, so it has no response.
deliver-Separate :
    (m : Bytes) (b : Bool) (o : Option Session) → Agrees o b → Separate o → Separate (deliver m b o)
unfolding send
deliver-Separate m b none a h = tt
deliver-Separate m false (some s) a h = h
deliver-Separate m true (some s) a (inr (c, f)) =
    absurd (let same = ap is_closing (a.0 refl) in ground arith)
deliver-Separate m true (some s) a (inl nil) = elim (Bool-cases (is_alive s)) [
  | inl e ↦ rw e (inl nil)
  | inr e ↦ rw e (inl nil)
]

module _ (i : ℕ) where
  abbrev IsSeparate : Option Hub → Type 0
  IsSeparate none = Unit
  IsSeparate (some h) = Separate (get_elem? h.sessions i)

  replaced-IsSeparate :
      (j : ℕ) (h : Hub) (s after : Session) (c : Change)
      → get_elem? h.sessions j ≡ some s
      → (Separate (some s) → Apart after.phase after)
      → IsSeparate (some h)
      → IsSeparate (some (replaced j h (after, c)))
  unfolding apply_change
  replaced-IsSeparate j h s after c n next v = elim (Bool-cases (i == j)) [
    | inl q ↦
        let i_j = (==_iff i j).0 q in
        let here : get_elem? h.sessions i ≡ some s =
          subst (λ k. get_elem? h.sessions k ≡ some s) (sym i_j) n in
        rw (i_j, get_elem?-modify j (λ _. after) h.sessions s n) (next (subst Separate here v))
    | inr q ↦ rw (get_elem?-modify_other j i (λ _. after) h.sessions q) v
  ]

  on_event-IsSeparate :
      (j : ℕ) (e : Event) (h : Hub)
      → IsConsistent h
      → IsSeparate (some h)
      → IsSeparate (on_event j e h)
  unfolding on_event
  on_event-IsSeparate j e h w v = elim (Option-cases (get_elem? h.sessions j)) [
    | inl n ↦ rw (n, IsSeparate, on_event) tt
    | inr (s, n) ↦ elim (Option-cases (handle e s)) [
      | inl m ↦ rw (n, IsSeparate, on_event, m) tt
      | inr ((after, c), m) ↦
          let agrees = subst (λ o. Agrees o (member j h.registry)) n (w.1 j) in
          rw (n, IsSeparate, on_event, m)
            (replaced-IsSeparate j h s after c n
              (λ a. subst After m (handle-After e s a (λ o. agrees.1 o))) v)
    ]
  ]

  step-IsSeparate :
      (a : Action) (h : Hub) → IsConsistent h → IsSeparate (some h) → IsSeparate (step a h)
  unfolding step on_accept do_accept
  step-IsSeparate (accepts false) h w v =
      while_running IsSeparate (h.running && h.accepting) (some (on_accept false h)) tt v
  step-IsSeparate (accepts true) h w v =
      while_running IsSeparate (h.running && h.accepting) (some (on_accept true h)) tt
        (accepted-Separate h.static_root h.sessions i v)
  step-IsSeparate (handles j e) h w v =
      while_running IsSeparate h.running (on_event j e h) tt (on_event-IsSeparate j e h w v)
  step-IsSeparate (broadcasts m) h w v =
      subst Separate (sym (broadcast_lem m h i w.0).0)
        (deliver-Separate m (member i h.registry) (get_elem? h.sessions i) (w.1 i) v)

  run-IsSeparate :
      (actions : List Action) (h after : Hub)
      → IsConsistent h
      → IsSeparate (some h)
      → run actions h ≡ some after
      → IsSeparate (some after)
  unfolding run
  run-IsSeparate [] h after w v e =
      let same : h ≡ after = cc in subst (λ x. IsSeparate (some x)) same v
  run-IsSeparate (a ∷ rest) h after w v e = elim (Option-cases (step a h)) [
    | inl n ↦ absurd (let k : none ≡ some after = rw (n, run) at e in cc)
    | inr (next, n) ↦
        let k : run rest next ≡ some after = rw (n, run) at e in
        run-IsSeparate rest next after (subst StaysConsistent n (step-IsConsistent a h w))
          (subst IsSeparate n (step-IsSeparate a h w v)) k
  ]

no_history : (s : Session) → IsFresh s → history s ≡ []
no_history s f = rw (f.0, f.2, f.3) refl

-- In every state that the server reaches, no connection is served both ways: it has been given no
-- response over HTTP, or no message.
pub served_one_way :
    (root : Bytes) (actions : List Action) (h : Hub) (i : ℕ) (s : Session)
    → run actions (launch root) ≡ some h
    → get_elem? h.sessions i ≡ some s
    → (s.replies ≡ []) ⊎ (history s ≡ [])
unfolding launch
served_one_way root actions h i s e n =
    elim (subst Separate n
      (run-IsSeparate i actions (launch root) h (launch-IsConsistent root) tt e)) [
        | inl nil ↦ inl nil
        | inr (c, f) ↦ inr (no_history s f)
      ]

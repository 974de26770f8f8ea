-- ===== src/Server/Reachable.antt =====
-- Broadcasts, in the states that the server can reach.
use mathlib.Core.Path.{subst}
use kvadra_top.Base.{
  ℕ, ◌≡◌, refl, ◌∙◌, ap, sym, inl, inr, Bool, true, false, ◌&&◌, none, some, List, [], ◌∷◌, ◌++◌,
  get_elem?, arith, Bool-cases, Option-cases, append-nil,
}
use kvadra_top.Text.{Bytes}
use kvadra_top.Server.Session.{Session, send}
use kvadra_top.Server.Hub.{
  Hub, member, lock, broadcast, launch, Action, accepts, handles, broadcasts, step, run, on_accept,
  on_event,
}
use kvadra_top.Server.Queue.{history, IsValid}
use kvadra_top.Server.Delivery.{history-send}
use kvadra_top.Server.Registration.{lock-some, deliver, broadcast_lem}
use kvadra_top.Server.Handshake.{is_opening, Agrees, reading-alive, settled-Agrees}
use kvadra_top.Server.Registry.{
  while_running, IsConsistent, launch-IsConsistent, get_elem?-accepted, StaysConsistent,
  on_event-IsConsistent,
}

-- In a consistent hub a registered session lives.
pub registered-alive :
    (h : Hub) (i : ℕ)
    → IsConsistent h
    → (member i h.registry && lock h.sessions i) ≡ member i h.registry
registered-alive h i v = elim (Bool-cases (member i h.registry)) [
  | inr r ↦ rw r refl
  | inl r ↦ elim (Option-cases (get_elem? h.sessions i)) [
    | inl n ↦ absurd (
        let a : member i h.registry ≡ false =
          subst (λ o. Agrees o (member i h.registry)) n (v.1 i) in
        ground arith)
    | inr (s, n) ↦
        let a = subst (λ o. Agrees o (member i h.registry)) n (v.1 i) in
        rw r (lock-some h.sessions i s n ∙ reading-alive s (a.0 r))
  ]
]

-- What a broadcast adds to the messages of a session.
abbrev pub added : Bytes → Bool → List Bytes
added m true = m ∷ []
added m false = []

pub deliver-Agrees :
    (m : Bytes) (b : Bool) (s : Session)
    → Agrees (some s) b
    → (after : Session) × (deliver m b (some s) ≡ some after)
      × Agrees (some after) b
      × (history after ≡ history s ++ added m b)
      × (after.sent ≡ s.sent)
      × (IsValid s → IsValid after)
unfolding send
deliver-Agrees m false s a = (s, refl, a, sym (append-nil (history s)), refl, λ v. v)
deliver-Agrees m true s a = (
  send m s,
  rw (reading-alive s (a.0 refl)) refl,
  settled-Agrees s (send m s) true (ap is_opening (a.0 refl)) refl a.0,
  history-send m s,
  refl,
  λ v. v,
)

broadcast-IsConsistent : (m : Bytes) (h : Hub) → IsConsistent h → IsConsistent (broadcast m h)
broadcast-IsConsistent m h v = (
  (broadcast_lem m h 0 v.0).2,
  λ i.
      let (posts, stays, u) = broadcast_lem m h i v.0 in
      rw (posts, stays, registered-alive h i v)
        (elim (Option-cases (get_elem? h.sessions i)) [
          | inl n ↦ rw n (subst (λ o. Agrees o (member i h.registry)) n (v.1 i))
          | inr (s, n) ↦
              let (after, e, a, more, same, valid) =
                deliver-Agrees m (member i h.registry) s
                  (subst (λ o. Agrees o (member i h.registry)) n (v.1 i)) in
              rw n (subst (λ o. Agrees o (member i h.registry)) (sym e) a)
        ]),
)

on_accept-IsConsistent : (ok : Bool) (h : Hub) → IsConsistent h → IsConsistent (on_accept ok h)
unfolding on_accept
on_accept-IsConsistent false h v = v
on_accept-IsConsistent true h v =
    (v.0, get_elem?-accepted h.static_root h.sessions (λ i. member i h.registry) v.1)

pub step-IsConsistent : (a : Action) (h : Hub) → IsConsistent h → StaysConsistent (step a h)
unfolding step
step-IsConsistent (accepts ok) h v =
    while_running StaysConsistent (h.running && h.accepting) (some (on_accept ok h)) tt
      (on_accept-IsConsistent ok h v)
step-IsConsistent (handles i e) h v =
    while_running StaysConsistent h.running (on_event i e h) tt (on_event-IsConsistent i e h v)
step-IsConsistent (broadcasts m) h v = broadcast-IsConsistent m h v

pub run-IsConsistent :
    (actions : List Action) (h after : Hub)
    → IsConsistent h
    → run actions h ≡ some after
    → IsConsistent after
unfolding run
run-IsConsistent [] h after v e = subst IsConsistent (let same : h ≡ after = cc in same) v
run-IsConsistent (a ∷ rest) h after v e = elim (Option-cases (step a h)) [
  | inl n ↦ absurd (let k : none ≡ some after = rw (n, run) at e in cc)
  | inr (next, n) ↦
      let k : run rest next ≡ some after = rw (n, run) at e in
      run-IsConsistent rest next after (subst StaysConsistent n (step-IsConsistent a h v)) k
]

-- In every state that the server reaches: no session is registered twice; a registered session has
-- completed its handshake and waits for frames of its client; and a session whose handshake is not
-- over has been given no message.
pub reachable-IsConsistent :
    (root : Bytes) (actions : List Action) (h : Hub)
    → run actions (launch root) ≡ some h
    → IsConsistent h
reachable-IsConsistent root actions h e =
    run-IsConsistent actions (launch root) h (launch-IsConsistent root) e

-- In every state that the server reaches, a broadcast adds its message, once and as the last, to the
-- messages given to each registered session, and adds nothing to those of any other session; it sends
-- nothing by itself, and it leaves the registry as it was.
pub broadcast_delivers :
    (root : Bytes) (actions : List Action) (h : Hub) (m : Bytes) (i : ℕ) (s : Session)
    → run actions (launch root) ≡ some h
    → get_elem? h.sessions i ≡ some s
    → (after : Session) × (get_elem? (broadcast m h).sessions i ≡ some after)
      × (history after ≡ history s ++ added m (member i h.registry))
      × (after.sent ≡ s.sent)
      × (member i (broadcast m h).registry ≡ member i h.registry)
broadcast_delivers root actions h m i s e n =
    let v = reachable-IsConsistent root actions h e in
    let (posts, stays, u) = broadcast_lem m h i v.0 in
    let (after, d, a, more, same, valid) =
      deliver-Agrees m (member i h.registry) s
        (subst (λ o. Agrees o (member i h.registry)) n (v.1 i)) in
    (
      after,
      posts ∙ ap (deliver m (member i h.registry)) n ∙ d,
      more,
      same,
      stays ∙ registered-alive h i v,
    )

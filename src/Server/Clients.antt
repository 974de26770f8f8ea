-- ===== src/Server/Clients.antt =====
-- What one client is given over a whole run of the server.
use mathlib.Core.Path.{subst}
use kvadra_top.Base.{
  ◌&&◌, ℕ, zero, suc, ◌≡◌, refl, ◌∙◌, ap, sym, inl, inr, Bool, true, false, Option, none, some,
  List, [], ◌∷◌, ◌++◌, ◌==◌, get_elem?, arith, Bool-cases, Option-cases, append-nil, append_assoc,
  ==_iff,
}
use kvadra_top.Text.{Bytes}
use kvadra_top.Server.Session.{Session, Change, Event, start, handle}
use kvadra_top.Server.Hub.{
  Hub, member, broadcast, launch, Action, accepts, handles, broadcasts, step, run, on_accept,
  do_accept, on_event, replaced, apply_change,
}
use kvadra_top.Server.Queue.{history, IsValid, start-IsValid, handle-IsValid}
use kvadra_top.Server.Registration.{
  get_elem?-modify, get_elem?-modify_other, deliver, broadcast_lem,
}
use kvadra_top.Server.Handshake.{Agrees, changed}
use kvadra_top.Server.Registry.{
  while_running, IsConsistent, launch-IsConsistent, StaysConsistent, member-change,
  member-change_other,
}
use kvadra_top.Server.Reachable.{added, deliver-Agrees, step-IsConsistent, registered-alive}
use kvadra_top.Server.Listening.{listens_after, listens, said, heard, Toggles, handle-Toggles}

abbrev Tracks : Option Session → Bool → List Bytes → Type 0
Tracks none b msgs = (b ≡ false) × (msgs ≡ [])
Tracks (some s) b msgs = IsValid s × (history s ≡ msgs)

Tracks-accepted :
    (root : Bytes) (ss : List Session) (i : ℕ) (b : Bool) (msgs : List Bytes)
    → Tracks (get_elem? ss i) b msgs
    → Tracks (get_elem? (ss ++ start root ∷ []) i) b msgs
unfolding start
Tracks-accepted root [] zero b msgs t = (start-IsValid root, sym t.1)
Tracks-accepted root [] (suc i) b msgs t = t
Tracks-accepted root (x ∷ ss) zero b msgs t = t
Tracks-accepted root (x ∷ ss) (suc i) b msgs t = Tracks-accepted root ss i b msgs t

module _ (i : ℕ) where
  -- Client `i` has been given the messages, and is registered or not.
  abbrev View : Bool → List Bytes → Hub → Type 0
  View b msgs h = Tracks (get_elem? h.sessions i) b msgs × (member i h.registry ≡ b)

  abbrev Viewed : Bool → List Bytes → Option Hub → Type 0
  Viewed b msgs none = Unit
  Viewed b msgs (some h) = View b msgs h

  broadcast-View :
      (m : Bytes) (h : Hub) (b : Bool) (msgs : List Bytes)
      → IsConsistent h
      → View b msgs h
      → View b (msgs ++ added m b) (broadcast m h)
  broadcast-View m h b msgs v (t, r) =
      let (posts, stays, u) = broadcast_lem m h i v.0 in
      (
        subst (λ o. Tracks o b (msgs ++ added m b)) (sym posts)
            (rw r (
              told (get_elem? h.sessions i) t (subst (Agrees (get_elem? h.sessions i)) r (v.1 i)))),
        stays ∙ registered-alive h i v ∙ r,
      )
    where
      told :
          (o : Option Session)
          → Tracks o b msgs
          → Agrees o b
          → Tracks (deliver m b o) b (msgs ++ added m b)
      told none (off, nil) a = (off, rw (off, nil) refl)
      told (some s) (valid, e) a =
          let (after, d, a', more, same, keeps) = deliver-Agrees m b s a in
          subst (λ o. Tracks o b (msgs ++ added m b)) (sym d)
            (keeps valid, more ∙ ap (λ l. l ++ added m b) e)

  replaced-View :
      (j : ℕ) (e : Event) (h : Hub) (s after : Session) (c : Change) (b : Bool) (msgs : List Bytes)
      → get_elem? h.sessions j ≡ some s
      → handle e s ≡ some (after, c)
      → IsConsistent h
      → View b msgs h
      → View (listens i (handles j e) b) msgs (replaced j h (after, c))
  unfolding apply_change
  replaced-View j e h s after c b msgs n run v (t, r) = elim (Bool-cases (j == i)) [
    | inl q ↦
        let j_i : j ≡ i = (==_iff j i).0 q in
        let at : get_elem? h.sessions i ≡ some s =
          subst (λ k. get_elem? h.sessions k ≡ some s) j_i n in
        let (valid, same) : Tracks (some s) b msgs = subst (λ o. Tracks o b msgs) at t in
        let (valid', same') = handle-IsValid e s after c valid run in
        let toggled : changed c b ≡ listens_after e b =
          subst (Toggles e b) run (handle-Toggles e s b) in
        rw (q, j_i)
          (
            subst (λ o. Tracks o (listens_after e b) msgs)
                (sym (get_elem?-modify i (λ _. after) h.sessions s at)) (valid', same' ∙ same),
            member-change c i h.registry v.0 ∙ ap (changed c) r ∙ toggled,
          )
    | inr q ↦
        let apart : (i == j) ≡ false = ground arith in
        rw q (
          subst (λ o. Tracks o b msgs)
              (sym (get_elem?-modify_other j i (λ _. after) h.sessions apart)) t,
          member-change_other c j i h.registry v.0 apart ∙ r,
        )
  ]

  on_event-View :
      (j : ℕ) (e : Event) (h : Hub) (b : Bool) (msgs : List Bytes)
      → IsConsistent h
      → View b msgs h
      → Viewed (listens i (handles j e) b) msgs (on_event j e h)
  unfolding on_event
  on_event-View j e h b msgs v w = elim (Option-cases (get_elem? h.sessions j)) [
    | inl n ↦ rw (n, Viewed, on_event) tt
    | inr (s, n) ↦ elim (Option-cases (handle e s)) [
      | inl m ↦ rw (n, Viewed, on_event, m) tt
      | inr ((after, c), m) ↦
          rw (n, Viewed, on_event, m) (replaced-View j e h s after c b msgs n m v w)
    ]
  ]

  same_messages : (b : Bool) (msgs : List Bytes) (h : Hub) → View b msgs h → View b (msgs ++ []) h
  same_messages b msgs h w = subst (λ l. View b l h) (sym (append-nil msgs)) w

  step-View :
      (a : Action) (h : Hub) (b : Bool) (msgs : List Bytes)
      → IsConsistent h
      → View b msgs h
      → Viewed (listens i a b) (msgs ++ said a b) (step a h)
  unfolding step on_accept do_accept
  step-View (accepts false) h b msgs v w =
      while_running (Viewed b (msgs ++ [])) (h.running && h.accepting) (some (on_accept false h)) tt
        (same_messages b msgs h w)
  step-View (accepts true) h b msgs v w =
      while_running (Viewed b (msgs ++ [])) (h.running && h.accepting) (some (on_accept true h)) tt
        (same_messages b msgs (on_accept true h)
          (Tracks-accepted h.static_root h.sessions i b msgs w.0, w.1))
  step-View (handles j e) h b msgs v w =
      subst (λ l. Viewed (listens i (handles j e) b) l (step (handles j e) h))
        (sym (append-nil msgs))
        (while_running (Viewed (listens i (handles j e) b) msgs) h.running (on_event j e h) tt
          (on_event-View j e h b msgs v w))
  step-View (broadcasts m) h b msgs v w = broadcast-View m h b msgs v w

  run-View :
      (actions : List Action) (h after : Hub) (b : Bool) (msgs : List Bytes)
      → IsConsistent h
      → View b msgs h
      → run actions h ≡ some after
      → (now : Bool) × View now (msgs ++ heard i b actions) after
  unfolding run
  run-View [] h after b msgs v w e =
      let same : h ≡ after = cc in (b, subst (View b (msgs ++ [])) same (same_messages b msgs h w))
  run-View (a ∷ rest) h after b msgs v w e = elim (Option-cases (step a h)) [
    | inl n ↦ absurd (let k : none ≡ some after = rw (n, run) at e in cc)
    | inr (next, n) ↦
        let k : run rest next ≡ some after = rw (n, run) at e in
        let (now, seen) =
          run-View rest next after (listens i a b) (msgs ++ said a b)
            (subst StaysConsistent n (step-IsConsistent a h v))
            (subst (Viewed (listens i a b) (msgs ++ said a b)) n (step-View a h b msgs v w)) k in
        (
          now,
          subst (λ l. View now l after)
              (append_assoc msgs (said a b) (heard i (listens i a b) rest)) seen,
        )
  ]

-- Over a whole run of the server: what a client was sent, its queue and its posted messages together
-- are the messages that were broadcast while it listened, in order: from the end of its handshake
-- until a read or a write failed. At most one write is outstanding, that of the front of the queue.
pub run-heard :
    (root : Bytes) (actions : List Action) (h : Hub) (i : ℕ) (s : Session)
    → run actions (launch root) ≡ some h
    → get_elem? h.sessions i ≡ some s
    → (s.sent ++ (s.queue ++ s.posted) ≡ heard i false actions) × IsValid s
unfolding launch member
run-heard root actions h i s e n =
    let (now, (t, r)) =
      run-View i actions (launch root) h false [] (launch-IsConsistent root) ((refl, refl), refl)
        e in
    let (valid, same) : Tracks (some s) now (heard i false actions) =
      subst (λ o. Tracks o now (heard i false actions)) n t in
    (same, valid)

-- ===== src/Server/Answers.antt =====
-- What a connection is answered over HTTP in a whole run of the server.
use mathlib.Core.Path.{subst}
use kvadra_top.Base.{
  ◌&&◌, ℕ, zero, suc, ◌≤◌, ◌≡◌, refl, ◌∙◌, sym, inl, inr, true, false, Option, none, some, List, [],
  ◌∷◌, ◌++◌, ◌==◌, length, get_elem?, arith, Bool-cases, Option-cases, append_assoc, ==_iff,
}
use kvadra_top.Text.{Bytes}
use kvadra_top.Http.{Response}
use kvadra_top.Server.Session.{Session, Change, Event, start, send, handle, ws_reading}
use kvadra_top.Server.Hub.{
  Hub, modify, lock, send_all, broadcast, launch, Action, accepts, handles, broadcasts, step, run,
  on_accept, do_accept, on_event, replaced, apply_change,
}
use kvadra_top.Server.Registry.{while_running}
use kvadra_top.Server.Registration.{get_elem?-modify, get_elem?-modify_other}
use kvadra_top.Server.Replies.{
  Answered, Moves, Fits, few, no_answer, answer, answer_of, answers, handle-Moves,
}

module _ (root : Bytes) where
  accepted-Answered :
      (ss : List Session) (i : ℕ) (rs : List Response)
      → Answered root rs (get_elem? ss i)
      → Answered root rs (get_elem? (ss ++ start root ∷ []) i)
  unfolding start
  accepted-Answered [] zero rs h = (refl, sym h, h)
  accepted-Answered [] (suc i) rs h = h
  accepted-Answered (x ∷ ss) zero rs h = h
  accepted-Answered (x ∷ ss) (suc i) rs h = accepted-Answered ss i rs h

  sent-Answered :
      (m : Bytes) (ss : List Session) (i j : ℕ) (rs : List Response)
      → Answered root rs (get_elem? ss i)
      → Answered root rs (get_elem? (modify j (send m) ss) i)
  unfolding send
  sent-Answered m [] i j rs h = h
  sent-Answered m (x ∷ ss) zero zero rs h = h
  sent-Answered m (x ∷ ss) zero (suc j) rs h = h
  sent-Answered m (x ∷ ss) (suc i) zero rs h = h
  sent-Answered m (x ∷ ss) (suc i) (suc j) rs h = sent-Answered m ss i j rs h

  send_all-Answered :
      (m : Bytes) (is : List ℕ) (ss : List Session) (i : ℕ) (rs : List Response)
      → Answered root rs (get_elem? ss i)
      → Answered root rs (get_elem? (send_all m is ss) i)
  unfolding send_all
  send_all-Answered m [] ss i rs h = h
  send_all-Answered m (j ∷ is) ss i rs h = elim (Bool-cases (lock ss j)) [
    | inl e ↦
        rw (e, send_all)
          (send_all-Answered m is (modify j (send m) ss) i rs (sent-Answered m ss i j rs h))
    | inr e ↦ rw (e, send_all) (send_all-Answered m is ss i rs h)
  ]

  module _ (i : ℕ) where
    abbrev Serves : List Response → Option Hub → Type 0
    Serves rs none = Unit
    Serves rs (some h) = (h.static_root ≡ root) × Answered root rs (get_elem? h.sessions i)

    replaced-Serves :
        (j : ℕ) (e : Event) (h : Hub) (s after : Session) (c : Change) (rs : List Response)
        → get_elem? h.sessions j ≡ some s
        → handle e s ≡ some (after, c)
        → Serves rs (some h)
        → Serves (rs ++ answer_of root i (handles j e)) (some (replaced j h (after, c)))
    unfolding apply_change
    replaced-Serves j e h s after c rs n ran (at, answered) = elim (Bool-cases (j == i)) [
      | inl q ↦
          let here : get_elem? h.sessions i ≡ some s =
            subst (λ k. get_elem? h.sessions k ≡ some s) ((==_iff j i).0 q) n in
          let moved =
            subst (Moves root rs e) ran
              (handle-Moves root e s rs (subst (Answered root rs) here answered)) in
          rw (q, (==_iff j i).0 q)
            (
              at,
              subst (Answered root (rs ++ answer root e))
                  (sym (get_elem?-modify i (λ _. after) h.sessions s here)) moved,
            )
      | inr q ↦
          let apart : (i == j) ≡ false = ground arith in
          rw q (
            at,
            subst (Answered root (rs ++ []))
                (sym (get_elem?-modify_other j i (λ _. after) h.sessions apart))
                (no_answer root rs (get_elem? h.sessions i) answered),
          )
    ]

    on_event-Serves :
        (j : ℕ) (e : Event) (h : Hub) (rs : List Response)
        → Serves rs (some h)
        → Serves (rs ++ answer_of root i (handles j e)) (on_event j e h)
    unfolding on_event
    on_event-Serves j e h rs v = elim (Option-cases (get_elem? h.sessions j)) [
      | inl n ↦ rw (n, Serves, on_event) tt
      | inr (s, n) ↦ elim (Option-cases (handle e s)) [
        | inl m ↦ rw (n, Serves, on_event, m) tt
        | inr ((after, c), m) ↦
            rw (n, Serves, on_event, m) (replaced-Serves j e h s after c rs n m v)
      ]
    ]

    step-Serves :
        (a : Action) (h : Hub) (rs : List Response)
        → Serves rs (some h)
        → Serves (rs ++ answer_of root i a) (step a h)
    unfolding step on_accept do_accept broadcast
    step-Serves (accepts false) h rs (at, v) =
        while_running (Serves (rs ++ [])) (h.running && h.accepting) (some (on_accept false h)) tt
          (at, no_answer root rs (get_elem? h.sessions i) v)
    step-Serves (accepts true) h rs (at, v) =
        while_running (Serves (rs ++ [])) (h.running && h.accepting) (some (on_accept true h)) tt (
          at,
          subst (λ r. Answered root (rs ++ []) (get_elem? (h.sessions ++ start r ∷ []) i)) (sym at)
              (no_answer root rs (get_elem? (h.sessions ++ start root ∷ []) i)
                (accepted-Answered h.sessions i rs v)),
        )
    step-Serves (handles j e) h rs v =
        while_running (Serves (rs ++ answer_of root i (handles j e))) h.running (on_event j e h) tt
          (on_event-Serves j e h rs v)
    step-Serves (broadcasts m) h rs (at, v) = (
      at,
      no_answer root rs (get_elem? (send_all m h.registry h.sessions) i)
          (send_all-Answered m h.registry h.sessions i rs v),
    )

    run-Serves :
        (actions : List Action) (h after : Hub) (rs : List Response)
        → Serves rs (some h)
        → run actions h ≡ some after
        → Serves (rs ++ answers root i actions) (some after)
    unfolding run
    run-Serves [] h after rs v e =
        let same : h ≡ after = cc in
        subst (λ x. Serves (rs ++ []) (some x)) same
          (v.0, no_answer root rs (get_elem? h.sessions i) v.1)
    run-Serves (a ∷ rest) h after rs v e = elim (Option-cases (step a h)) [
      | inl n ↦ absurd (let k : none ≡ some after = rw (n, run) at e in cc)
      | inr (next, n) ↦
          let k : run rest next ≡ some after = rw (n, run) at e in
          let served = subst (Serves (rs ++ answer_of root i a)) n (step-Serves a h rs v) in
          subst (λ l. Serves l (some after))
            (append_assoc rs (answer_of root i a) (answers root i rest))
            (run-Serves rest next after (rs ++ answer_of root i a) served k)
    ]

  -- Over a whole run of the server: the responses of a connection over HTTP are those of serve_file to
  -- its requests, under the root that the server was built with and with the files as they were at
  -- the request. There is one at most, and none where the connection waits for frames.
  pub run-answers :
      (actions : List Action) (h : Hub) (i : ℕ) (s : Session)
      → run actions (launch root) ≡ some h
      → get_elem? h.sessions i ≡ some s
      → (s.replies ≡ answers root i actions)
        × (length s.replies ≤ 1)
        × (s.phase ≡ ws_reading → s.replies ≡ [])
  unfolding launch
  run-answers actions h i s e n =
      let (at, v) = run-Serves i actions (launch root) h [] (refl, refl) e in
      let (r, same, fits) : Answered root (answers root i actions) (some s) =
        subst (Answered root (answers root i actions)) n v in
      (
        same,
        subst (λ l. length l ≤ 1) (sym same) (few s.phase (answers root i actions) fits),
        λ p. same ∙ subst (λ p. Fits p (answers root i actions)) p fits,
      )

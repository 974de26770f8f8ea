-- ===== src/Frontend/Told.antt =====
-- What the callback of main.ts for snapshots is told.
use mathlib.Core.Path.{subst}
use kvadra_top.Base.{
  ℕ, ◌≡◌, refl, sym, ◌∙◌, inl, inr, Bool, true, false, Option, none, some, List, [], ◌∷◌, ◌++◌,
  append-nil, append_assoc, get_elem?, Option-cases,
}
use kvadra_top.Text.{Bytes}
use kvadra_top.Frontend.Page.{
  ReadyState, connecting, opened, closing, closed, Call, snapshot, set_at, without, has,
}
use kvadra_top.Frontend.Service.{
  Service, Input, connects, disconnects, opens, errs, closes, receives, fires, constructed,
  on_connection, on_snapshot, cancel_timer, create_socket, connect, close_socket, disconnect,
  on_timer, on_open, opening, receiving, ending, failing, step, run, main,
}
use kvadra_top.Frontend.Outcome.{at_socket, if_waiting}
use kvadra_top.Frontend.Telling.{
  told, list_of, parsed, parsed_of, Tells, TellsIf, connect-Tells, close_at-Tells, disconnect-Tells,
  tell_connection-Tells, on_message-Tells, on_close-Tells,
}

module _ {J : Type 0} (parse : Bytes → Option J) (throws : Call J → Bool)
    (calm : (h : ℕ) (j : J) → throws (snapshot h j) ≡ false) where
  opening-Tells :
      (z : ReadyState) (i : ℕ) (js : List J) (s : Service J)
      → Tells js s
      → TellsIf js (opening parse throws z i s)
  unfolding opening on_open
  opening-Tells connecting i js s h =
      tell_connection-Tells parse throws calm true js
        (record s { sockets = set_at i opened s.sockets }) h
  opening-Tells opened i js s h = tt
  opening-Tells closing i js s h = tt
  opening-Tells closed i js s h = tt

  receiving-Tells :
      (z : ReadyState) (text : Bytes) (js : List J) (s : Service J)
      → Tells js s
      → TellsIf (js ++ list_of (parse text)) (receiving parse throws z text s)
  unfolding receiving
  receiving-Tells opened text js s h = on_message-Tells parse throws calm text js s h
  receiving-Tells connecting text js s h = tt
  receiving-Tells closing text js s h = tt
  receiving-Tells closed text js s h = tt

  ending-Tells :
      (z : ReadyState) (i : ℕ) (js : List J) (s : Service J)
      → Tells js s
      → TellsIf js (ending parse throws z i s)
  unfolding ending
  ending-Tells closed i js s h = tt
  ending-Tells connecting i js s h =
      on_close-Tells parse throws calm js (record s { sockets = set_at i closed s.sockets }) h
  ending-Tells opened i js s h =
      on_close-Tells parse throws calm js (record s { sockets = set_at i closed s.sockets }) h
  ending-Tells closing i js s h =
      on_close-Tells parse throws calm js (record s { sockets = set_at i closed s.sockets }) h

  failing-Tells :
      (z : ReadyState) (js : List J) (s : Service J)
      → Tells js s
      → TellsIf js (failing parse throws z s)
  unfolding failing close_socket
  failing-Tells closed js s h = tt
  failing-Tells connecting js s h = close_at-Tells parse throws calm s.socket js s h
  failing-Tells opened js s h = close_at-Tells parse throws calm s.socket js s h
  failing-Tells closing js s h = close_at-Tells parse throws calm s.socket js s h

  quiet : (js : List J) (o : Option (Service J)) → TellsIf js o → TellsIf (js ++ []) o
  quiet js o h = subst (λ l. TellsIf l o) (sym (append-nil js)) h

  step-Tells :
      (e : Input) (js : List J) (s : Service J)
      → Tells js s
      → TellsIf (js ++ parsed_of parse e) (step parse throws e s)
  unfolding step on_timer
  step-Tells connects js s h = quiet js (some (connect s)) (connect-Tells parse throws calm js s h)
  step-Tells disconnects js s h =
      quiet js (some (disconnect s)) (disconnect-Tells parse throws calm js s h)
  step-Tells (opens i) js s h = quiet js (step parse throws (opens i) s) (
      at_socket (Tells js) (get_elem? s.sockets i) (λ r. opening parse throws r i s)
        (λ r e. opening-Tells r i js s h))
  step-Tells (receives i text) js s h =
      at_socket (Tells (js ++ list_of (parse text))) (get_elem? s.sockets i)
        (λ r. receiving parse throws r text s) (λ r e. receiving-Tells r text js s h)
  step-Tells (closes i) js s h = quiet js (step parse throws (closes i) s) (
      at_socket (Tells js) (get_elem? s.sockets i) (λ r. ending parse throws r i s)
        (λ r e. ending-Tells r i js s h))
  step-Tells (errs i) js s h = quiet js (step parse throws (errs i) s) (
      at_socket (Tells js) (get_elem? s.sockets i) (λ r. failing parse throws r s)
        (λ r e. failing-Tells r js s h))
  step-Tells (fires t) js s h = quiet js (step parse throws (fires t) s) (
      if_waiting (Tells js) (has t s.pending) (on_timer t s) (
        connect-Tells parse throws calm js
          (record s { reconnect_timer = none; pending = without t s.pending }) h))

  run-Tells :
      (inputs : List Input) (js : List J) (s after : Service J)
      → Tells js s
      → run parse throws inputs s ≡ some after
      → Tells (js ++ parsed parse inputs) after
  unfolding run
  run-Tells [] js s after h e =
      subst (Tells (js ++ [])) (let same : s ≡ after = cc in same) (h.0, h.1 ∙ sym (append-nil js))
  run-Tells (x ∷ rest) js s after h e = elim (Option-cases (step parse throws x s)) [
    | inl m ↦ absurd (let k : none ≡ some after = rw (m, run) at e in cc)
    | inr (next, m) ↦
        let k : run parse throws rest next ≡ some after = rw (m, run) at e in
        subst (λ l. Tells l after) (append_assoc js (parsed_of parse x) (parsed parse rest))
          (run-Tells rest (js ++ parsed_of parse x) next after
            (subst (TellsIf (js ++ parsed_of parse x)) m (step-Tells x js s h)) k)
  ]

  -- From the start that main.ts makes, whatever the page and the browser do, where the callback for
  -- snapshots does not throw: it has been told what the texts of the messages are as JSON, once
  -- each and in the order of the messages, over all WebSockets; a text that is no JSON is left out.
  pub service-told :
      (inputs : List Input) (s : Service J)
      → run parse throws inputs main ≡ some s
      → told 1 s.calls ≡ parsed parse inputs
  unfolding main constructed on_connection on_snapshot connect cancel_timer create_socket
  service-told inputs s e = (run-Tells inputs [] main s (refl, refl) e).1

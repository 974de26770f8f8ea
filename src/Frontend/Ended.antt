-- ===== src/Frontend/Ended.antt =====
-- That `disconnect` is permanent.
use mathlib.Core.Path.{subst}
use kvadra_top.Base.{
  All, ℕ, zero, suc, ◌≡◌, refl, sym, ap, ◌∙◌, inl, inr, Bool, true, false, Option, none, some, List,
  [], ◌∷◌, length, get_elem?, Option-cases, if◌then◌else◌,
}
use kvadra_top.Text.{Bytes}
use kvadra_top.Frontend.Page.{
  ReadyState, connecting, opened, closing, closed, Call, set_at, without, has, closing_from,
}
use kvadra_top.Frontend.Service.{
  Service, Input, connects, disconnects, opens, errs, closes, receives, fires, cancel, cancel_timer,
  close_ready, close_at, create_socket, connect, close_socket, disconnect, schedule_reconnect,
  on_timer, tell, tell_connection, on_open, on_message, on_close, opening, receiving, ending,
  failing, step, run,
}
use kvadra_top.Frontend.Outcome.{After, at_socket, if_waiting, run_keeps}
use kvadra_top.Frontend.Telling.{either_way}

length-set_at : {A : Type 0} (i : ℕ) (a : A) (xs : List A) → length (set_at i a xs) ≡ length xs
length-set_at i a [] = refl
length-set_at zero a (x ∷ xs) = refl
length-set_at (suc i) a (x ∷ xs) = ap suc (length-set_at i a xs)

module _ {J : Type 0} (n : ℕ) where
  -- The service is disconnected and has created `n` WebSockets.
  abbrev pub Ended : Service J → Type 0
  Ended s = (s.destroyed ≡ true) × (length s.sockets ≡ n)

  abbrev EndedIf : Option (Service J) → Type 0
  EndedIf = After Ended

  set-Ended :
      (i : ℕ) (r : ReadyState) (s : Service J)
      → Ended s
      → Ended (record s { sockets = set_at i r s.sockets })
  set-Ended i r s (d, e) = (d, length-set_at i r s.sockets ∙ e)

  connect-Ended : (s : Service J) → Ended s → Ended (connect s)
  unfolding connect
  connect-Ended s h =
      subst (λ b. Ended (if b then s else create_socket (cancel_timer s))) (sym h.0) h

  close_ready-Ended :
      (i : ℕ) (o : Option ReadyState) (s : Service J) → Ended s → Ended (close_ready i o s)
  close_ready-Ended i none s h = h
  close_ready-Ended i (some r) s h = set-Ended i (closing_from r) s h

  close_at-Ended : (o : Option ℕ) (s : Service J) → Ended s → Ended (close_at o s)
  close_at-Ended none s h = h
  close_at-Ended (some i) s h = close_ready-Ended i (get_elem? s.sockets i) s h

  cancel-Ended : (o : Option ℕ) (s : Service J) → Ended s → Ended (cancel o s)
  cancel-Ended none s h = h
  cancel-Ended (some t) s h = h

  disconnect-Ended : (s : Service J) → Ended s → Ended (disconnect s)
  unfolding disconnect cancel_timer close_socket
  disconnect-Ended s h =
      let over = cancel s.reconnect_timer (record s { destroyed = true }) in
      close_at-Ended over.socket over
        (cancel-Ended s.reconnect_timer (record s { destroyed = true }) (refl, h.1))

  module _ (parse : Bytes → Option J) (throws : Call J → Bool) where
    on_message-Ended :
        (text : Bytes) (s : Service J) → Ended s → Ended (on_message parse throws text s)
    unfolding on_message tell
    on_message-Ended text s h = elim (Option-cases (parse text)) [
      | inl e ↦ rw (e, on_message) h
      | inr (j, e) ↦ rw (e, on_message) h
    ]

    on_close-Ended : (s : Service J) → Ended s → Ended (on_close parse throws s)
    unfolding on_close tell_connection tell schedule_reconnect
    on_close-Ended s h =
        let after = tell_connection parse throws false s in
        either_way Ended after.1 after.0
          (if s.destroyed then after.0 else schedule_reconnect after.0) h
          (either_way Ended s.destroyed after.0 (schedule_reconnect after.0) h h)

    opening-Ended :
        (z : ReadyState) (i : ℕ) (s : Service J) → Ended s → EndedIf (opening parse throws z i s)
    unfolding opening on_open tell_connection tell
    opening-Ended connecting i s h = set-Ended i opened s h
    opening-Ended opened i s h = tt
    opening-Ended closing i s h = tt
    opening-Ended closed i s h = tt

    receiving-Ended :
        (z : ReadyState) (text : Bytes) (s : Service J)
        → Ended s
        → EndedIf (receiving parse throws z text s)
    unfolding receiving
    receiving-Ended opened text s h = on_message-Ended text s h
    receiving-Ended connecting text s h = tt
    receiving-Ended closing text s h = tt
    receiving-Ended closed text s h = tt

    ending-Ended :
        (z : ReadyState) (i : ℕ) (s : Service J) → Ended s → EndedIf (ending parse throws z i s)
    unfolding ending
    ending-Ended closed i s h = tt
    ending-Ended connecting i s h =
        on_close-Ended (record s { sockets = set_at i closed s.sockets }) (set-Ended i closed s h)
    ending-Ended opened i s h =
        on_close-Ended (record s { sockets = set_at i closed s.sockets }) (set-Ended i closed s h)
    ending-Ended closing i s h =
        on_close-Ended (record s { sockets = set_at i closed s.sockets }) (set-Ended i closed s h)

    failing-Ended : (z : ReadyState) (s : Service J) → Ended s → EndedIf (failing parse throws z s)
    unfolding failing close_socket
    failing-Ended closed s h = tt
    failing-Ended connecting s h = close_at-Ended s.socket s h
    failing-Ended opened s h = close_at-Ended s.socket s h
    failing-Ended closing s h = close_at-Ended s.socket s h

    step-Ended : (e : Input) (s : Service J) → Ended s → EndedIf (step parse throws e s)
    unfolding step on_timer
    step-Ended connects s h = connect-Ended s h
    step-Ended disconnects s h = disconnect-Ended s h
    step-Ended (opens i) s h =
        at_socket Ended (get_elem? s.sockets i) (λ r. opening parse throws r i s)
          (λ r e. opening-Ended r i s h)
    step-Ended (receives i text) s h =
        at_socket Ended (get_elem? s.sockets i) (λ r. receiving parse throws r text s)
          (λ r e. receiving-Ended r text s h)
    step-Ended (closes i) s h =
        at_socket Ended (get_elem? s.sockets i) (λ r. ending parse throws r i s)
          (λ r e. ending-Ended r i s h)
    step-Ended (errs i) s h =
        at_socket Ended (get_elem? s.sockets i) (λ r. failing parse throws r s)
          (λ r e. failing-Ended r s h)
    step-Ended (fires t) s h =
        if_waiting Ended (has t s.pending) (on_timer t s)
          (connect-Ended (record s { reconnect_timer = none; pending = without t s.pending }) h)

abbrev AnyInput : Input → Type 0
AnyInput e = Unit

All-AnyInput : (inputs : List Input) → All AnyInput inputs
All-AnyInput [] = tt
All-AnyInput (e ∷ inputs) = (tt, All-AnyInput inputs)

module _ {J : Type 0} where
  disconnect_ends : (s : Service J) → Ended (length s.sockets) (disconnect s)
  unfolding disconnect cancel_timer close_socket
  disconnect_ends s =
      let over = cancel s.reconnect_timer (record s { destroyed = true }) in
      close_at-Ended (length s.sockets) over.socket over (cancelled s.reconnect_timer)
    where
      cancelled :
          (o : Option ℕ) → Ended (length s.sockets) (cancel o (record s { destroyed = true }))
      cancelled none = (refl, refl)
      cancelled (some t) = (refl, refl)

  -- In every state: after `disconnect`, whatever the page and the browser do, with `connect` called
  -- again, no WebSocket is created.
  pub disconnect_is_final :
      (parse : Bytes → Option J) (throws : Call J → Bool) (inputs : List Input)
      (s after : Service J)
      → run parse throws inputs (disconnect s) ≡ some after
      → (after.destroyed ≡ true) × (length after.sockets ≡ length s.sockets)
  disconnect_is_final parse throws inputs s after e =
      run_keeps parse throws (Ended (length s.sockets)) AnyInput
        (λ x t any. step-Ended (length s.sockets) parse throws x t) inputs (disconnect s) after
        (All-AnyInput inputs) (disconnect_ends s) e

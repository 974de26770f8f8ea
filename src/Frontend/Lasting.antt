-- ===== src/Frontend/Lasting.antt =====
-- Whatever the browser does, the service stays connected or waits to connect again.
use kvadra_top.Base.{
  ℕ, ◌≡◌, refl, inl, inr, Bool, true, false, Option, some, List, [], All, get_elem?, arith,
}
use kvadra_top.Text.{Bytes}
use kvadra_top.Frontend.Page.{connecting, Call, connection}
use kvadra_top.Frontend.Service.{
  opening, receiving, ending, failing, Service, Input, connects, disconnects, opens, errs, closes,
  receives, fires, constructed, on_connection, on_snapshot, cancel_timer, create_socket, connect,
  step, run, main,
}
use kvadra_top.Frontend.Outcome.{run_keeps, at_socket}
use kvadra_top.Frontend.Steady.{IsSteady, Kept, disconnected}
use kvadra_top.Frontend.Events.{
  opening-Kept, receiving-Kept, ending-Kept, failing-Kept, firing-Kept,
}

-- The inputs besides the calls of `connect`.
abbrev pub is_connect : Input → Bool
is_connect connects = true
is_connect _ = false

module _ {J : Type 0} (parse : Bytes → Option J) (throws : Call J → Bool)
    (calm : (h : ℕ) (b : Bool) → throws (connection h b) ≡ false) where
  step-Kept :
      (e : Input) (s : Service J) → is_connect e ≡ false → IsSteady s → Kept (step parse throws e s)
  unfolding step
  step-Kept connects s n h = absurd (ground arith)
  step-Kept disconnects s n h = disconnected s h
  step-Kept (opens i) s n h =
      at_socket IsSteady (get_elem? s.sockets i) (λ r. opening parse throws r i s)
        (λ r e. opening-Kept parse throws calm r i s e h)
  step-Kept (receives i text) s n h =
      at_socket IsSteady (get_elem? s.sockets i) (λ r. receiving parse throws r text s)
        (λ r e. receiving-Kept parse throws calm r text s h)
  step-Kept (closes i) s n h =
      at_socket IsSteady (get_elem? s.sockets i) (λ r. ending parse throws r i s)
        (λ r e. ending-Kept parse throws calm r i s e h)
  step-Kept (errs i) s n h =
      at_socket IsSteady (get_elem? s.sockets i) (λ r. failing parse throws r s)
        (λ r e. failing-Kept parse throws calm r i s e h)
  step-Kept (fires t) s n h = firing-Kept parse throws calm t s h

  main-IsSteady : IsSteady {J = J} main
  unfolding main constructed on_connection on_snapshot connect cancel_timer create_socket
  main-IsSteady = inr (
    refl,
    inl (record {
      old = [];
      last = connecting;
      all = refl;
      old_closed = tt;
      last_live = refl;
      current = refl;
      none_pending = refl;
      no_timer = refl;
    }),
  )

  -- From the start that main.ts makes, whatever the browser does and whenever `disconnect` is called,
  -- where `connect` is not called again and no callback throws on a change of the connection: before
  -- `disconnect` either one WebSocket, the last, is not closed and no timer waits, or all are closed
  -- and one timer waits, that of the service. After `disconnect` no timer waits.
  pub service-IsSteady :
      (inputs : List Input) (s : Service J)
      → All (λ e. is_connect e ≡ false) inputs
      → run parse throws inputs main ≡ some s
      → IsSteady s
  service-IsSteady inputs s n e =
      run_keeps parse throws IsSteady (λ x. is_connect x ≡ false) step-Kept inputs main s n
        main-IsSteady e

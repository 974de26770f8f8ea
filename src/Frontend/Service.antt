-- ===== src/Frontend/Service.antt =====
-- frontend/src/services/MetricsService.ts: the class, and the events of the browser that its listeners
-- and its timer handle. A WebSocket is known by the order in which it was created.
use kvadra_top.Base.{
  ℕ, suc, Bool, true, false, Option, none, some, List, [], ◌∷◌, ◌++◌, map, get_elem?, length,
  if◌then◌else◌,
}
use kvadra_top.Text.{Bytes}
use kvadra_top.Frontend.Page.{
  ReadyState, connecting, opened, closed, Call, connection, snapshot, set_at, without, has,
  closing_from, for_each,
}

module _ (J : Type 0) where
  -- The members of the service are the first five; `sockets` are the WebSockets that it has created,
  -- `pending` the timers that wait, `timers` how many it has started, and `calls` the calls of the
  -- callbacks so far.
  pub record Service : Type 0 where
    pub socket : Option ℕ
    pub snapshot_handlers : List ℕ
    pub connection_handlers : List ℕ
    pub reconnect_timer : Option ℕ
    pub destroyed : Bool
    pub sockets : List ReadyState
    pub pending : List ℕ
    pub timers : ℕ
    pub calls : List (Call J)

-- What the page or the browser does. A message comes with its text.
pub data Input : Type 0 where
  connects disconnects : Input
  opens errs closes : ℕ → Input
  receives : ℕ → Bytes → Input
  fires : ℕ → Input

module _ {J : Type 0} where
  unfoldable pub constructed : Service J
  constructed = record {
    socket = none;
    snapshot_handlers = [];
    connection_handlers = [];
    reconnect_timer = none;
    destroyed = false;
    sockets = [];
    pending = [];
    timers = 0;
    calls = [];
  }

  unfoldable pub on_snapshot : ℕ → Service J → Service J
  on_snapshot h s = record s { snapshot_handlers = s.snapshot_handlers ++ h ∷ [] }

  unfoldable pub on_connection : ℕ → Service J → Service J
  on_connection h s = record s { connection_handlers = s.connection_handlers ++ h ∷ [] }

  -- `clearTimeout` and `reconnectTimer = null`, where there is a timer.
  abbrev pub cancel : Option ℕ → Service J → Service J
  cancel none s = s
  cancel (some t) s = record s { reconnect_timer = none; pending = without t s.pending }

  unfoldable pub cancel_timer : Service J → Service J
  cancel_timer s = cancel s.reconnect_timer s

  unfoldable pub create_socket : Service J → Service J
  create_socket s = record s {
    socket = some (length s.sockets);
    sockets = s.sockets ++ connecting ∷ [];
  }

  unfoldable pub connect : Service J → Service J
  unfolding cancel_timer create_socket
  connect s = if s.destroyed then s else create_socket (cancel_timer s)

  abbrev pub close_ready : ℕ → Option ReadyState → Service J → Service J
  close_ready i none s = s
  close_ready i (some r) s = record s { sockets = set_at i (closing_from r) s.sockets }

  abbrev pub close_at : Option ℕ → Service J → Service J
  close_at none s = s
  close_at (some i) s = close_ready i (get_elem? s.sockets i) s

  -- `socket?.close()`.
  unfoldable pub close_socket : Service J → Service J
  close_socket s = close_at s.socket s

  unfoldable pub disconnect : Service J → Service J
  unfolding cancel_timer close_socket
  disconnect s = record (close_socket (cancel_timer (record s { destroyed = true }))) {
    socket = none;
  }

  unfoldable pub schedule_reconnect : Service J → Service J
  schedule_reconnect s = record s {
    reconnect_timer = some s.timers;
    pending = s.pending ++ s.timers ∷ [];
    timers = suc s.timers;
  }

  unfoldable pub on_timer : ℕ → Service J → Service J
  unfolding connect
  on_timer t s = connect (record s { reconnect_timer = none; pending = without t s.pending })

  module _ (parse : Bytes → Option J) (throws : Call J → Bool) where
    -- The calls, and whether a callback threw.
    unfoldable pub tell : List (Call J) → Service J → Service J × Bool
    unfolding for_each
    tell cs s = let r = for_each throws cs in (record s { calls = s.calls ++ r.0 }, r.1)

    unfoldable pub tell_connection : Bool → Service J → Service J × Bool
    unfolding tell
    tell_connection b s = tell (map (λ h. connection h b) s.connection_handlers) s

    unfoldable pub on_open : Service J → Service J
    unfolding tell_connection
    on_open s = (tell_connection true s).0

    -- A text that is no JSON is dropped, and what a callback throws is caught.
    unfoldable pub on_message : Bytes → Service J → Service J
    unfolding tell
    on_message text s = elim (parse text) [
      | none ↦ s
      | some j ↦ (tell (map (λ h. snapshot h j) s.snapshot_handlers) s).0
    ]

    -- What a callback throws here leaves the listener, and there is no reconnect.
    unfoldable pub on_close : Service J → Service J
    unfolding tell_connection schedule_reconnect
    on_close s =
        let r = tell_connection false s in
        if r.1 then r.0 else if s.destroyed then r.0 else schedule_reconnect r.0

    -- What the browser does to the WebSocket, and then the listener.
    unfoldable pub opening : ReadyState → ℕ → Service J → Option (Service J)
    unfolding on_open
    opening connecting i s = some (on_open (record s { sockets = set_at i opened s.sockets }))
    opening _ i s = none

    unfoldable pub receiving : ReadyState → Bytes → Service J → Option (Service J)
    unfolding on_message
    receiving opened text s = some (on_message text s)
    receiving _ text s = none

    unfoldable pub ending : ReadyState → ℕ → Service J → Option (Service J)
    unfolding on_close
    ending closed i s = none
    ending _ i s = some (on_close (record s { sockets = set_at i closed s.sockets }))

    unfoldable pub failing : ReadyState → Service J → Option (Service J)
    unfolding close_socket
    failing closed s = none
    failing _ s = some (close_socket s)

    -- The state after an input; `none` where it cannot come.
    unfoldable pub step : Input → Service J → Option (Service J)
    unfolding connect disconnect opening receiving ending failing on_timer
    step connects s = some (connect s)
    step disconnects s = some (disconnect s)
    step (opens i) s = elim (get_elem? s.sockets i) [ none ↦ none | some r ↦ opening r i s ]
    step (receives i text) s = elim (get_elem? s.sockets i) [
      | none ↦ none
      | some r ↦ receiving r text s
    ]
    step (closes i) s = elim (get_elem? s.sockets i) [ none ↦ none | some r ↦ ending r i s ]
    step (errs i) s = elim (get_elem? s.sockets i) [ none ↦ none | some r ↦ failing r s ]
    step (fires t) s = if has t s.pending then some (on_timer t s) else none

    unfoldable pub run : List Input → Service J → Option (Service J)
    unfolding step
    run [] s = some s
    run (e ∷ rest) s = elim (step e s) [ none ↦ none | some after ↦ run rest after ]

  -- What main.ts does with the service, for its two callbacks.
  unfoldable pub main : Service J
  unfolding constructed on_connection on_snapshot connect
  main = connect (on_snapshot 1 (on_connection 0 constructed))

-- ===== src/Server/Session.antt =====
-- WsSession: the state of one connection, and its handlers. All run on the one thread of the
-- io_context, and the handlers that `send` posts run in the order in which they were posted.
use kvadra_top.Base.{
  ℕ, Bool, true, false, ◌||◌, not, Option, none, some, List, [], ◌∷◌, ◌++◌, if◌then◌else◌,
}
use kvadra_top.Text.{Bytes, codes}
use kvadra_top.Http.{FileSystem, Response, serve_file}
use kvadra_top.Base.{Result, throw, ok}

-- The operation that is pending besides writes of messages; `finished` is none.
pub data Phase : Type 0 where
  http_reading http_writing ws_accepting ws_reading finished : Phase

-- `queue` is queue_. `writes` holds the messages of the calls of async_write that have not completed,
-- `posted` those of the handlers that `send` has posted and that have not run, and `sent` what the
-- client was sent in full; `replies` holds the responses over HTTP that async_write was given.
-- `expires` holds the calls that set the limit of time on the lowest layer, in order: the seconds of
-- expires_after, or nothing for expires_never. `server_field` is what the decorator of the handshake sets.
pub record Session : Type 0 where
  pub static_root : Bytes
  pub phase : Phase
  pub queue : List Bytes
  pub writes : List Bytes
  pub posted : List Bytes
  pub sent : List Bytes
  pub replies : List Response
  pub expires : List (Option ℕ)
  pub server_field : Option Bytes

-- What a handler does to the registry; or an exception leaves it.
pub data Change : Type 0 where
  keep enter leave escape : Change

-- How the HTTP request was read: an error, an upgrade to WebSocket, or another request, with its
-- target, whether it asks for the connection to be kept, and the files at that moment.
pub data Request : Type 0 where
  failed upgrade : Request
  plain : FileSystem → Bytes → Bool → Request

-- `true` is success.
pub data Event : Type 0 where
  http_read : Request → Event
  http_written : Bool → Event
  ws_accepted : Bool → Event
  ws_read : Bool → Event
  ws_written : Bool → Event
  post_run : Event

-- `make_shared<WsSession>` and `run`: the session reads the request.
unfoldable pub start : Bytes → Session
start static_root = record {
  static_root = static_root;
  phase = http_reading;
  queue = [];
  writes = [];
  posted = [];
  sent = [];
  replies = [];
  expires = some 30 ∷ [];
  server_field = none;
}

-- A session lives as long as a handler that waits holds its `self`.
unfoldable pub is_pending : Phase → Bool
is_pending finished = false
is_pending _ = true

abbrev pub is_empty {ℓ} : {A : Type ℓ} → List A → Bool
is_empty [] = true
is_empty (x ∷ xs) = false

unfoldable pub is_alive : Session → Bool
unfolding is_pending
is_alive s = is_pending s.phase || not (is_empty s.posted) || not (is_empty s.writes)

-- `send`: the handler is posted.
unfoldable pub send : Bytes → Session → Session
send m s = record s { posted = s.posted ++ m ∷ [] }

-- `async_write` of the front of the queue, if there is one.
unfoldable pub write_front : List Bytes → Session → Session
write_front [] s = s
write_front (m ∷ q) s = record s { writes = s.writes ++ m ∷ [] }

-- The posted handler, for its message: a write starts if the queue was empty.
unfoldable pub enqueue : Bytes → Session → Session
unfolding write_front
enqueue m s =
    let pushed = record s { queue = s.queue ++ m ∷ [] } in
    if is_empty s.queue then write_front pushed.queue pushed else pushed

abbrev pub pop_front {ℓ} : {A : Type ℓ} → List A → List A
pop_front [] = []
pop_front (x ∷ xs) = xs

-- `on_ws_write`: after an error nothing is popped and no write follows.
unfoldable pub on_ws_write : Bool → Session → Session × Change
unfolding write_front
on_ws_write false s = (s, leave)
on_ws_write true s =
    let popped = record s { queue = pop_front s.queue } in (write_front popped.queue popped, keep)

-- The response to a request. After an exception nothing is pending.
abbrev pub answered : Session → Result Response → Session × Change
answered s (throw x) = (record s { phase = finished }, escape)
answered s (ok response) = (
  record s {
    phase = http_writing;
    replies = s.replies ++ response ∷ [];
    expires = s.expires ++ some 30 ∷ [];
  },
  keep,
)

-- The handshake has no limit of time on the lowest layer.
unfoldable pub do_accept_ws : Session → Session
do_accept_ws s = record s {
  phase = ws_accepting;
  expires = s.expires ++ none ∷ [];
  server_field = some (codes "KvadraTop/1.0");
}

-- `on_read_http`: an error ends the session; an upgrade is accepted; else a file is served.
unfoldable pub on_read_http : Request → Session → Session × Change
unfolding serve_file do_accept_ws
on_read_http failed s = (record s { phase = finished }, keep)
on_read_http upgrade s = (do_accept_ws s, keep)
on_read_http (plain fs target keep_alive) s =
    answered s (serve_file fs target keep_alive s.static_root)

-- The handler of the HTTP write closes the connection, on success too.
unfoldable pub on_write_http : Bool → Session → Session × Change
on_write_http success s = (record s { phase = finished }, keep)

unfoldable pub on_accept_ws : Bool → Session → Session × Change
on_accept_ws false s = (record s { phase = finished }, keep)
on_accept_ws true s = (record s { phase = ws_reading }, enter)

-- What is read is not used; reading goes on until it fails.
unfoldable pub on_ws_read : Bool → Session → Session × Change
on_ws_read false s = (record s { phase = finished }, leave)
on_ws_read true s = (record s { phase = ws_reading }, keep)

-- The outstanding write at the head completes, with the message on the wire or not.
unfoldable pub complete_write : Bool → List Bytes → Session → Option (Session × Change)
unfolding on_ws_write
complete_write success [] s = none
complete_write false (m ∷ rest) s = some (on_ws_write false (record s { writes = rest }))
complete_write true (m ∷ rest) s =
    some (on_ws_write true (record s { writes = rest; sent = s.sent ++ m ∷ [] }))

unfoldable pub run_post : List Bytes → Session → Option (Session × Change)
unfolding enqueue
run_post [] s = none
run_post (m ∷ rest) s = some (enqueue m (record s { posted = rest }), keep)

-- The handler that an event runs; `none` where the operation is not pending.
unfoldable pub handle : Event → Session → Option (Session × Change)
unfolding on_read_http on_write_http on_accept_ws on_ws_read complete_write run_post
handle (http_read r) s = elim s.phase [ http_reading ↦ some (on_read_http r s) | _ ↦ none ]
handle (http_written success) s = elim s.phase [
  | http_writing ↦ some (on_write_http success s)
  | _ ↦ none
]
handle (ws_accepted success) s = elim s.phase [
  | ws_accepting ↦ some (on_accept_ws success s)
  | _ ↦ none
]
handle (ws_read success) s = elim s.phase [ ws_reading ↦ some (on_ws_read success s) | _ ↦ none ]
handle (ws_written success) s = complete_write success s.writes s
handle post_run s = run_post s.posted s

-- A sequence of events of one session.
unfoldable pub run_events : List Event → Session → Option Session
unfolding handle
run_events [] s = some s
run_events (e ∷ es) s = elim (handle e s) [
  | none ↦ none
  | some (after, change) ↦ run_events es after
]

-- ===== src/Server/Hub.antt =====
-- SessionRegistry and WebSocketServer. A session is named by the order in which it was accepted; the
-- registry is a set of names, which stand for the weak pointers.
use kvadra_top.Base.{
  ℕ, zero, suc, Bool, true, false, ◌&&◌, ◌||◌, Option, none, some, List, [], ◌∷◌, ◌++◌, ◌==◌,
  if◌then◌else◌, get_elem?,
}
use kvadra_top.Text.{Bytes}
use kvadra_top.Server.Session.{
  Session, Event, Change, keep, enter, leave, escape, start, is_alive, send, handle,
}

-- The weak pointers of the sessions that are registered.
abbrev pub SessionRegistry : Type 0
SessionRegistry = List ℕ

pub record Hub : Type 0 where
  pub static_root : Bytes
  pub running : Bool
  pub sessions : List Session
  pub registry : SessionRegistry
  pub accepting : Bool

unfoldable pub init : Bytes → Hub
init static_root = record {
  static_root = static_root;
  running = true;
  sessions = [];
  registry = [];
  accepting = false;
}

-- An accept is pending from here on.
unfoldable pub do_accept : Hub → Hub
do_accept h = record h { accepting = true }

unfoldable pub start_server : Hub → Hub
unfolding do_accept
start_server h = do_accept h

-- The server as the main loop finds it.
unfoldable pub launch : Bytes → Hub
unfolding init start_server
launch static_root = start_server (init static_root)

unfoldable pub member : ℕ → List ℕ → Bool
member i [] = false
member i (j ∷ js) = i == j || member i js

-- `sessions_.insert(session)` of SessionRegistry::add.
unfoldable pub add : ℕ → List ℕ → List ℕ
unfolding member
add i js = if member i js then js else js ++ i ∷ []

-- `sessions_.erase(session)` of SessionRegistry::remove.
unfoldable pub remove : ℕ → List ℕ → List ℕ
remove i [] = []
remove i (j ∷ js) = if j == i then js else j ∷ remove i js

abbrev pub modify : ℕ → (Session → Session) → List Session → List Session
modify i f [] = []
modify zero f (s ∷ ss) = f s ∷ ss
modify (suc i) f (s ∷ ss) = s ∷ modify i f ss

-- `it->lock()`.
unfoldable pub lock : List Session → ℕ → Bool
unfolding is_alive
lock ss i = elim (get_elem? ss i) [ none ↦ false | some s ↦ is_alive s ]

-- The loop of SessionRegistry::broadcast: it sends to the sessions that live, and erases the others.
-- (The two parts of the loop see the same sessions alive, since no name stands twice.)
unfoldable pub send_all : Bytes → List ℕ → List Session → List Session
unfolding lock send
send_all m [] ss = ss
send_all m (i ∷ is) ss = send_all m is (if lock ss i then modify i (send m) ss else ss)

unfoldable pub prune : List ℕ → List Session → List ℕ
unfolding lock
prune [] ss = []
prune (i ∷ is) ss = if lock ss i then i ∷ prune is ss else prune is ss

unfoldable pub broadcast : Bytes → Hub → Hub
unfolding send_all prune
broadcast m h = record {
  static_root = h.static_root;
  running = h.running;
  accepting = h.accepting;
  sessions = send_all m h.registry h.sessions;
  registry = prune h.registry h.sessions;
}

unfoldable pub apply_change : Change → ℕ → List ℕ → List ℕ
unfolding add remove
apply_change keep i js = js
apply_change enter i js = add i js
apply_change leave i js = remove i js
apply_change escape i js = js

-- Nothing catches the exception below io_context::run, so its thread ends.
abbrev pub goes_on : Change → Bool → Bool
goes_on keep b = b
goes_on enter b = b
goes_on leave b = b
goes_on escape b = false

-- The handler of `do_accept`: a connection that is accepted gets a session; after an error there is
-- none. The next accept follows in both cases.
unfoldable pub on_accept : Bool → Hub → Hub
unfolding start do_accept
on_accept false h = do_accept (record h { accepting = false })
on_accept true h =
    do_accept (record h { accepting = false; sessions = h.sessions ++ start h.static_root ∷ [] })

abbrev pub replaced : ℕ → Hub → Session × Change → Hub
unfolding apply_change
replaced i h (s, c) = record {
  static_root = h.static_root;
  running = goes_on c h.running;
  accepting = h.accepting;
  sessions = modify i (λ _. s) h.sessions;
  registry = apply_change c i h.registry;
}

-- An event of session `i`.
unfoldable pub on_event : ℕ → Event → Hub → Option Hub
unfolding handle apply_change
on_event i e h = elim (get_elem? h.sessions i) [
  | none ↦ none
  | some s ↦ elim (handle e s) [ none ↦ none | some r ↦ some (replaced i h r) ]
]

-- What happens to the server: the acceptor completes, a handler of a session runs, or the main
-- thread calls `broadcast`. The mutex makes the last atomic.
-- Only the thread of the io_context runs the first two.
pub data Action : Type 0 where
  accepts : Bool → Action
  handles : ℕ → Event → Action
  broadcasts : Bytes → Action

unfoldable pub step : Action → Hub → Option Hub
unfolding on_accept on_event broadcast
step (accepts ok) h = if h.running && h.accepting then some (on_accept ok h) else none
step (handles i e) h = if h.running then on_event i e h else none
step (broadcasts m) h = some (broadcast m h)

unfoldable pub run : List Action → Hub → Option Hub
unfolding step
run [] h = some h
run (a ∷ rest) h = elim (step a h) [ none ↦ none | some after ↦ run rest after ]

-- ===== src/Server/Runs.antt =====
-- Runs of the whole server, and its theorems at concrete inputs.
use kvadra_top.Base.{
  throw, filesystem_error, ok, ◌≤◌, ◌⊎◌, none, if◌then◌else◌, length, ◌≡◌, refl, true, false, some,
  List, [], ◌∷◌, ◌++◌, get_elem?,
}
use kvadra_top.Text.{bytes_eq, Bytes, codes}
use kvadra_top.Server.Session.{
  Session, http_read, http_written, plain, upgrade, ws_accepted, ws_read, ws_reading, http_reading,
  http_writing, finished,
}
use kvadra_top.Server.Hub.{
  Hub, Action, accepts, handles, broadcasts, run, launch, broadcast, member,
}
use kvadra_top.Server.Queue.{history, IsValid}
use kvadra_top.Server.Registry.{IsConsistent}
use kvadra_top.Server.Listening.{heard}
use kvadra_top.Http.{FileSystem, Response, served}
use kvadra_top.Server.Answers.{run-answers}
use kvadra_top.Server.Replies.{answers}
use kvadra_top.Server.Kinds.{served_one_way}
use kvadra_top.Server.Clients.{run-heard}
use kvadra_top.Server.Deadlines.{reachable-IsLimited}
use kvadra_top.Server.Reachable.{added, reachable-IsConsistent, broadcast_delivers}

abbrev a : Bytes
a = codes "a"

abbrev site : Bytes
site = codes "/srv"

abbrev b : Bytes
b = codes "b"

-- Two clients; the first completes its handshake and is sent `a`.
abbrev actions : List Action
actions =
    accepts true
    ∷ accepts true
    ∷ handles 0 (http_read upgrade)
    ∷ handles 0 (ws_accepted true)
    ∷ broadcasts a
    ∷ []

abbrev newcomer : Session
newcomer = record {
  static_root = site;
  phase = http_reading;
  queue = [];
  writes = [];
  posted = [];
  sent = [];
  replies = [];
  expires = some 30 ∷ [];
  server_field = none;
}

abbrev listener : Session
listener = record newcomer {
  phase = ws_reading;
  posted = a ∷ [];
  expires = some 30 ∷ none ∷ [];
  server_field = some (codes "KvadraTop/1.0");
}

abbrev hub : Hub
hub = record {
  static_root = site;
  running = true;
  sessions = listener ∷ newcomer ∷ [];
  registry = 0 ∷ [];
  accepting = true;
}

reached : run actions (launch site) ≡ some hub
unfolding run launch
reached = refl

reachable-IsConsistent_example : IsConsistent hub
reachable-IsConsistent_example = reachable-IsConsistent site actions hub reached

broadcast_delivers_example :
    (after : Session) × (get_elem? (broadcast b hub).sessions 0 ≡ some after)
    × (history after ≡ history listener ++ added b (member 0 hub.registry))
    × (after.sent ≡ listener.sent)
    × (member 0 (broadcast b hub).registry ≡ member 0 hub.registry)
broadcast_delivers_example = broadcast_delivers site actions hub b 0 listener reached refl

run-heard_example :
    (listener.sent ++ (listener.queue ++ listener.posted) ≡ heard 0 false actions)
    × IsValid listener
run-heard_example = run-heard site actions hub 0 listener reached refl

-- A client that leaves is not sent the next message.
left_run :
    run
      (accepts true
        ∷ handles 0 (http_read upgrade)
        ∷ handles 0 (ws_accepted true)
        ∷ handles 0 (ws_read false)
        ∷ broadcasts a
        ∷ [])
      (launch site)
    ≡ some (record {
      static_root = site;
      running = true;
      sessions =
          record newcomer {
            phase = finished;
            expires = some 30 ∷ none ∷ [];
            server_field = some (codes "KvadraTop/1.0");
          }
          ∷ [];
      registry = [];
      accepting = true;
    })
unfolding run launch
left_run = refl

-- A third client reads a page over HTTP.
abbrev files : FileSystem
files = record {
  weakly_canonical = λ p. p;
  content = λ p. if bytes_eq p (codes "/srv/a.txt") then some a else none;
  exists = λ p. ok false;
}

abbrev visits : List Action
visits =
    accepts true
    ∷ handles 0 (http_read (plain files (codes "/a.txt") true))
    ∷ broadcasts b
    ∷ handles 0 (http_written true)
    ∷ []

abbrev page : Response
page = record {
  status = served;
  content_type = codes "application/octet-stream";
  body = a;
  keep_alive = some true;
}

abbrev visitor : Session
visitor = record newcomer {
  phase = finished;
  replies = page ∷ [];
  expires = some 30 ∷ some 30 ∷ [];
}

abbrev visited : Hub
visited = record {
  static_root = site;
  running = true;
  sessions = visitor ∷ [];
  registry = [];
  accepting = true;
}

-- While the page is written.
abbrev writer : Session
writer = record visitor { phase = http_writing }

abbrev request : List Action
request = accepts true ∷ handles 0 (http_read (plain files (codes "/a.txt") true)) ∷ []

request-run : run request (launch site) ≡ some (record visited { sessions = writer ∷ [] })
unfolding run launch
request-run = refl

reachable-IsLimited_example : writer.expires ≡ some 30 ∷ some 30 ∷ []
reachable-IsLimited_example =
    reachable-IsLimited site request (record visited { sessions = writer ∷ [] }) 0 writer
      request-run refl

visited-run : run visits (launch site) ≡ some visited
unfolding run launch
visited-run = refl

run-answers_example :
    (page ∷ [] ≡ answers site 0 visits)
    × (length visitor.replies ≤ 1)
    × (visitor.phase ≡ ws_reading → visitor.replies ≡ [])
run-answers_example = run-answers site visits visited 0 visitor visited-run refl

served_one_way_example : (visitor.replies ≡ []) ⊎ (history visitor ≡ [])
served_one_way_example = served_one_way site visits visited 0 visitor visited-run refl

-- The system cannot tell whether the file exists, so an exception leaves the handler, and the server
-- stops: nothing more is accepted or handled, while a broadcast is still posted.
abbrev unclear : FileSystem
unclear = record files { exists = λ p. throw filesystem_error }

abbrev outage : List Action
outage = accepts true ∷ handles 0 (http_read (plain unclear (codes "/long") true)) ∷ []

abbrev stopped : Hub
stopped = record visited { running = false; sessions = record newcomer { phase = finished } ∷ [] }

outage-run : run outage (launch site) ≡ some stopped
unfolding run launch
outage-run = refl

stopped-run : run (broadcasts a ∷ accepts true ∷ []) stopped ≡ none
unfolding run
stopped-run = refl

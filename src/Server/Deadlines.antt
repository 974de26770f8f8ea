-- ===== src/Server/Deadlines.antt =====
-- Which limits of time a connection is given.
use kvadra_top.Base.{
  Option, ap, ℕ, ◌≡◌, refl, ◌∙◌, Bool, true, false, none, some, List, [], ◌∷◌, ◌++◌, inl, inr,
  Bool-cases, arith, get_elem?, Result, throw, ok,
}
use kvadra_top.Text.{Bytes, codes}
use kvadra_top.Http.{Response, serve_file}
use kvadra_top.Server.Session.{
  Phase, http_reading, http_writing, ws_accepting, ws_reading, finished, Session, Request, Event,
  start, send, handle, failed, upgrade, plain, http_read, http_written, ws_accepted, ws_read,
  ws_written, post_run, answered, do_accept_ws, on_read_http, complete_write, run_post, write_front,
  enqueue, is_empty, pop_front,
}
use kvadra_top.Server.Hub.{Hub, Action, launch, run}
use kvadra_top.Server.Everywhere.{After, everywhere}

-- Each operation over HTTP begins with a limit of 30 seconds of its own; for a WebSocket the limit is
-- taken away, and its handshake names the server.
abbrev pub Limits : Phase → Session → Type 0
Limits http_reading s = s.expires ≡ some 30 ∷ []
Limits http_writing s = s.expires ≡ some 30 ∷ some 30 ∷ []
Limits ws_accepting s =
    (s.expires ≡ some 30 ∷ none ∷ []) × (s.server_field ≡ some (codes "KvadraTop/1.0"))
Limits ws_reading s =
    (s.expires ≡ some 30 ∷ none ∷ []) × (s.server_field ≡ some (codes "KvadraTop/1.0"))
Limits finished s = Unit

abbrev pub IsLimited : Session → Type 0
IsLimited s = Limits s.phase s

Limits-same :
    (p : Phase) (s t : Session)
    → t.expires ≡ s.expires
    → t.server_field ≡ s.server_field
    → Limits p s
    → Limits p t
Limits-same http_reading s t e f h = e ∙ h
Limits-same http_writing s t e f h = e ∙ h
Limits-same ws_accepting s t e f h = (e ∙ h.0, f ∙ h.1)
Limits-same ws_reading s t e f h = (e ∙ h.0, f ∙ h.1)
Limits-same finished s t e f h = tt

start-IsLimited : (root : Bytes) → IsLimited (start root)
unfolding start
start-IsLimited root = refl

send-IsLimited : (m : Bytes) (s : Session) → IsLimited s → IsLimited (send m s)
unfolding send
send-IsLimited m s h = Limits-same s.phase s (send m s) refl refl h

write_front-IsLimited : (q : List Bytes) (s : Session) → IsLimited s → IsLimited (write_front q s)
unfolding write_front
write_front-IsLimited [] s h = h
write_front-IsLimited (m ∷ q) s h =
    Limits-same s.phase s (record s { writes = s.writes ++ m ∷ [] }) refl refl h

enqueue-IsLimited : (m : Bytes) (s : Session) → IsLimited s → IsLimited (enqueue m s)
unfolding enqueue
enqueue-IsLimited m s h =
    let pushed = record s { queue = s.queue ++ m ∷ [] } in
    let kept : IsLimited pushed = Limits-same s.phase s pushed refl refl h in
    elim (Bool-cases (is_empty s.queue)) [
      | inl e ↦ rw (e, enqueue) (write_front-IsLimited pushed.queue pushed kept)
      | inr e ↦ rw (e, enqueue) kept
    ]

complete_write-IsLimited :
    (success : Bool) (w : List Bytes) (s : Session)
    → IsLimited s
    → After IsLimited (complete_write success w s)
unfolding complete_write
complete_write-IsLimited success [] s h = tt
complete_write-IsLimited false (m ∷ w) s h =
    Limits-same s.phase s (record s { writes = w }) refl refl h
complete_write-IsLimited true (m ∷ w) s h =
    let popped = record s { queue = pop_front s.queue; writes = w; sent = s.sent ++ m ∷ [] } in
    write_front-IsLimited popped.queue popped (Limits-same s.phase s popped refl refl h)

run_post-IsLimited : (p : List Bytes) (s : Session) → IsLimited s → After IsLimited (run_post p s)
unfolding run_post
run_post-IsLimited [] s h = tt
run_post-IsLimited (m ∷ p) s h =
    let rest = record s { posted = p } in
    enqueue-IsLimited m rest (Limits-same s.phase s rest refl refl h)

-- A limit is set behind that of the reading.
set_again :
    (l : Option ℕ) (calls : List (Option ℕ))
    → calls ≡ some 30 ∷ []
    → calls ++ l ∷ [] ≡ some 30 ∷ l ∷ []
set_again l calls h = ap (λ x. x ++ l ∷ []) h

answered-IsLimited :
    (s : Session) (r : Result Response)
    → s.expires ≡ some 30 ∷ []
    → After IsLimited (some (answered s r))
answered-IsLimited s (throw x) h = tt
answered-IsLimited s (ok response) h = set_again (some 30) s.expires h

on_read-IsLimited :
    (r : Request) (s : Session) (p : Phase)
    → Limits p s
    → After IsLimited (elim p [ http_reading ↦ some (on_read_http r s) | _ ↦ none ])
unfolding on_read_http do_accept_ws
on_read-IsLimited failed s http_reading h = tt
on_read-IsLimited upgrade s http_reading h = (set_again none s.expires h, refl)
on_read-IsLimited (plain fs target keep_alive) s http_reading h =
    answered-IsLimited s (serve_file fs target keep_alive s.static_root) h
on_read-IsLimited r s http_writing h = tt
on_read-IsLimited r s ws_accepting h = tt
on_read-IsLimited r s ws_reading h = tt
on_read-IsLimited r s finished h = tt

handle-IsLimited : (e : Event) (s : Session) → IsLimited s → After IsLimited (handle e s)
unfolding handle
handle-IsLimited (http_read r) s h = on_read-IsLimited r s s.phase h
handle-IsLimited (http_written success) s h = ground arith
handle-IsLimited (ws_accepted false) s h = ground arith
handle-IsLimited (ws_accepted true) s h = ground arith
handle-IsLimited (ws_read false) s h = ground arith
handle-IsLimited (ws_read true) s h = ground arith
handle-IsLimited (ws_written success) s h = complete_write-IsLimited success s.writes s h
handle-IsLimited post_run s h = run_post-IsLimited s.posted s h

-- In every state that the server reaches, of the calls that set the limit of time on the lowest layer of
-- a connection: while it reads its request there has been one, of 30 seconds; while it writes a response
-- there has been a second one of 30 seconds, for the response; while the handshake of a WebSocket runs
-- or frames are awaited, the second one has taken the limit away, and the handshake names the server.
pub reachable-IsLimited :
    (root : Bytes) (actions : List Action) (h : Hub) (i : ℕ) (s : Session)
    → run actions (launch root) ≡ some h
    → get_elem? h.sessions i ≡ some s
    → IsLimited s
reachable-IsLimited root actions h i s e n =
    everywhere IsLimited start-IsLimited send-IsLimited handle-IsLimited root actions h i s e n

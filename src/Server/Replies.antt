-- ===== src/Server/Replies.antt =====
-- The responses of a connection, told from its requests, and that its handlers give no others.
use mathlib.Core.Path.{subst}
use kvadra_top.Base.{
  Result, throw, ok, ℕ, ◌≤◌, ◌≡◌, refl, sym, inl, inr, Bool, true, false, Option, none, some, List,
  [], ◌∷◌, ◌++◌, ◌==◌, length, arith, Bool-cases, append-nil, if◌then◌else◌,
}
use kvadra_top.Text.{Bytes}
use kvadra_top.Http.{Response, serve_file}
use kvadra_top.Server.Session.{
  Phase, Session, Change, Request, on_read_http, answered, on_write_http, Event, handle,
  complete_write, run_post, write_front, enqueue, is_empty, pop_front, http_read, http_written,
  ws_accepted, ws_read, ws_written, post_run, failed, upgrade, plain, http_reading, http_writing,
  ws_accepting, ws_reading, finished,
}
use kvadra_top.Server.Hub.{Action, handles}

abbrev pub produced : Result Response → List Response
produced (throw x) = []
produced (ok response) = response ∷ []

-- The response to an event: to a request that is no upgrade, with the files as they are then.
abbrev pub answer : Bytes → Event → List Response
answer root (http_read (plain fs target keep_alive)) =
    produced (serve_file fs target keep_alive root)
answer root _ = []

abbrev pub answer_of : Bytes → ℕ → Action → List Response
answer_of root i (handles j e) = if j == i then answer root e else []
answer_of root i _ = []

-- The responses to the requests of client `i`, in order.
abbrev pub answers : Bytes → ℕ → List Action → List Response
answers root i [] = []
answers root i (a ∷ rest) = answer_of root i a ++ answers root i rest

-- What a phase says of the responses so far.
abbrev pub Fits : Phase → List Response → Type 0
Fits http_reading rs = rs ≡ []
Fits http_writing rs = length rs ≤ 1
Fits ws_accepting rs = rs ≡ []
Fits ws_reading rs = rs ≡ []
Fits finished rs = length rs ≤ 1

pub few : (p : Phase) (rs : List Response) → Fits p rs → length rs ≤ 1
few http_reading rs h = rw h (omega arith)
few http_writing rs h = h
few ws_accepting rs h = rw h (omega arith)
few ws_reading rs h = rw h (omega arith)
few finished rs h = h

module _ (root : Bytes) where
  abbrev pub Answered : List Response → Option Session → Type 0
  Answered rs none = rs ≡ []
  Answered rs (some s) = (s.static_root ≡ root) × (s.replies ≡ rs) × Fits s.phase rs

  -- After a handler has run for event `e`, where it runs.
  abbrev pub Moves : List Response → Event → Option (Session × Change) → Type 0
  Moves rs e none = Unit
  Moves rs e (some (after, c)) = Answered (rs ++ answer root e) (some after)

  pub no_answer : (rs : List Response) (o : Option Session) → Answered rs o → Answered (rs ++ []) o
  no_answer rs o h = subst (λ l. Answered l o) (sym (append-nil rs)) h

  write_front-Answered :
      (q : List Bytes) (s : Session) (rs : List Response)
      → Answered rs (some s)
      → Answered rs (some (write_front q s))
  unfolding write_front
  write_front-Answered [] s rs h = h
  write_front-Answered (m ∷ q) s rs h = h

  enqueue-Answered :
      (m : Bytes) (s : Session) (rs : List Response)
      → Answered rs (some s)
      → Answered rs (some (enqueue m s))
  unfolding enqueue
  enqueue-Answered m s rs h = elim (Bool-cases (is_empty s.queue)) [
    | inl e ↦
        rw (e, enqueue)
          (write_front-Answered (s.queue ++ m ∷ []) (record s { queue = s.queue ++ m ∷ [] }) rs h)
    | inr e ↦ rw (e, enqueue) h
  ]

  complete_write-Moves :
      (success : Bool) (w : List Bytes) (s : Session) (rs : List Response)
      → Answered rs (some s)
      → Moves rs (ws_written success) (complete_write success w s)
  unfolding complete_write
  complete_write-Moves success [] s rs h = tt
  complete_write-Moves false (m ∷ w) s rs h = no_answer rs (some s) h
  complete_write-Moves true (m ∷ w) s rs h =
      let popped = record s { queue = pop_front s.queue; writes = w; sent = s.sent ++ m ∷ [] } in
      no_answer rs (some (write_front popped.queue popped))
        (write_front-Answered popped.queue popped rs h)

  run_post-Moves :
      (p : List Bytes) (s : Session) (rs : List Response)
      → Answered rs (some s)
      → Moves rs post_run (run_post p s)
  unfolding run_post
  run_post-Moves [] s rs h = tt
  run_post-Moves (m ∷ p) s rs h =
      let rest = record s { posted = p } in
      no_answer rs (some (enqueue m rest)) (enqueue-Answered m rest rs h)

  answered-Moves :
      (s : Session) (rs : List Response)
      → s.static_root ≡ root
      → s.replies ≡ rs
      → rs ≡ []
      → (r : Result Response) → Answered (rs ++ produced r) (some (answered s r).0)
  answered-Moves s rs at same nil (throw x) =
      no_answer rs (some (record s { phase = finished })) (at, same, rw nil (omega arith))
  answered-Moves s rs at same nil (ok response) = (at, rw same refl, rw nil (omega arith))

  -- The handler of the request, in any phase.
  on_read-Moves :
      (r : Request) (s : Session) (rs : List Response) (p : Phase)
      → s.static_root ≡ root
      → s.replies ≡ rs
      → Fits p rs
      → Moves rs (http_read r) (elim p [ http_reading ↦ some (on_read_http r s) | _ ↦ none ])
  unfolding on_read_http
  on_read-Moves failed s rs http_reading at same nil =
      no_answer rs (some (record s { phase = finished })) (at, same, rw nil (omega arith))
  on_read-Moves upgrade s rs http_reading at same nil =
      no_answer rs (some (record s { phase = ws_accepting })) (at, same, nil)
  on_read-Moves (plain fs target keep_alive) s rs http_reading at same nil =
      subst
        (λ r.
          Answered (rs ++ produced (serve_file fs target keep_alive r))
            (some (answered s (serve_file fs target keep_alive s.static_root)).0))
        at (answered-Moves s rs at same nil (serve_file fs target keep_alive s.static_root))
  on_read-Moves r s rs http_writing at same few = tt
  on_read-Moves r s rs ws_accepting at same nil = tt
  on_read-Moves r s rs ws_reading at same nil = tt
  on_read-Moves r s rs finished at same few = tt

  on_write-Moves :
      (success : Bool) (s : Session) (rs : List Response) (p : Phase)
      → s.static_root ≡ root
      → s.replies ≡ rs
      → Fits p rs
      → Moves rs
          (http_written success)
          (elim p [ http_writing ↦ some (on_write_http success s) | _ ↦ none ])
  unfolding on_write_http
  on_write-Moves success s rs http_reading at same nil = tt
  on_write-Moves success s rs http_writing at same few =
      no_answer rs (some (record s { phase = finished })) (at, same, few)
  on_write-Moves success s rs ws_accepting at same nil = tt
  on_write-Moves success s rs ws_reading at same nil = tt
  on_write-Moves success s rs finished at same few = tt

  pub handle-Moves :
      (e : Event) (s : Session) (rs : List Response)
      → Answered rs (some s)
      → Moves rs e (handle e s)
  unfolding handle
  handle-Moves (http_read r) s rs (at, same, fits) = on_read-Moves r s rs s.phase at same fits
  handle-Moves (http_written success) s rs (at, same, fits) =
      on_write-Moves success s rs s.phase at same fits
  handle-Moves (ws_accepted false) s rs h = ground arith
  handle-Moves (ws_accepted true) s rs h = ground arith
  handle-Moves (ws_read false) s rs h = ground arith
  handle-Moves (ws_read true) s rs h = ground arith
  handle-Moves (ws_written success) s rs h = complete_write-Moves success s.writes s rs h
  handle-Moves post_run s rs h = run_post-Moves s.posted s rs h

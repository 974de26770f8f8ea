-- ===== src/Server/Delivery.antt =====
-- What one client receives, over whole runs of its session.
use kvadra_top.Base.{
  ◌≡◌, refl, ◌∙◌, ap, sym, inl, inr, true, Option, none, some, List, [], ◌∷◌, ◌++◌, append_assoc,
  append-nil, length, replicate, Option-cases,
}
use mathlib.Core.Path.{subst}
use kvadra_top.Text.{Bytes}
use kvadra_top.Server.Session.{
  Session, Event, ws_written, post_run, start, send, handle, run_events, complete_write, run_post,
}
use kvadra_top.Server.Queue.{
  history, IsValid, OneWrite, start-IsValid, send-IsValid, handle-IsValid,
}

-- A session is sent a message, or one of its handlers runs.
pub data Input : Type 0 where
  message : Bytes → Input
  event : Event → Input

unfoldable pub run_inputs : List Input → Session → Option Session
run_inputs [] s = some s
run_inputs (message m ∷ rest) s = run_inputs rest (send m s)
run_inputs (event e ∷ rest) s = elim (handle e s) [
  | none ↦ none
  | some (after, c) ↦ run_inputs rest after
]

-- The messages of the inputs, in order.
abbrev pub messages : List Input → List Bytes
messages [] = []
messages (message m ∷ rest) = m ∷ messages rest
messages (event e ∷ rest) = messages rest

pub history-send : (m : Bytes) (s : Session) → history (send m s) ≡ history s ++ m ∷ []
unfolding send
history-send m s = simp append_assoc

run_inputs-history :
    (inputs : List Input) (s t : Session)
    → IsValid s
    → run_inputs inputs s ≡ some t
    → IsValid t × (history t ≡ history s ++ messages inputs)
unfolding run_inputs
run_inputs-history [] s t v h =
    let e : s ≡ t = cc in
    subst (λ x. IsValid x × (history x ≡ history s ++ [])) e (v, sym (append-nil (history s)))
run_inputs-history (message m ∷ rest) s t v h =
    let (valid, e) = run_inputs-history rest (send m s) t (send-IsValid m s v) h in
    (
      valid,
      e
          ∙ ap (λ l. l ++ messages rest) (history-send m s)
          ∙ append_assoc (history s) (m ∷ []) (messages rest),
    )
run_inputs-history (event e ∷ rest) s t v h = elim (Option-cases (handle e s)) [
  | inl n ↦ absurd (let k : none ≡ some t = rw (n, run_inputs) at h in cc)
  | inr ((after, c), n) ↦
      let k : run_inputs rest after ≡ some t = rw (n, run_inputs) at h in
      let (valid, same) = handle-IsValid e s after c v n in
      let (valid', e') = run_inputs-history rest after t valid k in
      (valid', e' ∙ ap (λ l. l ++ messages rest) same)
]

-- In every state that a new session can reach: one write at most is outstanding, and its message is
-- the front of the queue; what the client was sent, the queue and the posted messages together are
-- the messages given to `send`, in the order of the calls.
pub delivery :
    (root : Bytes) (inputs : List Input) (t : Session)
    → run_inputs inputs (start root) ≡ some t
    → OneWrite t.queue t.writes × (t.sent ++ (t.queue ++ t.posted) ≡ messages inputs)
unfolding start
delivery root inputs t h = run_inputs-history inputs (start root) t (start-IsValid root) h

-- The front of a queue is being written.
abbrev pub in_flight : List Bytes → List Bytes
in_flight [] = []
in_flight (m ∷ q) = m ∷ []

-- No write has failed: a write is outstanding whenever the queue is not empty.
abbrev pub IsFlowing : Session → Type 0
IsFlowing s = s.writes ≡ in_flight s.queue

module _ (s : Session) where
  abbrev flowing : List Bytes → List Bytes → List Bytes → Session
  flowing sent queue posted = record s {
    queue = queue;
    writes = in_flight queue;
    posted = posted;
    sent = sent;
  }

  -- Each write succeeds, and the next begins.
  drain_writes :
      (queue sent : List Bytes)
      → run_events (replicate (length queue) (ws_written true)) (flowing sent queue [])
        ≡ some (flowing (sent ++ queue) [] [])
  unfolding run_events complete_write
  drain_writes [] sent = ap (λ l. some (flowing l [] [])) (sym (append-nil sent))
  drain_writes (m ∷ []) sent = refl
  drain_writes (m ∷ n ∷ queue) sent =
      drain_writes (n ∷ queue) (sent ++ m ∷ [])
      ∙ ap (λ l. some (flowing l [] [])) (append_assoc sent (m ∷ []) (n ∷ queue))

  -- Each posted handler runs.
  drain_posts :
      (posted queue sent : List Bytes)
      → run_events (replicate (length posted) post_run) (flowing sent queue posted)
        ≡ some (flowing sent (queue ++ posted) [])
  unfolding run_events run_post
  drain_posts [] queue sent = ap (λ l. some (flowing sent l [])) (sym (append-nil queue))
  drain_posts (m ∷ posted) [] sent = drain_posts posted (m ∷ []) sent
  drain_posts (m ∷ posted) (x ∷ queue) sent =
      drain_posts posted (x ∷ (queue ++ m ∷ [])) sent
      ∙ ap (λ l. some (flowing sent (x ∷ l) [])) (append_assoc queue (m ∷ []) posted)

run_events-append :
    (es fs : List Event) (s t : Session)
    → run_events es s ≡ some t
    → run_events (es ++ fs) s ≡ run_events fs t
unfolding run_events
run_events-append [] fs s t h = ap (run_events fs) (let e : s ≡ t = cc in e)
run_events-append (e ∷ es) fs s t h = elim (Option-cases (handle e s)) [
  | inl n ↦ absurd (let k : none ≡ some t = rw (n, run_events) at h in cc)
  | inr ((after, c), n) ↦
      let k : run_events es after ≡ some t = rw (n, run_events) at h in
      rw (n, run_events) (run_events-append es fs after t k)
]

-- The handlers that wait, and then a successful write for each message.
abbrev pub flush : Session → List Event
flush s =
    replicate (length s.posted) post_run
    ++ replicate (length (s.queue ++ s.posted)) (ws_written true)

-- Every message arrives while the writes succeed: when the posted handlers have run and as many writes
-- have completed as there are messages, the client has been sent all that `send` was called with, in
-- order, and nothing is left to do.
pub flush_delivers :
    (s : Session)
    → IsFlowing s
    → run_events (flush s) s
      ≡ some (record s { queue = []; writes = []; posted = []; sent = history s })
flush_delivers s f =
    ap (run_events (flush s)) (λ i. record s { writes = f i })
    ∙ run_events-append (replicate (length s.posted) post_run)
        (replicate (length (s.queue ++ s.posted)) (ws_written true))
        (flowing s s.sent s.queue s.posted) (flowing s s.sent (s.queue ++ s.posted) [])
        (drain_posts s s.posted s.queue s.sent)
    ∙ drain_writes s (s.queue ++ s.posted) s.sent

-- ===== src/Server/Queue.antt =====
-- The outbound queue of a session: order, single writes, and the lifetime of the buffer.
use kvadra_top.Base.{
  ◌≡◌, refl, ◌∙◌, ap, sym, ◌⊎◌, inl, inr, Bool, true, false, Option, none, some, List, [], ◌∷◌,
  ◌++◌, append_assoc, arith,
}
use mathlib.Core.Path.{subst}
use kvadra_top.Text.{Bytes}
use kvadra_top.Server.Session.{
  Session, Change, Event, http_read, http_written, failed, upgrade, plain, ws_accepted, ws_read,
  ws_written, post_run, start, send, enqueue, complete_write, run_post, handle,
}

-- All messages that `send` was called with, in the order of the calls: those the client was sent,
-- those in the queue, and those whose handler has not run.
abbrev pub history : Session → List Bytes
history s = s.sent ++ (s.queue ++ s.posted)

-- At most one write is outstanding, and its message stands at the front of the queue. So frames do
-- not mix, and the string whose bytes are being written is still owned.
abbrev pub OneWrite : List Bytes → List Bytes → Type 0
OneWrite queue writes =
    (writes ≡ []) ⊎ ((m : Bytes) × (q : List Bytes) × (queue ≡ m ∷ q) × (writes ≡ m ∷ []))

abbrev pub IsValid : Session → Type 0
IsValid s = OneWrite s.queue s.writes

pub start-IsValid : (root : Bytes) → IsValid (start root)
unfolding start
start-IsValid root = inl refl

pub send-IsValid : (m : Bytes) (s : Session) → IsValid s → IsValid (send m s)
unfolding send
send-IsValid m s v = v

-- What a handler keeps, where it runs.
abbrev Keeps : Session → Option (Session × Change) → Type 0
Keeps s none = Unit
Keeps s (some (after, c)) = IsValid after × (history after ≡ history s)

module _ (s : Session) where
  abbrev session_of : List Bytes → List Bytes → Session
  session_of queue writes = record s { queue = queue; writes = writes }

  enqueue-IsValid :
      (m : Bytes) (q w : List Bytes) → OneWrite q w → IsValid (enqueue m (session_of q w))
  unfolding enqueue
  enqueue-IsValid m [] w (inl e) = inr (m, [], refl, rw e)
  enqueue-IsValid m [] w (inr (x, q, e, f)) = absurd (ground arith)
  enqueue-IsValid m (x ∷ q) w (inl e) = inl e
  enqueue-IsValid m (x ∷ q) w (inr (y, r, e, f)) = inr (x, q ++ m ∷ [], refl, cc)

  history-enqueue :
      (m : Bytes) (q w : List Bytes)
      → history (enqueue m (session_of q w)) ≡ s.sent ++ (q ++ m ∷ s.posted)
  unfolding enqueue
  history-enqueue m [] w = refl
  history-enqueue m (x ∷ q) w = simp append_assoc

  complete_write-Keeps :
      (b : Bool) (q w : List Bytes)
      → OneWrite q w
      → Keeps (session_of q w) (complete_write b w (session_of q w))
  unfolding complete_write
  complete_write-Keeps b q [] v = tt
  complete_write-Keeps b q (m ∷ w) (inl e) = absurd (ground arith)
  complete_write-Keeps false q (m ∷ w) (inr (x, r, e, f)) = (inl (cc), refl)
  complete_write-Keeps true [] (m ∷ w) (inr (x, r, e, f)) = absurd (ground arith)
  complete_write-Keeps true (y ∷ []) (m ∷ w) (inr (x, r, e, f)) =
      (inl cc, append_assoc s.sent (m ∷ []) s.posted ∙ ap (λ n. s.sent ++ (n ∷ s.posted)) (cc))
  complete_write-Keeps true (y ∷ z ∷ q) (m ∷ w) (inr (x, r, e, f)) = (
    inr (z, q, refl, ap (λ v. v ++ z ∷ []) (let nil : w ≡ [] = cc in nil)),
    append_assoc s.sent (m ∷ []) (z ∷ (q ++ s.posted))
        ∙ ap (λ n. s.sent ++ (n ∷ z ∷ (q ++ s.posted))) (cc),
  )

run_post-Keeps : (s : Session) (p : List Bytes) → s.posted ≡ p → IsValid s → Keeps s (run_post p s)
unfolding run_post
run_post-Keeps s [] e v = tt
run_post-Keeps s (m ∷ rest) e v = (
  enqueue-IsValid (record s { posted = rest }) m s.queue s.writes v,
  history-enqueue (record s { posted = rest }) m s.queue s.writes
      ∙ ap (λ p. s.sent ++ (s.queue ++ p)) (sym e),
)

handle-Keeps : (e : Event) (s : Session) → IsValid s → Keeps s (handle e s)
unfolding handle
handle-Keeps (http_read failed) s v = ground arith
handle-Keeps (http_read upgrade) s v = ground arith
handle-Keeps (http_read (plain fs target keep_alive)) s v = ground arith
handle-Keeps (http_written ok) s v = ground arith
handle-Keeps (ws_accepted false) s v = ground arith
handle-Keeps (ws_accepted true) s v = ground arith
handle-Keeps (ws_read false) s v = ground arith
handle-Keeps (ws_read true) s v = ground arith
handle-Keeps (ws_written ok) s v = complete_write-Keeps s ok s.queue s.writes v
handle-Keeps post_run s v = run_post-Keeps s s.posted refl v

-- Whatever handler runs in a valid session, the session stays valid, and no message is lost, doubled
-- or overtaken.
pub handle-IsValid :
    (e : Event) (s after : Session) (c : Change)
    → IsValid s
    → handle e s ≡ some (after, c)
    → IsValid after × (history after ≡ history s)
handle-IsValid e s after c v h = subst (Keeps s) h (handle-Keeps e s v)

-- ===== src/Server/Failure.antt =====
-- What a failed write leaves of a session.
use kvadra_top.Base.{
  ◌≡◌, ◌≢◌, refl, ◌∙◌, ap, sym, inl, inr, true, false, Option, none, some, List, [], ◌∷◌, ◌++◌,
  arith, Option-cases,
}
use mathlib.Core.List.{cons-ne-nil}
use mathlib.Core.Path.{subst}
use kvadra_top.Text.{Bytes}
use kvadra_top.Server.Session.{
  Session, Change, keep, leave, Event, http_read, http_written, failed, upgrade, plain, ws_accepted,
  ws_read, ws_written, post_run, send, handle, enqueue, complete_write, run_post,
}
use kvadra_top.Server.Queue.{IsValid, OneWrite}
use kvadra_top.Server.Delivery.{Input, message, event, run_inputs}

-- A queue that is not empty, and no write outstanding.
abbrev IsStalled : List Bytes → List Bytes → Type 0
IsStalled queue writes = (writes ≡ []) × (queue ≢ [])

-- What stays of a stalled session, where a handler runs.
abbrev StaysStalled : Session → Option (Session × Change) → Type 0
StaysStalled s none = Unit
StaysStalled s (some (after, c)) = IsStalled after.queue after.writes × (after.sent ≡ s.sent)

module _ (s : Session) where
  abbrev holding : List Bytes → Session
  holding queue = record s { queue = queue }

  enqueue-stalled :
      (m : Bytes) (queue : List Bytes)
      → IsStalled queue s.writes
      → StaysStalled (holding queue) (some (enqueue m (holding queue), keep))
  unfolding enqueue
  enqueue-stalled m [] h = absurd (h.1 refl)
  enqueue-stalled m (x ∷ queue) h = ((h.0, cons-ne-nil x (queue ++ m ∷ [])), refl)

run_post-stalled :
    (s : Session) (p : List Bytes) → IsStalled s.queue s.writes → StaysStalled s (run_post p s)
unfolding run_post
run_post-stalled s [] h = tt
run_post-stalled s (m ∷ rest) h = enqueue-stalled (record s { posted = rest }) m s.queue h

handle-stalled :
    (e : Event) (s : Session) → IsStalled s.queue s.writes → StaysStalled s (handle e s)
unfolding handle
handle-stalled (http_read failed) s h = ground arith
handle-stalled (http_read upgrade) s h = ground arith
handle-stalled (http_read (plain fs target keep_alive)) s h = ground arith
handle-stalled (http_written ok) s h = ground arith
handle-stalled (ws_accepted false) s h = ground arith
handle-stalled (ws_accepted true) s h = ground arith
handle-stalled (ws_read false) s h = ground arith
handle-stalled (ws_read true) s h = ground arith
handle-stalled (ws_written ok) s h =
    subst (λ w. StaysStalled s (complete_write ok w s)) (sym h.0) tt
handle-stalled post_run s h = run_post-stalled s s.posted h

run_inputs-stalled :
    (inputs : List Input) (s t : Session)
    → IsStalled s.queue s.writes
    → run_inputs inputs s ≡ some t
    → t.sent ≡ s.sent
unfolding run_inputs send
run_inputs-stalled [] s t v h = let e : s ≡ t = cc in ap (λ (x : Session). x.sent) (sym e)
run_inputs-stalled (message m ∷ rest) s t v h = run_inputs-stalled rest (send m s) t v h
run_inputs-stalled (event e ∷ rest) s t v h = elim (Option-cases (handle e s)) [
  | inl n ↦ absurd (let k : none ≡ some t = rw (n, run_inputs) at h in cc)
  | inr ((after, c), n) ↦
      let k : run_inputs rest after ≡ some t = rw (n, run_inputs) at h in
      let (stalled, same) = subst (StaysStalled s) n (handle-stalled e s v) in
      run_inputs-stalled rest after t stalled k ∙ same
]

-- What a failed write leaves.
abbrev Fails : Session → Option (Session × Change) → Type 0
Fails s none = Unit
Fails s (some (after, c)) = IsStalled after.queue after.writes × (after.sent ≡ s.sent) × (c ≡ leave)

complete_write-Fails :
    (writes : List Bytes) (s : Session)
    → OneWrite s.queue writes
    → Fails s (complete_write false writes s)
unfolding complete_write
complete_write-Fails [] s v = tt
complete_write-Fails (m ∷ w) s (inl n) = absurd (ground arith)
complete_write-Fails (m ∷ w) s (inr (x, q, p, n)) =
    ((cc, λ e. cons-ne-nil x q (sym p ∙ e)), refl, refl)

-- After a write has failed the session leaves the registry, and the client is sent nothing more,
-- whatever is given to `send` and whatever handlers run.
pub failed_write_is_last :
    (s after t : Session) (c : Change) (inputs : List Input)
    → IsValid s
    → handle (ws_written false) s ≡ some (after, c)
    → run_inputs inputs after ≡ some t
    → (c ≡ leave) × (t.sent ≡ s.sent)
unfolding handle
failed_write_is_last s after t c inputs v h run =
    let (stalled, same, left) = subst (Fails s) h (complete_write-Fails s.writes s v) in
    (left, run_inputs-stalled inputs after t stalled run ∙ same)

-- ===== src/Server/Apart.antt =====
-- A session that has a response is given no message, and its handlers keep this.
use mathlib.Core.List.{cons-ne-nil}
use kvadra_top.Http.{Response, serve_file}
use kvadra_top.Base.{
  Result, throw, ok, ◌≡◌, refl, ◌∙◌, sym, ◌⊎◌, inl, inr, Bool, true, false, Option, none, some,
  List, [], ◌∷◌, ◌++◌, arith, Bool-cases,
}
use kvadra_top.Text.{Bytes}
use kvadra_top.Server.Session.{
  Phase, Session, Change, Request, Event, handle, on_read_http, answered, on_write_http,
  on_accept_ws, on_ws_read, complete_write, run_post, write_front, enqueue, is_empty, pop_front,
  http_read, http_written, ws_accepted, ws_read, ws_written, post_run, failed, upgrade, plain,
  http_reading, http_writing, ws_accepting, ws_reading, finished,
}
use kvadra_top.Server.Handshake.{IsFresh, is_opening}

abbrev pub is_closing : Phase → Bool
is_closing http_reading = false
is_closing http_writing = true
is_closing ws_accepting = false
is_closing ws_reading = false
is_closing finished = true

-- A session in phase `p` has no response, or it has been given no message and never will be.
abbrev pub Apart : Phase → Session → Type 0
Apart p s = (s.replies ≡ []) ⊎ ((is_closing p ≡ true) × IsFresh s)

abbrev pub After : Option (Session × Change) → Type 0
After none = Unit
After (some (after, c)) = Apart after.phase after

write_front-replies : (q : List Bytes) (s : Session) → (write_front q s).replies ≡ s.replies
unfolding write_front
write_front-replies [] s = refl
write_front-replies (m ∷ q) s = refl

enqueue-replies : (m : Bytes) (s : Session) → (enqueue m s).replies ≡ s.replies
unfolding enqueue
enqueue-replies m s = elim (Bool-cases (is_empty s.queue)) [
  | inl e ↦
      rw (e, enqueue)
        (write_front-replies (s.queue ++ m ∷ []) (record s { queue = s.queue ++ m ∷ [] }))
  | inr e ↦ rw (e, enqueue) refl
]

complete_write-After :
    (success : Bool) (w : List Bytes) (s : Session)
    → s.writes ≡ w
    → Apart s.phase s
    → After (complete_write success w s)
unfolding complete_write
complete_write-After success [] s e h = tt
complete_write-After success (m ∷ w) s e (inr (c, f)) = absurd (cons-ne-nil m w (sym e ∙ f.1))
complete_write-After false (m ∷ w) s e (inl nil) = inl nil
complete_write-After true (m ∷ w) s e (inl nil) =
    let popped = record s { queue = pop_front s.queue; writes = w; sent = s.sent ++ m ∷ [] } in
    inl (write_front-replies popped.queue popped ∙ nil)

run_post-After :
    (p : List Bytes) (s : Session) → s.posted ≡ p → Apart s.phase s → After (run_post p s)
unfolding run_post
run_post-After [] s e h = tt
run_post-After (m ∷ p) s e (inr (c, f)) = absurd (cons-ne-nil m p (sym e ∙ f.2))
run_post-After (m ∷ p) s e (inl nil) = inl (enqueue-replies m (record s { posted = p }) ∙ nil)

answered-After : (s : Session) → IsFresh s → (r : Result Response) → After (some (answered s r))
answered-After s f (throw x) = inr (refl, f)
answered-After s f (ok response) = inr (refl, f)

on_read-After :
    (r : Request) (s : Session) (p : Phase)
    → Apart p s
    → (is_opening p ≡ true → IsFresh s)
    → After (elim p [ http_reading ↦ some (on_read_http r s) | _ ↦ none ])
unfolding on_read_http
on_read-After failed s http_reading (inl nil) fresh = inl nil
on_read-After failed s http_reading (inr (c, f)) fresh = inr (refl, f)
on_read-After upgrade s http_reading (inl nil) fresh = inl nil
on_read-After upgrade s http_reading (inr (c, f)) fresh = absurd (ground arith)
on_read-After (plain fs target keep_alive) s http_reading h fresh =
    answered-After s (fresh refl) (serve_file fs target keep_alive s.static_root)
on_read-After r s http_writing h fresh = tt
on_read-After r s ws_accepting h fresh = tt
on_read-After r s ws_reading h fresh = tt
on_read-After r s finished h fresh = tt

-- The other handlers that wait in one phase leave the responses as they are.
on_write-After :
    (success : Bool) (s : Session) (p : Phase)
    → Apart p s
    → After (elim p [ http_writing ↦ some (on_write_http success s) | _ ↦ none ])
unfolding on_write_http
on_write-After success s http_writing (inl nil) = inl nil
on_write-After success s http_writing (inr (c, f)) = inr (refl, f)
on_write-After success s http_reading h = tt
on_write-After success s ws_accepting h = tt
on_write-After success s ws_reading h = tt
on_write-After success s finished h = tt

on_accept_ws-After :
    (success : Bool) (s : Session) (p : Phase)
    → Apart p s
    → After (elim p [ ws_accepting ↦ some (on_accept_ws success s) | _ ↦ none ])
unfolding on_accept_ws
on_accept_ws-After true s ws_accepting (inl nil) = inl nil
on_accept_ws-After false s ws_accepting (inl nil) = inl nil
on_accept_ws-After success s ws_accepting (inr (c, f)) = absurd (ground arith)
on_accept_ws-After success s http_writing h = tt
on_accept_ws-After success s http_reading h = tt
on_accept_ws-After success s ws_reading h = tt
on_accept_ws-After success s finished h = tt

on_ws_read-After :
    (success : Bool) (s : Session) (p : Phase)
    → Apart p s
    → After (elim p [ ws_reading ↦ some (on_ws_read success s) | _ ↦ none ])
unfolding on_ws_read
on_ws_read-After true s ws_reading (inl nil) = inl nil
on_ws_read-After false s ws_reading (inl nil) = inl nil
on_ws_read-After success s ws_reading (inr (c, f)) = absurd (ground arith)
on_ws_read-After success s http_writing h = tt
on_ws_read-After success s http_reading h = tt
on_ws_read-After success s ws_accepting h = tt
on_ws_read-After success s finished h = tt

pub handle-After :
    (e : Event) (s : Session)
    → Apart s.phase s
    → (is_opening s.phase ≡ true → IsFresh s)
    → After (handle e s)
unfolding handle
handle-After (http_read r) s h fresh = on_read-After r s s.phase h fresh
handle-After (http_written success) s h fresh = on_write-After success s s.phase h
handle-After (ws_accepted success) s h fresh = on_accept_ws-After success s s.phase h
handle-After (ws_read success) s h fresh = on_ws_read-After success s s.phase h
handle-After (ws_written success) s h fresh = complete_write-After success s.writes s refl h
handle-After post_run s h fresh = run_post-After s.posted s refl h

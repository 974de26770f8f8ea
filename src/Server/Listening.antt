-- ===== src/Server/Listening.antt =====
-- When a client listens, told from the actions alone, and that the registry follows.
use kvadra_top.Base.{
  ℕ, ◌≡◌, refl, Bool, true, false, Option, none, some, List, [], ◌∷◌, ◌++◌, ◌==◌, if◌then◌else◌,
  arith,
}
use kvadra_top.Text.{Bytes}
use kvadra_top.Server.Session.{
  Session, Change, Event, handle, complete_write, run_post, http_read, http_written, ws_accepted,
  ws_read, ws_written, post_run, failed, upgrade, plain,
}
use kvadra_top.Server.Hub.{Action, handles, broadcasts}
use kvadra_top.Server.Handshake.{changed}
use kvadra_top.Server.Reachable.{added}

-- Whether a client listens after an event of its session: from the end of its handshake until a read
-- or a write fails.
abbrev pub listens_after : Event → Bool → Bool
listens_after (ws_accepted true) b = true
listens_after (ws_read false) b = false
listens_after (ws_written false) b = false
listens_after _ b = b

-- The same after any action, for client `i`.
abbrev pub listens : ℕ → Action → Bool → Bool
listens i (handles j e) b = if j == i then listens_after e b else b
listens i _ b = b

abbrev pub said : Action → Bool → List Bytes
said (broadcasts m) b = added m b
said _ b = []

-- The messages that are broadcast while client `i` listens.
abbrev pub heard : ℕ → Bool → List Action → List Bytes
heard i b [] = []
heard i b (a ∷ rest) = said a b ++ heard i (listens i a b) rest

abbrev pub Toggles : Event → Bool → Option (Session × Change) → Type 0
Toggles e b none = Unit
Toggles e b (some (after, c)) = changed c b ≡ listens_after e b

complete_write-Toggles :
    (ok : Bool) (w : List Bytes) (s : Session) (b : Bool)
    → Toggles (ws_written ok) b (complete_write ok w s)
unfolding complete_write
complete_write-Toggles ok [] s b = tt
complete_write-Toggles false (m ∷ w) s b = refl
complete_write-Toggles true (m ∷ w) s b = refl

run_post-Toggles : (p : List Bytes) (s : Session) (b : Bool) → Toggles post_run b (run_post p s)
unfolding run_post
run_post-Toggles [] s b = tt
run_post-Toggles (m ∷ p) s b = refl

pub handle-Toggles : (e : Event) (s : Session) (b : Bool) → Toggles e b (handle e s)
unfolding handle
handle-Toggles (http_read failed) s b = ground arith
handle-Toggles (http_read upgrade) s b = ground arith
handle-Toggles (http_read (plain fs target keep_alive)) s b = ground arith
handle-Toggles (http_written ok) s b = ground arith
handle-Toggles (ws_accepted false) s b = ground arith
handle-Toggles (ws_accepted true) s b = ground arith
handle-Toggles (ws_read false) s b = ground arith
handle-Toggles (ws_read true) s b = ground arith
handle-Toggles (ws_written ok) s b = complete_write-Toggles ok s.writes s b
handle-Toggles post_run s b = run_post-Toggles s.posted s b

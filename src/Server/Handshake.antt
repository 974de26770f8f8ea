-- ===== src/Server/Handshake.antt =====
-- What the handlers of a session keep of its handshake and its registration.
use kvadra_top.Base.{
  ◌≡◌, refl, ◌∙◌, ap, sym, inl, inr, Bool, true, false, Option, none, some, List, [], ◌∷◌, ◌++◌,
  arith, Bool-cases,
}
use mathlib.Core.List.{cons-ne-nil}
use kvadra_top.Text.{Bytes}
use kvadra_top.Server.Session.{
  Phase, http_reading, http_writing, ws_accepting, ws_reading, finished, Session, Change, keep,
  enter, leave, escape, is_alive, is_pending, handle, Event, http_read, http_written, ws_accepted,
  ws_read, ws_written, post_run, failed, upgrade, plain, is_empty, pop_front, complete_write,
  run_post, write_front, enqueue,
}

-- The handshake is not over.
abbrev pub is_opening : Phase → Bool
is_opening http_reading = true
is_opening http_writing = true
is_opening ws_accepting = true
is_opening ws_reading = false
is_opening finished = false

abbrev pub IsFresh : Session → Type 0
IsFresh s = (s.queue ≡ []) × (s.writes ≡ []) × (s.posted ≡ []) × (s.sent ≡ [])

pub reading-alive : (s : Session) → s.phase ≡ ws_reading → is_alive s ≡ true
unfolding is_alive is_pending
reading-alive s e = rw e refl

-- A session, and whether it is registered: a registered session waits for frames of its client; one
-- whose handshake is not over has been given no message.
abbrev pub Agrees : Option Session → Bool → Type 0
Agrees none b = b ≡ false
Agrees (some s) b = (b ≡ true → s.phase ≡ ws_reading) × (is_opening s.phase ≡ true → IsFresh s)

abbrev pub changed : Change → Bool → Bool
changed keep b = b
changed enter b = true
changed leave b = false
changed escape b = b

abbrev pub StaysAgreed : Bool → Option (Session × Change) → Type 0
StaysAgreed b none = Unit
StaysAgreed b (some (after, c)) = Agrees (some after) (changed c b)

write_front-phase : (q : List Bytes) (s : Session) → (write_front q s).phase ≡ s.phase
unfolding write_front
write_front-phase [] s = refl
write_front-phase (m ∷ q) s = refl

enqueue-phase : (m : Bytes) (s : Session) → (enqueue m s).phase ≡ s.phase
unfolding enqueue
enqueue-phase m s = elim (Bool-cases (is_empty s.queue)) [
  | inl e ↦ rw e (write_front-phase (s.queue ++ m ∷ []) _)
  | inr e ↦ rw e refl
]

pub settled-Agrees :
    (s t : Session) (b : Bool)
    → is_opening s.phase ≡ false
    → t.phase ≡ s.phase
    → (b ≡ true → s.phase ≡ ws_reading)
    → Agrees (some t) b
settled-Agrees s t b n e a =
    (λ h. e ∙ a h, λ h. absurd (let same = ap is_opening e in ground arith))

writing-settled :
    (s : Session) (b : Bool) (m : Bytes) (w : List Bytes)
    → s.writes ≡ m ∷ w
    → Agrees (some s) b
    → is_opening s.phase ≡ false
writing-settled s b m w e a = elim (Bool-cases (is_opening s.phase)) [
  | inl o ↦ absurd (cons-ne-nil m w (sym e ∙ (a.1 o).1))
  | inr n ↦ n
]

posting-settled :
    (s : Session) (b : Bool) (m : Bytes) (p : List Bytes)
    → s.posted ≡ m ∷ p
    → Agrees (some s) b
    → is_opening s.phase ≡ false
posting-settled s b m p e a = elim (Bool-cases (is_opening s.phase)) [
  | inl o ↦ absurd (cons-ne-nil m p (sym e ∙ (a.1 o).2))
  | inr n ↦ n
]

complete_write-Agrees :
    (ok : Bool) (w : List Bytes) (s : Session) (b : Bool)
    → s.writes ≡ w
    → Agrees (some s) b
    → StaysAgreed b (complete_write ok w s)
unfolding complete_write
complete_write-Agrees ok [] s b e a = tt
complete_write-Agrees false (m ∷ w) s b e a =
    settled-Agrees s (record s { writes = w }) false (writing-settled s b m w e a) refl
      (λ h. absurd (ground arith))
complete_write-Agrees true (m ∷ w) s b e a =
    let popped = record s { queue = pop_front s.queue; writes = w; sent = s.sent ++ m ∷ [] } in
    settled-Agrees s (write_front popped.queue popped) b (writing-settled s b m w e a)
      (write_front-phase popped.queue popped) a.0

run_post-Agrees :
    (p : List Bytes) (s : Session) (b : Bool)
    → s.posted ≡ p
    → Agrees (some s) b
    → StaysAgreed b (run_post p s)
unfolding run_post
run_post-Agrees [] s b e a = tt
run_post-Agrees (m ∷ p) s b e a =
    let rest = record s { posted = p } in
    settled-Agrees s (enqueue m rest) b (posting-settled s b m p e a) (enqueue-phase m rest) a.0

pub handle-Agrees :
    (e : Event) (s : Session) (b : Bool) → Agrees (some s) b → StaysAgreed b (handle e s)
unfolding handle
handle-Agrees (http_read failed) s b a = ground arith
handle-Agrees (http_read upgrade) s b a = ground arith
handle-Agrees (http_read (plain fs target keep_alive)) s b a = ground arith
handle-Agrees (http_written ok) s b a = ground arith
handle-Agrees (ws_accepted false) s b a = ground arith
handle-Agrees (ws_accepted true) s b a = ground arith
handle-Agrees (ws_read false) s b a = ground arith
handle-Agrees (ws_read true) s b a = ground arith
handle-Agrees (ws_written ok) s b a = complete_write-Agrees ok s.writes s b refl a
handle-Agrees post_run s b a = run_post-Agrees s.posted s b refl a

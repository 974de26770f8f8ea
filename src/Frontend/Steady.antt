-- ===== src/Frontend/Steady.antt =====
-- The service keeps one connection, or one timer for the next.
use mathlib.Core.Path.{subst}
use kvadra_top.Base.{
  ℕ, ◌≡◌, refl, sym, ap, ◌∙◌, ◌⊎◌, inl, inr, true, false, Option, none, some, List, [], ◌∷◌, ◌++◌,
  All-append, get_elem?, length, arith, if◌then◌else◌,
}
use kvadra_top.Frontend.Page.{ReadyState, connecting, closed, is_closed, set_at, without, has}
use kvadra_top.Frontend.Outcome.{After}
use kvadra_top.Frontend.Sockets.{AllClosed, set_at-last, get_elem?-cases}
use kvadra_top.Frontend.Service.{
  Service, cancel, cancel_timer, close_ready, close_at, create_socket, connect, close_socket,
  disconnect, on_timer,
}

-- One WebSocket is not closed, the last, and no timer waits.
pub record Connected (sockets : List ReadyState) (socket : Option ℕ) (pending : List ℕ)
    (timer : Option ℕ) : Type 0 where
  pub old : List ReadyState
  pub last : ReadyState
  pub all : sockets ≡ old ++ last ∷ []
  pub old_closed : AllClosed old
  pub last_live : is_closed last ≡ false
  pub current : socket ≡ some (length old)
  pub none_pending : pending ≡ []
  pub no_timer : timer ≡ none

-- All WebSockets are closed, and one timer waits, which will connect again.
pub record Waiting (sockets : List ReadyState) (pending : List ℕ) (timer : Option ℕ) : Type 0 where
  pub next : ℕ
  pub all_closed : AllClosed sockets
  pub one_pending : pending ≡ next ∷ []
  pub its_timer : timer ≡ some next

-- After `disconnect`: no timer waits.
abbrev pub Over : List ℕ → Option ℕ → Type 0
Over pending timer = (pending ≡ []) × (timer ≡ none)

without_self : (t : ℕ) → without t (t ∷ []) ≡ []
without_self t = ground arith

has_only : (t next : ℕ) → has t (next ∷ []) ≡ true → without t (next ∷ []) ≡ []
has_only t next h = ground arith

module _ {J : Type 0} where
  abbrev pub IsSteady : Service J → Type 0
  IsSteady s =
      ((s.destroyed ≡ true) × Over s.pending s.reconnect_timer)
      ⊎ ((s.destroyed ≡ false)
          × (Connected s.sockets s.socket s.pending s.reconnect_timer
              ⊎ Waiting s.sockets s.pending s.reconnect_timer))

  abbrev pub Kept : Option (Service J) → Type 0
  Kept = After IsSteady

  pub create-IsSteady :
      (s : Service J)
      → s.destroyed ≡ false
      → AllClosed s.sockets
      → s.pending ≡ []
      → s.reconnect_timer ≡ none
      → IsSteady (create_socket s)
  unfolding create_socket
  create-IsSteady s d c p t = inr (
    d,
    inl (record {
      old = s.sockets;
      last = connecting;
      all = refl;
      old_closed = c;
      last_live = refl;
      current = refl;
      none_pending = p;
      no_timer = t;
    }),
  )

  pub cancel_none : (s : Service J) → s.reconnect_timer ≡ none → cancel_timer s ≡ s
  unfolding cancel_timer
  cancel_none s e = ap (λ o. cancel o s) e

  -- Nothing waits after the timer is cancelled, where it is the only one.
  cancel_timer-Over :
      (s : Service J) (t : ℕ)
      → s.reconnect_timer ≡ some t
      → s.pending ≡ t ∷ []
      → Over (cancel_timer s).pending (cancel_timer s).reconnect_timer
  unfolding cancel_timer
  cancel_timer-Over s t e p =
      subst (λ o. Over (cancel o s).pending (cancel o s).reconnect_timer) (sym e)
        (ap (without t) p ∙ without_self t, refl)

  cancel-destroyed : (o : Option ℕ) (s : Service J) → (cancel o s).destroyed ≡ s.destroyed
  cancel-destroyed none s = refl
  cancel-destroyed (some t) s = refl

  -- Closing changes the WebSockets alone.
  abbrev pub SameRest : Service J → Service J → Type 0
  SameRest t s =
      (t.destroyed ≡ s.destroyed)
      × (t.pending ≡ s.pending)
      × (t.reconnect_timer ≡ s.reconnect_timer)

  close_ready-SameRest :
      (i : ℕ) (o : Option ReadyState) (s : Service J) → SameRest (close_ready i o s) s
  close_ready-SameRest i none s = (refl, refl, refl)
  close_ready-SameRest i (some r) s = (refl, refl, refl)

  pub close_at-SameRest : (o : Option ℕ) (s : Service J) → SameRest (close_at o s) s
  close_at-SameRest none s = (refl, refl, refl)
  close_at-SameRest (some i) s = close_ready-SameRest i (get_elem? s.sockets i) s

  disconnect-IsSteady :
      (s : Service J)
      → Over
          (cancel_timer (record s { destroyed = true })).pending
          (cancel_timer (record s { destroyed = true })).reconnect_timer
      → IsSteady (disconnect s)
  unfolding disconnect cancel_timer close_socket
  disconnect-IsSteady s (p, t) =
      let over = cancel s.reconnect_timer (record s { destroyed = true }) in
      let (d', p', t') = close_at-SameRest over.socket over in
      inl
        (d' ∙ cancel-destroyed s.reconnect_timer (record s { destroyed = true }), (p' ∙ p, t' ∙ t))

  -- The state after `disconnect` does not depend on where the service was.
  pub disconnected : (s : Service J) → IsSteady s → IsSteady (disconnect s)
  unfolding cancel_timer
  disconnected s (inl (d, over)) = disconnect-IsSteady s (
      subst (λ (x : Service J). Over x.pending x.reconnect_timer)
        (sym (cancel_none (record s { destroyed = true }) over.1)) over)
  disconnected s (inr (d, inl c)) = disconnect-IsSteady s (
      subst (λ (x : Service J). Over x.pending x.reconnect_timer)
        (sym (cancel_none (record s { destroyed = true }) c.no_timer)) (c.none_pending, c.no_timer))
  disconnected s (inr (d, inr w)) =
      disconnect-IsSteady s
        (cancel_timer-Over (record s { destroyed = true }) w.next w.its_timer w.one_pending)

  -- The timer connects again.
  pub timer-IsSteady :
      (t : ℕ) (s : Service J)
      → s.destroyed ≡ false
      → Waiting s.sockets s.pending s.reconnect_timer
      → has t s.pending ≡ true
      → IsSteady (on_timer t s)
  unfolding on_timer connect cancel_timer
  timer-IsSteady t s d w h =
      let fired = record s { reconnect_timer = none; pending = without t s.pending } in
      let gone : without t s.pending ≡ [] =
        ap (without t) w.one_pending
        ∙ has_only t w.next (subst (λ l. has t l ≡ true) w.one_pending h) in
      subst (λ b. IsSteady (if b then fired else create_socket fired)) (sym d)
        (create-IsSteady fired d w.all_closed gone refl)

  -- The last WebSocket goes on to another state.
  pub moved :
      (s : Service J) (x : ReadyState) (i : ℕ)
      → s.destroyed ≡ false
      → (c : Connected s.sockets s.socket s.pending s.reconnect_timer) → i ≡ length c.old
      → is_closed x ≡ false
      → IsSteady (record s { sockets = set_at i x s.sockets })
  moved s x i d c e live = inr (
    d,
    inl (record {
      old = c.old;
      last = x;
      all =
          ap (λ k. set_at k x s.sockets) e
          ∙ ap (set_at (length c.old) x) c.all
          ∙ set_at-last c.old c.last x;
      old_closed = c.old_closed;
      last_live = live;
      current = c.current;
      none_pending = c.none_pending;
      no_timer = c.no_timer;
    }),
  )

  pub ended :
      (s : Service J) (i : ℕ)
      → (c : Connected s.sockets s.socket s.pending s.reconnect_timer) → i ≡ length c.old
      → AllClosed (set_at i closed s.sockets)
  ended s i c e =
      subst AllClosed
        (sym (
          ap (λ k. set_at k closed s.sockets) e
          ∙ ap (set_at (length c.old) closed) c.all
          ∙ set_at-last c.old c.last closed))
        (All-append (λ r. is_closed r ≡ true) c.old (closed ∷ []) c.old_closed (refl, tt))

  -- The WebSocket of an event is closed, or it is the last.
  pub last_or_closed :
      (s : Service J) (i : ℕ) (z : ReadyState)
      → (c : Connected s.sockets s.socket s.pending s.reconnect_timer)
      → get_elem? s.sockets i ≡ some z
      → (is_closed z ≡ true) ⊎ ((i ≡ length c.old) × (z ≡ c.last))
  last_or_closed s i z c n =
      get_elem?-cases c.old c.last z i c.old_closed (subst (λ l. get_elem? l i ≡ some z) c.all n)

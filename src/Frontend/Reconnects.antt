-- ===== src/Frontend/Reconnects.antt =====
-- That the service never stands still before it is disconnected.
use mathlib.Core.Path.{subst}
use kvadra_top.Base.{
  ℕ, ◌≡◌, refl, sym, ap, ◌∙◌, ◌⊎◌, inl, inr, Bool, true, false, Option, none, some, List, [], ◌∷◌,
  ◌++◌, All, length, arith, if◌then◌else◌,
}
use kvadra_top.Text.{Bytes}
use kvadra_top.Frontend.Page.{ReadyState, connecting, Call, connection, is_closed, without, has}
use kvadra_top.Frontend.Service.{
  Service, Input, fires, cancel_timer, create_socket, connect, on_timer, step, run, main,
}
use kvadra_top.Frontend.Steady.{Waiting, IsSteady, cancel_none}
use kvadra_top.Frontend.Lasting.{is_connect, service-IsSteady}

-- A timer waits that opens a WebSocket behind those that are there.
pub record Reopens {J : Type 0} (parse : Bytes → Option J) (throws : Call J → Bool) (s : Service J)
    : Type 0 where
  pub timer : ℕ
  pub after : Service J
  pub fired : step parse throws (fires timer) s ≡ some after
  pub added : after.sockets ≡ s.sockets ++ connecting ∷ []
  pub current : after.socket ≡ some (length s.sockets)
  pub listening :
      (after.snapshot_handlers ≡ s.snapshot_handlers)
      × (after.connection_handlers ≡ s.connection_handlers)

-- A WebSocket that is not closed stands last.
abbrev pub HasLive : List ReadyState → Type 0
HasLive sockets =
    (old : List ReadyState) × (last : ReadyState) × (sockets ≡ old ++ last ∷ [])
    × (is_closed last ≡ false)

has_self : (t : ℕ) → has t (t ∷ []) ≡ true
has_self t = ground arith

module _ {J : Type 0} (parse : Bytes → Option J) (throws : Call J → Bool) where
  fired_timer :
      (s : Service J) → s.destroyed ≡ false → s.reconnect_timer ≡ none → connect s ≡ create_socket s
  unfolding connect
  fired_timer s d t =
      subst (λ b. (if b then s else create_socket (cancel_timer s)) ≡ create_socket s) (sym d)
        (ap create_socket (cancel_none s t))

  Waiting-Reopens :
      (s : Service J)
      → s.destroyed ≡ false
      → Waiting s.sockets s.pending s.reconnect_timer
      → Reopens parse throws s
  unfolding step on_timer create_socket
  Waiting-Reopens s d w =
      let fired = record s { reconnect_timer = none; pending = without w.next s.pending } in
      let waits : has w.next s.pending ≡ true = ap (has w.next) w.one_pending ∙ has_self w.next in
      record {
        timer = w.next;
        after = create_socket fired;
        fired = rw waits (ap some (fired_timer fired d refl));
        added = refl;
        current = refl;
        listening = (refl, refl);
      }

  steady_goes_on :
      (s : Service J)
      → IsSteady s
      → (s.destroyed ≡ true) ⊎ (HasLive s.sockets ⊎ Reopens parse throws s)
  steady_goes_on s (inl (d, over)) = inl d
  steady_goes_on s (inr (d, inl c)) = inr (inl (c.old, c.last, c.all, c.last_live))
  steady_goes_on s (inr (d, inr w)) = inr (inr (Waiting-Reopens s d w))

  -- From the start that main.ts makes, whatever the browser does, where `connect` is not called again
  -- and no callback throws on a change of the connection: the service has been disconnected, or a
  -- WebSocket is not closed, or a timer waits, and when it fires, another WebSocket is opened, to which
  -- the same callbacks listen.
  pub service_goes_on :
      (calm : (h : ℕ) (b : Bool) → throws (connection h b) ≡ false) (inputs : List Input)
      (s : Service J)
      → All (λ e. is_connect e ≡ false) inputs
      → run parse throws inputs main ≡ some s
      → (s.destroyed ≡ true) ⊎ (HasLive s.sockets ⊎ Reopens parse throws s)
  service_goes_on calm inputs s n e =
      steady_goes_on s (service-IsSteady parse throws calm inputs s n e)

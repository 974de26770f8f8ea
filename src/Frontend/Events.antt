-- ===== src/Frontend/Events.antt =====
-- What each event of the browser makes of a service that is connected or waits.
use mathlib.Core.Path.{subst}
use kvadra_top.Base.{
  ℕ, ◌≡◌, refl, sym, ap, ◌∙◌, ◌⊎◌, inl, inr, Bool, true, false, Option, none, some, List, [], ◌∷◌,
  ◌++◌, map, get_elem?, length, arith, if◌then◌else◌, Bool-cases, Option-cases,
}
use kvadra_top.Text.{Bytes}
use kvadra_top.Frontend.Page.{
  ReadyState, connecting, opened, closing, closed, Call, connection, is_closed, set_at, has,
  closing_from, for_each,
}
use kvadra_top.Frontend.Sockets.{AllClosed, get_elem?-last, AllClosed-get_elem?}
use kvadra_top.Frontend.Service.{
  Service, close_ready, close_at, close_socket, schedule_reconnect, on_timer, tell, tell_connection,
  on_open, on_message, on_close, opening, receiving, ending, failing,
}
use kvadra_top.Frontend.Steady.{
  Over, IsSteady, Kept, close_at-SameRest, timer-IsSteady, moved, ended, last_or_closed,
}

closing_live : (r : ReadyState) → is_closed r ≡ false → is_closed (closing_from r) ≡ false
closing_live connecting e = refl
closing_live opened e = refl
closing_live closing e = refl
closing_live closed e = e

module _ {J : Type 0} (parse : Bytes → Option J) (throws : Call J → Bool)
    (calm : (h : ℕ) (b : Bool) → throws (connection h b) ≡ false) where
  for_each_calm :
      (b : Bool) (hs : List ℕ) → (for_each throws (map (λ h. connection h b) hs)).1 ≡ false
  unfolding for_each
  for_each_calm b [] = refl
  for_each_calm b (h ∷ hs) = rw (calm h b) (for_each_calm b hs)

  -- The end of a WebSocket, with the calls that it leads to.
  close-IsSteady :
      (s : Service J)
      → ((s.destroyed ≡ true) × Over s.pending s.reconnect_timer)
        ⊎ ((s.destroyed ≡ false) × AllClosed s.sockets × (s.pending ≡ []))
      → IsSteady (on_close parse throws s)
  unfolding on_close tell_connection tell schedule_reconnect
  close-IsSteady s (inl (d, over)) = rw (for_each_calm false s.connection_handlers) (
      subst
        (λ b. IsSteady (
          if b
          then (tell_connection parse throws false s).0
          else schedule_reconnect (tell_connection parse throws false s).0))
        (sym d) (inl (d, over)))
  close-IsSteady s (inr (d, c, p)) = rw (for_each_calm false s.connection_handlers) (
      subst
        (λ b. IsSteady (
          if b
          then (tell_connection parse throws false s).0
          else schedule_reconnect (tell_connection parse throws false s).0))
        (sym d)
        (inr (
          d,
          inr (record {
            next = s.timers;
            all_closed = c;
            one_pending = ap (λ l. l ++ s.timers ∷ []) p;
            its_timer = refl;
          }),
        )))

  pub opening-Kept :
      (z : ReadyState) (i : ℕ) (s : Service J)
      → get_elem? s.sockets i ≡ some z
      → IsSteady s
      → Kept (opening parse throws z i s)
  unfolding opening on_open tell_connection tell
  opening-Kept connecting i s n (inl over) = inl over
  opening-Kept connecting i s n (inr (d, inl c)) = elim (last_or_closed s i connecting c n) [
    | inl e ↦ absurd (ground arith)
    | inr (e, same) ↦ moved s opened i d c e refl
  ]
  opening-Kept connecting i s n (inr (d, inr w)) =
      absurd (let e = AllClosed-get_elem? s.sockets connecting i w.all_closed n in ground arith)
  opening-Kept opened i s n h = tt
  opening-Kept closing i s n h = tt
  opening-Kept closed i s n h = tt

  pub receiving-Kept :
      (z : ReadyState) (text : Bytes) (s : Service J)
      → IsSteady s
      → Kept (receiving parse throws z text s)
  unfolding receiving on_message tell
  receiving-Kept opened text s h = elim (Option-cases (parse text)) [
    | inl e ↦ rw (e, on_message) h
    | inr (j, e) ↦ rw (e, on_message) h
  ]
  receiving-Kept connecting text s h = tt
  receiving-Kept closing text s h = tt
  receiving-Kept closed text s h = tt

  ending-live :
      (z : ReadyState) (i : ℕ) (s : Service J)
      → is_closed z ≡ false
      → get_elem? s.sockets i ≡ some z
      → IsSteady s
      → IsSteady (on_close parse throws (record s { sockets = set_at i closed s.sockets }))
  ending-live z i s live n (inl over) =
      close-IsSteady (record s { sockets = set_at i closed s.sockets }) (inl over)
  ending-live z i s live n (inr (d, inl c)) = elim (last_or_closed s i z c n) [
    | inl e ↦ absurd (ground arith)
    | inr (e, same) ↦
        close-IsSteady (record s { sockets = set_at i closed s.sockets })
          (inr (d, ended s i c e, c.none_pending))
  ]
  ending-live z i s live n (inr (d, inr w)) =
      absurd (let e = AllClosed-get_elem? s.sockets z i w.all_closed n in ground arith)

  pub ending-Kept :
      (z : ReadyState) (i : ℕ) (s : Service J)
      → get_elem? s.sockets i ≡ some z
      → IsSteady s
      → Kept (ending parse throws z i s)
  unfolding ending
  ending-Kept closed i s n h = tt
  ending-Kept connecting i s n h = ending-live connecting i s refl n h
  ending-Kept opened i s n h = ending-live opened i s refl n h
  ending-Kept closing i s n h = ending-live closing i s refl n h

  -- The error leads to `close` of the current WebSocket.
  close_socket-IsSteady :
      (z : ReadyState) (i : ℕ) (s : Service J)
      → is_closed z ≡ false
      → get_elem? s.sockets i ≡ some z
      → IsSteady s
      → IsSteady (close_socket s)
  unfolding close_socket
  close_socket-IsSteady z i s live n (inl (d, over)) =
      let (d', p', t') = close_at-SameRest s.socket s in inl (d' ∙ d, (p' ∙ over.0, t' ∙ over.1))
  close_socket-IsSteady z i s live n (inr (d, inl c)) =
      let here : get_elem? s.sockets (length c.old) ≡ some c.last =
        ap (λ l. get_elem? l (length c.old)) c.all ∙ get_elem?-last c.old c.last in
      subst (λ o. IsSteady (close_at o s)) (sym c.current)
        (subst (λ o. IsSteady (close_ready (length c.old) o s)) (sym here)
          (moved s (closing_from c.last) (length c.old) d c refl (closing_live c.last c.last_live)))
  close_socket-IsSteady z i s live n (inr (d, inr w)) =
      absurd (let e = AllClosed-get_elem? s.sockets z i w.all_closed n in ground arith)

  pub failing-Kept :
      (z : ReadyState) (i : ℕ) (s : Service J)
      → get_elem? s.sockets i ≡ some z
      → IsSteady s
      → Kept (failing parse throws z s)
  unfolding failing
  failing-Kept closed i s n h = tt
  failing-Kept connecting i s n h = close_socket-IsSteady connecting i s refl n h
  failing-Kept opened i s n h = close_socket-IsSteady opened i s refl n h
  failing-Kept closing i s n h = close_socket-IsSteady closing i s refl n h

  pub firing-Kept :
      (t : ℕ) (s : Service J)
      → IsSteady s
      → Kept (if has t s.pending then some (on_timer t s) else none)
  firing-Kept t s h = elim (Bool-cases (has t s.pending)) [
    | inr e ↦ rw (e, Kept) tt
    | inl e ↦ rw (e, Kept) (fired h e)
  ]
    where
      fired : IsSteady s → has t s.pending ≡ true → IsSteady (on_timer t s)
      fired (inl (d, over)) e =
          absurd (let f = subst (λ l. has t l ≡ true) over.0 e in ground arith)
      fired (inr (d, inl c)) e =
          absurd (let f = subst (λ l. has t l ≡ true) c.none_pending e in ground arith)
      fired (inr (d, inr w)) e = timer-IsSteady t s d w e

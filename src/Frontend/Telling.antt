-- ===== src/Frontend/Telling.antt =====
-- What the operations of the service tell the callback of main.ts for snapshots.
use kvadra_top.Base.{
  ℕ, ◌≡◌, refl, sym, ap, ◌∙◌, inl, inr, Bool, true, false, Option, none, some, List, [], ◌∷◌, ◌++◌,
  map, append-nil, get_elem?, if◌then◌else◌, Bool-cases, Option-cases, ◌==◌,
}
use kvadra_top.Text.{Bytes}
use kvadra_top.Frontend.Page.{ReadyState, Call, connection, snapshot, for_each}
use kvadra_top.Frontend.Outcome.{After}
use kvadra_top.Frontend.Service.{
  Service, Input, receives, cancel, cancel_timer, close_ready, close_at, create_socket, connect,
  close_socket, disconnect, schedule_reconnect, tell, tell_connection, on_message, on_close,
}

module _ {J : Type 0} where
  pub either_way :
      (P : Service J → Type 0) (b : Bool) (x y : Service J) → P x → P y → P (if b then x else y)
  either_way P true x y hx hy = hx
  either_way P false x y hx hy = hy

  -- The snapshots in the calls of callback `h`.
  abbrev pub told : ℕ → List (Call J) → List J
  told h [] = []
  told h (connection k b ∷ rest) = told h rest
  told h (snapshot k j ∷ rest) = if k == h then j ∷ told h rest else told h rest

  told-append : (h : ℕ) (xs ys : List (Call J)) → told h (xs ++ ys) ≡ told h xs ++ told h ys
  told-append h [] ys = refl
  told-append h (connection k b ∷ xs) ys = told-append h xs ys
  told-append h (snapshot k j ∷ xs) ys = elim (Bool-cases (k == h)) [
    | inl e ↦ rw e (ap (λ l. j ∷ l) (told-append h xs ys))
    | inr e ↦ rw e (told-append h xs ys)
  ]

  abbrev pub list_of : Option J → List J
  list_of none = []
  list_of (some j) = j ∷ []

  -- The callback is registered once, and it has been told the snapshots.
  abbrev pub Tells : List J → Service J → Type 0
  Tells js s = (s.snapshot_handlers ≡ 1 ∷ []) × (told 1 s.calls ≡ js)

  abbrev pub TellsIf : List J → Option (Service J) → Type 0
  TellsIf js = After (Tells js)

  module _ (parse : Bytes → Option J) where
    abbrev pub parsed_of : Input → List J
    parsed_of (receives i text) = list_of (parse text)
    parsed_of _ = []

    -- The snapshots of the messages, in order; a text that is no JSON gives none.
    abbrev pub parsed : List Input → List J
    parsed [] = []
    parsed (e ∷ rest) = parsed_of e ++ parsed rest

    module _ (throws : Call J → Bool) (calm : (h : ℕ) (j : J) → throws (snapshot h j) ≡ false) where
      told_connection :
          (b : Bool) (hs : List ℕ) → told 1 (for_each throws (map (λ h. connection h b) hs)).0 ≡ []
      unfolding for_each
      told_connection b [] = refl
      told_connection b (h ∷ hs) = elim (Bool-cases (throws (connection h b))) [
        | inl e ↦ rw e refl
        | inr e ↦ rw e (told_connection b hs)
      ]

      pub cancel-Tells :
          (o : Option ℕ) (js : List J) (s : Service J) → Tells js s → Tells js (cancel o s)
      cancel-Tells none js s h = h
      cancel-Tells (some t) js s h = h

      pub connect-Tells : (js : List J) (s : Service J) → Tells js s → Tells js (connect s)
      unfolding connect cancel_timer create_socket
      connect-Tells js s h =
          either_way (Tells js) s.destroyed s (create_socket (cancel s.reconnect_timer s)) h
            (cancel-Tells s.reconnect_timer js s h)

      pub close_ready-Tells :
          (i : ℕ) (o : Option ReadyState) (js : List J) (s : Service J)
          → Tells js s
          → Tells js (close_ready i o s)
      close_ready-Tells i none js s h = h
      close_ready-Tells i (some r) js s h = h

      pub close_at-Tells :
          (o : Option ℕ) (js : List J) (s : Service J) → Tells js s → Tells js (close_at o s)
      close_at-Tells none js s h = h
      close_at-Tells (some i) js s h = close_ready-Tells i (get_elem? s.sockets i) js s h

      pub disconnect-Tells : (js : List J) (s : Service J) → Tells js s → Tells js (disconnect s)
      unfolding disconnect cancel_timer close_socket
      disconnect-Tells js s h =
          let over = cancel s.reconnect_timer (record s { destroyed = true }) in
          close_at-Tells over.socket js over
            (cancel-Tells s.reconnect_timer js (record s { destroyed = true }) h)

      pub tell_connection-Tells :
          (b : Bool) (js : List J) (s : Service J)
          → Tells js s
          → Tells js (tell_connection parse throws b s).0
      unfolding tell_connection tell
      tell_connection-Tells b js s h = (
        h.0,
        told-append 1 s.calls (for_each throws (map (λ k. connection k b) s.connection_handlers)).0
            ∙ ap (λ l. told 1 s.calls ++ l) (told_connection b s.connection_handlers)
            ∙ append-nil (told 1 s.calls)
            ∙ h.1,
      )

      told-snapshot : (j : J) → told 1 (for_each throws (snapshot 1 j ∷ [])).0 ≡ j ∷ []
      unfolding for_each
      told-snapshot j = rw (calm 1 j) refl

      pub on_message-Tells :
          (text : Bytes) (js : List J) (s : Service J)
          → Tells js s
          → Tells (js ++ list_of (parse text)) (on_message parse throws text s)
      unfolding on_message tell
      on_message-Tells text js s h = elim (Option-cases (parse text)) [
        | inl e ↦ rw (e, on_message) (h.0, h.1 ∙ sym (append-nil js))
        | inr (j, e) ↦
            rw (e, on_message)
              (
                h.0,
                told-append 1 s.calls
                      (for_each throws (map (λ k. snapshot k j) s.snapshot_handlers)).0
                    ∙ ap
                        (λ hs.
                          told 1 s.calls ++ told 1 (for_each throws (map (λ k. snapshot k j) hs)).0)
                        h.0
                    ∙ ap (λ l. told 1 s.calls ++ l) (told-snapshot j)
                    ∙ ap (λ l. l ++ j ∷ []) h.1,
              )
      ]

      pub on_close-Tells :
          (js : List J) (s : Service J) → Tells js s → Tells js (on_close parse throws s)
      unfolding on_close schedule_reconnect
      on_close-Tells js s h =
          let after = tell_connection parse throws false s in
          let h' = tell_connection-Tells false js s h in
          either_way (Tells js) after.1 after.0
            (if s.destroyed then after.0 else schedule_reconnect after.0) h'
            (either_way (Tells js) s.destroyed after.0 (schedule_reconnect after.0) h' h')

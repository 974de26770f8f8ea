-- ===== src/Frontend/Examples.antt =====
-- Runs of the service, and its theorems at concrete inputs.
use kvadra_top.Base.{
  length, ℕ, ◌≡◌, ◌⊎◌, refl, sym, Bool, true, false, Option, none, some, List, [], ◌∷◌, ◌++◌, map,
  ok, arith,
}
use kvadra_top.Text.{Bytes, pos}
use kvadra_top.Real.Fixed.{fixed}
use kvadra_top.Process.Insertion.{insertion_sort}
use kvadra_top.Collector
use kvadra_top.Collector.{Collector}
use kvadra_top.Serializer.{Tree}
use kvadra_top.Main.Scene.{
  quiet, world, stamp, dump, started, started_run, served, site, finish, client, first_text,
  brings-Keeps,
}
use kvadra_top.Frontend.Page.{Call, connection, snapshot, opened, closed}
use kvadra_top.Frontend.Service.{
  disconnect, Service, Input, connects, disconnects, opens, errs, closes, receives, fires, run,
  main,
}
use kvadra_top.Frontend.Steady.{IsSteady}
use kvadra_top.Frontend.Reconnects.{HasLive, Reopens, service_goes_on}
use kvadra_top.Frontend.Ended.{disconnect_is_final}
use kvadra_top.Frontend.Lasting.{service-IsSteady}
use kvadra_top.Frontend.Telling.{told}
use kvadra_top.Frontend.Told.{service-told}
use kvadra_top.Frontend.Dashboard.{parse_all, trees, dashboard_shows}

-- A text of one byte is a number; any other is no JSON.
abbrev parse : Bytes → Option ℕ
parse (n ∷ []) = some n
parse text = none

abbrev silent : Call ℕ → Bool
silent c = false

-- The server cannot be reached at first; the second WebSocket opens and is lost.
abbrev drops : List Input
drops =
    errs 0 ∷ closes 0 ∷ fires 0 ∷ opens 1 ∷ receives 1 first_text ∷ receives 1 [] ∷ closes 1 ∷ []

abbrev dropped : Service ℕ
dropped = record {
  socket = some 1;
  snapshot_handlers = 1 ∷ [];
  connection_handlers = 0 ∷ [];
  reconnect_timer = some 1;
  destroyed = false;
  sockets = closed ∷ closed ∷ [];
  pending = 1 ∷ [];
  timers = 2;
  calls = connection 0 false ∷ connection 0 true ∷ snapshot 1 1 ∷ connection 0 false ∷ [];
}

dropped_run : run parse silent drops main ≡ some dropped
unfolding run main
dropped_run = refl

service-IsSteady_example : IsSteady dropped
service-IsSteady_example =
    service-IsSteady parse silent (λ h b. refl) drops dropped
      (refl, (refl, (refl, (refl, (refl, (refl, (refl, tt))))))) dropped_run

service_goes_on_example :
    (dropped.destroyed ≡ true) ⊎ (HasLive dropped.sockets ⊎ Reopens parse silent dropped)
service_goes_on_example =
    service_goes_on parse silent (λ h b. refl) drops dropped
      (refl, (refl, (refl, (refl, (refl, (refl, (refl, tt))))))) dropped_run

service-told_example : told 1 dropped.calls ≡ 1 ∷ []
service-told_example = service-told parse silent (λ h j. refl) drops dropped dropped_run

-- The dashboard has received the one message that was sent to the client.
abbrev inputs : List Input
inputs = opens 0 ∷ receives 0 first_text ∷ []

abbrev page : Service ℕ
page = record {
  socket = some 0;
  snapshot_handlers = 1 ∷ [];
  connection_handlers = 0 ∷ [];
  reconnect_timer = none;
  destroyed = false;
  sockets = opened ∷ [];
  pending = [];
  timers = 0;
  calls = connection 0 true ∷ snapshot 1 1 ∷ [];
}

page-run : run parse silent inputs main ≡ some page
unfolding run main
page-run = refl

dump-parse : (j : Tree fixed) (text : Bytes) → dump j ≡ ok text → parse text ≡ some (stamp j)
dump-parse j text e = let same : stamp j ∷ [] ≡ text = cc in rw (sym same) refl

dashboard_shows_example :
    (c : Collector) × (Collector.init (pos 100) quiet ≡ ok c)
    × (told 1 page.calls ++ parse_all parse (client.queue ++ client.posted)
        ≡ map stamp (trees fixed insertion_sort dump world 3 0 c))
dashboard_shows_example =
    dashboard_shows fixed insertion_sort dump world parse stamp dump-parse silent (λ h j. refl) 27 0
      8080 started site finish _ client inputs page (omega arith) started_run refl brings-Keeps
      served refl page-run refl

-- `connect` does not look for a WebSocket that is there: of two, both go on.
connected_twice :
    run parse silent (connects ∷ opens 0 ∷ opens 1 ∷ []) main
    ≡ some (record page {
      socket = some 1;
      sockets = opened ∷ opened ∷ [];
      calls = connection 0 true ∷ connection 0 true ∷ [];
    })
unfolding run main
connected_twice = refl

-- A callback that throws when the connection is lost: no timer waits, and nothing connects again.
abbrev on_loss : Call ℕ → Bool
on_loss (connection h false) = true
on_loss c = false

lost :
    run parse on_loss (closes 0 ∷ []) main
    ≡ some (record page { sockets = closed ∷ []; calls = connection 0 false ∷ [] })
unfolding run main
lost = refl

-- After `disconnect` the WebSocket closes, and nothing connects again.
left :
    run parse silent (opens 0 ∷ disconnects ∷ closes 0 ∷ connects ∷ []) main
    ≡ some (record page {
      socket = none;
      destroyed = true;
      sockets = closed ∷ [];
      calls = connection 0 true ∷ connection 0 false ∷ [];
    })
unfolding run main
left = refl

abbrev gone : Service ℕ
gone = record page {
  socket = none;
  destroyed = true;
  sockets = closed ∷ [];
  calls = connection 0 true ∷ snapshot 1 1 ∷ connection 0 false ∷ [];
}

gone-run : run parse silent (closes 0 ∷ connects ∷ []) (disconnect page) ≡ some gone
unfolding run disconnect
gone-run = refl

disconnect_is_final_example : (gone.destroyed ≡ true) × (length gone.sockets ≡ length page.sockets)
disconnect_is_final_example =
    disconnect_is_final parse silent (closes 0 ∷ connects ∷ []) page gone gone-run

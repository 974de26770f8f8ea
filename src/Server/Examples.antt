-- ===== src/Server/Examples.antt =====
-- Runs of the server, and its theorems at concrete inputs.
use kvadra_top.Base.{none, ◌≡◌, refl, inr, true, some, List, [], ◌∷◌}
use kvadra_top.Text.{Bytes, codes}
use kvadra_top.Server.Session.{
  Session, leave, http_read, upgrade, ws_accepted, ws_read, ws_written, post_run, ws_reading,
  handle, start, send, run_events,
}
use kvadra_top.Server.Queue.{OneWrite}
use kvadra_top.Server.Delivery.{
  Input, message, event, run_inputs, messages, flush, delivery, flush_delivers,
}
use kvadra_top.Server.Failure.{failed_write_is_last}

abbrev a : Bytes
a = codes "a"

abbrev b : Bytes
b = codes "b"

-- Two messages wait, and the first of them is being written.
abbrev busy : Session
busy = record {
  static_root = codes "/srv";
  phase = ws_reading;
  queue = a ∷ b ∷ [];
  writes = a ∷ [];
  posted = [];
  sent = [];
  replies = [];
  expires = some 30 ∷ none ∷ [];
  server_field = some (codes "KvadraTop/1.0");
}

abbrev wrote_a : Session
wrote_a = record busy { queue = b ∷ []; writes = b ∷ []; sent = a ∷ [] }

abbrev broken : Session
broken = record busy { writes = [] }

abbrev inputs : List Input
inputs =
    event (http_read upgrade)
    ∷ event (ws_accepted true)
    ∷ message a
    ∷ message b
    ∷ event post_run
    ∷ event post_run
    ∷ event (ws_written true)
    ∷ []

delivery_example : OneWrite (b ∷ []) (b ∷ []) × (a ∷ b ∷ [] ≡ messages inputs)
unfolding run_inputs handle start send
delivery_example = delivery (codes "/srv") inputs wrote_a refl

flush_delivers_example :
    run_events (flush busy) busy ≡ some (record busy { queue = []; writes = []; sent = a ∷ b ∷ [] })
flush_delivers_example = flush_delivers busy refl

failed_write_is_last_example : (leave ≡ leave) × (broken.sent ≡ busy.sent)
unfolding handle run_inputs
failed_write_is_last_example =
    failed_write_is_last busy broken broken leave (event (ws_read true) ∷ [])
      (inr (a, b ∷ [], refl, refl)) refl refl

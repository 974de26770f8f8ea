-- ===== src/Frontend/Dashboard.antt =====
-- The whole way of a snapshot, from the rounds of the backend to the dashboard.
use kvadra_top.Base.{
  ℕ, zero, suc, ◌+◌, ◌/◌, ◌<◌, ◌≡◌, refl, sym, ap, ◌∙◌, Bool, true, false, Option, some, List, [],
  ◌∷◌, ◌++◌, map, append_assoc, All, get_elem?, Result, throw, ok,
}
use mathlib.Core.List.{map-append}
use kvadra_top.Text.{Bytes}
use kvadra_top.Real.{Double}
use kvadra_top.Snapshot.{Snapshot, ProcessEntry}
use kvadra_top.Process.{Sorting}
use kvadra_top.Collector
use kvadra_top.Collector.{Collector, collect}
use kvadra_top.Serializer.{Tree, snapshot_tree, serialize_snapshot}
use kvadra_top.Server.Session.{Session}
use kvadra_top.Server.Hub.{Hub, launch}
use kvadra_top.Server.Hub
use kvadra_top.Main
use kvadra_top.Main.{World, Program, as_action, report, serialized, broadcast_of, Start, exited}
use kvadra_top.Main.Reports.{reports}
use kvadra_top.Main.Subscribers.{listening, Keeps}
use kvadra_top.Main.Service.{main_serves}
use kvadra_top.Frontend.Page.{Call, snapshot}
use kvadra_top.Frontend.Service
use kvadra_top.Frontend.Service.{
  Service, Input, connects, disconnects, opens, errs, closes, receives, fires,
}
use kvadra_top.Frontend.Telling.{told, list_of, parsed}
use kvadra_top.Frontend.Told.{service-told}

-- The texts of the messages, in order.
abbrev pub texts : List Input → List Bytes
texts [] = []
texts (receives i text ∷ rest) = text ∷ texts rest
texts (connects ∷ rest) = texts rest
texts (disconnects ∷ rest) = texts rest
texts (opens i ∷ rest) = texts rest
texts (errs i ∷ rest) = texts rest
texts (closes i ∷ rest) = texts rest
texts (fires t ∷ rest) = texts rest

module _ {J : Type 0} (parse : Bytes → Option J) where
  abbrev pub parse_all : List Bytes → List J
  parse_all [] = []
  parse_all (text ∷ rest) = list_of (parse text) ++ parse_all rest

  parsed-texts : (inputs : List Input) → parsed parse inputs ≡ parse_all (texts inputs)
  parsed-texts [] = refl
  parsed-texts (receives i text ∷ rest) = ap (λ l. list_of (parse text) ++ l) (parsed-texts rest)
  parsed-texts (connects ∷ rest) = parsed-texts rest
  parsed-texts (disconnects ∷ rest) = parsed-texts rest
  parsed-texts (opens i ∷ rest) = parsed-texts rest
  parsed-texts (errs i ∷ rest) = parsed-texts rest
  parsed-texts (closes i ∷ rest) = parsed-texts rest
  parsed-texts (fires t ∷ rest) = parsed-texts rest

  parse_all-append : (xs ys : List Bytes) → parse_all (xs ++ ys) ≡ parse_all xs ++ parse_all ys
  parse_all-append [] ys = refl
  parse_all-append (x ∷ xs) ys =
      ap (λ l. list_of (parse x) ++ l) (parse_all-append xs ys)
      ∙ sym (append_assoc (list_of (parse x)) (parse_all xs) (parse_all ys))

module _ (d : Double) (s : Sorting (ProcessEntry d)) (dump : Tree d → Result Bytes)
    (w : World) where
  abbrev pub printed : Tree d → Result Bytes → List (Tree d)
  printed j (throw x) = []
  printed j (ok text) = j ∷ []

  abbrev pub shown : Result (Snapshot d) → List (Tree d)
  unfolding snapshot_tree
  shown (throw x) = []
  shown (ok snap) = printed (snapshot_tree d snap) (dump (snapshot_tree d snap))

  -- The trees of the snapshots of `k` rounds from round `n` on, of those in which nothing was thrown.
  unfoldable pub trees : ℕ → ℕ → Collector → List (Tree d)
  unfolding collect shown
  trees zero n c = []
  trees (suc k) n c = let r = collect d s (w.inputs n) c in shown r.1 ++ trees k (suc n) r.0

  module _ {J : Type 0} (parse : Bytes → Option J) (value_of : Tree d → J)
      (reads_back : (j : Tree d) (text : Bytes)
        → dump j ≡ ok text
        → parse text ≡ some (value_of j)) where
    printed-parse :
        (j : Tree d) (r : Result Bytes)
        → dump j ≡ r
        → parse_all parse (broadcast_of r) ≡ map value_of (printed j r)
    printed-parse j (throw x) e = refl
    printed-parse j (ok text) e = rw (reads_back j text e) refl

    shown-parse :
        (r : Collector × Result (Snapshot d))
        → parse_all parse (broadcast_of (serialized d s dump r).1) ≡ map value_of (shown r.1)
    unfolding serialized shown serialize_snapshot
    shown-parse (c, throw x) = refl
    shown-parse (c, ok snap) =
        printed-parse (snapshot_tree d snap) (dump (snapshot_tree d snap)) refl

    serialized_keeps : (r : Collector × Result (Snapshot d)) → (serialized d s dump r).0 ≡ r.0
    unfolding serialized
    serialized_keeps (c, throw x) = refl
    serialized_keeps (c, ok snap) = refl

    reports-trees :
        (k n : ℕ) (c : Collector)
        → parse_all parse (reports d s dump w k n c) ≡ map value_of (trees k n c)
    unfolding reports trees report
    reports-trees zero n c = refl
    reports-trees (suc k) n c =
        let got = collect d s (w.inputs n) c in
        let r = serialized d s dump got in
        parse_all-append parse (broadcast_of r.1) (reports d s dump w k (suc n) r.0)
        ∙ ap (λ l. l ++ parse_all parse (reports d s dump w k (suc n) r.0)) (shown-parse got)
        ∙ ap (λ l. map value_of (shown got.1) ++ l) (reports-trees k (suc n) r.0)
        ∙ ap (λ z. map value_of (shown got.1) ++ map value_of (trees k (suc n) z))
            (serialized_keeps got)
        ∙ sym (map-append value_of (shown got.1) (trees k (suc n) got.0))

    -- The whole program, as in main_serves, and a dashboard whose messages are the texts that the
    -- client was sent, and whose callback for snapshots does not throw. Where JSON.parse reads back
    -- what dump prints, each tree as its value: the snapshots that the callback was told, and then those that are still on the
    -- server, are the values of the rounds in which nothing was thrown, once each and in order.
    pub dashboard_shows :
        (throws : Call J → Bool) (calm : (h : ℕ) (j : J) → throws (snapshot h j) ≡ false)
        (fuel i port : ℕ) (a : Start) (dir : Bytes) (q : Program) (hub : Hub) (x : Session)
        (inputs : List Input) (page : Service J)
        → suc w.signal < fuel
        → Main.main d s dump w fuel a ≡ exited port dir q
        → listening i false (map as_action a.early) ≡ true
        → ((r : ℕ) → All (Keeps i) (w.meanwhile r))
        → Hub.run q.trace (launch dir) ≡ some hub
        → get_elem? hub.sessions i ≡ some x
        → Service.run parse throws inputs Service.main ≡ some page
        → texts inputs ≡ x.sent
        → (c : Collector) × (Collector.init a.ticks a.inputs ≡ ok c)
          × (told 1 page.calls ++ parse_all parse (x.queue ++ x.posted)
              ≡ map value_of (trees ((w.signal + 10) / 11) 0 c))
    dashboard_shows throws calm fuel i port a dir q hub x inputs page f exits on keeps reached at
          shows sent =
        let (c, built, served) =
          main_serves d s dump w fuel i port a dir q hub x f exits on keeps reached at in
        (
          c,
          built,
          ap (λ l. l ++ parse_all parse (x.queue ++ x.posted))
                (service-told parse throws calm inputs page shows
                  ∙ parsed-texts parse inputs
                  ∙ ap (parse_all parse) sent)
              ∙ sym (parse_all-append parse x.sent (x.queue ++ x.posted))
              ∙ ap (parse_all parse) served
              ∙ reports-trees ((w.signal + 10) / 11) 0 c,
        )

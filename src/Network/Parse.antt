-- ===== src/Network/Parse.antt =====
-- The reading of /proc/net/dev.
use kvadra_top.Base.{
  ℕ, ◌+◌, Option, none, some, List, [], ◌∷◌, ◌==◌, ◌||◌, if◌then◌else◌, take, drop,
}
use kvadra_top.Text.{
  Bytes, codes, find, bytes_eq, Extract, stream, ◌>>=◌, return, read_unsigned, u64_max,
}
use kvadra_top.Map.{fill}
use kvadra_top.Map.Keys.{bytes_keys}

pub record RawNet : Type 0 where
  pub rx_bytes : ℕ
  pub tx_bytes : ℕ

-- `name.find_first_not_of(" \t")` and the `substr` from there; a blank name stays as it is.
unfoldable pub skip_blanks : Bytes → Bytes
skip_blanks [] = []
skip_blanks (c ∷ s) = if c == 32 || c == 9 then skip_blanks s else c ∷ s

unfoldable pub trim_left : Bytes → Bytes
unfolding skip_blanks
trim_left name = elim (skip_blanks name) [ [] ↦ name | c ∷ s ↦ c ∷ s ]

-- One extraction into `dummy`.
abbrev pub skip_counter : ℕ → Extract ℕ
skip_counter dummy = read_unsigned u64_max dummy

-- `rx_bytes`, seven counters that are not used, and `tx_bytes`.
unfoldable pub extract_counters : Extract RawNet
extract_counters = do
  rx ← read_unsigned u64_max 0
  packets ← skip_counter 0
  errs ← skip_counter packets
  dropped ← skip_counter errs
  fifo ← skip_counter dropped
  frame ← skip_counter fifo
  compressed ← skip_counter frame
  multicast ← skip_counter compressed
  tx ← read_unsigned u64_max 0
  return (record { rx_bytes = rx; tx_bytes = tx })

-- The rest of a line whose colon stands at `colon`; `none` is `continue`.
unfoldable pub row_at : ℕ → Bytes → Option (Bytes × RawNet)
unfolding trim_left bytes_eq extract_counters
row_at colon line =
    let name = trim_left (take colon line) in
    if bytes_eq name (codes "lo")
    then none
    else some (name, (extract_counters (stream (drop (colon + 1) line))).0)

-- The body of the loop. An empty line has no colon.
unfoldable pub row_of : Bytes → Option (Bytes × RawNet)
unfolding find row_at
row_of line = elim (find b':' line) [ none ↦ none | some colon ↦ row_at colon line ]

-- The two header lines are skipped.
unfoldable pub parse_net_dev : List Bytes → List (Bytes × RawNet)
unfolding row_of fill
parse_net_dev lines = fill bytes_keys row_of (drop 2 lines) []

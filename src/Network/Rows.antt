-- ===== src/Network/Rows.antt =====
-- What is read of a line of /proc/net/dev in the form in which the kernel prints it.
use kvadra_top.Base.{
  ℕ, Bool-cases, inl, inr, ◌≡◌, ◌≢◌, refl, Bool, false, ◌||◌, some, List, [], ◌∷◌, ◌++◌, ◌==◌,
  take-append, arith,
}
use kvadra_top.Text.{
  Bytes, codes, stream, bytes_eq, Passes, Lacks, find-append, drop-append_one, Column, number, row,
  IsRow, u64_max, read_unsigned-row,
}
use kvadra_top.Network.Parse.{skip_blanks, trim_left, row_at, row_of, extract_counters}

abbrev is_blank : ℕ → Bool
is_blank c = c == 32 || c == 9

skip_blanks-append :
    (pad : Bytes) (c : ℕ) (s : Bytes)
    → Passes is_blank pad
    → is_blank c ≡ false
    → skip_blanks (pad ++ (c ∷ s)) ≡ c ∷ s
unfolding skip_blanks
skip_blanks-append [] c s h e = rw e
skip_blanks-append (x ∷ pad) c s h e = rw h.0 (skip_blanks-append pad c s h.1 e)

trim_left-append :
    (pad : Bytes) (c : ℕ) (s : Bytes)
    → Passes is_blank pad
    → is_blank c ≡ false
    → trim_left (pad ++ (c ∷ s)) ≡ c ∷ s
unfolding trim_left
trim_left-append pad c s h e = rw (skip_blanks-append pad c s h e, trim_left)

-- The nine columns that are read; the kernel prints sixteen, the others stand in the text behind.
pub record Counters : Type 0 where
  pub rx : Column
  pub packets : Column
  pub errs : Column
  pub dropped : Column
  pub fifo : Column
  pub frame : Column
  pub compressed : Column
  pub multicast : Column
  pub tx : Column

abbrev pub columns : Counters → List Column
columns c =
    c.rx ∷ c.packets ∷ c.errs ∷ c.dropped ∷ c.fifo ∷ c.frame ∷ c.compressed ∷ c.multicast ∷ c.tx
    ∷ []

extract_counters-row :
    (c : Counters) (s : Bytes)
    → IsRow u64_max (columns c) s
    → (extract_counters (stream (row (columns c) s))).0
      ≡ record { rx_bytes = number c.rx; tx_bytes = number c.tx }
unfolding extract_counters
extract_counters-row c s h = rw (
  read_unsigned-row u64_max 0 c.rx
      (c.packets ∷ c.errs ∷ c.dropped ∷ c.fifo ∷ c.frame ∷ c.compressed ∷ c.multicast ∷ c.tx ∷ []) s
      h,
  read_unsigned-row u64_max 0 c.packets
      (c.errs ∷ c.dropped ∷ c.fifo ∷ c.frame ∷ c.compressed ∷ c.multicast ∷ c.tx ∷ []) s h.2,
  read_unsigned-row u64_max _ c.errs
      (c.dropped ∷ c.fifo ∷ c.frame ∷ c.compressed ∷ c.multicast ∷ c.tx ∷ []) s h.2.2,
  read_unsigned-row u64_max _ c.dropped (c.fifo ∷ c.frame ∷ c.compressed ∷ c.multicast ∷ c.tx ∷ [])
      s h.2.2.2,
  read_unsigned-row u64_max _ c.fifo (c.frame ∷ c.compressed ∷ c.multicast ∷ c.tx ∷ []) s h.2.2.2.2,
  read_unsigned-row u64_max _ c.frame (c.compressed ∷ c.multicast ∷ c.tx ∷ []) s h.2.2.2.2.2,
  read_unsigned-row u64_max _ c.compressed (c.multicast ∷ c.tx ∷ []) s h.2.2.2.2.2.2,
  read_unsigned-row u64_max _ c.multicast (c.tx ∷ []) s h.2.2.2.2.2.2.2,
  read_unsigned-row u64_max 0 c.tx [] s h.2.2.2.2.2.2.2.2,
)

bytes_eq-ne : (s t : Bytes) → s ≢ t → bytes_eq s t ≡ false
unfolding bytes_eq
bytes_eq-ne [] [] h = absurd (h refl)
bytes_eq-ne [] (d ∷ t) h = refl
bytes_eq-ne (c ∷ s) [] h = refl
bytes_eq-ne (c ∷ s) (d ∷ t) h = elim (Bool-cases (c == d)) [
  | inl e ↦ rw e (bytes_eq-ne s t (λ p. h (ground arith)))
  | inr e ↦ rw e
]

-- A line of blanks, a name other than `lo`, a colon and nine columns or more is entered under the
-- name alone, with the first column as the bytes received and the ninth as the bytes sent.
pub row_of-row :
    (pad : Bytes) (first : ℕ) (others : Bytes) (c : Counters) (s : Bytes)
    → Passes is_blank pad
    → is_blank first ≡ false
    → Lacks b':' (pad ++ (first ∷ others))
    → (first ∷ others) ≢ codes "lo"
    → IsRow u64_max (columns c) s
    → row_of ((pad ++ (first ∷ others)) ++ (b':' ∷ row (columns c) s))
      ≡ some (first ∷ others, record { rx_bytes = number c.rx; tx_bytes = number c.tx })
unfolding row_of row_at
row_of-row pad first others c s blank start colon not_lo h =
    let label = pad ++ (first ∷ others) in
    rw (find-append b':' label (row (columns c) s) colon, row_of)
      (rw
        (
          take-append label (b':' ∷ row (columns c) s),
          drop-append_one label b':' (row (columns c) s),
        )
        (rw (trim_left-append pad first others blank start) (
          rw (bytes_eq-ne (first ∷ others) (codes "lo") not_lo) (rw (extract_counters-row c s h)))))

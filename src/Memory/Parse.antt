-- ===== src/Memory/Parse.antt =====
-- What is read of a /proc/meminfo in the form in which the kernel prints it.
use kvadra_top.Base.{
  ℕ, ◌-◌, ok, ◌≡◌, refl, none, some, Option, Bool, List, [], ◌∷◌, ◌++◌, map, All, if◌then◌else◌,
  true, false, arith, ◌∙◌, ap,
}
use kvadra_top.Text.{
  Bytes, codes, Passes, Stops, in_word, in_line, is_digit, lines, unlines, lines-unlines, Column,
  IsColumn, before, number, u64_max, read_word-before, read_unsigned-before,
}
use kvadra_top.Map.{same}
use kvadra_top.Map.Keys.{bytes_keys}
use kvadra_top.Map.Laws.{latest, latest-some, lookup-fill}
use kvadra_top.Real.{Double}
use kvadra_top.Snapshot.{MemorySnapshot}
use kvadra_top.Memory.Monitor.{excess, snapshot_of, sample}
use mathlib.Core.Path.{ap₂}
use kvadra_top.Memory.Fields.{field_of, extract_field, strip_colon, parse_fields, get}

-- A line `Key:   value unit`: the key is not empty, and `tail` is what follows the value.
pub record Entry : Type 0 where
  pub first : ℕ
  pub others : Bytes
  pub column : Column
  pub tail : Bytes

abbrev pub key : Entry → Bytes
key e = e.first ∷ e.others

abbrev pub line_of : Entry → Bytes
line_of e = (key e ++ b':' ∷ []) ++ before e.column e.tail

pub record IsEntry (e : Entry) : Type 0 where
  pub word : Passes in_word (key e ++ b':' ∷ [])
  pub gap : Stops in_word (before e.column e.tail)
  pub value : IsColumn u64_max e.column
  pub ends : Stops is_digit e.tail
  pub one_line : Passes in_line (line_of e)

-- The value of the last entry with the key, and 0 if there is none.
abbrev pub value_of : Bytes → List Entry → ℕ → ℕ
value_of k [] old = old
value_of k (e ∷ es) old = value_of k es (if same bytes_keys (key e) k then number e.column else old)

strip_colon-append : (c : ℕ) (s : Bytes) → strip_colon (c ∷ (s ++ b':' ∷ [])) ≡ c ∷ s
unfolding strip_colon
strip_colon-append c [] = refl
strip_colon-append c (d ∷ s) = ap (◌∷◌ c) (strip_colon-append d s)

field_of-line : (e : Entry) → IsEntry e → field_of (line_of e) ≡ some (key e, number e.column)
unfolding field_of extract_field
field_of-line e v =
    rw
      (read_word-before [] [] e.first (e.others ++ b':' ∷ []) (before e.column e.tail) tt v.word
        v.gap)
      (rw (read_unsigned-before u64_max e.column e.tail v.value v.ends 0) (rw strip_colon-append))

abbrev or_zero : Option ℕ → ℕ
or_zero none = 0
or_zero (some v) = v

or_zero-if :
    (b : Bool) (v : ℕ) (old : Option ℕ)
    → or_zero (if b then some v else old) ≡ (if b then v else or_zero old)
or_zero-if true v old = refl
or_zero-if false v old = refl

latest-value_of :
    (k : Bytes) (es : List Entry) (old : Option ℕ)
    → All IsEntry es
    → or_zero (latest bytes_keys field_of k (map line_of es) old) ≡ value_of k es (or_zero old)
latest-value_of k [] old h = refl
latest-value_of k (e ∷ es) old h =
    ap or_zero (
      latest-some bytes_keys field_of k (key e) (number e.column) (line_of e) (map line_of es) old
        (field_of-line e h.0))
    ∙ latest-value_of k es (if same bytes_keys (key e) k then some (number e.column) else old) h.1
    ∙ ap (value_of k es) (or_zero-if (same bytes_keys (key e) k) (number e.column) old)

entries-in_line : (es : List Entry) → All IsEntry es → All (Passes in_line) (map line_of es)
entries-in_line [] h = tt
entries-in_line (e ∷ es) h = (h.0.one_line, entries-in_line es h.1)

get-value_of :
    (k : Bytes) (es : List Entry)
    → All IsEntry es
    → get (parse_fields (lines (unlines (map line_of es)))) k ≡ value_of k es 0
unfolding get parse_fields
get-value_of k es h = rw (lines-unlines (map line_of es) (entries-in_line es h)) (
    ap or_zero (lookup-fill bytes_keys field_of k (map line_of es) [])
    ∙ latest-value_of k es none h)

excess-sub : (a b : ℕ) → excess a b ≡ a - b
unfolding excess
excess-sub a b = ground arith

module _ (d : Double) where
  -- Of a file of lines `Key: value unit` a snapshot holds the values of the keys it is made of (the
  -- last line for a key decides, and a key that is missing counts 0); used memory is the total less
  -- what is available, and used swap the total less what is free, or 0 where that would be negative.
  pub sample-entries :
      (es : List Entry)
      → All IsEntry es
      → let field = λ (k : Bytes). value_of k es 0 in
        (s : MemorySnapshot d) × (sample d (some (unlines (map line_of es))) ≡ ok s)
        × (s.total_kb ≡ field (codes "MemTotal"))
        × (s.free_kb ≡ field (codes "MemFree"))
        × (s.available_kb ≡ field (codes "MemAvailable"))
        × (s.buffers_kb ≡ field (codes "Buffers"))
        × (s.cached_kb ≡ field (codes "Cached"))
        × (s.swap_total_kb ≡ field (codes "SwapTotal"))
        × (s.used_kb ≡ field (codes "MemTotal") - field (codes "MemAvailable"))
        × (s.swap_used_kb ≡ field (codes "SwapTotal") - field (codes "SwapFree"))
  unfolding sample snapshot_of
  sample-entries es h =
      let at = λ (k : Bytes). get-value_of k es h in
      (
        snapshot_of d (parse_fields (lines (unlines (map line_of es)))),
        refl,
        at _,
        at _,
        at _,
        at _,
        at _,
        at _,
        excess-sub _ _ ∙ ap₂ ◌-◌ (at _) (at _),
        excess-sub _ _ ∙ ap₂ ◌-◌ (at _) (at _),
      )

-- ===== src/Memory/Bounds.antt =====
-- The bounds that every memory snapshot meets.
use kvadra_top.Base.{
  ℕ, ◌+◌, ◌≤◌, ◌≡◌, refl, some, List, ltb, ok, arith, Bool-cases, inl, inr, ltb→lt,
}
use kvadra_top.Text.{Bytes, lines}
use kvadra_top.Real.{Double, Laws, Percent}
use kvadra_top.Real.Order.{share-Percent}
use kvadra_top.Snapshot.{MemorySnapshot}
use kvadra_top.Memory.Fields.{parse_fields}
use kvadra_top.Memory.Monitor.{excess, usage, snapshot_of, sample}

excess-le : (a b : ℕ) → excess a b ≤ a
unfolding excess
excess-le a b = ground arith

pub excess-ge : (a b : ℕ) → a ≤ excess a b + b
unfolding excess
excess-ge a b = ground arith

module _ (d : Double) (laws : Laws d) where
  open d use {Real, real}

  usage-Percent : (used total : ℕ) → used ≤ total → Percent d (usage d used total)
  unfolding usage
  usage-Percent used total le = elim (Bool-cases (ltb 0 total)) [
    | inl e ↦ rw e (share-Percent d laws used total (ltb→lt 0 total e) le)
    | inr e ↦ rw e (laws.less_irrefl (real 0), laws.real_mono 0 100 (omega arith))
  ]

  pub record InBounds (s : MemorySnapshot d) : Type 0 where
    pub used : s.used_kb ≤ s.total_kb
    pub used_and_available : s.total_kb ≤ s.used_kb + s.available_kb
    pub swap_used : s.swap_used_kb ≤ s.swap_total_kb
    pub percent : Percent d s.usage_percent

  snapshot_of-InBounds : (fields : List (Bytes × ℕ)) → InBounds (snapshot_of d fields)
  unfolding snapshot_of
  snapshot_of-InBounds fields = record {
    used = excess-le _ _;
    used_and_available = excess-ge _ _;
    swap_used = excess-le _ _;
    percent = usage-Percent _ _ (excess-le _ _);
  }

  -- Whatever the file holds: used memory is within the total and covers what is not available, used
  -- swap is within the total, and the usage lies between 0 and 100.
  pub sample-InBounds :
      (text : Bytes) → (s : MemorySnapshot d) × (sample d (some text) ≡ ok s) × InBounds s
  unfolding sample
  sample-InBounds text = (
    snapshot_of d (parse_fields (lines text)),
    refl,
    snapshot_of-InBounds (parse_fields (lines text)),
  )

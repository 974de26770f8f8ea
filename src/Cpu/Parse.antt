-- ===== src/Cpu/Parse.antt =====
-- What is read of /proc/stat.
use kvadra_top.Base.{ℕ, ◌≡◌, [], ◌∷◌, ◌++◌}
use kvadra_top.Text.{
  Bytes, Passes, Stops, in_word, Column, number, row, IsRow, u64_max, read_word-before,
  read_unsigned-row,
}
use kvadra_top.Cpu.Stat.{parse_stat, extract_stat}

-- A line with a label and eight columns, or more, is read as the numbers of the first eight columns.
pub parse_stat-row :
    (c : ℕ) (label : Bytes) (user nice system idle iowait irq softirq steal : Column) (s : Bytes)
    → Passes in_word (c ∷ label)
    → let columns = user ∷ nice ∷ system ∷ idle ∷ iowait ∷ irq ∷ softirq ∷ steal ∷ [] in
      Stops in_word (row columns s)
      → IsRow u64_max columns s
      → parse_stat (c ∷ label ++ row columns s) ≡ record {
        user = number user;
        nice = number nice;
        system = number system;
        idle = number idle;
        iowait = number iowait;
        irq = number irq;
        softirq = number softirq;
        steal = number steal;
      }
unfolding parse_stat extract_stat
parse_stat-row c label c₁ c₂ c₃ c₄ c₅ c₆ c₇ c₈ s word stop h = rw (
  read_word-before [] [] c label _ tt word stop,
  read_unsigned-row u64_max 0 c₁ (c₂ ∷ c₃ ∷ c₄ ∷ c₅ ∷ c₆ ∷ c₇ ∷ c₈ ∷ []) s h,
  read_unsigned-row u64_max 0 c₂ (c₃ ∷ c₄ ∷ c₅ ∷ c₆ ∷ c₇ ∷ c₈ ∷ []) s h.2,
  read_unsigned-row u64_max 0 c₃ (c₄ ∷ c₅ ∷ c₆ ∷ c₇ ∷ c₈ ∷ []) s h.2.2,
  read_unsigned-row u64_max 0 c₄ (c₅ ∷ c₆ ∷ c₇ ∷ c₈ ∷ []) s h.2.2.2,
  read_unsigned-row u64_max 0 c₅ (c₆ ∷ c₇ ∷ c₈ ∷ []) s h.2.2.2.2,
  read_unsigned-row u64_max 0 c₆ (c₇ ∷ c₈ ∷ []) s h.2.2.2.2.2,
  read_unsigned-row u64_max 0 c₇ (c₈ ∷ []) s h.2.2.2.2.2.2,
  read_unsigned-row u64_max 0 c₈ [] s h.2.2.2.2.2.2.2,
)

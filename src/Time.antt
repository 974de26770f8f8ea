-- ===== src/Time.antt =====
-- Points of std::chrono::steady_clock, in nanoseconds. The clock never goes back.
use kvadra_top.Base.{ℕ, ◌-◌}
use kvadra_top.Real.{Double}

abbrev pub Instant : Type 0
Instant = ℕ

-- `std::chrono::duration<double>(now - before).count()`, in seconds.
unfoldable pub seconds_between : (d : Double) → Instant → Instant → d.Real
seconds_between d before now = d.over (d.real (now - before)) (d.real 1_000_000_000)

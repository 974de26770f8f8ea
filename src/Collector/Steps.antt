-- ===== src/Collector/Steps.antt =====
-- Computations on the collector that may throw: what they have changed so far stays changed.
use kvadra_top.Base.{Result, ok, throw}
use kvadra_top.Collector.State.{Collector}

abbrev pub Step : Type 0 → Type 0
Step A = Collector → Collector × Result A

abbrev pub next : {A B : Type 0} → Collector × Result A → (A → Step B) → Collector × Result B
next (c, throw x) f = (c, throw x)
next (c, ok a) f = f a c

infixl 5 ◌>>=◌
abbrev pub ◌>>=◌ : {A B : Type 0} → Step A → (A → Step B) → Step B
◌>>=◌ m f c = next (m c) f

abbrev pub return : {A : Type 0} → A → Step A
return a c = (c, ok a)

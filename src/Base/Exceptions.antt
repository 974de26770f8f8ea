-- ===== src/Base/Exceptions.antt =====
-- C++ exceptions as values. `runtime_error` carries the text that the source throws;
-- `invalid_argument` and `out_of_range` are those of `std::stoi` and
-- `std::stoul`, `type_error` is that of nlohmann::json, `system_error` that of Asio, and
-- `filesystem_error` that of std::filesystem.
use Prim.Native.Nat.{ℕ}
use mathlib.Core.List.{List}

pub data Exception : Type 0 where
  runtime_error : List ℕ → Exception
  invalid_argument out_of_range type_error system_error filesystem_error : Exception

-- A call that throws, or returns.
pub data Result {ℓ} (A : Type ℓ) : Type ℓ where
  throw : Exception → Result A
  ok : A → Result A

infixl 5 ◌>>=◌
abbrev pub ◌>>=◌ {ℓ κ} : {A : Type ℓ} {B : Type κ} → Result A → (A → Result B) → Result B
◌>>=◌ (throw x) next = throw x
◌>>=◌ (ok a) next = next a

-- ===== src/Main/Args.antt =====
-- The arguments of the command.
use kvadra_top.Base.{ℕ, ◌%◌, ◌^◌, Option, none, some, Result, ok, ◌>>=◌}
use kvadra_top.Text.{Bytes, codes, stoul}

-- The number is cut to a uint16_t; what std::stoul throws ends the program.
unfoldable pub port_of : Option Bytes → Result ℕ
unfolding stoul
port_of none = ok 8080
port_of (some arg) = do n ← stoul arg; ok (n % 2 ^ 16)

unfoldable pub frontend_dir : Option Bytes → Bytes
frontend_dir none = codes "../frontend/dist"
frontend_dir (some arg) = arg

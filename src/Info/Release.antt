-- ===== src/Info/Release.antt =====
-- The name of the operating system, of /etc/os-release.
use kvadra_top.Base.{none, some, List, [], ◌∷◌, ◌==◌, drop, if◌then◌else◌}
use kvadra_top.Text.{Bytes, File, codes, lines, starts_with, is_empty}

-- `val.substr(1)` and `val.pop_back()`, each where a quote stands there.
abbrev pub strip_front : Bytes → Bytes
strip_front [] = []
strip_front (c ∷ s) = if c == b'"' then s else c ∷ s

abbrev pub strip_back : Bytes → Bytes
strip_back [] = []
strip_back (c ∷ []) = if c == b'"' then [] else c ∷ []
strip_back (c ∷ d ∷ s) = c ∷ strip_back (d ∷ s)

abbrev pub pretty : Bytes
pretty = codes "PRETTY_NAME="

unfoldable pub pretty_name : List Bytes → Bytes
unfolding starts_with
pretty_name [] = []
pretty_name (line ∷ rest) =
    if starts_with pretty line then strip_back (strip_front (drop 12 line)) else pretty_name rest

abbrev pub or_linux : Bytes → Bytes
or_linux name = if is_empty name then codes "Linux" else name

unfoldable pub os_name : File → Bytes
unfolding pretty_name lines
os_name none = or_linux []
os_name (some text) = or_linux (pretty_name (lines text))

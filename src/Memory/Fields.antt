-- ===== src/Memory/Fields.antt =====
-- The map of the fields of /proc/meminfo.
use kvadra_top.Base.{ℕ, Option, none, some, List, [], ◌∷◌, ◌==◌, if◌then◌else◌}
use kvadra_top.Text.{Bytes, Extract, stream, ◌>>=◌, return, read_word, read_unsigned, u64_max}
use kvadra_top.Map.{fill, lookup}
use kvadra_top.Map.Keys.{bytes_keys}

-- `if (!key.empty() && key.back() == ':') key.pop_back();`
unfoldable pub strip_colon : Bytes → Bytes
strip_colon [] = []
strip_colon (c ∷ []) = if c == b':' then [] else c ∷ []
strip_colon (c ∷ d ∷ s) = c ∷ strip_colon (d ∷ s)

-- `ss >> key >> value >> unit`; the unit is not used.
unfoldable pub extract_field : Extract (Bytes × ℕ)
extract_field = do
  key ← read_word []
  value ← read_unsigned u64_max 0
  unit ← read_word []
  return {A = Bytes × ℕ} (key, value)

-- The body of the loop: the key and value that a line enters, `none` for `continue`.
unfoldable pub field_of : Bytes → Option (Bytes × ℕ)
unfolding extract_field strip_colon
field_of [] = none
field_of (c ∷ line) =
    let (key, value) = (extract_field (stream (c ∷ line))).0 in some (strip_colon key, value)

unfoldable pub parse_fields : List Bytes → List (Bytes × ℕ)
unfolding field_of fill
parse_fields lines = fill bytes_keys field_of lines []

-- The lambda `get`: 0 for a field that is missing.
unfoldable pub get : List (Bytes × ℕ) → Bytes → ℕ
unfolding lookup
get fields k = elim (lookup bytes_keys k fields) [ none ↦ 0 | some v ↦ v ]

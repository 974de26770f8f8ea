-- ===== src/Http/Mime.antt =====
-- `mime_type`: the type for the extension of a path.
use kvadra_top.Base.{none, some, List, [], ◌∷◌, drop, if◌then◌else◌}
use kvadra_top.Text.{Bytes, codes, bytes_eq, rfind}

abbrev pub octet_stream : Bytes
octet_stream = codes "application/octet-stream"

-- The tests of the extension, in the order in which they are made.
abbrev pub types : List (Bytes × Bytes)
types =
    (codes ".html", codes "text/html; charset=utf-8")
    ∷ (codes ".css", codes "text/css; charset=utf-8")
    ∷ (codes ".js", codes "text/javascript; charset=utf-8")
    ∷ (codes ".mjs", codes "text/javascript; charset=utf-8")
    ∷ (codes ".ts", codes "text/typescript")
    ∷ (codes ".json", codes "application/json")
    ∷ (codes ".map", codes "application/json")
    ∷ (codes ".svg", codes "image/svg+xml")
    ∷ (codes ".ico", codes "image/x-icon")
    ∷ (codes ".png", codes "image/png")
    ∷ (codes ".jpg", codes "image/jpeg")
    ∷ (codes ".jpeg", codes "image/jpeg")
    ∷ (codes ".woff", codes "font/woff")
    ∷ (codes ".woff2", codes "font/woff2")
    ∷ (codes ".ttf", codes "font/ttf")
    ∷ []

unfoldable pub type_of : Bytes → List (Bytes × Bytes) → Bytes
unfolding bytes_eq
type_of ext [] = octet_stream
type_of ext ((known, type) ∷ rest) = if bytes_eq ext known then type else type_of ext rest

unfoldable pub mime_type : Bytes → Bytes
unfolding rfind type_of
mime_type path = elim (rfind b'.' path) [
  | none ↦ octet_stream
  | some dot ↦ type_of (drop dot path) types
]

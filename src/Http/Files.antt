-- ===== src/Http/Files.antt =====
-- `serve_file`. A response holds what the function sets; `prepare_payload` and the HTTP version are
-- the library's.
use kvadra_top.Base.{
  Result, ok, ◌>>=◌, true, Bool, false, Option, none, some, [], ◌∷◌, ◌++◌, ◌==◌, take,
  if◌then◌else◌,
}
use kvadra_top.Text.{Bytes, File, codes, find, starts_with, bytes_eq, is_empty}
use kvadra_top.Http.Mime.{mime_type}

-- `weakly_canonical` follows links, so it depends on the files; on an error the path is empty.
-- `exists` throws where the system cannot tell, as for a path that is too long.
pub record FileSystem : Type 0 where
  pub weakly_canonical : Bytes → Bytes
  pub content : Bytes → File
  pub exists : Bytes → Result Bool

pub data Status : Type 0 where
  forbidden not_found served : Status

pub record Response : Type 0 where
  pub status : Status
  pub content_type : Bytes
  pub body : Bytes
  pub keep_alive : Option Bool

unfoldable pub strip_query : Bytes → Bytes
unfolding find
strip_query target = elim (find b'?' target) [ none ↦ target | some qmark ↦ take qmark target ]

abbrev pub strip_slash : Bytes → Bytes
strip_slash [] = []
strip_slash (c ∷ s) = if c == b'/' then s else c ∷ s

-- The path below the root that a target names.
unfoldable pub local_path : Bytes → Bytes
unfolding strip_query bytes_eq
local_path target =
    let path = strip_query target in
    if bytes_eq path (codes "/")
    then codes "index.html"
    else if is_empty path
    then codes "index.html"
    else strip_slash path

-- The last byte is a slash.
abbrev pub ends_slash : Bytes → Bool
ends_slash [] = false
ends_slash (c ∷ []) = c == b'/'
ends_slash (c ∷ d ∷ s) = ends_slash (d ∷ s)

-- `root / target` of std::filesystem::path: an absolute path on the right stands alone, and a slash
-- is put in between where there is none and the left is not empty.
unfoldable pub join : Bytes → Bytes → Bytes
unfolding starts_with
join root target =
    if starts_with (codes "/") target
    then target
    else if is_empty root
    then target
    else if ends_slash root
    then root ++ target
    else root ++ codes "/" ++ target

abbrev pub full_path : Bytes → Bytes → Bytes
full_path root target = root ++ codes "/" ++ target

abbrev pub forbidden_response : Response
forbidden_response = record {
  status = forbidden;
  content_type = codes "text/plain";
  body = codes "403 Forbidden\n";
  keep_alive = none;
}

abbrev pub not_found_response : Bool → Response
not_found_response keep_alive = record {
  status = not_found;
  content_type = codes "text/html; charset=utf-8";
  body =
      codes
        "<!DOCTYPE html><html><body><h1>404 Not Found</h1><p>The requested resource was not found.</p></body></html>\n";
  keep_alive = some keep_alive;
}

module _ (fs : FileSystem) where
  -- Empty where the file cannot be opened.
  unfoldable pub read_file : Bytes → Bytes
  read_file path = elim (fs.content path) [ none ↦ [] | some text ↦ text ]

  -- The canonical path begins with the text of the canonical root.
  unfoldable pub is_inside : Bytes → Bytes → Bool
  unfolding join starts_with
  is_inside root target =
      starts_with (fs.weakly_canonical root) (fs.weakly_canonical (join root target))

  -- Whether there is a file: `exists` is asked only where nothing has been read.
  abbrev pub is_there : Bytes → Bytes → Result Bool
  is_there path body = if is_empty body then fs.exists path else ok true

  abbrev pub served_response : Bool → Bytes → Bytes → Response
  unfolding mime_type
  served_response keep_alive path body = record {
    status = served;
    content_type = mime_type path;
    body = body;
    keep_alive = some keep_alive;
  }

  abbrev pub response_of : Bool → Bytes → Bytes → Bool → Response
  unfolding mime_type
  response_of keep_alive path body true = served_response keep_alive path body
  response_of keep_alive path body false = not_found_response keep_alive

  -- What follows the check.
  unfoldable pub respond : Bool → Bytes → Result Response
  unfolding mime_type read_file
  respond keep_alive path = do
    there ← is_there path (read_file path)
    ok (response_of keep_alive path (read_file path) there)

  unfoldable pub serve_file : Bytes → Bool → Bytes → Result Response
  unfolding local_path is_inside respond
  serve_file target keep_alive root =
      let path = local_path target in
      if is_inside root path
      then respond keep_alive (full_path root path)
      else ok forbidden_response

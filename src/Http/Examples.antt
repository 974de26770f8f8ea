-- ===== src/Http/Examples.antt =====
-- Runs of the file handler, and its theorems at concrete inputs.
use kvadra_top.Base.{ok, ◌≡◌, refl, true, false, none, some, arith, if◌then◌else◌}
use kvadra_top.Text.{Bytes, codes, bytes_eq, starts_with}
use kvadra_top.Http.Mime.{octet_stream}
use kvadra_top.Http.Files.{FileSystem, Response, served, local_path, full_path, respond, serve_file}
use kvadra_top.Http.Checks.{serve_file-query, serve_file_lem}

abbrev root : Bytes
root = codes "/srv/static"

-- One page, and one file beside the root. The second path is resolved.
abbrev fs : FileSystem
fs = record {
  weakly_canonical =
      λ p. if bytes_eq p (codes "/srv/static/../static2/key") then codes "/srv/static2/key" else p;
  content = λ p.
      if bytes_eq p (codes "/srv/static/app.js")
      then some (codes "run()")
      else if bytes_eq p (codes "/srv/static/../static2/key")
      then some (codes "secret")
      else none;
  exists = λ p. ok false;
}

abbrev script : Response
script = record {
  status = served;
  content_type = codes "text/javascript; charset=utf-8";
  body = codes "run()";
  keep_alive = some true;
}

script_run : serve_file fs (codes "/app.js?v=2") true root ≡ ok script
unfolding serve_file
script_run = refl

-- The test of the root compares texts, so a directory whose name begins like the root's is let in.
neighbour_run :
    serve_file fs (codes "/../static2/key") true root
    ≡ ok (record script { content_type = octet_stream; body = codes "secret" })
unfolding serve_file
neighbour_run = refl

-- The path that is checked, /../a/b/f, and the path that is read differ: behind `..` the latter is
-- /a/a/b/f, which is not below /a/b.
abbrev nested : FileSystem
nested = record {
  weakly_canonical = λ p. if bytes_eq p (codes "/../a/b/f") then codes "/a/b/f" else p;
  content = λ p. if bytes_eq p (codes "/a/b//../a/b/f") then some (codes "of /a/a/b/f") else none;
  exists = λ p. ok false;
}

nested_run :
    serve_file nested (codes "//../a/b/f") true (codes "/a/b")
    ≡ ok (record script { content_type = octet_stream; body = codes "of /a/a/b/f" })
unfolding serve_file
nested_run = refl

serve_file-query_example :
    serve_file fs (codes "/app.js?v=2") true root ≡ serve_file fs (codes "/app.js") true root
serve_file-query_example =
    serve_file-query fs (codes "/app.js") (codes "v=2") root true (ground arith)

serve_file_lem_example :
    (serve_file fs (codes "/app.js") true root
      ≡ respond fs true (full_path root (local_path (codes "/app.js"))))
    × (starts_with
          (fs.weakly_canonical root)
          (fs.weakly_canonical (full_path root (local_path (codes "/app.js"))))
        ≡ true)
unfolding serve_file
serve_file_lem_example = serve_file_lem fs (codes "/app.js") root true refl refl refl (ground arith)

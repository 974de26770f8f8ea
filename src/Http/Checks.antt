-- ===== src/Http/Checks.antt =====
-- Which file is read.
use mathlib.Core.Path.{subst}
use kvadra_top.Base.{
  ℕ, ◌≡◌, ◌≢◌, refl, ap, Bool, true, false, none, [], ◌∷◌, ◌++◌, take, length, arith, Bool-cases,
  inl, inr, ok,
}
use kvadra_top.Text.{Bytes, codes, find, starts_with, is_empty, Lacks, find-append}
use kvadra_top.Http.Files.{
  FileSystem, forbidden_response, strip_query, local_path, ends_slash, join, full_path, is_inside,
  respond, serve_file,
}

take-length : (w s : Bytes) → take (length w) (w ++ s) ≡ w
take-length [] s = refl
take-length (c ∷ w) s = ap (λ t. c ∷ t) (take-length w s)

strip_query-append : (w q : Bytes) → Lacks b'?' w → strip_query (w ++ (b'?' ∷ q)) ≡ w
unfolding strip_query
strip_query-append w q h = rw (find-append b'?' w q h, strip_query) (take-length w (b'?' ∷ q))

find-none : (c : ℕ) (s : Bytes) → Lacks c s → find c s ≡ none
unfolding find
find-none c [] h = refl
find-none c (x ∷ s) h = ground (arith, find-none c s h.1)

strip_query-none : (w : Bytes) → Lacks b'?' w → strip_query w ≡ w
unfolding strip_query
strip_query-none w h = rw (find-none b'?' w h, strip_query) refl

-- A question mark and what stands behind it change nothing in the response, where the path in front
-- has no question mark.
pub serve_file-query :
    (fs : FileSystem) (path query root : Bytes) (keep_alive : Bool)
    → Lacks b'?' path
    → serve_file fs (path ++ (b'?' ∷ query)) keep_alive root ≡ serve_file fs path keep_alive root
unfolding serve_file local_path
serve_file-query fs path query root keep_alive h =
    rw (strip_query-append path query h, strip_query-none path h) refl

join-full_path :
    (root path : Bytes)
    → is_empty root ≡ false
    → ends_slash root ≡ false
    → starts_with (codes "/") path ≡ false
    → join root path ≡ full_path root path
unfolding join
join-full_path root path e n r = rw (r, e, n) refl

-- Where the root is not empty and does not end in a slash, and the target names a relative path: a
-- result other than the 403 answer was made from the path that was checked. Its canonical form
-- begins with the text of the canonical root.
pub serve_file_lem :
    (fs : FileSystem) (target root : Bytes) (keep_alive : Bool)
    → is_empty root ≡ false
    → ends_slash root ≡ false
    → starts_with (codes "/") (local_path target) ≡ false
    → serve_file fs target keep_alive root ≢ ok forbidden_response
    → (serve_file fs target keep_alive root
        ≡ respond fs keep_alive (full_path root (local_path target)))
      × (starts_with
            (fs.weakly_canonical root)
            (fs.weakly_canonical (full_path root (local_path target)))
          ≡ true)
unfolding serve_file is_inside
serve_file_lem fs target root keep_alive e n r other =
    elim (Bool-cases (is_inside fs root (local_path target))) [
      | inl k ↦ (
        rw k refl,
        subst (λ p. starts_with (fs.weakly_canonical root) (fs.weakly_canonical p) ≡ true)
            (join-full_path root (local_path target) e n r) k,
      )
      | inr k ↦ absurd (other (rw (k, serve_file) refl))
    ]

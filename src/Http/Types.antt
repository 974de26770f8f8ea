-- ===== src/Http/Types.antt =====
-- What the type of a path depends on.
use kvadra_top.Base.{[], ◌≡◌, refl, ◌++◌, ◌∷◌, drop, length}
use kvadra_top.Text.{Bytes, Lacks, rfind-none, rfind-append}
use kvadra_top.Http.Mime.{mime_type, octet_stream}

drop-length : (w s : Bytes) → drop (length w) (w ++ s) ≡ s
drop-length [] s = refl
drop-length (c ∷ w) s = drop-length w s

-- For an extension without a dot: what stands in front of its dot does not change the type of a path;
-- and the extension alone, a path without a dot, has the type of a stream of bytes.
pub mime_type_lem :
    (w ext : Bytes)
    → Lacks b'.' ext
    → (mime_type (w ++ (b'.' ∷ ext)) ≡ mime_type (b'.' ∷ ext)) × (mime_type ext ≡ octet_stream)
unfolding mime_type
mime_type_lem w ext h = (
  rw (rfind-append b'.' w ext h, mime_type, drop-length w (b'.' ∷ ext), rfind-append b'.' [] ext h)
      refl,
  rw (rfind-none b'.' ext h, mime_type) refl,
)

-- ===== src/Info/Kernel.antt =====
-- The version of the kernel, of the first line of /proc/version.
use kvadra_top.Base.{ℕ, zero, suc, none, some, [], ◌++◌, if◌then◌else◌}
use kvadra_top.Text.{Bytes, File, codes, lines, first_line, Stream, stream, read_word, is_empty}

-- A word is put behind the words before it, with a blank between.
abbrev pub add_word : Bytes → Bytes → Bytes
add_word kver tok = if is_empty kver then tok else kver ++ codes " " ++ tok

-- The loop, with the number of words that it may still take; it ends where extraction fails.
unfoldable pub take_words : ℕ → Bytes → Stream → Bytes
unfolding read_word
take_words zero kver s = kver
take_words (suc n) kver s =
    let r = read_word [] s in
    let rest = take_words n (add_word kver r.0) r.1 in if r.1.failed then kver else rest

unfoldable pub kernel : File → Bytes
unfolding take_words lines
kernel none = []
kernel (some text) =
    let line = first_line [] (lines text) in
    let kver = take_words 3 [] (stream line) in if is_empty kver then line else kver

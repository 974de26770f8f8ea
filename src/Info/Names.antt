-- ===== src/Info/Names.antt =====
-- What /etc/os-release makes the name of the system.
use kvadra_top.Base.{◌≡◌, ◌≢◌, refl, ◌∙◌, ap, false, some, List, [], ◌∷◌, ◌++◌, All}
use kvadra_top.Text.{Bytes, lines, starts_with}
use kvadra_top.Info.Release.{strip_back, pretty, pretty_name, or_linux, os_name}

strip_back-append : (w : Bytes) → strip_back (w ++ (b'"' ∷ [])) ≡ w
strip_back-append [] = refl
strip_back-append (c ∷ []) = refl
strip_back-append (c ∷ d ∷ w) = ap (λ s. c ∷ s) (strip_back-append (d ∷ w))

pretty_name-append :
    (before after : List Bytes) (name : Bytes)
    → All (λ line. starts_with pretty line ≡ false) before
    → pretty_name (before ++ ((pretty ++ (b'"' ∷ (name ++ (b'"' ∷ [])))) ∷ after)) ≡ name
unfolding pretty_name
pretty_name-append [] after name h = strip_back-append name
pretty_name-append (line ∷ before) after name h = rw h.0 (pretty_name-append before after name h.1)

-- The first line that begins with `PRETTY_NAME=` decides: where a text that is not empty stands in
-- quotes behind it, that text is the name, with quotes inside as they are.
pub os_name_lem :
    (text name : Bytes) (before after : List Bytes)
    → lines text ≡ before ++ ((pretty ++ (b'"' ∷ (name ++ (b'"' ∷ [])))) ∷ after)
    → All (λ line. starts_with pretty line ≡ false) before
    → name ≢ []
    → os_name (some text) ≡ name
unfolding os_name
os_name_lem text [] before after e h n = absurd (n refl)
os_name_lem text (c ∷ name) before after e h n =
    ap or_linux (ap pretty_name e ∙ pretty_name-append before after (c ∷ name) h)

-- ===== src/Frontend/Escape.antt =====
-- escapeHtml of frontend/src/components/ProcessTable.ts. The four characters that it replaces are of one
-- byte, and so are those that it puts in.
use mathlib.Core.Path.{subst}
use kvadra_top.Base.{
  All-append, sym, Option, none, some, ℕ, ◌≡◌, refl, ap, ◌∙◌, false, ◌||◌, [], ◌∷◌, ◌++◌, All, inl,
  inr, Bool-cases, if◌then◌else◌, ◌==◌, arith,
}
use kvadra_top.Text.{Bytes, codes, bytes_eq}

-- `s.replace(/c/g, text)`.
unfoldable pub replace_all : ℕ → Bytes → Bytes → Bytes
replace_all c text [] = []
replace_all c text (x ∷ s) =
    let rest = replace_all c text s in if x == c then text ++ rest else x ∷ rest

unfoldable pub escape_html : Bytes → Bytes
unfolding replace_all
escape_html s = replace_all b'"' (codes "&quot;") (
    replace_all b'>' (codes "&gt;")
      (replace_all b'<' (codes "&lt;") (replace_all b'&' (codes "&amp;") s)))

-- What a character becomes.
abbrev pub entity : ℕ → Bytes
entity c =
    if c == b'&'
    then codes "&amp;"
    else if c == b'<'
    then codes "&lt;"
    else if c == b'>'
    then codes "&gt;"
    else if c == b'"'
    then codes "&quot;"
    else c ∷ []

escape_html-step : (c : ℕ) (s : Bytes) → escape_html (c ∷ s) ≡ entity c ++ escape_html s
unfolding escape_html replace_all
escape_html-step c s = elim (Bool-cases (c == b'&')) [
  | inl e ↦ rw e refl
  | inr e ↦ elim (Bool-cases (c == b'<')) [
    | inl f ↦ rw (e, f) refl
    | inr f ↦ elim (Bool-cases (c == b'>')) [
      | inl g ↦ rw (e, f, g) refl
      | inr g ↦ elim (Bool-cases (c == b'"')) [
        | inl h ↦ rw (e, f, g, h) refl
        | inr h ↦ rw (e, f, g, h) refl
      ]
    ]
  ]
]

-- The character that a reference stands for, by its name; a name that is not known stands for none.
abbrev pub named : Bytes → Bytes
named name =
    if bytes_eq name (codes "amp")
    then b'&' ∷ []
    else if bytes_eq name (codes "lt")
    then b'<' ∷ []
    else if bytes_eq name (codes "gt")
    then b'>' ∷ []
    else if bytes_eq name (codes "quot")
    then b'"' ∷ []
    else []

-- What a browser shows for a text with references, which go from `&` to `;`: behind `&` it holds the
-- name so far.
unfoldable pub shown_from : Option Bytes → Bytes → Bytes
shown_from o [] = []
shown_from none (c ∷ s) =
    let plain = shown_from none s in
    let reference = shown_from (some []) s in if c == b'&' then reference else c ∷ plain
shown_from (some name) (c ∷ s) =
    let after = shown_from none s in
    let longer = shown_from (some (name ++ c ∷ [])) s in
    if c == b';' then named name ++ after else longer

abbrev pub shown : Bytes → Bytes
shown = shown_from none

-- No character that opens or closes markup or an attribute.
abbrev pub Harmless : ℕ → Type 0
Harmless c = (c == b'<' || (c == b'>' || c == b'"')) ≡ false

shown-entity : (c : ℕ) (s : Bytes) → shown (entity c ++ s) ≡ c ∷ shown s
unfolding shown_from bytes_eq
shown-entity c s = elim (Bool-cases (c == b'&')) [
  | inl e ↦ let same : c ≡ b'&' = ground arith in rw same refl
  | inr e ↦ elim (Bool-cases (c == b'<')) [
    | inl f ↦ let same : c ≡ b'<' = ground arith in rw same refl
    | inr f ↦ elim (Bool-cases (c == b'>')) [
      | inl g ↦ let same : c ≡ b'>' = ground arith in rw same refl
      | inr g ↦ elim (Bool-cases (c == b'"')) [
        | inl h ↦ let same : c ≡ b'"' = ground arith in rw same refl
        | inr h ↦ rw (e, f, g, h) (rw (e, shown_from) refl)
      ]
    ]
  ]
]

entity-Harmless : (c : ℕ) → All Harmless (entity c)
entity-Harmless c = elim (Bool-cases (c == b'&')) [
  | inl e ↦ rw e (refl, (refl, (refl, (refl, (refl, tt)))))
  | inr e ↦ elim (Bool-cases (c == b'<')) [
    | inl f ↦ rw (e, f) (refl, (refl, (refl, (refl, tt))))
    | inr f ↦ elim (Bool-cases (c == b'>')) [
      | inl g ↦ rw (e, f, g) (refl, (refl, (refl, (refl, tt))))
      | inr g ↦ elim (Bool-cases (c == b'"')) [
        | inl h ↦ rw (e, f, g, h) (refl, (refl, (refl, (refl, (refl, (refl, tt))))))
        | inr h ↦ rw (e, f, g, h) (rw (f, g, h) refl, tt)
      ]
    ]
  ]
]

-- What a browser shows for the result is the text itself, and the result holds none of the characters
-- `<`, `>` and `"`.
pub escape_html_lem : (s : Bytes) → (shown (escape_html s) ≡ s) × All Harmless (escape_html s)
unfolding shown_from escape_html replace_all
escape_html_lem [] = (refl, tt)
escape_html_lem (c ∷ s) =
    let (same, harmless) = escape_html_lem s in
    (
      ap shown (escape_html-step c s) ∙ shown-entity c (escape_html s) ∙ ap (λ l. c ∷ l) same,
      subst (All Harmless) (sym (escape_html-step c s))
          (All-append Harmless (entity c) (escape_html s) (entity-Harmless c) harmless),
    )

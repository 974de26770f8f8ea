-- ===== src/Text/Search.antt =====
-- Where `find` and `rfind` stop.
use kvadra_top.Base.{
  ℕ, suc, ◌+◌, ◌≡◌, refl, not, none, some, [], ◌∷◌, ◌++◌, ◌==◌, drop, length, arith,
}
use kvadra_top.Text.Strings.{Bytes, find, rfind}
use kvadra_top.Text.Columns.{Passes}

-- No byte of the text is `c`.
abbrev pub Lacks : ℕ → Bytes → Type 0
Lacks c = Passes (λ x. not (x == c))

pub find-append : (c : ℕ) (w s : Bytes) → Lacks c w → find c (w ++ (c ∷ s)) ≡ some (length w)
unfolding find
find-append c [] s h = ground arith
find-append c (x ∷ w) s h = ground (arith, find-append c w s h.1)

pub rfind-none : (c : ℕ) (s : Bytes) → Lacks c s → rfind c s ≡ none
unfolding rfind
rfind-none c [] h = refl
rfind-none c (x ∷ s) h = ground (arith, rfind-none c s h.1)

pub rfind-append : (c : ℕ) (w s : Bytes) → Lacks c s → rfind c (w ++ (c ∷ s)) ≡ some (length w)
unfolding rfind
rfind-append c [] s h = ground (arith, rfind-none c s h)
rfind-append c (x ∷ w) s h = rw (rfind-append c w s h)

pub drop-append_one : (w : Bytes) (c : ℕ) (s : Bytes) → drop (length w + 1) (w ++ (c ∷ s)) ≡ s
drop-append_one [] c s = refl
drop-append_one (x ∷ w) c s = rw (shift (length w)) (drop-append_one w c s)
  where
    shift : (n : ℕ) → suc n + 1 ≡ suc (n + 1)
    shift n = omega arith

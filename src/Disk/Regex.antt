-- ===== src/Disk/Regex.antt =====
-- The regular expressions that `is_whole_disk` uses, and std::regex_match: the whole text must be in
-- the language. The anchors ^ and $ say the same and are left out.
use kvadra_top.Base.{ℕ, Bool, true, false, [], ◌∷◌, ◌&&◌, ◌||◌, leb, if◌then◌else◌}
use kvadra_top.Text.{Bytes, codes}

-- `range lo hi` is one byte of a class.
pub data Regex : Type 0 where
  nothing : Regex
  empty : Regex
  range : ℕ → ℕ → Regex
  seq : Regex → Regex → Regex
  alt : Regex → Regex → Regex
  plus : Regex → Regex

unfoldable pub nullable : Regex → Bool
nullable nothing = false
nullable empty = true
nullable (range lo hi) = false
nullable (seq r q) = nullable r && nullable q
nullable (alt r q) = nullable r || nullable q
nullable (plus r) = nullable r

-- What is left to match behind the byte `c`.
unfoldable pub derive : ℕ → Regex → Regex
unfolding nullable
derive c nothing = nothing
derive c empty = nothing
derive c (range lo hi) = if leb lo c && leb c hi then empty else nothing
derive c (seq r q) =
    if nullable r then alt (seq (derive c r) q) (derive c q) else seq (derive c r) q
derive c (alt r q) = alt (derive c r) (derive c q)
derive c (plus r) = seq (derive c r) (alt empty (plus r))

unfoldable pub regex_match : Bytes → Regex → Bool
unfolding derive nullable
regex_match [] r = nullable r
regex_match (c ∷ s) r = regex_match s (derive c r)

-- A literal, and a literal in front of an expression.
abbrev pub literal : Bytes → Regex → Regex
literal [] r = r
literal (c ∷ s) r = seq (range c c) (literal s r)

abbrev pub letters : Regex
letters = plus (range b'a' b'z')

abbrev pub numbers : Regex
numbers = plus (range b'0' b'9')

-- (sd[a-z]+|hd[a-z]+|vd[a-z]+|xvd[a-z]+|nvme\d+n\d+|mmcblk\d+)
abbrev pub whole_disk : Regex
whole_disk = alt (literal (codes "sd") letters) (
    alt (literal (codes "hd") letters) (
      alt (literal (codes "vd") letters) (
        alt (literal (codes "xvd") letters) (
          alt (literal (codes "nvme") (seq numbers (literal (codes "n") numbers)))
            (literal (codes "mmcblk") numbers)))))

unfoldable pub is_whole_disk : Bytes → Bool
unfolding regex_match
is_whole_disk name = regex_match name whole_disk

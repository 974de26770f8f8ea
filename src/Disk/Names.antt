-- ===== src/Disk/Names.antt =====
-- Which names are those of whole disks.
use mathlib.Core.Path.{subst}
use mathlib.Core.List.{cons-ne-nil}
use kvadra_top.Base.{
  ◌↔◌, ℕ, ◌≤◌, ◌≡◌, ◌≢◌, refl, ◌∙◌, ap, sym, ◌⊎◌, inl, inr, true, List, [], ◌∷◌, ◌++◌, All, arith,
}
use kvadra_top.Text.{Bytes, codes}
use kvadra_top.Disk.Regex.{Regex, range, seq, plus, literal, numbers, whole_disk, is_whole_disk}
use kvadra_top.Disk.Language.{Matches, concat, regex_match_lem}

-- One byte or more, each from `lo` to `hi`.
abbrev pub IsRun : ℕ → ℕ → Bytes → Type 0
IsRun lo hi w = (w ≢ []) × All (λ c. (lo ≤ c) × (c ≤ hi)) w

Matches-literal :
    (l : Bytes) (r : Regex) (s : Bytes)
    → Matches (literal l r) s ↔ ((w : Bytes) × (s ≡ l ++ w) × Matches r w)
Matches-literal l r s = (to l s, from l s)
  where
    to : (l s : Bytes) → Matches (literal l r) s → (w : Bytes) × (s ≡ l ++ w) × Matches r w
    to [] s m = (s, refl, m)
    to (c ∷ l) s (u, v, e, (x, u_x, low, high), m) =
        let (w, v_w, n) = to l v m in
        let same : x ≡ c = omega arith in
        (w, e ∙ ap (λ t. t ++ v) u_x ∙ ap (λ y. y ∷ v) same ∙ ap (λ t. c ∷ t) v_w, n)

    from : (l s : Bytes) → ((w : Bytes) × (s ≡ l ++ w) × Matches r w) → Matches (literal l r) s
    from [] s (w, e, m) = subst (Matches r) (sym e) m
    from (c ∷ l) s (w, e, m) =
        (c ∷ [], l ++ w, e, (c, refl, omega arith, omega arith), from l (l ++ w) (w, refl, m))

Matches-IsRun : (lo hi : ℕ) (s : Bytes) → Matches (plus (range lo hi)) s ↔ IsRun lo hi s
Matches-IsRun lo hi s = (to s, from s)
  where
    all :
        (us : List Bytes)
        → All (Matches (range lo hi)) us
        → All (λ c. (lo ≤ c) × (c ≤ hi)) (concat us)
    all [] h = tt
    all (u ∷ us) ((x, e, low, high), h) =
        subst (λ t. All (λ c. (lo ≤ c) × (c ≤ hi)) (t ++ concat us)) (sym e) ((low, high), all us h)

    to : (s : Bytes) → Matches (plus (range lo hi)) s → IsRun lo hi s
    to s (u, us, e, (x, u_x, low, high), h) =
        let s_x : s ≡ x ∷ concat us = e ∙ ap (λ t. t ++ concat us) u_x in
        (
          λ n. cons-ne-nil x (concat us) (sym s_x ∙ n),
          subst (All (λ c. (lo ≤ c) × (c ≤ hi))) (sym s_x) ((low, high), all us h),
        )

    units :
        (s : Bytes)
        → All (λ c. (lo ≤ c) × (c ≤ hi)) s
        → (us : List Bytes) × (s ≡ concat us) × All (Matches (range lo hi)) us
    units [] h = ([], refl, tt)
    units (c ∷ s) (b, h) =
        let (us, e, m) = units s h in ((c ∷ []) ∷ us, ap (λ t. c ∷ t) e, ((c, refl, b.0, b.1), m))

    from : (s : Bytes) → IsRun lo hi s → Matches (plus (range lo hi)) s
    from [] h = absurd (h.0 refl)
    from (c ∷ s) h =
        let (us, e, m) = units s h.1.1 in
        (c ∷ [], us, ap (λ t. c ∷ t) e, (c, refl, h.1.0.0, h.1.0.1), m)

-- A prefix and a run behind it.
abbrev pub Named : Bytes → ℕ → ℕ → Bytes → Type 0
Named prefix lo hi s = (w : Bytes) × (s ≡ prefix ++ w) × IsRun lo hi w

-- A controller and a namespace: `nvme`, a number, `n` and a number.
abbrev pub IsNamespace : Bytes → Type 0
IsNamespace s =
    (v : Bytes) × (w : Bytes) × (s ≡ codes "nvme" ++ (v ++ (codes "n" ++ w)))
    × IsRun b'0' b'9' v
    × IsRun b'0' b'9' w

abbrev pub IsWholeDisk : Bytes → Type 0
IsWholeDisk s =
    Named (codes "sd") b'a' b'z' s
    ⊎ (Named (codes "hd") b'a' b'z' s
        ⊎ (Named (codes "vd") b'a' b'z' s
            ⊎ (Named (codes "xvd") b'a' b'z' s
                ⊎ (IsNamespace s ⊎ Named (codes "mmcblk") b'0' b'9' s))))

Matches-Named :
    (prefix : Bytes) (lo hi : ℕ) (s : Bytes)
    → Matches (literal prefix (plus (range lo hi))) s ↔ Named prefix lo hi s
Matches-Named prefix lo hi s = (
  λ m.
      let (w, e, n) = (Matches-literal prefix (plus (range lo hi)) s).0 m in
      (w, e, (Matches-IsRun lo hi w).0 n),
  λ (w, e, n).
      (Matches-literal prefix (plus (range lo hi)) s).1 (w, e, (Matches-IsRun lo hi w).1 n),
)

Matches-IsNamespace :
    (s : Bytes)
    → Matches (literal (codes "nvme") (seq numbers (literal (codes "n") numbers))) s ↔ IsNamespace s
Matches-IsNamespace s = (
  λ m.
      let (t, e, (v, u, t_v, a, b)) =
        (Matches-literal (codes "nvme") (seq numbers (literal (codes "n") numbers)) s).0 m in
      let (w, u_w, n) = (Matches-literal (codes "n") numbers u).0 b in
      (
        v,
        w,
        e ∙ ap (λ x. codes "nvme" ++ x) (t_v ∙ ap (λ x. v ++ x) u_w),
        (Matches-IsRun b'0' b'9' v).0 a,
        (Matches-IsRun b'0' b'9' w).0 n,
      ),
  λ (v, w, e, a, b).
      (Matches-literal (codes "nvme") (seq numbers (literal (codes "n") numbers)) s).1 (
        v ++ (codes "n" ++ w),
        e,
        (
          v,
          codes "n" ++ w,
          refl,
          (Matches-IsRun b'0' b'9' v).1 a,
          (Matches-literal (codes "n") numbers (codes "n" ++ w)).1
              (w, refl, (Matches-IsRun b'0' b'9' w).1 b),
        ),
      ),
)

Matches-IsWholeDisk : (s : Bytes) → Matches whole_disk s ↔ IsWholeDisk s
Matches-IsWholeDisk s = (to, from)
  where
    to : Matches whole_disk s → IsWholeDisk s
    to (inl m) = inl ((Matches-Named (codes "sd") b'a' b'z' s).0 m)
    to (inr (inl m)) = inr (inl ((Matches-Named (codes "hd") b'a' b'z' s).0 m))
    to (inr (inr (inl m))) = inr (inr (inl ((Matches-Named (codes "vd") b'a' b'z' s).0 m)))
    to (inr (inr (inr (inl m)))) =
        inr (inr (inr (inl ((Matches-Named (codes "xvd") b'a' b'z' s).0 m))))
    to (inr (inr (inr (inr (inl m))))) = inr (inr (inr (inr (inl ((Matches-IsNamespace s).0 m)))))
    to (inr (inr (inr (inr (inr m))))) =
        inr (inr (inr (inr (inr ((Matches-Named (codes "mmcblk") b'0' b'9' s).0 m)))))

    from : IsWholeDisk s → Matches whole_disk s
    from (inl m) = inl ((Matches-Named (codes "sd") b'a' b'z' s).1 m)
    from (inr (inl m)) = inr (inl ((Matches-Named (codes "hd") b'a' b'z' s).1 m))
    from (inr (inr (inl m))) = inr (inr (inl ((Matches-Named (codes "vd") b'a' b'z' s).1 m)))
    from (inr (inr (inr (inl m)))) =
        inr (inr (inr (inl ((Matches-Named (codes "xvd") b'a' b'z' s).1 m))))
    from (inr (inr (inr (inr (inl m))))) = inr (inr (inr (inr (inl ((Matches-IsNamespace s).1 m)))))
    from (inr (inr (inr (inr (inr m))))) =
        inr (inr (inr (inr (inr ((Matches-Named (codes "mmcblk") b'0' b'9' s).1 m)))))

-- The names that the monitor keeps: `sd`, `hd`, `vd` or `xvd` and one lower-case letter or more;
-- `nvme`, a number, `n` and a number; `mmcblk` and a number; and no others.
pub is_whole_disk_lem : (name : Bytes) → (is_whole_disk name ≡ true) ↔ IsWholeDisk name
unfolding is_whole_disk
is_whole_disk_lem name = (
  (λ h. (Matches-IsWholeDisk name).0 ((regex_match_lem name whole_disk).0 h)),
  λ w. (regex_match_lem name whole_disk).1 ((Matches-IsWholeDisk name).1 w),
)

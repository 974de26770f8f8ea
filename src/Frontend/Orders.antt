-- ===== src/Frontend/Orders.antt =====
-- That what the process table sorts by is an order.
use kvadra_top.Base.{
  ◌≡◌, refl, sym, ap, ◌∙◌, inl, inr, Bool, true, false, Bool-cases, if◌then◌else◌, arith,
}
use kvadra_top.Text.{Bytes}
use kvadra_top.Real.{Double, Laws}
use kvadra_top.Process.{IsWeakOrder}
use kvadra_top.Frontend.Table.{
  SortKey, by_pid, by_name, by_user, by_cpu_percent, by_mem_percent, by_mem_rss_kb, by_threads,
  Sign, negated, is_above, sign_by, IsOrder, Entry, compare, compare_values, member_of,
}

module _ {A : Type 0} (less : A → A → Bool) (order : IsWeakOrder less) where
  asym : (a b : A) → less a b ≡ true → less b a ≡ false
  asym a b h = ground (arith, order.trans a b a, order.irrefl a)

  pub above-less : (a b : A) → is_above (sign_by less a b) ≡ less b a
  above-less a b = elim (Bool-cases (less a b)) [
    | inl e ↦ rw (e, asym a b e) refl
    | inr e ↦ elim (Bool-cases (less b a)) [ inl f ↦ rw (e, f) refl | inr f ↦ rw (e, f) refl ]
  ]

  pub sign_by-IsOrder : IsOrder (sign_by less)
  sign_by-IsOrder = record {
    flip = flip;
    trans = λ a b c p q.
        above-less a c ∙ not_less a b c (sym (above-less a b) ∙ p) (sym (above-less b c) ∙ q);
  }
    where
      flip : (a b : A) → sign_by less b a ≡ negated (sign_by less a b)
      flip a b = elim (Bool-cases (less a b)) [
        | inl e ↦ rw (e, asym a b e) refl
        | inr e ↦ elim (Bool-cases (less b a)) [ inl f ↦ rw (e, f) refl | inr f ↦ rw (e, f) refl ]
      ]

      not_less : (a b c : A) → less b a ≡ false → less c b ≡ false → less c a ≡ false
      not_less a b c p q = ground (arith, order.split c b a)

module _ {E : Type 0} (cmp : E → E → Sign) (order : IsOrder cmp) where
  pub negated-IsOrder : IsOrder (λ a b. negated (cmp a b))
  negated-IsOrder = record {
    flip = λ a b. ap negated (order.flip a b);
    trans = λ a b c p q.
        ap is_above (sym (order.flip a c))
        ∙ order.trans c b a (ap is_above (order.flip b c) ∙ q) (ap is_above (order.flip a b) ∙ p);
  }

  pub along-IsOrder : {A : Type 0} (f : A → E) → IsOrder (λ a b. cmp (f a) (f b))
  along-IsOrder f = record {
    flip = λ a b. order.flip (f a) (f b);
    trans = λ a b c p q. order.trans (f a) (f b) (f c) p q;
  }

  pub either-IsOrder : (asc : Bool) → IsOrder (λ a b. if asc then cmp a b else negated (cmp a b))
  either-IsOrder true = order
  either-IsOrder false = negated-IsOrder

module _ (d : Double) (laws : Laws d) (locale_compare : Bytes → Bytes → Sign)
    (by_locale : IsOrder locale_compare) where
  pub weak : IsWeakOrder d.less
  weak = record { irrefl = laws.less_irrefl; trans = laws.less_trans; split = laws.less_split }

  by_number : IsOrder (sign_by d.less)
  by_number = sign_by-IsOrder d.less weak

  pub compare-IsOrder : (key : SortKey) (asc : Bool) → IsOrder (compare d locale_compare key asc)
  unfolding compare member_of compare_values
  compare-IsOrder by_pid asc =
      either-IsOrder _ (along-IsOrder (sign_by d.less) by_number (λ (a : Entry d). a.pid)) asc
  compare-IsOrder by_name asc =
      either-IsOrder _ (along-IsOrder locale_compare by_locale (λ (a : Entry d). a.name)) asc
  compare-IsOrder by_user asc =
      either-IsOrder _ (along-IsOrder locale_compare by_locale (λ (a : Entry d). a.user)) asc
  compare-IsOrder by_cpu_percent asc =
      either-IsOrder _ (along-IsOrder (sign_by d.less) by_number (λ (a : Entry d). a.cpu_percent))
        asc
  compare-IsOrder by_mem_percent asc =
      either-IsOrder _ (along-IsOrder (sign_by d.less) by_number (λ (a : Entry d). a.mem_percent))
        asc
  compare-IsOrder by_mem_rss_kb asc =
      either-IsOrder _ (along-IsOrder (sign_by d.less) by_number (λ (a : Entry d). a.mem_rss_kb))
        asc
  compare-IsOrder by_threads asc =
      either-IsOrder _ (along-IsOrder (sign_by d.less) by_number (λ (a : Entry d). a.threads)) asc

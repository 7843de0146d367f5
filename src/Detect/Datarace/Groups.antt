-- ===== src/Detect/Datarace/Groups.antt =====
-- src/detect/datarace.rs: grouping accesses keeps each under its own key, and the sites of the
-- summaries are all different.
use conc_bug_dect_rust.Prelude.{
  Apart, Bool, Eq, Every, Every-append, Every-if, Every-map, Holds, List, Option, apart_cons,
  apart_nil, arith, cons, eq_of_==, false, holds_none, holds_some, if_intro, list_eq, list_ord,
  lookup, lookup-Every, map-Apart, map-Every, nat_eq, nat_ord, nil, none, pair_eq, pair_ord, put,
  refl, some, sort_by-Apart, sort_by-Every, subst, true, ◌==◌, ◌≡◌, ◌≢◌,
}
use conc_bug_dect_rust.Detect.Datarace.{
  StateAccess, AccessSiteKey, AccessSiteSummary, from_access, group_by, push_group, or_default,
  greater, wanted, select_site_representative, summary_of, summarize_access_sites, before,
}

pub put-Every {ℓ κ μ} :
    {K : Type ℓ} {V : Type κ} ⦃e : Eq K⦄ {P : K × V → Type μ} (k : K) (v : V) {m : List (K × V)}
    → P (k, v)
    → Every P m
    → Every P (put k v m)
unfolding put
put-Every k v p nil = cons p nil
put-Every k v p (cons {x} q h) =
    Every-if (x.0 == k) (λ _. cons p h) (λ _. cons q (put-Every k v p h))

abbrev pub first {ℓ κ} : {K : Type ℓ} {V : Type κ} → K × V → K
first x = x.0

pub put-Apart {ℓ κ} :
    {K : Type ℓ} {V : Type κ} ⦃e : Eq K⦄ (k : K) (v : V) {m : List (K × V)}
    → Apart first m
    → Apart first (put k v m)
unfolding put
put-Apart k v apart_nil = apart_cons nil apart_nil
put-Apart k v (apart_cons {x} {xs} h a) =
    if_intro (Apart first) (x.0 == k)
      (λ same. apart_cons (subst (λ j. Every (λ y. first y ≢ j) xs) (eq_of_== x.0 k same) h) a)
      (λ other. apart_cons (put-Every k v (ground arith) h) (put-Apart k v a))

module _ (All : StateAccess → Type 0) where
  abbrev pub Grouped : {K : Type 0} → (StateAccess → K) → K × List StateAccess → Type 0
  Grouped key x = Every (λ a. All a × (key a ≡ x.0)) x.1

  or_default-Grouped :
      {K : Type 0} ⦃e : Eq K⦄ (key : StateAccess → K) (k : K) {m : List (K × List StateAccess)}
      (o : Option (List StateAccess))
      → lookup k m ≡ o
      → Every (Grouped key) m
      → Grouped key (k, or_default o)
  unfolding or_default
  or_default-Grouped key k none e h = nil
  or_default-Grouped key k (some xs) e h = lookup-Every k h e

  -- Every access goes to the group of its key, and every group has its own key.
  pub group_by-Grouped :
      {K : Type 0} ⦃e : Eq K⦄ (key : StateAccess → K) {xs : List StateAccess}
      {m : List (K × List StateAccess)}
      → Every All xs
      → Every (Grouped key) m
      → Apart first m
      → Every (Grouped key) (group_by key xs m) × Apart first (group_by key xs m)
  unfolding group_by push_group
  group_by-Grouped key nil h a = (h, a)
  group_by-Grouped key {m} (cons {x} p ps) h a =
      group_by-Grouped key ps
        (put-Every (key x) _
          (Every-append (or_default-Grouped key (key x) (lookup (key x) m) refl h)
            (cons (p, refl) nil))
          h)
        (put-Apart (key x) _ a)

  -- A representative of a site is one of its accesses, and of the wanted kind.
  pub record Stands (site : AccessSiteKey) (kind : Bool) (a : StateAccess) : Type 0 where
    pub one_of : All a
    pub here : from_access a ≡ site
    pub write : a.is_write ≡ kind

  pub record IsSite (s : AccessSiteSummary) : Type 0 where
    pub reads : Holds (Stands s.site false) s.read_representative
    pub writes : Holds (Stands s.site true) s.write_representative

  greater-Stands :
      {site : AccessSiteKey} {kind : Bool} (a : StateAccess) {best : Option StateAccess}
      → Stands site kind a
      → Holds (Stands site kind) best
      → Stands site kind (greater a best)
  unfolding greater
  greater-Stands a s holds_none = s
  greater-Stands {site} {kind} a s (holds_some t) = if_intro (Stands site kind) _ (λ _. t) (λ _. s)

  is_write_of_wanted : (kind : Bool) (a : StateAccess) → wanted kind a ≡ true → a.is_write ≡ kind
  unfolding wanted
  is_write_of_wanted true a h = h
  is_write_of_wanted false a h = ground arith

  select-Stands :
      (site : AccessSiteKey) (kind : Bool) {xs : List StateAccess} {best : Option StateAccess}
      → Every (λ a. All a × (from_access a ≡ site)) xs
      → Holds (Stands site kind) best
      → Holds (Stands site kind) (select_site_representative kind xs best)
  unfolding select_site_representative
  select-Stands site kind nil h = h
  select-Stands site kind (cons {x} (p, q) more) h = select-Stands site kind more (
      if_intro (Holds (Stands site kind)) (wanted kind x)
        (λ w. holds_some (
          greater-Stands x (record { one_of = p; here = q; write = is_write_of_wanted kind x w })
            h))
        (λ _. h))

  summary_of-IsSite :
      (x : AccessSiteKey × List StateAccess) → Grouped from_access x → IsSite (summary_of x)
  unfolding summary_of
  summary_of-IsSite x h = record {
    reads = select-Stands x.0 false h holds_none;
    writes = select-Stands x.0 true h holds_none;
  }

  pub summarize-IsSite :
      {xs : List StateAccess}
      → Every All xs
      → Every IsSite (summarize_access_sites xs) × Apart (λ s. s.site) (summarize_access_sites xs)
  unfolding summarize_access_sites summary_of
  summarize-IsSite h =
      let (grouped, apart) = group_by-Grouped from_access h nil apart_nil in
      (
        sort_by-Every before (map-Every summary_of (Every-map summary_of-IsSite grouped)),
        sort_by-Apart before (map-Apart summary_of apart),
      )

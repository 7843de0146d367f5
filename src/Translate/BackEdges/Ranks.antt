-- ===== src/Translate/BackEdges/Ranks.antt =====
-- Numbers that fall along every edge but the back edges of src/translate/mir_to_pn/cfg_utils.rs.
use conc_bug_dect_rust.Prelude.{
  Bool-cases, List, ap, arith, contains, contains-insert, eq_of_==, false, if◌then◌else◌, inl, inr,
  insert, list_eq, list_ord, nat_eq, nat_ord, pair_eq, pair_ord, refl, subst, suc, sym, true, ℕ,
  ◌<◌, ◌==◌, ◌||◌, ◌∙◌, ◌≡◌, ◌⊎◌,
}
use conc_bug_dect_rust.Translate.Mir.{BlockData}
use conc_bug_dect_rust.Translate.BackEdges.Edges.{Edge}

module _ (body : List BlockData) where
  -- A number for each visited block that falls along every edge which is no back edge.
  pub record Ranked (visited : List ℕ) (back : List (ℕ × ℕ)) : Type 0 where
    pub rank : ℕ → ℕ
    pub top : ℕ
    pub below : (a : ℕ) → contains visited a ≡ true → rank a < top
    pub falls :
        (u v : ℕ)
        → contains visited u ≡ true
        → Edge body u v
        → (contains back (u, v) ≡ true) ⊎ ((contains visited v ≡ true) × (rank v < rank u))

  -- A new back edge keeps the ranks.
  pub Ranked-back :
      {visited : List ℕ} {back : List (ℕ × ℕ)} (edge : ℕ × ℕ)
      → Ranked visited back
      → Ranked visited (insert edge back)
  Ranked-back {visited} {back} edge r = record {
    rank = r.rank;
    top = r.top;
    below = r.below;
    falls = λ u v h e. elim (r.falls u v h e) [
      | inl b ↦ inl (contains-insert edge back (u, v) ∙ ap (λ b. b || (edge == (u, v))) b)
      | inr p ↦ inr p
    ];
  }

  -- A block that is left when its successors are dealt with gets the highest rank.
  pub Ranked-leave :
      (u : ℕ) {visited : List ℕ} {back : List (ℕ × ℕ)}
      → Ranked visited back
      → ((v : ℕ) → Edge body u v → (contains back (u, v) ≡ true) ⊎ (contains visited v ≡ true))
      → Ranked (insert u visited) back
  Ranked-leave u {visited} {back} r settled = elim (Bool-cases (contains visited u)) [
    | inl old ↦
        let same : insert u visited ≡ visited = unfold insert in rw (old, insert) refl in rw same r
    | inr new ↦ record {
      rank = λ a. if u == a then r.top else r.rank a;
      top = suc r.top;
      below = λ a h. let c = contains-insert u visited a in ground (arith, r.below a);
      falls = λ a v h e. elim (Bool-cases (u == a)) [
        | inl at ↦
            let same_block = eq_of_== u a at in
            elim (settled v (subst (λ k. Edge body k v) (sym same_block) e)) [
              | inl b ↦ inl (subst (λ k. contains back (k, v) ≡ true) same_block b)
              | inr vis ↦
                  let c = contains-insert u visited v in
                  let apart : (u == v) ≡ false = ground arith in
                  inr (ground arith, ground (arith, r.below v))
            ]
        | inr at ↦
            let c = contains-insert u visited a in
            elim (r.falls a v (ground arith) e) [
              | inl b ↦ inl b
              | inr p ↦
                  let c' = contains-insert u visited v in
                  let vis = p.0 in
                  let lower = p.1 in
                  let apart : (u == v) ≡ false = ground arith in inr (ground arith, ground arith)
            ]
      ];
    }
  ]

  -- A path along edges that are no back edges.
  pub data Forward (back : List (ℕ × ℕ)) : ℕ → ℕ → Type 0 where
    one : {u v : ℕ} → Edge body u v → contains back (u, v) ≡ false → Forward back u v
    more :
        {u v w : ℕ}
        → Edge body u v
        → contains back (u, v) ≡ false
        → Forward back v w
        → Forward back u w

  pub Forward-falls :
      {visited : List ℕ} {back : List (ℕ × ℕ)} (r : Ranked visited back) {u v : ℕ}
      → contains visited u ≡ true
      → Forward back u v
      → (contains visited v ≡ true) × (r.rank v < r.rank u)
  Forward-falls r h (one {u} {v} e no_back) = elim (r.falls u v h e) [ inl b ↦ cc | inr p ↦ p ]
  Forward-falls r h (more {u} {v} {w} e no_back f) = elim (r.falls u v h e) [
    | inl b ↦ cc
    | inr p ↦ let (vis, lower) = Forward-falls r p.0 f in (vis, omega (arith, lower, p.1))
  ]

-- ===== src/Detect/Atomicity/Dedupe/Described.antt =====
-- src/detect/atomicity_violation.rs: the report lists the loads and stores of the witnesses.
use conc_bug_dect_rust.Prelude.{
  Apart, Bool, Bool-cases, Eq, Every, List, Text, [], ap, apart_nil, append-Apart, arith, codes,
  cons, contains, contains-append, decimal, eq_of_==, false, if_intro, if◌then◌else◌, inl, inr,
  list_eq, list_ord, nat_eq, nat_ord, nil, pair_eq, pair_ord, refl, subst, true, ℕ, ◌&&◌, ◌++◌,
  ◌==◌, ◌||◌, ◌∙◌, ◌∷◌, ◌≡◌,
}
use conc_bug_dect_rust.Detect.Graph.{AliasId}
use conc_bug_dect_rust.Detect.Atomicity.{
  Ev, EvKind-discrete, Witness, WitnessKind, av1, av2, av3, kind_eq, load, store,
}
use conc_bug_dect_rust.Detect.Atomicity.Dedupe.{
  AtomicOperation, ViolationPattern, pattern_eq, AtomicOperation-discrete, atomic_op, dedupe_from,
  dedupe_patterns, pattern_of,
}
use conc_bug_dect_rust.Detect.Atomicity.Patterns.{rule_of}

-- The events of a witness in the order of the run.
abbrev pub events_of : Witness → List Ev
events_of w = w.start ∷ w.mid ∷ w.end ∷ []

-- The events are of the kinds of the witness's rule.
pub record IsKinded (w : Witness) : Type 0 where
  pub start_kind : w.start.kind ≡ (rule_of w.kind).start
  pub mid_kind : w.mid.kind ≡ (rule_of w.kind).mid
  pub end_kind : w.end.kind ≡ (rule_of w.kind).end

instance abbrev op_eq : Eq AtomicOperation
op_eq = record { dec = AtomicOperation-discrete }

pub is_first : AtomicOperation → List AtomicOperation → Bool
is_first x [] = false
is_first x (y ∷ ys) = y == x

==-pattern :
    (a p : ViolationPattern) → (a == p) ≡ (a.load_op == p.load_op && a.store_ops == p.store_ops)
==-pattern a p = elim (Bool-cases (a == p)) [
  | inl e ↦
      let same = eq_of_== a p e in
      let l : a.load_op ≡ p.load_op = ap (λ q. q.load_op) same in
      let s : a.store_ops ≡ p.store_ops = ap (λ q. q.store_ops) same in ground arith
  | inr e ↦ elim (Bool-cases (a.load_op == p.load_op)) [
    | inr l ↦ ground arith
    | inl l ↦ elim (Bool-cases (a.store_ops == p.store_ops)) [
      | inr s ↦ ground arith
      | inl s ↦
          let l' = eq_of_== a.load_op p.load_op l in
          let s' = eq_of_== a.store_ops p.store_ops s in
          let same : a ≡ p = cc in absurd (ground arith)
    ]
  ]
]

added :
    (ps : List ViolationPattern) (q p : ViolationPattern)
    → contains (if contains ps q then ps else ps ++ q ∷ []) p ≡ (contains ps p || (q == p))
added ps q p = elim (Bool-cases (contains ps q)) [
  | inl old ↦ elim (Bool-cases (q == p)) [
    | inl same ↦
        let e = eq_of_== q p same in
        let there = subst (λ k. contains ps k ≡ true) e old in ground arith
    | inr other ↦ ground arith
  ]
  | inr new ↦ ground (arith, contains-append ps (q ∷ []) p)
]

module _ (debug_ord : ℕ → Text) (debug_alias : AliasId → Text) where
  -- The operation of an event, with its thread.
  unfoldable pub operation : Text → Ev → AtomicOperation
  operation label e = record {
    operation_type = label ++ decimal e.tid;
    ordering = debug_ord e.ord;
    variable = debug_alias e.alias;
    location = e.span;
  }

  -- The loads of the events, and their stores, in the order of the run.
  pub loads_of : List Ev → List AtomicOperation
  loads_of [] = []
  loads_of (e ∷ es) =
      let rest = loads_of es in
      if e.kind == load then operation (codes "load@tid") e ∷ rest else rest

  pub stores_of : List Ev → List AtomicOperation
  stores_of [] = []
  stores_of (e ∷ es) =
      let rest = stores_of es in
      if e.kind == store then operation (codes "store@tid") e ∷ rest else rest

  -- A pattern with the first load of a witness and all its stores.
  pub describes : ViolationPattern → Witness → Bool
  describes p w =
      is_first p.load_op (loads_of (events_of w)) && stores_of (events_of w) == p.store_ops

  pub described : ViolationPattern → List Witness → Bool
  described p [] = false
  described p (w ∷ ws) = describes p w || described p ws

  pattern_of-describes :
      (w : Witness) (p : ViolationPattern)
      → IsKinded w
      → (pattern_of debug_ord debug_alias w.kind w == p) ≡ describes p w
  unfolding describes loads_of stores_of is_first operation atomic_op pattern_of EvKind-discrete
  pattern_of-describes w p h =
      ==-pattern (pattern_of debug_ord debug_alias w.kind w) p ∙ by_kind w.kind refl
    where
      by_kind :
          (k : WitnessKind)
          → w.kind ≡ k
          → ((pattern_of debug_ord debug_alias w.kind w).load_op == p.load_op
              && (pattern_of debug_ord debug_alias w.kind w).store_ops == p.store_ops)
            ≡ describes p w
      by_kind av1 e =
          let s : w.start.kind ≡ load = h.start_kind ∙ ap (λ k. (rule_of k).start) e in
          let m : w.mid.kind ≡ store = h.mid_kind ∙ ap (λ k. (rule_of k).mid) e in
          let t : w.end.kind ≡ store = h.end_kind ∙ ap (λ k. (rule_of k).end) e in
          rw (e, s, m, t) refl
      by_kind av2 e =
          let s : w.start.kind ≡ store = h.start_kind ∙ ap (λ k. (rule_of k).start) e in
          let m : w.mid.kind ≡ store = h.mid_kind ∙ ap (λ k. (rule_of k).mid) e in
          let t : w.end.kind ≡ load = h.end_kind ∙ ap (λ k. (rule_of k).end) e in
          rw (e, s, m, t) refl
      by_kind av3 e =
          let s : w.start.kind ≡ load = h.start_kind ∙ ap (λ k. (rule_of k).start) e in
          let m : w.mid.kind ≡ store = h.mid_kind ∙ ap (λ k. (rule_of k).mid) e in
          let t : w.end.kind ≡ load = h.end_kind ∙ ap (λ k. (rule_of k).end) e in
          rw (e, s, m, t) refl

  dedupe_from-described :
      (ws : List Witness) (ps : List ViolationPattern) (p : ViolationPattern)
      → Every IsKinded ws
      → contains (dedupe_from debug_ord debug_alias ws ps) p ≡ (contains ps p || described p ws)
  unfolding dedupe_from described
  dedupe_from-described [] ps p nil = ground arith
  dedupe_from-described (w ∷ ws) ps p (cons k ks) =
      let q = pattern_of debug_ord debug_alias w.kind w in
      dedupe_from-described ws (if contains ps q then ps else ps ++ q ∷ []) p ks
      ∙ ap (λ b. b || described p ws) (added ps q p)
      ∙ ap (λ b. (contains ps p || b) || described p ws) (pattern_of-describes w p k)
      ∙ ground arith

  dedupe_from-Apart :
      (ws : List Witness) {ps : List ViolationPattern}
      → Apart (λ p. p) ps
      → Apart (λ p. p) (dedupe_from debug_ord debug_alias ws ps)
  unfolding dedupe_from
  dedupe_from-Apart [] a = a
  dedupe_from-Apart (w ∷ ws) {ps} a =
      let q = pattern_of debug_ord debug_alias w.kind w in
      dedupe_from-Apart ws
        (if_intro (Apart (λ p. p)) (contains ps q) (λ _. a) (λ new. append-Apart ps q new a))

  -- For witnesses whose events are of the kinds of their rules, the report has exactly the patterns
  -- that name the first load of some witness and, in the order of the run, all its stores, each with
  -- its thread, ordering, whole alias and span; and it has no pattern twice.
  pub dedupe_patterns-described :
      (ws : List Witness) (p : ViolationPattern)
      → Every IsKinded ws
      → (contains (dedupe_patterns debug_ord debug_alias ws) p ≡ described p ws)
        × Apart (λ q. q) (dedupe_patterns debug_ord debug_alias ws)
  unfolding dedupe_patterns
  dedupe_patterns-described ws p h =
      (dedupe_from-described ws [] p h, dedupe_from-Apart ws apart_nil)

-- ===== src/Detect/Deadlock/Traps.antt =====
-- src/detect/deadlock.rs: a reported cycle is never left, and its locks are never acquired again.
use conc_bug_dect_rust.Prelude.{
  ==_refl, Bool-cases, Every, Every-contains, List, Option-cases, [], ap, arith, cons, contains,
  contains-append, eq_of_==, false, get_elem?, inl, inr, insert_by, list_eq, list_ord, lookup,
  lookup-put, lookup-put_same, ltb, map, nat_eq, nat_ord, nil, pair_eq, pair_ord, put, refl, some,
  sort_by, subst, suc, sym, true, zero, ℕ, ℕ_discrete, ◌++◌, ◌==◌, ◌||◌, ◌∙◌, ◌∷◌, ◌≡◌,
}
use mathlib.Core.Option.{some-injective}
use conc_bug_dect_rust.Detect.Graph.{
  Edge, StateGraph, TransitionType, lock, rw_lock_read, rw_lock_write,
}
use conc_bug_dect_rust.Detect.Deadlock.{
  collect_lock_transitions, dedup, dedup_after, gather, get_consistently_blocked_transitions,
  is_transition_enabled, lock_of, or_default, sorted_ids,
}
use conc_bug_dect_rust.Detect.Deadlock.Cycles.{Disabled, reported_cycle}

-- The three kinds of transitions that acquire a lock.
pub data Acquires (l : ℕ) : TransitionType → Type 0 where
  locks_it : Acquires l (lock l)
  reads_it : Acquires l (rw_lock_read l)
  writes_it : Acquires l (rw_lock_write l)

-- The graph leads from one node to another along its edges.
pub data Leads (g : StateGraph) (m : ℕ) : ℕ → Type 0 where
  here : Leads g m m
  along :
      {n : ℕ} (i : ℕ) (e : Edge)
      → Leads g m n
      → get_elem? (g.edges n) i ≡ some e
      → Leads g m e.target

Acquires-lock_of : {l : ℕ} {t : TransitionType} → Acquires l t → lock_of t ≡ some l
unfolding lock_of
Acquires-lock_of locks_it = refl
Acquires-lock_of reads_it = refl
Acquires-lock_of writes_it = refl

contains-insert_by :
    (x : ℕ) (xs : List ℕ) (a : ℕ) → contains (insert_by ltb x xs) a ≡ (x == a || contains xs a)
unfolding insert_by
contains-insert_by x [] a = refl
contains-insert_by x (y ∷ xs) a = ground (arith, contains-insert_by x xs a)

contains-sort_by : (xs : List ℕ) (a : ℕ) → contains (sort_by ltb xs) a ≡ contains xs a
unfolding sort_by
contains-sort_by [] a = refl
contains-sort_by (x ∷ xs) a =
    contains-insert_by x (sort_by ltb xs) a ∙ ap (λ b. x == a || b) (contains-sort_by xs a)

contains-dedup_after :
    (x : ℕ) (xs : List ℕ) (a : ℕ)
    → (x == a || contains (dedup_after x xs) a) ≡ (x == a || contains xs a)
unfolding dedup_after
contains-dedup_after x [] a = refl
contains-dedup_after x (y ∷ ys) a =
    let rest = contains-dedup_after y ys a in
    elim (ℕ_discrete y x) [
      | yes same ↦
          let rest' =
            subst (λ k. (k == a || contains (dedup_after k ys) a) ≡ (k == a || contains ys a)) same
              rest in
          ground (arith, rest', same)
      | no other ↦ ground (arith, rest)
    ]

contains-dedup : (xs : List ℕ) (a : ℕ) → contains (dedup xs) a ≡ contains xs a
unfolding dedup
contains-dedup [] a = refl
contains-dedup (x ∷ xs) a = contains-dedup_after x xs a

-- The list stored for a lock has the transition.
abbrev Has : ℕ → ℕ → List (ℕ × List ℕ) → Type 0
Has l t locks = (ids : List ℕ) × (lookup l locks ≡ some ids) × (contains ids t ≡ true)

Has-put :
    (l k t u : ℕ) (locks : List (ℕ × List ℕ))
    → Has l t locks
    → Has l t (put k (or_default (lookup k locks) ++ u ∷ []) locks)
unfolding or_default
Has-put l k t u locks (ids, e, h) = elim (Bool-cases (k == l)) [
  | inl same ↦
      let at = eq_of_== k l same in
      let e' : lookup k locks ≡ some ids = ap (λ j. lookup j locks) at ∙ e in
      (
        or_default (lookup k locks) ++ u ∷ [],
        rw (lookup-put k l (or_default (lookup k locks) ++ u ∷ []) locks, same) refl,
        rw (e', or_default) (ground (arith, contains-append ids (u ∷ []) t)),
      )
  | inr other ↦ (ids, rw (lookup-put k l (or_default (lookup k locks) ++ u ∷ []) locks, other) e, h)
]

Has-gather :
    (es : List Edge) (locks : List (ℕ × List ℕ)) (l t : ℕ)
    → Has l t locks
    → Has l t (gather es locks)
unfolding gather
Has-gather [] locks l t h = h
Has-gather (e ∷ es) locks l t h = elim (Option-cases (lock_of e.transition_type)) [
  | inl none_left ↦ rw (none_left, gather) (Has-gather es locks l t h)
  | inr (k, found) ↦ rw (found, gather) (Has-gather es _ l t (Has-put l k t e.id locks h))
]

Has-gather_new :
    (es : List Edge) (locks : List (ℕ × List ℕ)) (i l : ℕ) {e : Edge}
    → get_elem? es i ≡ some e
    → lock_of e.transition_type ≡ some l
    → Has l e.id (gather es locks)
unfolding gather
Has-gather_new [] locks i l at acquires = cc
Has-gather_new (d ∷ es) locks zero l {e} at acquires =
    let same : d ≡ e = some-injective _ _ at in
    let found : lock_of d.transition_type ≡ some l =
      ap (λ (k : Edge). lock_of k.transition_type) same ∙ acquires in
    let ids = or_default (lookup l locks) ++ d.id ∷ [] in
    rw (found, gather)
      (Has-gather es (put l ids locks) l e.id (
        ids,
        lookup-put_same l ids locks,
        subst (λ (k : Edge). contains ids k.id ≡ true) same
            (ground (
              arith,
              contains-append (or_default (lookup l locks)) (d.id ∷ []) d.id,
              ==_refl d.id,
            )),
      ))
Has-gather_new (d ∷ es) locks (suc i) l at acquires =
    elim (Option-cases (lock_of d.transition_type)) [
      | inl none_left ↦ rw (none_left, gather) (Has-gather_new es locks i l at acquires)
      | inr (k, found) ↦ rw (found, gather) (Has-gather_new es _ i l at acquires)
    ]

Has-sorted : (locks : List (ℕ × List ℕ)) (l t : ℕ) → Has l t locks → Has l t (map sorted_ids locks)
unfolding sorted_ids lookup
Has-sorted [] l t (ids, e, h) = cc
Has-sorted ((k, js) ∷ locks) l t (ids, e, h) = elim (Bool-cases (k == l)) [
  | inl same ↦
      let at : js ≡ ids = some-injective _ _ (rw (same) at e) in
      (
        dedup (sort_by ltb js),
        rw (same) refl,
        contains-dedup (sort_by ltb js) t ∙ contains-sort_by js t ∙ ap (λ x. contains x t) at ∙ h,
      )
  | inr other ↦
      let (ids', e', h') = Has-sorted locks l t (ids, rw (other) at e, h) in
      (ids', rw (other) e', h')
]

Disabled-acquires :
    (g : StateGraph) (l n i : ℕ) (e : Edge)
    → Disabled g l n
    → get_elem? g.edge_weights i ≡ some e
    → Acquires l e.transition_type
    → is_transition_enabled g n e.id ≡ false
unfolding collect_lock_transitions Disabled
Disabled-acquires g l n i e (ids, found, all) at a =
    let (ids', found', has) =
      Has-sorted (gather g.edge_weights []) l e.id
        (Has-gather_new g.edge_weights [] i l at (Acquires-lock_of a)) in
    let same : ids' ≡ ids = some-injective _ _ (sym found' ∙ found) in
    Every-contains e.id all (ap (λ x. contains x e.id) (sym same) ∙ has)

Every-at :
    {P : Edge → Type 0} {es : List Edge} {e : Edge} (i : ℕ)
    → Every P es
    → get_elem? es i ≡ some e
    → P e
Every-at i nil at = cc
Every-at {P} zero (cons p ps) at = subst P (some-injective _ _ at) p
Every-at (suc i) (cons p ps) at = Every-at i ps at

Leads-stays :
    (g : StateGraph) (cycle : List ℕ) {m k : ℕ}
    → Every (λ n. Every (λ e. contains cycle e.target ≡ true) (g.edges n)) cycle
    → contains cycle m ≡ true
    → Leads g m k
    → contains cycle k ≡ true
Leads-stays g cycle stays h here = h
Leads-stays g cycle stays h (along {n} i e path at) =
    Every-at i (Every-contains n stays (Leads-stays g cycle stays h path)) at

-- When a cycle is reported with some locks, then from its nodes on nothing but its nodes is ever
-- reached, and wherever the graph leads, no transition that acquires one of these locks, be it a
-- mutex or either side of a lock for reading and writing, is enabled again.
pub blocked-trap :
    (g : StateGraph) (n : ℕ) (ns bs : List ℕ) (m k l i : ℕ) (e : Edge)
    → get_consistently_blocked_transitions g n ns ≡ some bs
    → contains (n ∷ ns) m ≡ true
    → Leads g m k
    → contains bs l ≡ true
    → get_elem? g.edge_weights i ≡ some e
    → Acquires l e.transition_type
    → (contains (n ∷ ns) k ≡ true) × (is_transition_enabled g k e.id ≡ false)
blocked-trap g n ns bs m k l i e reported start path blocked at acquires =
    let (stays, disabled) = reported_cycle g n ns bs reported in
    let inside = Leads-stays g (n ∷ ns) stays start path in
    (
      inside,
      Disabled-acquires g l k i e (Every-contains k (Every-contains l disabled blocked) inside) at
          acquires,
    )

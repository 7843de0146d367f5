-- ===== src/Detect/Deadlock/Cycles.antt =====
-- src/detect/deadlock.rs: what the search for cycles has found of a reported one.
use conc_bug_dect_rust.Prelude.{
  >>=-eq-some, Apart, Bool-cases, Eq, Every, Every-both, Every-if, Every-map, List, Option, [],
  apart_cons, apart_nil, arith, cons, contains, false, if◌then◌else◌, inl, inr, length, list_eq,
  list_ord, lookup, map-Apart, nat_eq, nat_ord, nil, none, pair_eq, pair_ord, put, refl, some,
  subst, true, ℕ, ◌++◌, ◌==◌, ◌∷◌, ◌≡◌,
}
use mathlib.Core.Option.{some-injective}
use conc_bug_dect_rust.Detect.Graph.{Edge, StateGraph}
use conc_bug_dect_rust.Detect.Datarace.Groups.{put-Apart, first}
use conc_bug_dect_rust.Detect.Deadlock.{
  lock_of, or_default, gather, sorted_ids, collect_lock_transitions, is_transition_enabled,
  all_disabled, blocked_at, still_blocked, narrow, targets_in, is_stable, all_blocked,
  get_consistently_blocked_transitions,
}

pub lookup-Apart {ℓ κ} :
    {K : Type ℓ} {V : Type κ} ⦃e : Eq K⦄ {m : List (K × V)}
    → Apart first m
    → Every (λ x. lookup x.0 m ≡ some x.1) m
unfolding lookup
lookup-Apart apart_nil = nil
lookup-Apart (apart_cons {x} {xs} ne a) =
    cons (ground arith) (Every-map (λ y q. ground arith) (Every-both ne (lookup-Apart a)))

gather-Apart :
    (es : List Edge) {locks : List (ℕ × List ℕ)} → Apart first locks → Apart first (gather es locks)
unfolding gather
gather-Apart [] a = a
gather-Apart (e ∷ es) {locks} a = gather-Apart es (one (lock_of e.transition_type))
  where
    one :
        (o : Option ℕ)
        → Apart first (elim o [
          | none ↦ locks
          | some lock_id ↦ put lock_id (or_default (lookup lock_id locks) ++ e.id ∷ []) locks
        ])
    one none = a
    one (some l) = put-Apart l _ a

collect-Apart : (g : StateGraph) → Apart first (collect_lock_transitions g)
unfolding collect_lock_transitions sorted_ids
collect-Apart g = map-Apart sorted_ids (gather-Apart g.edge_weights apart_nil)

-- No transition that acquires the lock is enabled at the node.
unfoldable pub Disabled : StateGraph → ℕ → ℕ → Type 0
Disabled g l n =
    (ids : List ℕ) × (lookup l (collect_lock_transitions g) ≡ some ids)
    × Every (λ t. is_transition_enabled g n t ≡ false) ids

all_disabled-Every :
    (g : StateGraph) (n : ℕ) (ids : List ℕ)
    → all_disabled g n ids ≡ true
    → Every (λ t. is_transition_enabled g n t ≡ false) ids
unfolding all_disabled
all_disabled-Every g n [] h = nil
all_disabled-Every g n (t ∷ ts) h = cons (ground arith) (all_disabled-Every g n ts (ground arith))

module _ (g : StateGraph) where
  abbrev locks : List (ℕ × List ℕ)
  locks = collect_lock_transitions g

  blocked_at-Disabled :
      (n : ℕ) {ls : List (ℕ × List ℕ)}
      → Every (λ x. lookup x.0 locks ≡ some x.1) ls
      → Every (λ l. Disabled g l n) (blocked_at g n ls)
  unfolding blocked_at Disabled
  blocked_at-Disabled n nil = nil
  blocked_at-Disabled n (cons {x} h hs) =
      Every-if (all_disabled g n x.1)
        (λ d. cons (x.1, h, all_disabled-Every g n x.1 d) (blocked_at-Disabled n hs))
        (λ _. blocked_at-Disabled n hs)

  still_blocked-Disabled :
      {P : ℕ → Type 0} (n : ℕ) {ls : List ℕ}
      → Every P ls
      → Every (λ l. P l × Disabled g l n) (still_blocked g locks n ls)
  unfolding still_blocked Disabled
  still_blocked-Disabled n nil = nil
  still_blocked-Disabled {P} n (cons {x} {xs} p ps) =
      one (lookup x locks) refl (still_blocked-Disabled n ps)
    where
      one :
          (o : Option (List ℕ))
          → lookup x locks ≡ o
          → Every (λ l. P l × Disabled g l n) (still_blocked g locks n xs)
          → Every
              (λ l. P l × Disabled g l n)
              (elim o [
                | none ↦ still_blocked g locks n xs
                | some ids ↦
                    if all_disabled g n ids
                    then x ∷ still_blocked g locks n xs
                    else still_blocked g locks n xs
              ])
      one none e rest = rest
      one (some ids) e rest =
          Every-if (all_disabled g n ids)
            (λ d. cons (p, (ids, e, all_disabled-Every g n ids d)) rest) (λ _. rest)

  narrow-Disabled :
      (ns blocked : List ℕ) {P : ℕ → Type 0} {bs : List ℕ}
      → Every P blocked
      → narrow g locks ns blocked ≡ some bs
      → Every (λ l. P l × Every (Disabled g l) ns) bs
  unfolding narrow
  narrow-Disabled [] blocked {P} ps h =
      Every-map (λ l p. (p, nil)) (subst (Every P) (some-injective _ _ h) ps)
  narrow-Disabled (n ∷ ns) blocked ps h =
      elim (Bool-cases (length (still_blocked g locks n blocked) == 0)) [
        | inl empty ↦ absurd (ground arith)
        | inr more ↦
            Every-map (λ l q. (q.0.0, cons q.0.1 q.1))
              (narrow-Disabled ns (still_blocked g locks n blocked) (still_blocked-Disabled n ps)
                (ground arith))
      ]

  targets_in-Every :
      (cycle : List ℕ) (es : List Edge)
      → targets_in cycle es ≡ true
      → Every (λ e. contains cycle e.target ≡ true) es
  unfolding targets_in
  targets_in-Every cycle [] h = nil
  targets_in-Every cycle (e ∷ es) h = cons (ground arith) (targets_in-Every cycle es (ground arith))

  is_stable-Every :
      (cycle ns : List ℕ)
      → is_stable g cycle ns ≡ true
      → Every (λ n. Every (λ e. contains cycle e.target ≡ true) (g.edges n)) ns
  unfolding is_stable
  is_stable-Every cycle [] h = nil
  is_stable-Every cycle (n ∷ ns) h =
      cons (targets_in-Every cycle (g.edges n) (ground arith))
        (is_stable-Every cycle ns (ground arith))

  pub reported_cycle :
      (n : ℕ) (ns bs : List ℕ)
      → get_consistently_blocked_transitions g n ns ≡ some bs
      → Every (λ m. Every (λ e. contains (n ∷ ns) e.target ≡ true) (g.edges m)) (n ∷ ns)
        × Every (λ l. Every (Disabled g l) (n ∷ ns)) bs
  unfolding get_consistently_blocked_transitions
  reported_cycle n ns bs h =
      let (blocked, e, k) = >>=-eq-some (narrow g locks ns (blocked_at g n locks)) _ h in
      elim (Bool-cases (all_blocked locks blocked)) [
        | inl all ↦ absurd (ground arith)
        | inr some_free ↦ elim (Bool-cases (is_stable g (n ∷ ns) (n ∷ ns))) [
          | inr leaves ↦ absurd (ground arith)
          | inl stays ↦
              let same : blocked ≡ bs = some-injective _ _ (ground arith) in
              (
                is_stable-Every (n ∷ ns) (n ∷ ns) stays,
                subst (Every (λ l. Every (Disabled g l) (n ∷ ns))) same (
                    Every-map (λ l q. cons q.0 q.1)
                      (narrow-Disabled ns (blocked_at g n locks)
                        (blocked_at-Disabled n (lookup-Apart (collect-Apart g))) e)),
              )
        ]
      ]

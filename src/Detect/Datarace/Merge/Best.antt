-- ===== src/Detect/Datarace/Merge/Best.antt =====
-- src/detect/datarace.rs: of the conditions of each variable, merging keeps one of the best.
use conc_bug_dect_rust.Prelude.{
  Apart, Apart-rekey, Bool-cases, Every, Every-map, List, Option-cases, Text, [], ap, apart_nil,
  arith, cons, eq_of_==, false, if_intro, inl, inr, insert_by, list_eq, list_ord, lookup,
  lookup-put, lookup-put_same, map, map-Apart, map-Every, nat_eq, nat_ord, nil, pair_eq, pair_ord,
  put, refl, some, sort_by, sort_by-Apart, sort_by-Every, subst, sym, ◌==◌, ◌∙◌, ◌∷◌, ◌≡◌,
}
use conc_bug_dect_rust.Prelude.Strict.{IsStrict, list-IsStrict, nat-IsStrict, pair-IsStrict}
use mathlib.Core.Option.{some-injective}
use conc_bug_dect_rust.Detect.Datarace.{RaceCondition, less}
use conc_bug_dect_rust.Detect.Datarace.Merge.{
  Merged, RaceConditionPriority, by_variable, merge_all, merge_all-Merged, merge_one,
  merge_race_conditions, race_condition_priority, second,
}

abbrev Beats : RaceCondition → RaceCondition → Type 0
Beats d c = less (race_condition_priority d) (race_condition_priority c) ≡ false

priority-IsStrict : IsStrict {A = RaceConditionPriority} less
priority-IsStrict =
    let text = list-IsStrict nat-IsStrict in
    let signature = pair-IsStrict text (pair-IsStrict text (pair-IsStrict nat-IsStrict text)) in
    pair-IsStrict nat-IsStrict (
      pair-IsStrict nat-IsStrict (
        pair-IsStrict nat-IsStrict (
          pair-IsStrict (list-IsStrict (pair-IsStrict nat-IsStrict signature))
            (pair-IsStrict text (list-IsStrict signature)))))

Beats-refl : (c : RaceCondition) → Beats c c
Beats-refl c = priority-IsStrict.irrefl (race_condition_priority c)

merge_one-Beats : (old c : RaceCondition) → Beats (merge_one (some old) c) c
unfolding merge_one
merge_one-Beats old c =
    if_intro (λ d. Beats d c) (less (race_condition_priority old) (race_condition_priority c))
      (λ _. Beats-refl c) (λ h. h)

merge_one-Beats_old : (old c x : RaceCondition) → Beats old x → Beats (merge_one (some old) c) x
unfolding merge_one
merge_one-Beats_old old c x b =
    let po = race_condition_priority old in
    let pc = race_condition_priority c in
    let px = race_condition_priority x in
    if_intro (λ d. Beats d x) (less po pc)
      (λ h. elim (Bool-cases (less pc px)) [
        | inl lower ↦
            let bad = priority-IsStrict.trans po pc px h lower in absurd (ground (arith, b))
        | inr fine ↦ fine
      ])
      (λ _. b)

-- The condition kept for a variable is no worse than this one.
Kept : RaceCondition → List (Text × RaceCondition) → Type 0
Kept x m = (d : RaceCondition) × (lookup x.variable_info m ≡ some d) × Beats d x

Kept-put :
    (c x : RaceCondition) (m : List (Text × RaceCondition))
    → Kept x m
    → Kept x (put c.variable_info (merge_one (lookup c.variable_info m) c) m)
unfolding Kept
Kept-put c x m (d, e, b) =
    let new = merge_one (lookup c.variable_info m) c in
    let there = lookup-put c.variable_info x.variable_info new m in
    elim (Bool-cases (c.variable_info == x.variable_info)) [
      | inl same ↦
          let at = eq_of_== c.variable_info x.variable_info same in
          let old : lookup c.variable_info m ≡ some d = ap (λ k. lookup k m) at ∙ e in
          (
            new,
            rw (there, same) refl,
            subst (λ o. Beats (merge_one o c) x) (sym old) (merge_one-Beats_old d c x b),
          )
      | inr other ↦ (d, rw (there, other) e, b)
    ]

Kept-new :
    (c : RaceCondition) (m : List (Text × RaceCondition))
    → Kept c (put c.variable_info (merge_one (lookup c.variable_info m) c) m)
unfolding Kept merge_one
Kept-new c m = (
  merge_one (lookup c.variable_info m) c,
  lookup-put_same c.variable_info (merge_one (lookup c.variable_info m) c) m,
  elim (Option-cases (lookup c.variable_info m)) [
    | inl e ↦ subst (λ o. Beats (merge_one o c) c) (sym e) (Beats-refl c)
    | inr (old, e) ↦ subst (λ o. Beats (merge_one o c) c) (sym e) (merge_one-Beats old c)
  ],
)

Kept-merge_all :
    (x : RaceCondition) (cs : List RaceCondition) (m : List (Text × RaceCondition))
    → Kept x m
    → Kept x (merge_all cs m)
unfolding merge_all
Kept-merge_all x [] m k = k
Kept-merge_all x (c ∷ cs) m k = Kept-merge_all x cs _ (Kept-put c x m k)

merge_all-Kept :
    (cs : List RaceCondition) (m : List (Text × RaceCondition))
    → Every (λ c. Kept c (merge_all cs m)) cs
unfolding merge_all
merge_all-Kept [] m = nil
merge_all-Kept (c ∷ cs) m = cons (Kept-merge_all c cs _ (Kept-new c m)) (merge_all-Kept cs _)

-- Some condition of the list is about the variable of this one, and is no worse.
pub data HasBest (c : RaceCondition) : List RaceCondition → Type 0 where
  best_here :
      {d : RaceCondition} {ds : List RaceCondition}
      → d.variable_info ≡ c.variable_info
      → less (race_condition_priority d) (race_condition_priority c) ≡ false
      → HasBest c (d ∷ ds)
  best_later : {d : RaceCondition} {ds : List RaceCondition} → HasBest c ds → HasBest c (d ∷ ds)

HasBest-insert_by :
    (c d : RaceCondition) (ds : List RaceCondition)
    → HasBest c (d ∷ ds)
    → HasBest c (insert_by by_variable d ds)
unfolding insert_by
HasBest-insert_by c d [] h = h
HasBest-insert_by c d (x ∷ xs) (best_here e b) =
    if_intro (HasBest c) (by_variable x d)
      (λ _. best_later (HasBest-insert_by c d xs (best_here e b))) (λ _. best_here e b)
HasBest-insert_by c d (x ∷ xs) (best_later (best_here e b)) =
    if_intro (HasBest c) (by_variable x d) (λ _. best_here e b) (λ _. best_later (best_here e b))
HasBest-insert_by c d (x ∷ xs) (best_later (best_later h)) =
    if_intro (HasBest c) (by_variable x d)
      (λ _. best_later (HasBest-insert_by c d xs (best_later h))) (λ _. best_later (best_later h))

HasBest-sort_by :
    (c : RaceCondition) (ds : List RaceCondition)
    → HasBest c ds
    → HasBest c (sort_by by_variable ds)
unfolding sort_by
HasBest-sort_by c [] h = elim h [ ]
HasBest-sort_by c (d ∷ ds) (best_here e b) =
    HasBest-insert_by c d (sort_by by_variable ds) (best_here e b)
HasBest-sort_by c (d ∷ ds) (best_later h) =
    HasBest-insert_by c d (sort_by by_variable ds) (best_later (HasBest-sort_by c ds h))

Kept-HasBest :
    (c : RaceCondition) {m : List (Text × RaceCondition)}
    → Every (λ x. x.1.variable_info ≡ x.0) m
    → Kept c m
    → HasBest c (map second m)
unfolding Kept second lookup
Kept-HasBest c nil (d, e, b) = cc
Kept-HasBest c (cons {x} {xs} named rest) (d, e, b) = elim (Bool-cases (x.0 == c.variable_info)) [
  | inl same ↦
      let at : x.1 ≡ d = some-injective _ _ (rw (same) at e) in
      best_here (named ∙ eq_of_== x.0 c.variable_info same) (subst (λ k. Beats k c) (sym at) b)
  | inr other ↦ best_later (Kept-HasBest c rest (d, rw (other) at e, b))
]

-- Merging keeps only conditions that were there and at most one for each variable, and for every
-- condition that was there it keeps one of the same variable whose priority is not lower.
pub merge_race_conditions_lem :
    (All : RaceCondition → Type 0) (conditions : List RaceCondition)
    → Every All conditions
    → Every All (merge_race_conditions conditions)
      × Apart (λ c. c.variable_info) (merge_race_conditions conditions)
      × Every (λ c. HasBest c (merge_race_conditions conditions)) conditions
unfolding merge_race_conditions Merged second
merge_race_conditions_lem All conditions h =
    let (ok, apart) = merge_all-Merged All h nil apart_nil in
    let named = Every-map (λ x q. q.1) ok in
    (
      sort_by-Every by_variable (map-Every second (Every-map (λ x q. q.0) ok)),
      sort_by-Apart by_variable (map-Apart second (Apart-rekey named apart)),
      Every-map (λ c k. HasBest-sort_by c _ (Kept-HasBest c named k))
          (merge_all-Kept conditions []),
    )

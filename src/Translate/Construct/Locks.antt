-- ===== src/Translate/Construct/Locks.antt =====
-- construct_lock_with_dfs of src/translate/petri_net.rs returns, and its groups hold every guard.
pub mod Roots
pub mod Added
pub mod Shared
pub mod Distinct
use conc_bug_dect_rust.Prelude.{
  ==_refl, Bool-cases, List, Option, [], ap, arith, contains, contains-append, eq_of_==, if_intro,
  inl, inr, list_eq, list_ord, lookup, lookup-put, lookup-put_same, nat_eq, nat_ord, pair_eq,
  pair_ord, put, refl, some, subst, sym, true, ℕ, ◌++◌, ◌+◌, ◌==◌, ◌∙◌, ◌∷◌, ◌≡◌, ◌⊎◌,
}
use conc_bug_dect_rust.Memory.PointsTo.{AliasId, LockGuardId, from_lock_guard}
use conc_bug_dect_rust.Translate.Construct.{
  PetriNet, Setup, by_root, push_group, construct_lock_with_dfs, first_kind, insert_locks, keys,
  lock_place, create_resource_place, add_place, is_mutex, locks_may_alias, place_group,
  place_groups,
}
use conc_bug_dect_rust.Translate.Groups.{find_of}
use conc_bug_dect_rust.Translate.Groups.Connected.{same, unite_all-Linked}
use conc_bug_dect_rust.Translate.Primitives.{LockGuardTy, alias_eq, guard_eq}

-- A guard is in one of the groups.
data InGroups (id : LockGuardId) : List (LockGuardId × List LockGuardId) → Type 0 where
  in_first :
      {root : LockGuardId} {group : List LockGuardId}
      {groups : List (LockGuardId × List LockGuardId)}
      → contains group id ≡ true
      → InGroups id ((root, group) ∷ groups)
  in_rest :
      {root : LockGuardId} {group : List LockGuardId}
      {groups : List (LockGuardId × List LockGuardId)}
      → InGroups id groups
      → InGroups id ((root, group) ∷ groups)

-- The lock of the guard has its place.
abbrev pub Present : LockGuardId → List (AliasId × ℕ) → Type 0
Present id locks = (node : ℕ) × (lookup (from_lock_guard id) locks ≡ some node)

contains-append_left :
    (id : LockGuardId) (xs ys : List LockGuardId)
    → contains xs id ≡ true
    → contains (xs ++ ys) id ≡ true
contains-append_left id xs ys h = ground (arith, contains-append xs ys id)

module _ (o : Setup) (info : List (LockGuardId × LockGuardTy)) where
  InGroups-push :
      (id root lock : LockGuardId) (groups : List (LockGuardId × List LockGuardId))
      → InGroups id groups
      → InGroups id (push_group o root lock groups)
  unfolding push_group
  InGroups-push id root lock [] h = elim h [ ]
  InGroups-push id root lock ((r, g) ∷ groups) (in_first h) =
      if_intro (InGroups id) (r == root) (λ _. in_first (contains-append_left id g (lock ∷ []) h))
        (λ _. in_first h)
  InGroups-push id root lock ((r, g) ∷ groups) (in_rest h) =
      if_intro (InGroups id) (r == root) (λ _. in_rest h)
        (λ _. in_rest (InGroups-push id root lock groups h))

  InGroups-push_new :
      (root lock : LockGuardId) (groups : List (LockGuardId × List LockGuardId))
      → InGroups lock (push_group o root lock groups)
  unfolding push_group
  InGroups-push_new root lock [] = in_first (ground (arith, ==_refl lock))
  InGroups-push_new root lock ((r, g) ∷ groups) =
      if_intro (InGroups lock) (r == root)
        (λ _. in_first (ground (arith, contains-append g (lock ∷ []) lock, ==_refl lock)))
        (λ _. in_rest (InGroups-push_new root lock groups))

  -- The kind of each group's first guard is known.
  data Kinds : List (LockGuardId × List LockGuardId) → Type 0 where
    no_groups : Kinds []
    group_kind :
        {root : LockGuardId} {group : List LockGuardId}
        {groups : List (LockGuardId × List LockGuardId)} {ty : LockGuardTy}
        → first_kind o info group ≡ some ty
        → Kinds groups
        → Kinds ((root, group) ∷ groups)

  first_kind-append :
      (group : List LockGuardId) (lock : LockGuardId) {ty : LockGuardTy}
      → first_kind o info group ≡ some ty
      → first_kind o info (group ++ lock ∷ []) ≡ some ty
  unfolding first_kind
  first_kind-append [] lock h = cc
  first_kind-append (x ∷ group) lock h = h

  Kinds-push :
      (root lock : LockGuardId) {ty : LockGuardTy} (groups : List (LockGuardId × List LockGuardId))
      → lookup lock info ≡ some ty
      → Kinds groups
      → Kinds (push_group o root lock groups)
  unfolding push_group first_kind
  Kinds-push root lock [] h no_groups = group_kind h no_groups
  Kinds-push root lock ((r, g) ∷ groups) h (group_kind k ks) =
      if_intro Kinds (r == root) (λ _. group_kind (first_kind-append g lock k) ks)
        (λ _. group_kind k (Kinds-push root lock groups h ks))

  by_root_lem :
      (union_find : List (LockGuardId × LockGuardId)) (locks : List LockGuardId)
      (groups : List (LockGuardId × List LockGuardId))
      → ((id : LockGuardId)
          → contains locks id ≡ true
          → ((r : LockGuardId) × (find_of union_find id ≡ some r))
            × ((ty : LockGuardTy) × (lookup id info ≡ some ty)))
      → Kinds groups
      → (groups' : List (LockGuardId × List LockGuardId)) × (by_root o union_find locks groups
          ≡ some groups')
        × Kinds groups'
        × ((id : LockGuardId) → InGroups id groups → InGroups id groups')
        × ((id : LockGuardId) → contains locks id ≡ true → InGroups id groups')
  unfolding by_root
  by_root_lem union_find [] groups known ks = (groups, refl, ks, λ id h. h, λ id h. cc)
  by_root_lem union_find (lock ∷ locks) groups known ks =
      let here = known lock (ground (arith, ==_refl lock)) in
      let root = here.0.0 in
      let groups1 = push_group o root lock groups in
      let (groups', eq, ks', kept, new) =
        by_root_lem union_find locks groups1 (λ id h. known id (ground arith))
          (Kinds-push root lock groups here.1.1 ks) in
      (
        groups',
        rw (here.0.1, by_root) eq,
        ks',
        λ id h. kept id (InGroups-push id root lock groups h),
        λ id h. elim (Bool-cases (lock == id)) [
          | inl d ↦
              subst (λ k. InGroups k groups') (eq_of_== lock id d)
                (kept lock (InGroups-push_new root lock groups))
          | inr d ↦ new id (ground arith)
        ],
      )

  insert_locks-Present :
      (node : ℕ) (group : List LockGuardId) (locks : List (AliasId × ℕ)) (id : LockGuardId)
      → (contains group id ≡ true) ⊎ Present id locks
      → Present id (insert_locks o node group locks)
  unfolding insert_locks
  insert_locks-Present node [] locks id (inl h) = cc
  insert_locks-Present node [] locks id (inr p) = p
  insert_locks-Present node (lock ∷ group) locks id h =
      insert_locks-Present node group (put (from_lock_guard lock) node locks) id
        (elim (Bool-cases (lock == id)) [
          | inl d ↦ inr (
            node,
            ap (λ k. lookup (from_lock_guard k) (put (from_lock_guard lock) node locks))
                  (sym (eq_of_== lock id d))
                ∙ lookup-put_same (from_lock_guard lock) node locks,
          )
          | inr d ↦ elim h [ inl h' ↦ inl (ground arith) | inr (n, e) ↦ inr (after_put n e) ]
        ])
    where
      after_put :
          (n : ℕ)
          → lookup (from_lock_guard id) locks ≡ some n
          → Present id (put (from_lock_guard lock) node locks)
      after_put n e = rw (lookup-put (from_lock_guard lock) (from_lock_guard id) node locks) (
          if_intro (λ (x : Option ℕ). (m : ℕ) × (x ≡ some m))
            (from_lock_guard lock == from_lock_guard id) (λ _. (node, refl)) (λ _. (n, e)))

  lock_place-resources :
      (ty : LockGuardTy) (n : ℕ) (s : PetriNet) → (lock_place o ty n s).0.resources ≡ s.resources
  unfolding lock_place create_resource_place add_place
  lock_place-resources ty n s =
      if_intro (λ (r : PetriNet × ℕ). r.0.resources ≡ s.resources) (is_mutex o ty) (λ _. refl)
        (λ _. refl)

  place_group-Present :
      (ty : LockGuardTy) (n : ℕ) (group : List LockGuardId) (s : PetriNet) (id : LockGuardId)
      → (contains group id ≡ true) ⊎ Present id s.resources.locks
      → Present id (place_group o ty n group s).resources.locks
  unfolding place_group
  place_group-Present ty n group s id h =
      insert_locks-Present (lock_place o ty n s).1 group (lock_place o ty n s).0.resources.locks id
        (elim h [
          | inl h' ↦ inl h'
          | inr (node, e) ↦ inr (
            node,
            ap (λ r. lookup (from_lock_guard id) r.locks) (lock_place-resources ty n s) ∙ e,
          )
        ])

  place_groups_lem :
      (groups : List (LockGuardId × List LockGuardId)) (n : ℕ) (s : PetriNet)
      → Kinds groups
      → (s' : PetriNet) × (place_groups o info groups n s ≡ some s')
        × ((id : LockGuardId)
            → InGroups id groups ⊎ Present id s.resources.locks
            → Present id s'.resources.locks)
  unfolding place_groups
  place_groups_lem [] n s no_groups = (s, refl, λ id h. elim h [ inl g ↦ elim g [ ] | inr p ↦ p ])
  place_groups_lem ((root, group) ∷ groups) n s (group_kind {ty = ty} k ks) =
      let s1 = place_group o ty n group s in
      let (s', eq, present) = place_groups_lem groups (n + 1) s1 ks in
      (s', rw (k, place_groups) eq, λ id h. present id (passed id h))
    where
      passed :
          (id : LockGuardId)
          → InGroups id ((root, group) ∷ groups) ⊎ Present id s.resources.locks
          → InGroups id groups ⊎ Present id (place_group o ty n group s).resources.locks
      passed id (inl (in_first h)) = inr (place_group-Present ty n group s id (inl h))
      passed id (inl (in_rest h)) = inl h
      passed id (inr p) = inr (place_group-Present ty n group s id (inr p))

keys-lookup :
    (o : Setup) (info : List (LockGuardId × LockGuardTy)) (id : LockGuardId)
    → contains (keys o info) id ≡ true
    → (ty : LockGuardTy) × (lookup id info ≡ some ty)
unfolding keys lookup
keys-lookup o [] id h = cc
keys-lookup o ((k, v) ∷ info) id h =
    if_intro (λ (x : Option LockGuardTy). (ty : LockGuardTy) × (x ≡ some ty)) (k == id)
      (λ _. (v, refl)) (λ d. keys-lookup o info id (ground arith))

lookup-keys :
    (o : Setup) (info : List (LockGuardId × LockGuardTy)) (id : LockGuardId) {ty : LockGuardTy}
    → lookup id info ≡ some ty
    → contains (keys o info) id ≡ true
unfolding keys lookup
lookup-keys o [] id h = cc
lookup-keys o ((k, v) ∷ info) id h = elim (Bool-cases (k == id)) [
  | inl d ↦ rw (d) refl
  | inr d ↦ rw (d) (lookup-keys o info id (rw (d) at h))
]

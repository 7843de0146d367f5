-- ===== src/Translate/Construct/Locks/Added.antt =====
-- place_group of src/translate/petri_net.rs: the place that a group of guards adds to the net.
use conc_bug_dect_rust.Prelude.{
  >>=-eq-some, Bool-cases, Every, List, [], ap, arith, cons, contains, eq_of_==, false, inl, inr,
  list_eq, list_ord, lookup, lookup-put, lookup-put_same, nat_eq, nat_ord, pair_eq, pair_ord, put,
  refl, some, subst, sym, true, ℕ, ◌+◌, ◌==◌, ◌∙◌, ◌∷◌, ◌≡◌,
}
use mathlib.Core.Option.{some-injective}
use conc_bug_dect_rust.Memory.PointsTo.{AliasId, LockGuardId, from_lock_guard}
use conc_bug_dect_rust.Translate.Construct.{
  PetriNet, Setup, first_kind, insert_locks, lock_place, create_resource_place, add_place, is_mutex,
  place_group, place_groups,
}
use conc_bug_dect_rust.Translate.Construct.Locks.{lock_place-resources}
use conc_bug_dect_rust.Translate.Net.{Call, PtPlace, place_added}
use conc_bug_dect_rust.Translate.Primitives.{LockGuardTy, alias_eq, guard_eq}
use conc_bug_dect_rust.Translate.Construct.Locks.Roots.{Groups}

-- The readers that a lock admits at once: one for a mutex, ten for the others.
pub capacity_of : LockGuardTy → ℕ
capacity_of LockGuardTy.std_mutex = 1
capacity_of LockGuardTy.parking_lot_mutex = 1
capacity_of LockGuardTy.spin_mutex = 1
capacity_of LockGuardTy.std_rw_lock_read = 10
capacity_of LockGuardTy.std_rw_lock_write = 10
capacity_of LockGuardTy.parking_lot_read = 10
capacity_of LockGuardTy.parking_lot_write = 10
capacity_of LockGuardTy.spin_read = 10
capacity_of LockGuardTy.spin_write = 10

-- The calls of a builder that went on from others.
pub data Later (old : List Call) : List Call → Type 0 where
  now : Later old old
  after : {new : List Call} (call : Call) → Later old new → Later old (call ∷ new)

pub Later-trans : {a b d : List Call} → Later a b → Later b d → Later a d
Later-trans p now = p
Later-trans p (after call q) = after call (Later-trans p q)

from_lock_guard-apart :
    (a b : LockGuardId) → (a == b) ≡ false → (from_lock_guard a == from_lock_guard b) ≡ false
from_lock_guard-apart a b ne = elim (Bool-cases (from_lock_guard a == from_lock_guard b)) [
  | inr e ↦ e
  | inl e ↦
      let at = eq_of_== (from_lock_guard a) (from_lock_guard b) e in
      let back : AliasId → LockGuardId =
        λ x. record { instance_id = x.instance_id; local = x.local; field = x.field } in
      let whole : a ≡ b = unfold from_lock_guard in ap back at in absurd (ground (arith, ne, whole))
]

module _ (o : Setup) (info : List (LockGuardId × LockGuardTy)) where
  insert_locks_untouched :
      (node : ℕ) (group : List LockGuardId) (locks : List (AliasId × ℕ)) (id : LockGuardId)
      → contains group id ≡ false
      → lookup (from_lock_guard id) (insert_locks o node group locks)
        ≡ lookup (from_lock_guard id) locks
  unfolding insert_locks
  insert_locks_untouched node [] locks id h = refl
  insert_locks_untouched node (lock ∷ group) locks id h =
      insert_locks_untouched node group (put (from_lock_guard lock) node locks) id (ground arith)
      ∙ rw
          (
            lookup-put (from_lock_guard lock) (from_lock_guard id) node locks,
            from_lock_guard-apart lock id (ground arith),
          )
          refl

  insert_locks_inserted :
      (node : ℕ) (group : List LockGuardId) (locks : List (AliasId × ℕ)) (id : LockGuardId)
      → contains group id ≡ true
      → lookup (from_lock_guard id) (insert_locks o node group locks) ≡ some node
  unfolding insert_locks
  insert_locks_inserted node [] locks id h = cc
  insert_locks_inserted node (lock ∷ group) locks id h = elim (Bool-cases (contains group id)) [
    | inl later ↦ insert_locks_inserted node group (put (from_lock_guard lock) node locks) id later
    | inr last ↦
        let at : lock ≡ id = eq_of_== lock id (ground arith) in
        insert_locks_untouched node group (put (from_lock_guard lock) node locks) id last
        ∙ ap (λ k. lookup (from_lock_guard k) (put (from_lock_guard lock) node locks)) (sym at)
        ∙ lookup-put_same (from_lock_guard lock) node locks
  ]

  module _ (m : List (LockGuardId × LockGuardId)) where
    place_group-resources :
        (ty : LockGuardTy) (n : ℕ) (group : List LockGuardId) (s : PetriNet) (id : LockGuardId)
        → contains group id ≡ false
        → lookup (from_lock_guard id) (place_group o ty n group s).resources.locks
          ≡ lookup (from_lock_guard id) s.resources.locks
    unfolding place_group
    place_group-resources ty n group s id out =
        insert_locks_untouched (lock_place o ty n s).1 group (lock_place o ty n s).0.resources.locks
          id out
        ∙ ap (λ r. lookup (from_lock_guard id) r.locks) (lock_place-resources o info ty n s)

    pub place_groups_untouched :
        (groups : Groups) (n : ℕ) (s : PetriNet) {s' : PetriNet} (id : LockGuardId)
        → Every (λ g. contains g.1 id ≡ false) groups
        → place_groups o info groups n s ≡ some s'
        → lookup (from_lock_guard id) s'.resources.locks
          ≡ lookup (from_lock_guard id) s.resources.locks
    unfolding place_groups
    place_groups_untouched [] n s id out e =
        ap (λ (t : PetriNet). lookup (from_lock_guard id) t.resources.locks)
          (sym (some-injective _ _ e))
    place_groups_untouched ((root, group) ∷ groups) n s id (cons out outs) e =
        let (ty, kind, rest) = >>=-eq-some (first_kind o info group) _ e in
        place_groups_untouched groups (n + 1) (place_group o ty n group s) id outs rest
        ∙ place_group-resources ty n group s id out

    -- The place that a group adds.
    pub record NewPlace (ty : LockGuardTy) (n : ℕ) (s : PetriNet) : Type 0 where
      pub place : PtPlace
      pub full : place.tokens ≡ capacity_of ty
      pub room : place.capacity ≡ some (capacity_of ty)
      pub built : (lock_place o ty n s).0.builder ≡ place_added place ∷ s.builder
      pub node : (lock_place o ty n s).1 ≡ o.ids.place_id s.builder

    pub new_place : (ty : LockGuardTy) (n : ℕ) (s : PetriNet) → NewPlace ty n s
    unfolding lock_place create_resource_place add_place is_mutex capacity_of
    new_place LockGuardTy.std_mutex n s = record {
      place = _;
      full = refl;
      room = refl;
      built = refl;
      node = refl;
    }
    new_place LockGuardTy.parking_lot_mutex n s = record {
      place = _;
      full = refl;
      room = refl;
      built = refl;
      node = refl;
    }
    new_place LockGuardTy.spin_mutex n s = record {
      place = _;
      full = refl;
      room = refl;
      built = refl;
      node = refl;
    }
    new_place LockGuardTy.std_rw_lock_read n s = record {
      place = _;
      full = refl;
      room = refl;
      built = refl;
      node = refl;
    }
    new_place LockGuardTy.std_rw_lock_write n s = record {
      place = _;
      full = refl;
      room = refl;
      built = refl;
      node = refl;
    }
    new_place LockGuardTy.parking_lot_read n s = record {
      place = _;
      full = refl;
      room = refl;
      built = refl;
      node = refl;
    }
    new_place LockGuardTy.parking_lot_write n s = record {
      place = _;
      full = refl;
      room = refl;
      built = refl;
      node = refl;
    }
    new_place LockGuardTy.spin_read n s = record {
      place = _;
      full = refl;
      room = refl;
      built = refl;
      node = refl;
    }
    new_place LockGuardTy.spin_write n s = record {
      place = _;
      full = refl;
      room = refl;
      built = refl;
      node = refl;
    }

    pub place_group-Later :
        (ty : LockGuardTy) (n : ℕ) (group : List LockGuardId) (s : PetriNet)
        → Later
            (place_added (new_place ty n s).place ∷ s.builder)
            (place_group o ty n group s).builder
    unfolding place_group
    place_group-Later ty n group s =
        subst (Later (place_added (new_place ty n s).place ∷ s.builder))
          (sym (new_place ty n s).built) now

    pub place_groups-Later :
        (groups : Groups) (n : ℕ) (s : PetriNet) {s' : PetriNet}
        → place_groups o info groups n s ≡ some s'
        → Later s.builder s'.builder
    unfolding place_groups
    place_groups-Later [] n s e = ap-Later (some-injective _ _ e)
      where
        ap-Later : {a b : PetriNet} → a ≡ b → Later a.builder b.builder
        ap-Later {a} at = subst (λ (t : PetriNet). Later a.builder t.builder) at now
    place_groups-Later ((root, group) ∷ groups) n s e =
        let (ty, kind, rest) = >>=-eq-some (first_kind o info group) _ e in
        Later-trans (Later-trans (after _ now) (place_group-Later ty n group s))
          (place_groups-Later groups (n + 1) (place_group o ty n group s) rest)

    pub place_group_inserted :
        (ty : LockGuardTy) (n : ℕ) (group : List LockGuardId) (s : PetriNet) (id : LockGuardId)
        → contains group id ≡ true
        → lookup (from_lock_guard id) (place_group o ty n group s).resources.locks
          ≡ some (lock_place o ty n s).1
    unfolding place_group
    place_group_inserted ty n group s id inside =
        insert_locks_inserted (lock_place o ty n s).1 group (lock_place o ty n s).0.resources.locks
          id inside

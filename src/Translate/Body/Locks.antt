-- ===== src/Translate/Body/Locks.antt =====
-- src/translate/mir_to_pn/calls.rs and drop_unsafe.rs: the acquisition of a lock by a call, and its
-- release by a drop.
pub mod Total
pub mod Balance
use conc_bug_dect_rust.Prelude.{
  Bool, List, Option, Text, [], codes, drop, false, if◌then◌else◌, list_eq, list_ord, lookup,
  nat_eq, nat_ord, none, pair_eq, pair_ord, some, true, ℕ, ◌>>=◌, ◌||◌, ◌∷◌,
}
use conc_bug_dect_rust.Memory.PointsTo.{LockGuardId, from_lock_guard, first_field}
use conc_bug_dect_rust.Translate.Body.{
  Context, BodyState, add_input_arc, add_output_arc, add_transition, last_of, set_transition_type,
  transition_name,
}
use conc_bug_dect_rust.Translate.Body.Blocks.{connect_to_target, is_back_edge}
use conc_bug_dect_rust.Translate.Mir.{BlockData, Operand, Place, operand_place}
use conc_bug_dect_rust.Translate.Net.{TransitionType}
use conc_bug_dect_rust.Translate.Primitives.{LockGuardTy, alias_eq, guard_eq}
use conc_bug_dect_rust.Translate.Registry.{rwlock_capacity}

unfoldable pub lockguard_id_for_dest : ℕ → Place → LockGuardId
lockguard_id_for_dest instance_id destination = record {
  instance_id = instance_id;
  local = destination.local;
  field = first_field destination.projection;
}

-- `LockGuardId::new`
unfoldable pub plain_guard : ℕ → ℕ → LockGuardId
plain_guard instance_id local = record { instance_id = instance_id; local = local; field = none }

-- What a call that acquires the lock becomes, and the tokens it takes.
pub acquisition : LockGuardTy → ℕ → TransitionType × ℕ
acquisition LockGuardTy.std_mutex node = (TransitionType.lock node, 1)
acquisition LockGuardTy.parking_lot_mutex node = (TransitionType.lock node, 1)
acquisition LockGuardTy.spin_mutex node = (TransitionType.lock node, 1)
acquisition LockGuardTy.std_rw_lock_read node = (TransitionType.rw_lock_read node, 1)
acquisition LockGuardTy.parking_lot_read node = (TransitionType.rw_lock_read node, 1)
acquisition LockGuardTy.spin_read node = (TransitionType.rw_lock_read node, 1)
acquisition _ node = (TransitionType.rw_lock_write node, rwlock_capacity)

-- The tokens that the `Drop` terminator gives back.
pub drop_weight : LockGuardTy → ℕ
drop_weight LockGuardTy.std_mutex = 1
drop_weight LockGuardTy.parking_lot_mutex = 1
drop_weight LockGuardTy.spin_mutex = 1
drop_weight LockGuardTy.std_rw_lock_read = 1
drop_weight LockGuardTy.parking_lot_read = 1
drop_weight LockGuardTy.spin_read = 1
drop_weight _ = 10

-- The tokens that a call of `drop` gives back.
pub drop_call_weight : LockGuardTy → ℕ
drop_call_weight LockGuardTy.std_mutex = 1
drop_call_weight LockGuardTy.parking_lot_mutex = 1
drop_call_weight LockGuardTy.spin_mutex = 1
drop_call_weight LockGuardTy.std_rw_lock_read = 1
drop_call_weight LockGuardTy.parking_lot_read = 1
drop_call_weight LockGuardTy.spin_read = 1
drop_call_weight _ = rwlock_capacity

module _ (c : Context) where
  unfoldable pub lock_node_for_guard : LockGuardId → Option ℕ
  lock_node_for_guard guard_id = lookup (from_lock_guard guard_id) c.resources.locks

  unfoldable pub is_guard : Option Place → Bool
  is_guard none = false
  is_guard (some p) = elim (lookup (plain_guard c.instance_id p.local) c.lockguards) [
    | none ↦ false
    | some _ ↦ true
  ]

  unfoldable pub arg_is_guard : List Operand → Bool
  unfolding is_guard
  arg_is_guard [] = false
  arg_is_guard (a ∷ args) = is_guard (operand_place a) || arg_is_guard args

  -- The guard of the destination with its lock, when both are known.
  unfoldable pub guarded_lock : LockGuardId → Option (LockGuardTy × ℕ)
  unfolding lock_node_for_guard
  guarded_lock guard_id = do
    guard ← lookup guard_id c.lockguards
    node ← lock_node_for_guard guard_id
    some (guard, node)

  acquire : ℕ → Option ℕ → LockGuardTy × ℕ → BodyState → Option (BodyState × Option TransitionType)
  unfolding acquisition
  acquire bb_end target (guard, node) s = do
    s' ← connect_to_target c bb_end target (add_input_arc node bb_end (acquisition guard node).1 s)
    some (s', some (acquisition guard node).0)

  -- A call that passes a guard on acquires nothing.
  pub handle_lock_call :
      List Operand → Place → Option ℕ → ℕ → BodyState → Option (BodyState × Option TransitionType)
  unfolding arg_is_guard lockguard_id_for_dest guarded_lock acquire
  handle_lock_call args destination target bb_end s =
      if arg_is_guard args
      then some (s, none)
      else elim (guarded_lock (lockguard_id_for_dest c.instance_id destination)) [
        | none ↦ some (s, none)
        | some found ↦ acquire bb_end target found s
      ]

  release : LockGuardTy → ℕ → ℕ → BodyState → BodyState
  unfolding drop_weight
  release guard node bb_end s =
      set_transition_type bb_end (TransitionType.unlock node)
        (add_output_arc node bb_end (drop_weight guard) s)

  -- A guard whose lock has no place panics.
  pub release_dropped : LockGuardId → ℕ → BodyState → Option BodyState
  unfolding release lock_node_for_guard
  release_dropped guard_id bb_end s = elim (lookup guard_id c.lockguards) [
    | none ↦ some s
    | some guard ↦ (lock_node_for_guard guard_id >>= λ node. some (release guard node bb_end s))
  ]

  pub handle_drop : ℕ → Place → ℕ → Text → BlockData → BodyState → Option BodyState
  unfolding release_dropped lockguard_id_for_dest
  handle_drop bb_idx place target name bb s = do
    let (s1, bb_end) =
        add_transition c (transition_name name bb_idx (codes "drop")) TransitionType.drop_ s
    last ← last_of bb_idx s1.bb_graph
    let s2 = add_input_arc last bb_end 1 s1
    s3 ←
        if bb.is_cleanup
        then some s2
        else release_dropped (lockguard_id_for_dest c.instance_id place) bb_end s2
    if is_back_edge c bb_idx target then some s3 else connect_to_target c bb_end (some target) s3

  -- The release in a call of `drop`, which looks for the guard under the argument's local alone.
  pub release_by_call : ℕ → ℕ → BodyState → BodyState
  unfolding guarded_lock drop_call_weight
  release_by_call local bb_end s = elim (guarded_lock (plain_guard c.instance_id local)) [
    | none ↦ s
    | some (guard, node) ↦
        set_transition_type bb_end (TransitionType.unlock node)
          (add_output_arc node bb_end (drop_call_weight guard) s)
  ]

-- ===== src/Translate/Body/Locks/Balance.antt =====
-- The tokens that the acquisition of a lock takes, and those that its release gives back.
use conc_bug_dect_rust.Prelude.{
  >>=-eq-some, List, Option, ap, arith, false, list_eq, list_ord, lookup, nat_eq, nat_ord, none,
  pair_eq, pair_ord, refl, some, ℕ, ◌+◌, ◌<◌, ◌∙◌, ◌≡◌,
}
use conc_bug_dect_rust.Memory.PointsTo.{LockGuardId, first_field}
use conc_bug_dect_rust.Translate.Body.{
  Context, BodyState, add_input_arc, add_output_arc, emit, set_transition_type,
}
use conc_bug_dect_rust.Translate.Body.Blocks.Total.{connect_to_target_net}
use conc_bug_dect_rust.Translate.Body.Frame.{Open, Ready}
use conc_bug_dect_rust.Translate.Body.Locks.{
  acquire, acquisition, arg_is_guard, drop_call_weight, drop_weight, guarded_lock, handle_lock_call,
  lock_node_for_guard, lockguard_id_for_dest, release, release_by_call, release_dropped,
  plain_guard,
}
use conc_bug_dect_rust.Translate.Mir.{Operand, Place}
use conc_bug_dect_rust.Translate.Net.{
  TransitionType, inputs, inputs-input_added, outputs, outputs-output_added, outputs-type_set,
  types_set, types_set-input_added,
}
use conc_bug_dect_rust.Translate.Primitives.{LockGuardTy, guard_eq}

drop_weight_lem : (guard : LockGuardTy) (node : ℕ) → (acquisition guard node).1 ≡ drop_weight guard
unfolding acquisition drop_weight
drop_weight_lem guard node = ground arith

drop_call_weight_lem : (guard : LockGuardTy) → drop_call_weight guard ≡ drop_weight guard
unfolding drop_call_weight drop_weight
drop_call_weight_lem guard = ground arith

positive : (guard : LockGuardTy) → 0 < drop_weight guard
unfolding drop_weight
positive guard = ground arith

-- A call that acquires the lock at `node` through the transition `bb_end`, with the weight `w`.
pub record Acquired (c : Context) (args : List Operand) (destination : Place) (target : Option ℕ)
    (bb_end node w : ℕ) (s : BodyState) : Type 0 where
  pub after : BodyState
  pub kind : TransitionType
  pub returned : handle_lock_call c args destination target bb_end s ≡ some (after, some kind)
  pub taken : inputs node bb_end after.net ≡ w + inputs node bb_end s.net
  pub untyped : types_set bb_end after.net ≡ types_set bb_end s.net

module _ (c : Context) where
  guarded :
      (id : LockGuardId) {guard : LockGuardTy} {node : ℕ}
      → guarded_lock c id ≡ some (guard, node)
      → (lookup id c.lockguards ≡ some guard) × (lock_node_for_guard c id ≡ some node)
  unfolding guarded_lock
  guarded id e =
      let (g, eg, rest) = >>=-eq-some (lookup id c.lockguards) _ e in
      let (n, en, last) = >>=-eq-some (lock_node_for_guard c id) _ rest in (cc, cc)

  pub acquire-Acquired :
      (args : List Operand) (destination : Place) (target : Option ℕ) (bb_end : ℕ) (s : BodyState)
      {guard : LockGuardTy} {node : ℕ}
      → Ready c s
      → ((t : ℕ) → target ≡ some t → Open c t)
      → arg_is_guard c args ≡ false
      → guarded_lock c (lockguard_id_for_dest c.instance_id destination) ≡ some (guard, node)
      → Acquired c args destination target bb_end node (drop_weight guard) s
  unfolding handle_lock_call acquire add_input_arc emit
  acquire-Acquired args destination target bb_end s {guard} {node} h opened fresh known =
      let w = (acquisition guard node).1 in
      let (net', e, kept, same) =
        connect_to_target_net c bb_end target (add_input_arc node bb_end w s) h opened in
      record {
        after = record s { net = net' };
        kind = (acquisition guard node).0;
        returned = rw (fresh, handle_lock_call, known, acquire, e) refl;
        taken =
            kept node bb_end
            ∙ inputs-input_added node bb_end w s.net
            ∙ ap (λ n. n + inputs node bb_end s.net) (drop_weight_lem guard node);
        untyped = same bb_end ∙ types_set-input_added bb_end node bb_end w s.net;
      }

  release_dropped_lem :
      (id : LockGuardId) (t : ℕ) (s : BodyState) {guard : LockGuardTy} {node : ℕ}
      → guarded_lock c id ≡ some (guard, node)
      → (s' : BodyState) × (release_dropped c id t s ≡ some s')
        × (outputs node t s'.net ≡ drop_weight guard + outputs node t s.net)
  unfolding release_dropped release set_transition_type add_output_arc emit
  release_dropped_lem id t s {guard} {node} known =
      let (e, e') = guarded id known in
      (
        release c guard node t s,
        rw (e, release_dropped, e') refl,
        outputs-type_set node t t (TransitionType.unlock node) _
            ∙ outputs-output_added node t (drop_weight guard) s.net,
      )

  -- A lock that a call acquires for a guard, the call not passing a guard on and with a translated
  -- target if any, is given back in full: some positive number of tokens goes from the lock's place
  -- into the call's transition, and as many go back to it from the transition of the terminator that
  -- drops the guard's place. The acquisition sets no type of its transition.
  pub handle_lock_call-balance :
      (args : List Operand) (destination : Place) (target : Option ℕ) (bb_end t : ℕ)
      (s r : BodyState) {guard : LockGuardTy} {node : ℕ}
      → Ready c s
      → ((u : ℕ) → target ≡ some u → Open c u)
      → arg_is_guard c args ≡ false
      → guarded_lock c (lockguard_id_for_dest c.instance_id destination) ≡ some (guard, node)
      → (w : ℕ) × (0 < w)
        × Acquired c args destination target bb_end node w s
        × ((r' : BodyState) × (release_dropped c
                (lockguard_id_for_dest c.instance_id destination)
                t
                r
              ≡ some r')
            × (outputs node t r'.net ≡ w + outputs node t r.net))
  handle_lock_call-balance args destination target bb_end t s r {guard} h opened fresh known = (
    drop_weight guard,
    positive guard,
    acquire-Acquired args destination target bb_end s h opened fresh known,
    release_dropped_lem (lockguard_id_for_dest c.instance_id destination) t r known,
  )

  -- Under the same conditions, and when the guard's place has no field, the tokens that the
  -- acquisition takes go back from the transition of a call of `drop` with the guard's local too.
  pub release_by_call-balance :
      (args : List Operand) (destination : Place) (target : Option ℕ) (bb_end t : ℕ)
      (s r : BodyState) {guard : LockGuardTy} {node : ℕ}
      → Ready c s
      → ((u : ℕ) → target ≡ some u → Open c u)
      → arg_is_guard c args ≡ false
      → guarded_lock c (lockguard_id_for_dest c.instance_id destination) ≡ some (guard, node)
      → first_field destination.projection ≡ none
      → (w : ℕ) × (0 < w)
        × Acquired c args destination target bb_end node w s
        × (outputs node t (release_by_call c destination.local t r).net ≡ w + outputs node t r.net)
  unfolding release_by_call set_transition_type add_output_arc emit lockguard_id_for_dest
      plain_guard
  release_by_call-balance args destination target bb_end t s r {guard} {node} h opened fresh known
        whole =
      let plain : guarded_lock c (plain_guard c.instance_id destination.local)
          ≡ some (guard, node) =
        rw (whole) at known in
      (
        drop_weight guard,
        positive guard,
        acquire-Acquired args destination target bb_end s h opened fresh known,
        rw (plain, release_by_call)
            (outputs-type_set node t t (TransitionType.unlock node) _
              ∙ outputs-output_added node t (drop_call_weight guard) r.net
              ∙ ap (λ n. n + outputs node t r.net) (drop_call_weight_lem guard)),
      )

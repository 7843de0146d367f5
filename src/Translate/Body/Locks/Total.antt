-- ===== src/Translate/Body/Locks/Total.antt =====
-- The handlers of locks return.
use conc_bug_dect_rust.Prelude.{
  List, Option, Option-cases, Text, if_intro, inl, inr, list_eq, list_ord, lookup, nat_eq, nat_ord,
  pair_eq, pair_ord, some, subst, ℕ, ◌>>=◌, ◌≡◌,
}
use conc_bug_dect_rust.Memory.PointsTo.{LockGuardId}
use conc_bug_dect_rust.Translate.Body.{
  Context, BodyState, add_input_arc, add_output_arc, add_transition, emit, set_transition_type,
}
use conc_bug_dect_rust.Translate.Body.Blocks.{is_back_edge}
use conc_bug_dect_rust.Translate.Body.Blocks.Total.{connect_to_target-Done}
use conc_bug_dect_rust.Translate.Body.Frame.{
  Done, Done-bind, DoneWith, Open, Ready, done, done_with,
}
use conc_bug_dect_rust.Translate.Body.Locks.{
  acquire, arg_is_guard, guarded_lock, handle_drop, handle_lock_call, lock_node_for_guard,
  lockguard_id_for_dest, release, release_by_call, release_dropped, plain_guard,
}
use conc_bug_dect_rust.Translate.Mir.{BlockData, Operand, Place}
use conc_bug_dect_rust.Translate.Primitives.{LockGuardTy, guard_eq}

-- Every guard's lock has its place.
abbrev pub LocksPlaced : Context → Type 0
LocksPlaced c =
    (id : LockGuardId) (guard : LockGuardTy)
    → lookup id c.lockguards ≡ some guard
    → (node : ℕ) × (lock_node_for_guard c id ≡ some node)

module _ (c : Context) where
  pub opened_some : (t : ℕ) → Open c t → (u : ℕ) → some t ≡ some u → Open c u
  opened_some t there u e = subst (Open c) (cc) there

  pub with_result-DoneWith :
      {A : Type 0} {o : Option BodyState} (a : A) → Done c o → DoneWith c (o >>= λ s. some (s, a))
  with_result-DoneWith a (done h) = done_with h

  acquire-DoneWith :
      (bb_end : ℕ) (target : Option ℕ) (found : LockGuardTy × ℕ) (s : BodyState)
      → Ready c s
      → ((t : ℕ) → target ≡ some t → Open c t)
      → DoneWith c (acquire c bb_end target found s)
  unfolding acquire add_input_arc emit
  acquire-DoneWith bb_end target (guard, node) s h opened =
      with_result-DoneWith _ (connect_to_target-Done c bb_end target _ h opened)

  pub handle_lock_call-DoneWith :
      (args : List Operand) (destination : Place) (target : Option ℕ) (bb_end : ℕ) (s : BodyState)
      → Ready c s
      → ((t : ℕ) → target ≡ some t → Open c t)
      → DoneWith c (handle_lock_call c args destination target bb_end s)
  unfolding handle_lock_call
  handle_lock_call-DoneWith args destination target bb_end s h opened =
      if_intro (DoneWith c) (arg_is_guard c args) (λ _. done_with h)
        (λ _.
          elim (Option-cases (guarded_lock c (lockguard_id_for_dest c.instance_id destination))) [
            | inl e ↦ rw (e) (done_with h)
            | inr (found, e) ↦ rw (e) (acquire-DoneWith bb_end target found s h opened)
          ])

  release_dropped-Done :
      (id : LockGuardId) (bb_end : ℕ) (s : BodyState)
      → LocksPlaced c
      → Ready c s
      → Done c (release_dropped c id bb_end s)
  unfolding release_dropped release set_transition_type add_output_arc emit
  release_dropped-Done id bb_end s placed h = elim (Option-cases (lookup id c.lockguards)) [
    | inl e ↦ rw (e, release_dropped) (done h)
    | inr (guard, e) ↦ let (node, e') = placed id guard e in rw (e, release_dropped, e') (done h)
  ]

  pub handle_drop-Done :
      (bb : ℕ) (place : Place) (t : ℕ) (name : Text) (block : BlockData) (s : BodyState)
      → LocksPlaced c
      → Ready c s
      → Open c bb
      → Open c t
      → Done c (handle_drop c bb place t name block s)
  unfolding handle_drop add_transition add_input_arc emit is_back_edge
  handle_drop-Done bb place t name block s placed h here there =
      let (l, e) = h.last bb here in
      rw (e, handle_drop)
        (Done-bind
          (if_intro (Done c) block.is_cleanup (λ _. done h)
            (λ _. release_dropped-Done _ _ _ placed h))
          (λ s' h'. connect_to_target-Done c _ (some t) s' h' (opened_some t there)))

  pub release_by_call-Ready :
      (local bb_end : ℕ) (s : BodyState) → Ready c s → Ready c (release_by_call c local bb_end s)
  unfolding release_by_call set_transition_type add_output_arc emit
  release_by_call-Ready local bb_end s h =
      elim (Option-cases (guarded_lock c (plain_guard c.instance_id local))) [
        | inl e ↦ rw (e, release_by_call) h
        | inr (found, e) ↦ rw (e, release_by_call) h
      ]

-- ===== src/Translate/Body/Threads/Total.antt =====
-- The handlers of threads return.
use conc_bug_dect_rust.Prelude.{
  Bool, List, List-cases, Option, Option-cases, Text, [], codes, contains, contains_text, false,
  get_elem?, if_intro, inl, inr, list_eq, list_ord, lookup, map, nat_eq, nat_ord, none, pair_eq,
  pair_ord, refl, some, true, ℕ, ◌||◌, ◌∷◌, ◌≡◌,
}
use conc_bug_dect_rust.Memory.PointsTo.{from_place}
use conc_bug_dect_rust.Translate.Body.{
  Context, BodyState, ThreadControlKind, add_input_arc, add_output_arc, emit, function_places,
  or_empty, set_transition_type,
}
use conc_bug_dect_rust.Translate.Body.Blocks.Total.{
  add_wait_ret_subnet-Ready, connect_to_target-Done, ensure_return_transition-Ready,
}
use conc_bug_dect_rust.Translate.Body.Frame.{Done, Done-bind, Open, Ready, done}
use conc_bug_dect_rust.Translate.Body.Threads.{
  add_inputs, closure_places, connect_join_from_recorded_order, copy_handle, fork_join, handle_join,
  handle_rayon_join, handle_scope_join, handle_scope_spawn, handle_spawn, has_key, join_by_alias,
  join_callees, join_known, join_or_alias, join_or_order, join_vector, push_handle, record_spawn,
  resolve_closure_places_at, resolve_vec_local, spawn_scoped, thread_call, through_ref,
  track_into_iter, track_joinhandle_container_call, track_joinhandle_dataflow, track_next,
  track_push, get_matching_spawn_callees, local_of,
}
use conc_bug_dect_rust.Translate.Net.{TransitionType}
use conc_bug_dect_rust.Translate.Mir.{Operand, Place, Rvalue, operand_place}

-- The first argument is a place.
pub record FirstPlace (args : List Operand) : Type 0 where
  pub arg : Operand
  pub place : Place
  pub found : get_elem? args 0 ≡ some arg
  pub is_place : operand_place arg ≡ some place

abbrev pub HasLocal : Option Operand → Type 0
HasLocal o = (local : ℕ) × (local_of o ≡ some local)

pub FirstPlace-local : {args : List Operand} → FirstPlace args → HasLocal (get_elem? args 0)
unfolding local_of
FirstPlace-local f = (f.place.local, rw (f.found, local_of, f.is_place) refl)

module _ (c : Context) where
  pub track_joinhandle_dataflow-Ready :
      (dest : ℕ) (rvalue : Rvalue) (s : BodyState)
      → Ready c s
      → Ready c (track_joinhandle_dataflow dest rvalue s)
  unfolding track_joinhandle_dataflow copy_handle
  track_joinhandle_dataflow-Ready dest (Rvalue.ref place) s h = h
  track_joinhandle_dataflow-Ready dest (Rvalue.use_ (Operand.move place)) s h = h
  track_joinhandle_dataflow-Ready dest (Rvalue.use_ (Operand.copy place)) s h = h
  track_joinhandle_dataflow-Ready dest (Rvalue.use_ (Operand.constant _)) s h = h
  track_joinhandle_dataflow-Ready dest (Rvalue.repeat _) s h = h
  track_joinhandle_dataflow-Ready dest (Rvalue.cast _) s h = h
  track_joinhandle_dataflow-Ready dest (Rvalue.unary_op _) s h = h
  track_joinhandle_dataflow-Ready dest (Rvalue.binary_op _ _) s h = h
  track_joinhandle_dataflow-Ready dest (Rvalue.raw_ptr _) s h = h
  track_joinhandle_dataflow-Ready dest (Rvalue.discriminant _) s h = h
  track_joinhandle_dataflow-Ready dest (Rvalue.copy_for_deref _) s h = h
  track_joinhandle_dataflow-Ready dest (Rvalue.aggregate _) s h = h
  track_joinhandle_dataflow-Ready dest Rvalue.other_rvalue s h = h

  push_handle-Ready :
      (vec_local vec_root handle_local : ℕ) (s : BodyState)
      → Ready c s
      → Ready c (push_handle c vec_local vec_root handle_local s)
  unfolding push_handle
  push_handle-Ready vec_local vec_root handle_local s h =
      elim (Option-cases (lookup handle_local s.spawn_handle_end)) [
        | inl e ↦ rw (e, push_handle) h
        | inr (spawn_end, e) ↦ rw (e, push_handle) h
      ]

  push_known-Ready :
      (vec_local vec_root : ℕ) (handle : Option ℕ) (s : BodyState)
      → Ready c s
      → Ready c (elim handle [
        | none ↦ s
        | some handle_local ↦ push_handle c vec_local vec_root handle_local s
      ])
  push_known-Ready vec_local vec_root none s h = h
  push_known-Ready vec_local vec_root (some handle) s h =
      push_handle-Ready vec_local vec_root handle s h

  track_push-Ready :
      (first handle : Option ℕ) (s : BodyState) → Ready c s → Ready c (track_push c first handle s)
  unfolding track_push
  track_push-Ready none handle s h = h
  track_push-Ready (some v) handle s h =
      let vec_local = through_ref v s in
      let vec_root = resolve_vec_local vec_local s in
      if_intro (Ready c) (contains c.joinhandle_vec_locals vec_root)
        (λ _. push_known-Ready vec_local vec_root handle s h) (λ _. h)

  track_into_iter-Ready :
      (first : Option ℕ) (destination : ℕ) (s : BodyState)
      → Ready c s
      → Ready c (track_into_iter c first destination s)
  unfolding track_into_iter
  track_into_iter-Ready none destination s h = h
  track_into_iter-Ready (some v) destination s h =
      let vec_local = resolve_vec_local v s in
      if_intro (Ready c)
        (contains c.joinhandle_vec_locals vec_local || has_key vec_local s.vec_spawn_ends) (λ _. h)
        (λ _. h)

  track_next-Ready :
      (first : Option ℕ) (destination : ℕ) (s : BodyState)
      → Ready c s
      → Ready c (track_next c first destination s)
  unfolding track_next
  track_next-Ready none destination s h = h
  track_next-Ready (some v) destination s h =
      elim (Option-cases (lookup (through_ref v s) s.iter_vec_source)) [
        | inl e ↦ rw (e, track_next) h
        | inr (vec_local, e) ↦ rw (e, track_next) h
      ]

  pub track_joinhandle_container_call-Ready :
      (name : Text) (args : List Operand) (destination : ℕ) (s : BodyState)
      → Ready c s
      → Ready c (track_joinhandle_container_call c name args destination s)
  unfolding track_joinhandle_container_call
  track_joinhandle_container_call-Ready name args destination s h =
      if_intro (Ready c) (contains_text name (codes "::push")) (λ _. track_push-Ready _ _ s h)
        (λ _.
          if_intro (Ready c) (contains_text name (codes "into_iter"))
            (λ _. track_into_iter-Ready _ destination s h)
            (λ _.
              if_intro (Ready c) (contains_text name (codes "::next"))
                (λ _. track_next-Ready _ destination s h) (λ _. h)))

  add_inputs-Ready :
      (ends : List ℕ) (bb_end : ℕ) (s : BodyState) → Ready c s → Ready c (add_inputs ends bb_end s)
  unfolding add_inputs add_input_arc emit
  add_inputs-Ready [] bb_end s h = h
  add_inputs-Ready (e ∷ ends) bb_end s h = add_inputs-Ready ends bb_end _ h

  join_vector-Ready :
      (v bb_end : ℕ) (s : BodyState) → Ready c s → Ready c (join_vector v bb_end s).0
  unfolding join_vector
  join_vector-Ready v bb_end s h =
      add_inputs-Ready (or_empty (lookup v s.vec_spawn_ends)) bb_end _ h

  join_known-Ready :
      (handle : Option ℕ) (bb_end : ℕ) (s : BodyState)
      → Ready c s
      → Ready c (join_known c handle bb_end s).0
  unfolding join_known add_input_arc emit
  join_known-Ready none bb_end s h = h
  join_known-Ready (some handle) bb_end s h =
      elim (Option-cases (lookup handle s.handle_vec_source)) [
        | inr (v, e) ↦ rw (e, join_known) (join_vector-Ready v bb_end s h)
        | inl e ↦ elim (Option-cases (lookup handle s.option_vec_source)) [
          | inr (v, e') ↦ rw (e, join_known, e') (join_vector-Ready v bb_end _ h)
          | inl e' ↦ elim (Option-cases (lookup handle s.spawn_handle_end)) [
            | inr (spawn_end, e'') ↦ rw (e, join_known, e', e'') h
            | inl e'' ↦ rw (e, join_known, e', e'') h
          ]
        ]
      ]

  connect_join_from_recorded_order-Ready :
      (bb_end : ℕ) (s : BodyState)
      → Ready c s
      → Ready c (connect_join_from_recorded_order bb_end s).0
  unfolding connect_join_from_recorded_order add_input_arc emit
  connect_join_from_recorded_order-Ready bb_end s h = elim (List-cases s.ordered_spawn_ends) [
    | inl e ↦ rw (e, connect_join_from_recorded_order) h
    | inr (x, xs, e) ↦ rw (e, connect_join_from_recorded_order) h
  ]

  join_or_order-Ready :
      (bb_end : ℕ) (r : BodyState × Bool) → Ready c r.0 → Ready c (join_or_order c bb_end r).0
  unfolding join_or_order
  join_or_order-Ready bb_end (s, true) h = h
  join_or_order-Ready bb_end (s, false) h = connect_join_from_recorded_order-Ready bb_end s h

  join_callees-Ready :
      (callees : List ℕ) (bb_end : ℕ) (s : BodyState)
      → Ready c s
      → Ready c (join_callees c callees bb_end s)
  unfolding join_callees add_input_arc emit
  join_callees-Ready [] bb_end s h = h
  join_callees-Ready (d ∷ callees) bb_end s h = elim (Option-cases (function_places c d)) [
    | inl e ↦ rw (e, join_callees) (join_callees-Ready callees bb_end s h)
    | inr (places, e) ↦ rw (e, join_callees) (join_callees-Ready callees bb_end _ h)
  ]

  join_by_alias-Done :
      (args : List Operand) (bb_end : ℕ) (s : BodyState)
      → Ready c s
      → FirstPlace args
      → Done c (join_by_alias c args bb_end s)
  unfolding join_by_alias
  join_by_alias-Done args bb_end s h f =
      let id = from_place c.instance_id f.place.local f.place.projection in
      let callees = get_matching_spawn_callees c id in
      rw (f.found, join_by_alias, f.is_place)
        (done {s = join_callees c callees bb_end s} (join_callees-Ready callees bb_end s h))

  join_or_alias-Done :
      (args : List Operand) (bb_end : ℕ) (r : BodyState × Bool)
      → Ready c r.0
      → FirstPlace args
      → Done c (join_or_alias c args bb_end r)
  unfolding join_or_alias
  join_or_alias-Done args bb_end (s, true) h f = done h
  join_or_alias-Done args bb_end (s, false) h f = join_by_alias-Done args bb_end s h f

  module _ (name : Text) (args : List Operand) (target : Option ℕ)
      (opened : (t : ℕ) → target ≡ some t → Open c t) where
    pub handle_join-Done :
        (bb_end : ℕ) (s : BodyState)
        → Ready c s
        → FirstPlace args
        → Done c (handle_join c name args target bb_end s)
    unfolding handle_join set_transition_type emit
    handle_join-Done bb_end s h f =
        let s1 = set_transition_type bb_end (TransitionType.join name) s in
        let handle = local_of (get_elem? args 0) in
        let r = join_known c handle bb_end s1 in
        Done-bind
          (join_or_alias-Done args bb_end (join_or_order c bb_end r)
            (join_or_order-Ready bb_end r (join_known-Ready handle bb_end s1 h)) f)
          (λ s' h'. connect_to_target-Done c bb_end target s' h' opened)

    pub handle_scope_join-Done :
        (bb_end : ℕ) (s : BodyState)
        → Ready c s
        → FirstPlace args
        → Done c (handle_scope_join c name args target bb_end s)
    unfolding handle_scope_join set_transition_type emit
    handle_scope_join-Done bb_end s h f =
        Done-bind (join_by_alias-Done args bb_end _ h f)
          (λ s' h'. connect_to_target-Done c bb_end target s' h' opened)

    spawn_scoped-Ready :
        (o : Option (ℕ × ℕ)) (bb_end : ℕ) (s : BodyState)
        → Ready c s
        → Ready c (spawn_scoped c o bb_end s)
    unfolding spawn_scoped add_input_arc add_output_arc emit
    spawn_scoped-Ready none bb_end s h = h
    spawn_scoped-Ready (some p) bb_end s h = h

    pub handle_scope_spawn-Done :
        (bb bb_end : ℕ) (s : BodyState)
        → Ready c s
        → Done c (handle_scope_spawn c name bb args target bb_end s)
    unfolding handle_scope_spawn
    handle_scope_spawn-Done bb bb_end s h =
        connect_to_target-Done c bb_end target _
          (spawn_scoped-Ready (resolve_closure_places_at c args 1) bb_end _
            (ensure_return_transition-Ready c _ _ s h))
          opened

    fork_join-Ready :
        (closures : List (Option (ℕ × ℕ))) (bb_end bb_join : ℕ) (s : BodyState)
        → Ready c s
        → Ready c (fork_join c closures bb_end bb_join s)
    unfolding fork_join add_input_arc add_output_arc emit
    fork_join-Ready [] bb_end bb_join s h = h
    fork_join-Ready (none ∷ closures) bb_end bb_join s h =
        fork_join-Ready closures bb_end bb_join s h
    fork_join-Ready (some p ∷ closures) bb_end bb_join s h =
        fork_join-Ready closures bb_end bb_join _ h

    pub handle_rayon_join-Done :
        (bb bb_end : ℕ) (span : Text) (s : BodyState)
        → Ready c s
        → Done c (handle_rayon_join c name bb args target bb_end span s)
    unfolding handle_rayon_join
    handle_rayon_join-Done bb bb_end span s h =
        Done-bind
          (connect_to_target-Done c _ target _
            (add_wait_ret_subnet-Ready c name bb _ _ _ span bb_end s h) opened)
          (λ s' h'. done (fork_join-Ready (map (closure_places c) args) bb_end _ s' h'))

    record_spawn-Ready :
        (o : Option (ℕ × ℕ)) (destination bb_end : ℕ) (s : BodyState)
        → Ready c s
        → Ready c (record_spawn c o destination bb_end s)
    unfolding record_spawn add_output_arc emit
    record_spawn-Ready none destination bb_end s h = h
    record_spawn-Ready (some p) destination bb_end s h = h

    pub handle_spawn-Done :
        (destination bb_end : ℕ) (s : BodyState)
        → Ready c s
        → Done c (handle_spawn c name args destination target bb_end s)
    unfolding handle_spawn set_transition_type emit
    handle_spawn-Done destination bb_end s h =
        connect_to_target-Done c bb_end target _
          (record_spawn-Ready (resolve_closure_places_at c args 0) destination bb_end s h) opened

    pub thread_call-Done :
        (kind : ThreadControlKind) (destination bb bb_end : ℕ) (span : Text) (s : BodyState)
        → Ready c s
        → FirstPlace args
        → Done c (thread_call c kind name args destination target bb_end bb span s)
    unfolding thread_call
    thread_call-Done ThreadControlKind.spawn destination bb bb_end span s h f =
        handle_spawn-Done destination bb_end s h
    thread_call-Done ThreadControlKind.scope_spawn destination bb bb_end span s h f =
        handle_scope_spawn-Done bb bb_end s h
    thread_call-Done ThreadControlKind.join destination bb bb_end span s h f =
        handle_join-Done bb_end s h f
    thread_call-Done ThreadControlKind.scope_join destination bb bb_end span s h f =
        handle_scope_join-Done bb_end s h f
    thread_call-Done ThreadControlKind.rayon_join destination bb bb_end span s h f =
        handle_rayon_join-Done bb bb_end span s h
    thread_call-Done ThreadControlKind.async_spawn destination bb bb_end span s h f =
        handle_spawn-Done destination bb_end s h
    thread_call-Done ThreadControlKind.async_join destination bb bb_end span s h f =
        handle_join-Done bb_end s h f

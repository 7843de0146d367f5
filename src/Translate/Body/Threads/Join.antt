-- ===== src/Translate/Body/Threads/Join.antt =====
-- A thread that is spawned and then joined through its handle.
use conc_bug_dect_rust.Prelude.{
  List, Option, Text, [], ap, get_elem?, list_eq, list_ord, lookup, lookup-put_same, nat_eq,
  nat_ord, none, pair_eq, pair_ord, refl, some, true, ℕ, ◌++◌, ◌+◌, ◌∙◌, ◌∷◌, ◌≡◌,
}
use conc_bug_dect_rust.Translate.Body.{
  BodyState, Context, add_input_arc, add_output_arc, emit, set_transition_type,
}
use conc_bug_dect_rust.Translate.Body.Blocks.Total.{connect_to_target_net}
use conc_bug_dect_rust.Translate.Body.Frame.{Open, Ready}
use conc_bug_dect_rust.Translate.Body.Threads.{
  handle_join, handle_spawn, join_known, join_or_alias, join_or_order, local_of, record_spawn,
  resolve_closure_places_at,
}
use conc_bug_dect_rust.Translate.Mir.{Operand}
use conc_bug_dect_rust.Translate.Net.{
  Call, TransitionType, inputs, inputs-input_added, inputs-type_set,
}

module _ (c : Context) where
  join_known_lem :
      (u d : ℕ) (s : BodyState) {closure_end : ℕ}
      → lookup d s.handle_vec_source ≡ none
      → lookup d s.option_vec_source ≡ none
      → lookup d s.spawn_handle_end ≡ some closure_end
      → join_known c (some d) u s ≡ (add_input_arc closure_end u 1 s, true)
  unfolding join_known
  join_known_lem u d s no_vec no_opt known = rw (no_vec, join_known, no_opt, known) refl

  -- A join through a known handle.
  handle_join_known :
      (name : Text) (args : List Operand) (target : Option ℕ) (bb_end : ℕ) (s : BodyState)
      {d closure_end : ℕ}
      → Ready c s
      → ((t : ℕ) → target ≡ some t → Open c t)
      → local_of (get_elem? args 0) ≡ some d
      → lookup d s.handle_vec_source ≡ none
      → lookup d s.option_vec_source ≡ none
      → lookup d s.spawn_handle_end ≡ some closure_end
      → (net' : List Call) × (handle_join c name args target bb_end s
          ≡ some (record s { net = net' }))
        × (inputs closure_end bb_end net' ≡ 1 + inputs closure_end bb_end s.net)
  unfolding handle_join join_or_order join_or_alias set_transition_type add_input_arc emit
  handle_join_known name args target bb_end s {d} {closure_end} h opened first no_vec no_opt known =
      let s0 = set_transition_type bb_end (TransitionType.join name) s in
      let s1 = add_input_arc closure_end bb_end 1 s0 in
      let (net', e, kept, _) = connect_to_target_net c bb_end target s1 h opened in
      (
        net',
        rw (first, handle_join, join_known_lem bb_end d s0 no_vec no_opt known) e,
        kept closure_end bb_end
            ∙ inputs-input_added closure_end bb_end 1 _
            ∙ ap (λ n. 1 + n)
                (inputs-type_set closure_end bb_end bb_end (TransitionType.join name) s.net),
      )

  -- A thread is spawned by the transition `t`, with a known closure as first argument and its handle
  -- stored in the local `d`, and then joined by the transition `u` with `d` as the first argument,
  -- where `d` is not known to come from a vector and the targets are translated: the join takes a
  -- token from the place where the closure ends. The place stays at the end of the queue of
  -- threads to join, although its thread is joined.
  pub handle_spawn-join :
      (name : Text) (args : List Operand) (target : Option ℕ) (d t : ℕ) (name' : Text)
      (args' : List Operand) (target' : Option ℕ) (u : ℕ) (s : BodyState)
      {closure_start closure_end : ℕ}
      → Ready c s
      → ((b : ℕ) → target ≡ some b → Open c b)
      → ((b : ℕ) → target' ≡ some b → Open c b)
      → resolve_closure_places_at c args 0 ≡ some (closure_start, closure_end)
      → local_of (get_elem? args' 0) ≡ some d
      → lookup d s.handle_vec_source ≡ none
      → lookup d s.option_vec_source ≡ none
      → (s1 s2 : BodyState) × (handle_spawn c name args d target t s ≡ some s1)
        × (handle_join c name' args' target' u s1 ≡ some s2)
        × (inputs closure_end u s2.net ≡ 1 + inputs closure_end u s1.net)
        × (s2.ordered_spawn_ends ≡ s.ordered_spawn_ends ++ closure_end ∷ [])
  unfolding handle_spawn record_spawn set_transition_type add_output_arc emit
  handle_spawn-join name args target d t name' args' target' u s {closure_start} {closure_end} h
        opened opened' closure first no_vec no_opt =
      let s0 =
        set_transition_type t (TransitionType.spawn name)
          (record_spawn c (some (closure_start, closure_end)) d t s) in
      let (net1, e, kept, _) = connect_to_target_net c t target s0 h opened in
      let s1 : BodyState = record s0 { net = net1 } in
      let (net2, e', taken) =
        handle_join_known name' args' target' u s1 h opened' first no_vec no_opt
          (lookup-put_same d closure_end s.spawn_handle_end) in
      (s1, record s1 { net = net2 }, rw (closure, handle_spawn) e, e', taken, refl)

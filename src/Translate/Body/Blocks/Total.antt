-- ===== src/Translate/Body/Blocks/Total.antt =====
-- The handlers of src/translate/mir_to_pn/terminator.rs return.
use conc_bug_dect_rust.Prelude.{
  List, Option, Text, contains, false, if_intro, inl, inr, list_eq, list_ord, nat_eq, nat_ord, none,
  pair_eq, pair_ord, refl, some, ℕ, ◌==◌, ◌∷◌, ◌≡◌,
}
use conc_bug_dect_rust.Translate.Body.{
  Context, BodyState, add_input_arc, add_output_arc, add_place, add_transition, bb_place, emit,
  function_places,
}
use conc_bug_dect_rust.Translate.Body.Blocks.{
  add_fallthrough_transition, add_terminal_transition, add_wait_ret_subnet, arcs_through,
  connect_to_target, create_call_transition, ensure_return_transition, handle_fallthrough,
  handle_goto, handle_panic, handle_start_block, is_back_edge, start_arc, handle_terminal_block,
  handle_unwind_continue, handle_assert,
}
use conc_bug_dect_rust.Translate.Body.Frame.{
  Done, DoneWith, Known, Known-Open, Open, Ready, done, done_with,
}
use conc_bug_dect_rust.Translate.Net.{
  Call, TransitionType, inputs, inputs-output_added, types_set, types_set-output_added,
}

module _ (c : Context) where
  pub arcs_through-Done :
      (bb place t : ℕ) (s : BodyState)
      → Ready c s
      → Open c bb
      → Done c (arcs_through c bb place t s)
  unfolding arcs_through add_output_arc add_input_arc emit
  arcs_through-Done bb place t s h here =
      let (l, e) = h.last bb here in rw (e, arcs_through) (done h)

  pub add_fallthrough_transition-Done :
      (bb : ℕ) (name kind : Text) (ty : TransitionType) (t : ℕ) (s : BodyState)
      → Ready c s
      → Open c bb
      → Open c t
      → Done c (add_fallthrough_transition c bb name kind ty t s)
  unfolding add_fallthrough_transition add_transition emit
  add_fallthrough_transition-Done bb name kind ty t s h here there =
      let (p, e) = h.first t there in
      rw (e, add_fallthrough_transition) (arcs_through-Done bb p _ _ h here)

  pub add_terminal_transition-Done :
      (bb : ℕ) (name kind : Text) (ty : TransitionType) (s : BodyState)
      → Ready c s
      → Open c bb
      → Done c (add_terminal_transition c bb name kind ty s)
  unfolding add_terminal_transition add_transition emit
  add_terminal_transition-Done bb name kind ty s h here = arcs_through-Done bb _ _ _ h here

  pub handle_terminal_block-Done :
      (bb : ℕ) (name kind : Text) (s : BodyState)
      → Ready c s
      → Open c bb
      → Done c (handle_terminal_block c bb name kind s)
  unfolding handle_terminal_block
  handle_terminal_block-Done bb name kind s h here =
      add_terminal_transition-Done bb name kind _ s h here

  pub handle_unwind_continue-Done :
      (bb : ℕ) (name : Text) (s : BodyState)
      → Ready c s
      → Open c bb
      → Done c (handle_unwind_continue c bb name s)
  unfolding handle_unwind_continue
  handle_unwind_continue-Done bb name s h here = add_terminal_transition-Done bb name _ _ s h here

  pub handle_panic-Done :
      (bb : ℕ) (name : Text) (s : BodyState)
      → Ready c s
      → Open c bb
      → Done c (handle_panic c bb name s)
  unfolding handle_panic
  handle_panic-Done bb name s h here = add_terminal_transition-Done bb name _ _ s h here

  pub handle_assert-Done :
      (bb t : ℕ) (name : Text) (s : BodyState)
      → Ready c s
      → Open c bb
      → Open c t
      → Done c (handle_assert c bb t name s)
  unfolding handle_assert is_back_edge
  handle_assert-Done bb t name s h here there =
      add_fallthrough_transition-Done bb name _ _ t s h here there

  start_arc-Ready :
      (o : Option (ℕ × ℕ)) (t : ℕ) (s : BodyState) → Ready c s → Ready c (start_arc c o t s)
  unfolding start_arc add_input_arc emit
  start_arc-Ready none t s h = h
  start_arc-Ready (some (p, q)) t s h = h

  pub handle_start_block-Done :
      (name : Text) (bb def_id : ℕ) (s : BodyState)
      → Ready c s
      → Open c bb
      → Done c (handle_start_block c name bb def_id s)
  unfolding handle_start_block add_transition add_output_arc emit
  handle_start_block-Done name bb def_id s h here =
      let (p, e) = h.first bb here in
      rw (e, handle_start_block) (done (start_arc-Ready (function_places c def_id) _ _ h))

  pub handle_fallthrough-Done :
      (bb t : ℕ) (name kind : Text) (s : BodyState)
      → Ready c s
      → Open c bb
      → Known c t
      → Done c (handle_fallthrough c bb t name kind s)
  unfolding handle_fallthrough is_back_edge
  handle_fallthrough-Done bb t name kind s h here there = elim (Known-Open s h there) [
    | inl e ↦ rw (e, handle_fallthrough) (done h)
    | inr opened ↦
        if_intro (Done c) (contains s.exclude_bb t) (λ _. done h)
          (λ _. add_fallthrough_transition-Done bb name kind _ t s h here opened)
  ]

  pub handle_goto-Done :
      (bb t : ℕ) (name : Text) (s : BodyState)
      → Ready c s
      → Open c bb
      → (k : Known c t) → (k.block.is_cleanup ≡ false → Open c t)
      → Done c (handle_goto c bb t name s)
  unfolding handle_goto is_back_edge
  handle_goto-Done bb t name s h here k opened =
      rw (k.found, handle_goto)
        (if_intro (Done c) k.block.is_cleanup (λ _. handle_panic-Done bb name s h here)
          (λ e. add_fallthrough_transition-Done bb name _ _ t s h here (opened e)))

  pub connect_to_target-Done :
      (bb_end : ℕ) (target : Option ℕ) (s : BodyState)
      → Ready c s
      → ((t : ℕ) → target ≡ some t → Open c t)
      → Done c (connect_to_target c bb_end target s)
  unfolding connect_to_target add_output_arc emit
  connect_to_target-Done bb_end none s h opened = done h
  connect_to_target-Done bb_end (some t) s h opened =
      let (p, e) = h.first t (opened t refl) in rw (e, connect_to_target) (done h)

  -- Connecting changes the net alone, by an arc out of the transition.
  pub connect_to_target_net :
      (bb_end : ℕ) (target : Option ℕ) (s : BodyState)
      → Ready c s
      → ((t : ℕ) → target ≡ some t → Open c t)
      → (net' : List Call) × (connect_to_target c bb_end target s ≡ some (record s { net = net' }))
        × ((p u : ℕ) → inputs p u net' ≡ inputs p u s.net)
        × ((u : ℕ) → types_set u net' ≡ types_set u s.net)
  unfolding connect_to_target add_output_arc emit
  connect_to_target_net bb_end none s h opened = (s.net, refl, λ p u. refl, λ u. refl)
  connect_to_target_net bb_end (some t) s h opened =
      let (q, e) = h.first t (opened t refl) in
      (
        Call.output_added q bb_end 1 ∷ s.net,
        rw (e, connect_to_target) refl,
        λ p u. inputs-output_added p u q bb_end 1 s.net,
        λ u. types_set-output_added u q bb_end 1 s.net,
      )

  pub create_call_transition-DoneWith :
      (bb : ℕ) (name : Text) (s : BodyState)
      → Ready c s
      → Open c bb
      → DoneWith c (create_call_transition c bb name s)
  unfolding create_call_transition add_transition add_input_arc emit
  create_call_transition-DoneWith bb name s h here =
      let (l, e) = h.last bb here in rw (e, create_call_transition) (done_with h)

  pub add_wait_ret_subnet-Ready :
      (name : Text) (bb : ℕ) (kind kind' : Text) (ty : TransitionType) (span : Text) (bb_end : ℕ)
      (s : BodyState)
      → Ready c s
      → Ready c (add_wait_ret_subnet c name bb kind kind' ty span bb_end s).0
  unfolding add_wait_ret_subnet bb_place add_place add_transition add_input_arc add_output_arc emit
  add_wait_ret_subnet-Ready name bb kind kind' ty span bb_end s h = h

  pub ensure_return_transition-Ready :
      (name : Text) (ty : TransitionType) (s : BodyState)
      → Ready c s
      → Ready c (ensure_return_transition c name ty s)
  unfolding ensure_return_transition add_transition emit
  ensure_return_transition-Ready name ty s h =
      if_intro (Ready c) (s.return_transition == 0) (λ _. h) (λ _. h)

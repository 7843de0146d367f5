-- ===== src/Translate/Body/Calls/Dispatch.antt =====
-- The translation of a call terminator returns.
use conc_bug_dect_rust.Prelude.{
  Bool, List, Option, Option-cases, Text, codes, contains_text, false, if_intro, inl, inr, list_eq,
  list_ord, nat_eq, nat_ord, none, pair_eq, pair_ord, some, true, ℕ, ◌≡◌,
}
use conc_bug_dect_rust.Translate.Body.{
  Context, BodyState, add_input_arc, add_output_arc, emit, function_places,
}
use conc_bug_dect_rust.Translate.Body.Blocks.Total.{
  handle_panic-Done, handle_unwind_continue-Done, add_wait_ret_subnet-Ready, connect_to_target-Done,
  create_call_transition-DoneWith,
}
use conc_bug_dect_rust.Translate.Body.Calls.{
  call_callee, call_function, dispatch, finish_call, first_closure, handle_call, handle_normal_call,
  make_call, took_lock,
}
use conc_bug_dect_rust.Translate.Body.Calls.Total.{
  CallFits, or_next-DoneWith, handle_condvar_call-DoneWith, handle_drop_call-DoneWith,
  handle_channel_call-DoneWith, handle_thread_call-DoneWith, handle_atomic_call-DoneWith,
}
use conc_bug_dect_rust.Translate.Body.Frame.{Done, DoneWith-bind, Known, Open, Ready, done}
use conc_bug_dect_rust.Translate.Body.Locks.Total.{handle_lock_call-DoneWith, opened_some}
use conc_bug_dect_rust.Translate.Body.Threads.Total.{track_joinhandle_container_call-Ready}
use conc_bug_dect_rust.Translate.Mir.{Callee, Operand, Place}
use conc_bug_dect_rust.Translate.Net.{TransitionType}

-- What is called is a function, whose arguments are as its handler expects them.
pub data CalleeFits (c : Context) (args : List Operand) : Callee → Type 0 where
  fn_ptr_fits : CalleeFits c args Callee.fn_ptr
  fn_def_fits : {id : ℕ} → CallFits c id args → CalleeFits c args (Callee.fn_def id)
  closure_fits : {id : ℕ} → CallFits c id args → CalleeFits c args (Callee.closure id)

-- Where a call goes on: it has no target, or its target is for cleanup or translated.
pub data TargetFits (c : Context) : Option ℕ → Type 0 where
  no_target : TargetFits c none
  target_fits :
      {t : ℕ} (k : Known c t) → (k.block.is_cleanup ≡ false → Open c t) → TargetFits c (some t)

module _ (c : Context) where
  took_lock-Ready :
      (s : BodyState) (o : Option TransitionType) → Ready c s → Ready c (took_lock c (s, o)).0
  unfolding took_lock
  took_lock-Ready s none h = h
  took_lock-Ready s (some _) h = h

  call_function-Done :
      (name : Text) (bb : ℕ) (span : Text) (target : Option ℕ) (bb_end : ℕ) (places : ℕ × ℕ)
      (s : BodyState)
      → Ready c s
      → ((t : ℕ) → target ≡ some t → Open c t)
      → Done c (call_function c name bb span target bb_end places s)
  unfolding call_function add_input_arc add_output_arc emit
  call_function-Done name bb span none bb_end (start, end) s h opened =
      done (add_wait_ret_subnet-Ready c name bb _ _ _ span bb_end s h)
  call_function-Done name bb span (some t) bb_end (start, end) s h opened =
      connect_to_target-Done c _ (some t) _
        (add_wait_ret_subnet-Ready c name bb (codes "wait") (codes "return") TransitionType.function
          span bb_end s h)
        opened

  module _ (args : List Operand) (target : Option ℕ)
      (opened : (t : ℕ) → target ≡ some t → Open c t) where
    handle_normal_call-Done :
        (bb_end : ℕ) (name : Text) (bb : ℕ) (span : Text) (id : ℕ) (s : BodyState)
        → Ready c s
        → Done c (handle_normal_call c bb_end target name bb span id args s)
    unfolding handle_normal_call
    handle_normal_call-Done bb_end name bb span id s h =
        elim (Option-cases (function_places c id)) [
          | inr (places, e) ↦
              rw (e, handle_normal_call)
                (call_function-Done name bb span target bb_end places s h opened)
          | inl e ↦ elim (Option-cases (first_closure c args)) [
            | inr (places, e') ↦
                rw (e, handle_normal_call, e')
                  (call_function-Done (c.def_path_str id) bb span target bb_end places s h opened)
            | inl e' ↦
                rw (e, handle_normal_call, e') (connect_to_target-Done c bb_end target s h opened)
          ]
        ]

    finish_call-Done :
        (bb_end : ℕ) (name : Text) (bb : ℕ) (span : Text) (id : ℕ) (s : BodyState) (dealt : Bool)
        → Ready c s
        → Done c (finish_call c bb_end target name bb span id (c.format_name id) args (s, dealt))
    unfolding finish_call add_output_arc emit
    finish_call-Done bb_end name bb span id s true h = done h
    finish_call-Done bb_end name bb span id s false h =
        if_intro (Done c) (contains_text (c.format_name id) (codes "core::panic")) (λ _. done h)
          (λ _. handle_normal_call-Done bb_end name bb span id s h)

    dispatch-Done :
        (id : ℕ) (destination : Place) (name : Text) (bb : ℕ) (span : Text) (bb_end : ℕ)
        (s : BodyState)
        → CallFits c id args
        → Ready c s
        → Done c (dispatch c id args destination target name bb span bb_end s)
    unfolding dispatch
    dispatch-Done id destination name bb span bb_end s fits h =
        let h0 =
          track_joinhandle_container_call-Ready c (c.format_name id) args destination.local s h in
        DoneWith-bind _ (handle_lock_call-DoneWith c args destination target bb_end _ h0 opened)
          (λ s1 o h1.
            DoneWith-bind _
              (or_next-DoneWith c _ _ (took_lock-Ready s1 o h1) (λ s' h'.
                handle_condvar_call-DoneWith c args target opened id bb_end name bb span s' fits
                  h'))
              (λ s2 b2 h2.
                DoneWith-bind _
                  (or_next-DoneWith c (s2, b2) _ h2
                    (λ s' h'. handle_drop_call-DoneWith c args target opened id bb_end s' fits h'))
                  (λ s3 b3 h3.
                    DoneWith-bind _
                      (or_next-DoneWith c (s3, b3) _ h3
                        (λ s' h'.
                          handle_channel_call-DoneWith c args target opened id bb_end s' fits h'))
                      (λ s4 b4 h4.
                        DoneWith-bind _
                          (or_next-DoneWith c (s4, b4) _ h4
                            (λ s' h'.
                              handle_thread_call-DoneWith c args target opened id destination.local
                                bb_end bb span s' fits h'))
                          (λ s5 b5 h5.
                            DoneWith-bind _
                              (or_next-DoneWith c (s5, b5) _ h5
                                (λ s' h'.
                                  handle_atomic_call-DoneWith c args target opened id bb_end bb span
                                    s' fits h'))
                              (λ s6 b6 h6. finish_call-Done bb_end name bb span id s6 b6 h6))))))

    call_callee-Done :
        (callee : Callee) (destination : Place) (name : Text) (bb : ℕ) (span : Text) (s : BodyState)
        (bb_end : ℕ)
        → CalleeFits c args callee
        → Ready c s
        → Done c (call_callee c callee args destination target name bb span (s, bb_end))
    unfolding call_callee
    call_callee-Done Callee.fn_ptr destination name bb span s bb_end fits h =
        connect_to_target-Done c bb_end target s h opened
    call_callee-Done (Callee.fn_def id) destination name bb span s bb_end (fn_def_fits fits) h =
        dispatch-Done id destination name bb span bb_end s fits h
    call_callee-Done (Callee.closure id) destination name bb span s bb_end (closure_fits fits) h =
        dispatch-Done id destination name bb span bb_end s fits h
    call_callee-Done Callee.other_callee destination name bb span s bb_end fits h = elim fits [ ]

    make_call-Done :
        (callee : Callee) (destination : Place) (name : Text) (bb : ℕ) (span : Text) (s : BodyState)
        → CalleeFits c args callee
        → Ready c s
        → Open c bb
        → Done c (make_call c callee args destination target name bb span s)
    unfolding make_call
    make_call-Done callee destination name bb span s fits h here =
        DoneWith-bind _ (create_call_transition-DoneWith c bb _ s h here)
          (λ s' bb_end h'. call_callee-Done callee destination name bb span s' bb_end fits h')

  pub handle_call-Done :
      (bb : ℕ) (callee : Callee) (args : List Operand) (destination : Place) (target : Option ℕ)
      (name span : Text) (unwinds : Bool) (s : BodyState)
      → CalleeFits c args callee
      → TargetFits c target
      → Ready c s
      → Open c bb
      → Done c (handle_call c bb callee args destination target name span unwinds s)
  unfolding handle_call
  handle_call-Done bb callee args destination none name span true s fits t h here =
      handle_unwind_continue-Done c bb name s h here
  handle_call-Done bb callee args destination none name span false s fits t h here =
      make_call-Done args none (λ u e. cc) callee destination name bb span s fits h here
  handle_call-Done bb callee args destination (some u) name span unwinds s fits
        (target_fits k opened) h here =
      rw (k.found, handle_call)
        (if_intro (Done c) k.block.is_cleanup (λ _. handle_panic-Done c bb name s h here)
          (λ e.
            make_call-Done args (some u) (opened_some c u (opened e)) callee destination name bb
              span s fits h here))

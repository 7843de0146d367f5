-- ===== src/Translate/Body/Ordering/Total.antt =====
-- The handlers of atomic operations return.
use conc_bug_dect_rust.Prelude.{
  Bool, List, List-cases, Option, Option-cases, Text, [], codes, decimal, if_intro, inl, inr,
  list_eq, list_ord, lookup, nat_eq, nat_ord, none, pair_eq, pair_ord, refl, some, true, ℕ, ◌++◌,
  ◌+◌, ◌∷◌, ◌≡◌,
}
use conc_bug_dect_rust.Memory.PointsTo.{AliasId}
use conc_bug_dect_rust.Translate.Body.{
  Context, BodyState, add_input_arc, add_output_arc, add_place, add_transition, bb_place, bump,
  current_seg, emit, separator,
}
use conc_bug_dect_rust.Translate.Body.Frame.{
  Done, Done-bind, DoneWith, Open, Ready, done, done_with,
}
use conc_bug_dect_rust.Translate.Body.Locks.Total.{with_result-DoneWith}
use conc_bug_dect_rust.Translate.Body.Ordering.{
  add_seg_arcs, advance, alternatives, arc_to_target, ensure_seg_place, ensure_seqcst_place,
  find_atomic_matches, handle_atomic_basic_op, ordering_seg_arcs, seg_arcs_of,
}
use conc_bug_dect_rust.Translate.Net.{TransitionType}
use conc_bug_dect_rust.Translate.Primitives.{AtomicOrdering, alias_eq}

module _ (c : Context) where
  pub ensure_seg_place-Ready :
      (tid n : ℕ) (s : BodyState) → Ready c s → Ready c (ensure_seg_place c tid n s).0
  unfolding ensure_seg_place add_place emit
  ensure_seg_place-Ready tid n s h = elim (Option-cases (lookup (tid, n) s.seg.seg_place_of)) [
    | inl e ↦ rw (e, ensure_seg_place) h
    | inr (p, e) ↦ rw (e, ensure_seg_place) h
  ]

  ensure_seqcst_place-Ready : (s : BodyState) → Ready c s → Ready c (ensure_seqcst_place c s).0
  unfolding ensure_seqcst_place add_place emit
  ensure_seqcst_place-Ready s h = elim (Option-cases s.seg.seqcst_place) [
    | inl e ↦ rw (e, ensure_seqcst_place) h
    | inr (p, e) ↦ rw (e, ensure_seqcst_place) h
  ]

  advance-Ready : (tid : ℕ) (s : BodyState) → Ready c s → Ready c (advance c tid s).0
  unfolding advance
  advance-Ready tid s h = ensure_seg_place-Ready tid (bump tid s.seg).1 _ h

  pub ordering_seg_arcs-Ready :
      (tid : ℕ) (ord : AtomicOrdering) (s : BodyState)
      → Ready c s
      → Ready c (ordering_seg_arcs c tid ord s).0
  unfolding ordering_seg_arcs
  ordering_seg_arcs-Ready tid AtomicOrdering.relaxed s h =
      ensure_seg_place-Ready tid (current_seg tid s.seg) s h
  ordering_seg_arcs-Ready tid AtomicOrdering.release s h =
      advance-Ready tid _ (ensure_seg_place-Ready tid (current_seg tid s.seg) s h)
  ordering_seg_arcs-Ready tid AtomicOrdering.acquire s h =
      advance-Ready tid _ (ensure_seg_place-Ready tid (current_seg tid s.seg) s h)
  ordering_seg_arcs-Ready tid AtomicOrdering.acq_rel s h =
      advance-Ready tid _ (ensure_seg_place-Ready tid (current_seg tid s.seg) s h)
  ordering_seg_arcs-Ready tid AtomicOrdering.seq_cst s h =
      ensure_seqcst_place-Ready _
        (advance-Ready tid _ (ensure_seg_place-Ready tid (current_seg tid s.seg) s h))

  add_seg_arcs-Ready :
      (t : ℕ) (arcs : List (ℕ × Bool)) (s : BodyState)
      → Ready c s
      → Ready c (add_seg_arcs c t arcs s)
  unfolding add_seg_arcs add_input_arc add_output_arc emit
  add_seg_arcs-Ready t [] s h = h
  add_seg_arcs-Ready t ((p, is_input) ∷ arcs) s h =
      add_seg_arcs-Ready t arcs _ (if_intro (Ready c) is_input (λ _. h) (λ _. h))

  arc_to_target-Done :
      (target : Option ℕ) (t : ℕ) (s : BodyState)
      → Ready c s
      → ((t : ℕ) → target ≡ some t → Open c t)
      → Done c (arc_to_target c target t s)
  unfolding arc_to_target add_output_arc emit
  arc_to_target-Done none t s h opened = done h
  arc_to_target-Done (some u) t s h opened =
      let (p, e) = h.first u (opened u refl) in rw (e, arc_to_target) (done h)

  alternatives-Done :
      (op_name : Text) (order : AtomicOrdering) (bb i : ℕ) (arcs : List (ℕ × Bool))
      (target : Option ℕ) (build : AliasId → TransitionType) (ms : List (AliasId × ℕ)) (idx : ℕ)
      (s : BodyState)
      → Ready c s
      → ((t : ℕ) → target ≡ some t → Open c t)
      → Done c (alternatives c op_name order bb i arcs target build ms idx s)
  unfolding alternatives add_transition add_input_arc add_output_arc emit
  alternatives-Done op_name order bb i arcs target build [] idx s h opened = done h
  alternatives-Done op_name order bb i arcs target build ((a, p) ∷ ms) idx s h opened =
      Done-bind (arc_to_target-Done target _ _ (add_seg_arcs-Ready _ arcs _ h) opened)
        (λ s' h'. alternatives-Done op_name order bb i arcs target build ms (idx + 1) s' h' opened)

  seg_arcs_of-Ready :
      (order : AtomicOrdering) (s : BodyState) → Ready c s → Ready c (seg_arcs_of c order s).0
  unfolding seg_arcs_of
  seg_arcs_of-Ready order s h =
      if_intro (λ (r : BodyState × List (ℕ × Bool)). Ready c r.0) c.translate_atomic_ordering
        (λ _. ordering_seg_arcs-Ready c.instance_id order s h) (λ _. h)

  pub handle_atomic_basic_op-DoneWith :
      (op_name : Text) (id : AliasId) (bb_end : ℕ) (target : Option ℕ) (bb : ℕ) (span : Text)
      (build : AliasId → AtomicOrdering → Text → TransitionType) (s : BodyState)
      → Ready c s
      → ((t : ℕ) → target ≡ some t → Open c t)
      → DoneWith c (handle_atomic_basic_op c op_name id bb_end target bb span build s)
  unfolding handle_atomic_basic_op bb_place add_place add_output_arc emit
  handle_atomic_basic_op-DoneWith op_name id bb_end target bb span build s h opened =
      elim (List-cases (find_atomic_matches c id)) [
        | inl e ↦ rw (e, handle_atomic_basic_op) (done_with h)
        | inr (m, ms, e) ↦ elim (Option-cases (lookup id c.resources.atomic_orders)) [
          | inl e' ↦ rw (e, handle_atomic_basic_op, e') (done_with h)
          | inr (order, e') ↦
              let name =
                codes "atomic_"
                ++ op_name
                ++ codes "_in_"
                ++ decimal c.instance_id
                ++ separator
                ++ decimal bb in
              let (s1, i) = bb_place c name span s in
              let s2 = add_output_arc i bb_end 1 s1 in
              let r = seg_arcs_of c order s2 in
              rw (e, handle_atomic_basic_op, e')
                (with_result-DoneWith c true (
                  alternatives-Done op_name order bb i r.1 target (λ a. build a order span) (m ∷ ms)
                    0 r.0 (seg_arcs_of-Ready order s2 h) opened))
        ]
      ]

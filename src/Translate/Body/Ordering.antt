-- ===== src/Translate/Body/Ordering.antt =====
-- src/translate/mir_to_pn/concurrency.rs: atomic operations with the segments of their memory
-- ordering, and the place of a channel.
pub mod Total
pub mod Segments
use conc_bug_dect_rust.Prelude.{
  Bool, List, Option, Text, [], codes, decimal, false, if◌then◌else◌, list_eq, list_ord, lookup,
  nat_eq, nat_ord, none, pair_eq, pair_ord, put, some, true, ℕ, ◌++◌, ◌+◌, ◌==◌, ◌>>=◌, ◌||◌, ◌∷◌,
}
use conc_bug_dect_rust.Memory.PointsTo
use conc_bug_dect_rust.Memory.PointsTo.{AliasId}
use conc_bug_dect_rust.Translate.Body.{
  Context, BodyState, add_input_arc, add_output_arc, add_place, add_transition, bb_place, bump,
  current_seg, separator, start_of,
}
use conc_bug_dect_rust.Translate.Net.{PlaceType, PtPlace, TransitionType}
use conc_bug_dect_rust.Translate.Primitives.{AtomicOrdering, alias_eq}

has_place : ℕ → List (AliasId × ℕ) → Bool
has_place place_id [] = false
has_place place_id ((_, matched) ∷ matches) = matched == place_id || has_place place_id matches

add_matches : AliasId → List ℕ → List (AliasId × ℕ) → List (AliasId × ℕ)
unfolding has_place
add_matches alias_id [] matches = matches
add_matches alias_id (place_id ∷ place_ids) matches =
    add_matches alias_id place_ids
      (if has_place place_id matches then matches else matches ++ (alias_id, place_id) ∷ [])

pub seg_place : ℕ → ℕ → PtPlace
seg_place tid n = record {
  name = codes "seg_t" ++ decimal tid ++ codes "_s" ++ decimal n;
  tokens = if n == 0 then 1 else 0;
  capacity = none;
  place_type = PlaceType.basic_block;
  span = [];
}

pub seqcst_global : PtPlace
seqcst_global = record {
  name = codes "SeqCst_Global";
  tokens = 1;
  capacity = none;
  place_type = PlaceType.resources;
  span = [];
}

order_name : AtomicOrdering → Text
order_name AtomicOrdering.relaxed = codes "Relaxed"
order_name AtomicOrdering.release = codes "Release"
order_name AtomicOrdering.acquire = codes "Acquire"
order_name AtomicOrdering.acq_rel = codes "AcqRel"
order_name AtomicOrdering.seq_cst = codes "SeqCst"

module _ (c : Context) where
  may_be : AliasId → AliasId → Bool
  may_be a b = PointsTo.may_alias (c.alias_atomic a b) c.alias_unknown_policy

  matches_in : AliasId → List (AliasId × List ℕ) → List (AliasId × ℕ) → List (AliasId × ℕ)
  unfolding may_be add_matches
  matches_in current_id [] matches = matches
  matches_in current_id ((alias_id, place_ids) ∷ places) matches =
      matches_in current_id places
        (if may_be current_id alias_id then add_matches alias_id place_ids matches else matches)

  pub find_atomic_matches : AliasId → List (AliasId × ℕ)
  unfolding matches_in
  find_atomic_matches current_id = matches_in current_id c.resources.atomic_places []

  pub ensure_seg_place : ℕ → ℕ → BodyState → BodyState × ℕ
  unfolding seg_place
  ensure_seg_place tid n s = elim (lookup (tid, n) s.seg.seg_place_of) [
    | some place_id ↦ (s, place_id)
    | none ↦
        let (s', place_id) = add_place c (seg_place tid n) s in
        (
          record s' {
            seg = record s'.seg { seg_place_of = put (tid, n) place_id s'.seg.seg_place_of };
          },
          place_id,
        )
  ]

  pub ensure_seqcst_place : BodyState → BodyState × ℕ
  unfolding seqcst_global
  ensure_seqcst_place s = elim s.seg.seqcst_place [
    | some place_id ↦ (s, place_id)
    | none ↦
        let (s', place_id) = add_place c seqcst_global s in
        (record s' { seg = record s'.seg { seqcst_place = some place_id } }, place_id)
  ]

  -- The place of the current segment, and the place of the next one.
  pub advance : ℕ → BodyState → BodyState × ℕ
  unfolding ensure_seg_place
  advance tid s =
      let (seg', next_seg) = bump tid s.seg in
      ensure_seg_place tid next_seg (record s { seg = seg' })

  -- The arcs of one atomic operation: a place, and whether the arc goes in.
  pub ordering_seg_arcs : ℕ → AtomicOrdering → BodyState → BodyState × List (ℕ × Bool)
  unfolding ensure_seg_place ensure_seqcst_place advance
  ordering_seg_arcs tid ord s =
      let (s1, current_place) = ensure_seg_place tid (current_seg tid s.seg) s in
      let (s2, next_place) = advance tid s1 in
      let (s3, seqcst_place) = ensure_seqcst_place s2 in
      elim ord [
        | AtomicOrdering.relaxed ↦ (s1, (current_place, true) ∷ (current_place, false) ∷ [])
        | AtomicOrdering.seq_cst ↦ (
          s3,
          (current_place, true)
              ∷ (next_place, false)
              ∷ (seqcst_place, true)
              ∷ (seqcst_place, false)
              ∷ [],
        )
        | _ ↦ (s2, (current_place, true) ∷ (next_place, false) ∷ [])
      ]

  pub add_seg_arcs : ℕ → List (ℕ × Bool) → BodyState → BodyState
  add_seg_arcs t [] s = s
  add_seg_arcs t ((place_id, is_input) ∷ arcs) s =
      add_seg_arcs t arcs
        (if is_input then add_input_arc place_id t 1 s else add_output_arc place_id t 1 s)

  arc_to_target : Option ℕ → ℕ → BodyState → Option BodyState
  arc_to_target none t s = some s
  arc_to_target (some target) t s = do
    first ← start_of target s.bb_graph
    some (add_output_arc first t 1 s)

  -- One transition for each candidate.
  alternatives :
      Text
      → AtomicOrdering
      → ℕ
      → ℕ
      → List (ℕ × Bool)
      → Option ℕ
      → (AliasId → TransitionType)
      → List (AliasId × ℕ)
      → ℕ
      → BodyState
      → Option BodyState
  unfolding add_seg_arcs arc_to_target order_name
  alternatives op_name order bb_idx intermediate_id seg_arcs target build [] idx s = some s
  alternatives op_name order bb_idx intermediate_id seg_arcs target build ((alias_id, place) ∷ ms)
        idx s =
      do
        let name =
            codes "atomic_"
            ++ decimal c.instance_id
            ++ separator
            ++ op_name
            ++ separator
            ++ order_name order
            ++ separator
            ++ decimal bb_idx
            ++ separator
            ++ decimal idx
        let (s1, t) = add_transition c name (build alias_id) s
        let s2 =
            add_output_arc place t 1
              (add_input_arc place t 1 (add_input_arc intermediate_id t 1 s1))
        s3 ← arc_to_target target t (add_seg_arcs t seg_arcs s2)
        alternatives op_name order bb_idx intermediate_id seg_arcs target build ms (idx + 1) s3

  seg_arcs_of : AtomicOrdering → BodyState → BodyState × List (ℕ × Bool)
  unfolding ordering_seg_arcs
  seg_arcs_of order s =
      if c.translate_atomic_ordering then ordering_seg_arcs c.instance_id order s else (s, [])

  -- `false` says that no transition was made.
  pub handle_atomic_basic_op :
      Text
      → AliasId
      → ℕ
      → Option ℕ
      → ℕ
      → Text
      → (AliasId → AtomicOrdering → Text → TransitionType)
      → BodyState
      → Option (BodyState × Bool)
  unfolding find_atomic_matches alternatives seg_arcs_of
  handle_atomic_basic_op op_name current_id bb_end target bb_idx span build s =
      elim (find_atomic_matches current_id) [
        | [] ↦ some (s, false)
        | m ∷ ms ↦ elim (lookup current_id c.resources.atomic_orders) [
          | none ↦ some (s, false)
          | some order ↦ do
            let name =
                codes "atomic_"
                ++ op_name
                ++ codes "_in_"
                ++ decimal c.instance_id
                ++ separator
                ++ decimal bb_idx
            let (s1, intermediate_id) = bb_place c name span s
            let (s2, arcs) = seg_arcs_of order (add_output_arc intermediate_id bb_end 1 s1)
            s3 ←
                alternatives op_name order bb_idx intermediate_id arcs target
                  (λ a. build a order span) (m ∷ ms) 0 s2
            some (s3, true)
        ]
      ]

  channel_in : AliasId → List (AliasId × ℕ) → Option ℕ
  unfolding may_be
  channel_in channel_alias [] = none
  channel_in channel_alias ((alias_id, node) ∷ places) =
      let rest = channel_in channel_alias places in
      if may_be channel_alias alias_id then some node else rest

  pub find_channel_place : AliasId → Option ℕ
  unfolding channel_in
  find_channel_place channel_alias = channel_in channel_alias c.resources.channel_places

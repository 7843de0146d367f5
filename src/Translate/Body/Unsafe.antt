-- ===== src/Translate/Body/Unsafe.antt =====
-- src/translate/mir_to_pn/drop_unsafe.rs: the accesses of a block to unsafe memory, and the merged
-- transition at its end.
pub mod Total
use conc_bug_dect_rust.Prelude.{
  Bool, List, Option, Text, [], codes, decimal, false, list_eq, list_ord, nat_eq, nat_ord, pair_eq,
  pair_ord, some, true, ℕ, ◌++◌, ◌>>=◌, ◌∷◌,
}
use conc_bug_dect_rust.Detect.Graph.{UnsafeOp}
use conc_bug_dect_rust.Memory.PointsTo
use conc_bug_dect_rust.Translate.Body.{
  Context, BodyState, add_input_arc, add_output_arc, add_transition, bb_place, last_of, push,
}
use conc_bug_dect_rust.Translate.Mir.{Place, Rvalue, rvalue_read_places}
use conc_bug_dect_rust.Translate.Net.{TransitionType}
use conc_bug_dect_rust.Translate.UnsafeOps.{access_op, has_unsafe_alias, merge_ops}

pub values {ℓ κ} : {K : Type ℓ} {V : Type κ} → List (K × V) → List V
values [] = []
values ((k, v) ∷ m) = v ∷ values m

module _ (c : Context) where
  pub access : Bool → Place → ℕ → Text → List UnsafeOp
  access is_write place bb_idx span = access_op is_write span bb_idx (c.place_ty place) (
      has_unsafe_alias c.alias_atomic c.alias_unknown_policy
        (PointsTo.new c.instance_id place.local) c.resources.unsafe_groups)

  pub reads : List Place → ℕ → Text → List UnsafeOp
  unfolding access
  reads [] bb_idx span = []
  reads (place ∷ places) bb_idx span = access false place bb_idx span ++ reads places bb_idx span

  pub process_rvalue_reads : Rvalue → ℕ → Text → BodyState → BodyState
  unfolding reads
  process_rvalue_reads rvalue bb_idx span s = record s {
    pending_unsafe_ops = s.pending_unsafe_ops ++ reads (rvalue_read_places rvalue) bb_idx span;
  }

  pub process_place_writes : Place → ℕ → Text → BodyState → BodyState
  unfolding access
  process_place_writes place bb_idx span s = record s {
    pending_unsafe_ops = s.pending_unsafe_ops ++ access true place bb_idx span;
  }

  emit_merged : ℕ → List UnsafeOp → BodyState → Option BodyState
  unfolding values
  emit_merged bb_idx ops s = do
    let name = c.format_name c.def_id ++ codes "_unsafe_bb" ++ decimal bb_idx
    let (s1, t) = add_transition c name (TransitionType.unsafe_access (values (merge_ops ops []))) s
    last_node ← last_of bb_idx s1.bb_graph
    let (s2, temp_place) =
        bb_place c (name ++ codes "_unsafe_ready") [] (add_input_arc last_node t 1 s1)
    let s3 = add_output_arc temp_place t 1 s2
    some (record s3 { bb_graph = push bb_idx temp_place s3.bb_graph })

  pub flush_unsafe_ops : ℕ → BodyState → Option BodyState
  unfolding emit_merged
  flush_unsafe_ops bb_idx s = elim s.pending_unsafe_ops [
    | [] ↦ some s
    | op ∷ ops ↦ emit_merged bb_idx (op ∷ ops) (record s { pending_unsafe_ops = [] })
  ]

-- ===== src/Translate/UnsafeOps.antt =====
-- src/translate/mir_to_pn/drop_unsafe.rs: the group of an unsafe place, and the accesses of a block
-- merged by group.
use conc_bug_dect_rust.Prelude.{
  Bool, List, Option, Text, [], ap, arith, false, if◌then◌else◌, list_eq, list_ord, lookup,
  lookup-put, nat_eq, nat_ord, none, pair_eq, pair_ord, put, refl, some, true, ℕ, ℕ_discrete, ◌&&◌,
  ◌==◌, ◌||◌, ◌∷◌, ◌≡◌,
}
use conc_bug_dect_rust.Detect.Graph.{UnsafeOp}
use conc_bug_dect_rust.Memory.PointsTo
use conc_bug_dect_rust.Memory.PointsTo.{AliasId, ApproximateAliasKind, AliasUnknownPolicy}

-- The first group with a place that may alias; `alias_atomic` is an argument.
pub has_unsafe_alias :
    (AliasId → AliasId → ApproximateAliasKind)
    → AliasUnknownPolicy
    → AliasId
    → List (AliasId × ℕ)
    → Bool × (ℕ × Option AliasId)
has_unsafe_alias alias_atomic policy place_id [] = (false, (0, none))
has_unsafe_alias alias_atomic policy place_id ((unsafe_alias, group_id) ∷ groups) =
    let rest = has_unsafe_alias alias_atomic policy place_id groups in
    if PointsTo.may_alias (alias_atomic place_id unsafe_alias) policy
    then (true, (group_id, some unsafe_alias))
    else rest

-- One read or write of a place: what is pushed to `pending_unsafe_ops`.
pub access_op : Bool → Text → ℕ → Text → Bool × (ℕ × Option AliasId) → List UnsafeOp
access_op is_write span basic_block ty (false, group) = []
access_op is_write span basic_block ty (true, (group_id, unsafe_alias)) =
    record {
      is_write = is_write;
      alias = group_id;
      span = span;
      basic_block = basic_block;
      ty = ty;
    }
    ∷ []

-- A write takes the place of what is there, a read does not.
pub merge_entry : Option UnsafeOp → UnsafeOp → UnsafeOp
merge_entry none op = op
merge_entry (some old) op = if op.is_write then op else old

pub merge_ops : List UnsafeOp → List (ℕ × UnsafeOp) → List (ℕ × UnsafeOp)
unfolding merge_entry
merge_ops [] merged = merged
merge_ops (op ∷ ops) merged =
    merge_ops ops (put op.alias (merge_entry (lookup op.alias merged) op) merged)

pub writes : Option UnsafeOp → Bool
writes none = false
writes (some op) = op.is_write

pub any_write : ℕ → List UnsafeOp → Bool
any_write group [] = false
any_write group (op ∷ ops) = (op.alias == group && op.is_write) || any_write group ops

writes-merge_entry :
    (o : Option UnsafeOp) (op : UnsafeOp)
    → writes (some (merge_entry o op)) ≡ writes o || op.is_write
unfolding merge_entry writes
writes-merge_entry none op = refl
writes-merge_entry (some old) op = ground arith

-- After the merging, the operation of a group is a write exactly when it was one before or one of
-- the accesses to the group is a write.
pub writes-merge_ops :
    (ops : List UnsafeOp) (merged : List (ℕ × UnsafeOp)) (group : ℕ)
    → writes (lookup group (merge_ops ops merged))
      ≡ writes (lookup group merged) || any_write group ops
unfolding merge_ops any_write
writes-merge_ops [] merged group = ground arith
writes-merge_ops (op ∷ ops) merged group =
    let entry = merge_entry (lookup op.alias merged) op in
    let rest = writes-merge_ops ops (put op.alias entry merged) group in
    let one = writes-merge_entry (lookup op.alias merged) op in
    let look = lookup-put op.alias group entry merged in
    elim (ℕ_discrete op.alias group) [
      | yes same ↦
          ground (arith, rest, one, ap writes look, ap (λ k. writes (lookup k merged)) same)
      | no other ↦ ground (arith, rest, ap writes look)
    ]

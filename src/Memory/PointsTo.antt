-- ===== src/Memory/PointsTo.antt =====
-- src/memory/pointsto.rs and the policy of src/config.rs: alias kinds and alias ids.
use conc_bug_dect_rust.Prelude.{
  Bool, List, Option, [], false, if◌then◌else◌, list_eq, list_ord, nat_eq, nat_ord, none, pair_eq,
  pair_ord, refl, some, true, ℕ, ◌∷◌, ◌≡◌,
}
use Prim.Native.Nat.{compare, Ordering}

pub data ApproximateAliasKind : Type 0 where
  probably : ApproximateAliasKind
  possibly : ApproximateAliasKind
  unlikely : ApproximateAliasKind
  unknown : ApproximateAliasKind

pub data AliasUnknownPolicy : Type 0 where
  conservative : AliasUnknownPolicy
  optimistic : AliasUnknownPolicy

pub partial_cmp : ApproximateAliasKind → ApproximateAliasKind → Option Ordering
partial_cmp probably probably = some Ordering.eq
partial_cmp possibly possibly = some Ordering.eq
partial_cmp unlikely unlikely = some Ordering.eq
partial_cmp unknown unknown = some Ordering.eq
partial_cmp probably _ = some Ordering.gt
partial_cmp possibly unlikely = some Ordering.gt
partial_cmp possibly unknown = some Ordering.gt
partial_cmp unlikely unknown = some Ordering.gt
partial_cmp _ probably = some Ordering.lt
partial_cmp unlikely possibly = some Ordering.lt
partial_cmp unknown possibly = some Ordering.lt
partial_cmp unknown unlikely = some Ordering.lt

unfoldable pub may_alias : ApproximateAliasKind → AliasUnknownPolicy → Bool
may_alias probably policy = true
may_alias possibly policy = true
may_alias unlikely policy = false
may_alias unknown conservative = true
may_alias unknown optimistic = false

pub record AliasId : Type 0 where
  pub instance_id : ℕ
  pub local : ℕ
  pub array_index : Option ℕ
  pub field : Option ℕ

-- The projections that the source tells apart; every other one is `other`.
pub data ProjectionElem : Type 0 where
  field : ℕ → ProjectionElem
  index : ProjectionElem
  constant_index : ℕ → ProjectionElem
  other : ProjectionElem

pub new : ℕ → ℕ → AliasId
new instance_id local = record {
  instance_id = instance_id;
  local = local;
  array_index = none;
  field = none;
}

has_index : List ProjectionElem → Bool
has_index [] = false
has_index (index ∷ es) = true
has_index (_ ∷ es) = has_index es

-- `iter().rev().find_map` finds the last constant index.
last_constant : List ProjectionElem → Option ℕ
last_constant [] = none
last_constant (constant_index n ∷ es) = elim (last_constant es) [ none ↦ some n | some m ↦ some m ]
last_constant (_ ∷ es) = last_constant es

unfoldable pub first_field : List ProjectionElem → Option ℕ
first_field [] = none
first_field (field f ∷ es) = some f
first_field (_ ∷ es) = first_field es

pub from_place : ℕ → ℕ → List ProjectionElem → AliasId
unfolding has_index last_constant first_field
from_place instance_id local projection = record {
  instance_id = instance_id;
  local = local;
  array_index = if has_index projection then none else last_constant projection;
  field = first_field projection;
}

-- The likelihood that a kind stands for.
pub rank : ApproximateAliasKind → ℕ
rank unknown = 0
rank unlikely = 1
rank possibly = 2
rank probably = 3

-- The order on alias kinds is total: it compares unknown < unlikely < possibly < probably.
pub partial_cmp-rank :
    (a b : ApproximateAliasKind) → partial_cmp a b ≡ some (compare (rank a) (rank b))
unfolding partial_cmp rank
partial_cmp-rank probably probably = refl
partial_cmp-rank probably possibly = refl
partial_cmp-rank probably unlikely = refl
partial_cmp-rank probably unknown = refl
partial_cmp-rank possibly probably = refl
partial_cmp-rank possibly possibly = refl
partial_cmp-rank possibly unlikely = refl
partial_cmp-rank possibly unknown = refl
partial_cmp-rank unlikely probably = refl
partial_cmp-rank unlikely possibly = refl
partial_cmp-rank unlikely unlikely = refl
partial_cmp-rank unlikely unknown = refl
partial_cmp-rank unknown probably = refl
partial_cmp-rank unknown possibly = refl
partial_cmp-rank unknown unlikely = refl
partial_cmp-rank unknown unknown = refl

-- src/concurrency/blocking.rs and channel.rs: the ids that become alias ids.
pub record LockGuardId : Type 0 where
  pub instance_id : ℕ
  pub local : ℕ
  pub field : Option ℕ

pub record CondVarId : Type 0 where
  pub instance_id : ℕ
  pub local : ℕ

pub record ChannelId : Type 0 where
  pub instance_id : ℕ
  pub local : ℕ

unfoldable pub from_lock_guard : LockGuardId → AliasId
from_lock_guard id = record {
  instance_id = id.instance_id;
  local = id.local;
  array_index = none;
  field = id.field;
}

pub from_condvar : CondVarId → AliasId
from_condvar id = record {
  instance_id = id.instance_id;
  local = id.local;
  array_index = none;
  field = none;
}

pub from_channel : ChannelId → AliasId
from_channel id = record {
  instance_id = id.instance_id;
  local = id.local;
  array_index = none;
  field = none;
}

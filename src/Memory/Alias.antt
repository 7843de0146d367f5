-- ===== src/Memory/Alias.antt =====
-- src/memory/pta/adapter.rs: the alias query of the translation. The two heavier queries over the
-- solved relation and the compiler's types are arguments.
use conc_bug_dect_rust.Prelude.{
  Bool, Option, arith, false, if◌then◌else◌, list_eq, list_ord, nat_eq, nat_ord, none, not, pair_eq,
  pair_ord, refl, some, true, ℕ, ◌&&◌, ◌==◌, ◌≡◌,
}
use conc_bug_dect_rust.Memory.PointsTo.{
  ApproximateAliasKind, probably, possibly, unlikely, unknown, AliasId,
}

-- `instance_of`, `collapsed_may_alias_receiver` on a solved result, and `may_alias_via_type_param`.
pub record Queries : Type 1 where
  pub Instance : Type 0
  pub instance_of : ℕ → Option Instance
  pub solved : Bool
  pub receiver : Instance → ℕ → Option ℕ → Instance → ℕ → Option ℕ → Bool
  pub type_param : Instance → ℕ → Instance → ℕ → Bool

-- Both fields are known and differ.
pub fields_differ : Option ℕ → Option ℕ → Bool
fields_differ (some f) (some g) = not (f == g)
fields_differ _ _ = false

-- The same instance and local: fields first, then array indices.
pub alias_array : Option ℕ → Option ℕ → ApproximateAliasKind
alias_array (some i) (some j) = if i == j then probably else unlikely
alias_array none none = probably
alias_array _ _ = possibly

pub alias_field : Option ℕ → Option ℕ → Option ℕ → Option ℕ → ApproximateAliasKind
unfolding alias_array
alias_field (some f) (some g) i j = if f == g then probably else unlikely
alias_field none none i j = alias_array i j
alias_field _ _ i j = possibly

pub alias_same : AliasId → AliasId → ApproximateAliasKind
unfolding alias_field
alias_same a b = alias_field a.field b.field a.array_index b.array_index

module _ (q : Queries) where
  open q use {Instance, instance_of, solved, receiver, type_param}

  pub alias_instances :
      Option Instance → Option Instance → Bool → AliasId → AliasId → ApproximateAliasKind
  unfolding fields_differ
  alias_instances (some ia) (some ib) true a b =
      if receiver ia a.local a.field ib b.local b.field
      then probably
      else if type_param ia a.local ib b.local && not (fields_differ a.field b.field)
      then possibly
      else unlikely
  alias_instances _ _ _ a b = unknown

  pub alias : AliasId → AliasId → ApproximateAliasKind
  unfolding alias_same alias_instances
  alias a b =
      if a.instance_id == b.instance_id && a.local == b.local
      then alias_same a b
      else alias_instances (instance_of a.instance_id) (instance_of b.instance_id) solved a b

alias_field_refl : (f i : Option ℕ) → alias_field f f i i ≡ probably
unfolding alias_field alias_array
alias_field_refl (some f) i = ground arith
alias_field_refl none (some i) = ground arith
alias_field_refl none none = refl

-- A place aliases itself with the strongest verdict, whatever the other queries answer.
pub alias_refl : (q : Queries) (a : AliasId) → alias q a a ≡ probably
unfolding alias alias_same
alias_refl q a = ground (arith, alias_field_refl a.field a.array_index)

-- ===== src/Translate/Construct.antt =====
-- src/translate/petri_net.rs: the places of functions and of shared resources, before the bodies
-- are translated. What the collectors of src/concurrency and src/memory find is an argument.
pub mod Locks
pub mod Resources
pub mod Functions
use conc_bug_dect_rust.Prelude.{
  Bool, List, Option, Text, [], codes, contains_text, decimal, false, if◌then◌else◌, list_eq,
  list_ord, lookup, nat_eq, nat_ord, none, not, pair_eq, pair_ord, put, some, starts_with, true, ℕ,
  ◌&&◌, ◌++◌, ◌+◌, ◌==◌, ◌>>=◌, ◌||◌, ◌∷◌,
}
use conc_bug_dect_rust.Memory.PointsTo
use conc_bug_dect_rust.Memory.PointsTo.{
  AliasId, ApproximateAliasKind, AliasUnknownPolicy, LockGuardId, from_lock_guard,
}
use conc_bug_dect_rust.Translate.Body.{or_empty}
use conc_bug_dect_rust.Translate.Groups.{find_of, singletons, unite_all}
use conc_bug_dect_rust.Translate.Net.{Call, Ids, PlaceType, PtPlace}
use conc_bug_dect_rust.Translate.Primitives.{AtomicOrdering, LockGuardTy, alias_eq, guard_eq}
use conc_bug_dect_rust.Translate.Registry.{
  FunctionRegistry, ResourceRegistry, has_function, insert_function, rwlock_capacity,
}

pub data CrateNameList : Type 0 where
  white : List Text → CrateNameList
  black : List Text → CrateNameList

-- What is read of the options and of the alias analysis.
pub record Setup : Type 0 where
  pub ids : Ids
  pub alias : AliasId → AliasId → ApproximateAliasKind
  pub alias_atomic : AliasId → AliasId → ApproximateAliasKind
  pub alias_unknown_policy : AliasUnknownPolicy
  pub crate_name : Text
  pub crate_filter : CrateNameList

pub record PetriNet : Type 0 where
  pub builder : List Call
  pub functions : FunctionRegistry ℕ
  pub resources : ResourceRegistry
  pub entry_exit : ℕ × ℕ

any_prefix : List Text → Text → Bool
any_prefix [] func_name = false
any_prefix (c ∷ list) func_name = starts_with func_name c || any_prefix list func_name

module _ (o : Setup) where
  included : CrateNameList → Text → Bool
  unfolding any_prefix
  included (CrateNameList.white (c ∷ list)) func_name = any_prefix (c ∷ list) func_name
  included (CrateNameList.white []) func_name = starts_with func_name o.crate_name
  included (CrateNameList.black list) func_name = starts_with func_name o.crate_name

  excluded : CrateNameList → Text → Bool
  unfolding any_prefix
  excluded (CrateNameList.black list) func_name = any_prefix list func_name
  excluded (CrateNameList.white list) func_name = false

  pub crate_filter_match : Text → Bool
  unfolding included excluded
  crate_filter_match func_name =
      included o.crate_filter func_name && not (excluded o.crate_filter func_name)

  add_place : PtPlace → PetriNet → PetriNet × ℕ
  add_place p s = (record s { builder = Call.place_added p ∷ s.builder }, o.ids.place_id s.builder)

  pub create_resource_place : Text → ℕ → ℕ → Text → PetriNet → PetriNet × ℕ
  unfolding add_place
  create_resource_place name initial capacity span s =
      add_place
        (record {
          name = name;
          tokens = initial;
          capacity = some capacity;
          place_type = PlaceType.resources;
          span = span;
        })
        s

  function_place : Text → ℕ → PlaceType → PtPlace
  function_place name tokens place_type = record {
    name = name;
    tokens = tokens;
    capacity = some 1;
    place_type = place_type;
    span = [];
  }

  pub create_function_places : Text → Bool → PetriNet → PetriNet × (ℕ × ℕ)
  unfolding function_place add_place
  create_function_places func_name with_token s =
      let tokens = if with_token then 1 else 0 in
      let (s1, start) =
        add_place (function_place (func_name ++ codes "_start") tokens PlaceType.function_start)
          s in
      let (s2, end) =
        add_place (function_place (func_name ++ codes "_end") 0 PlaceType.function_end) s1 in
      (s2, (start, end))

  pub ignored : List Text
  ignored =
      codes "::serialize"
      ∷ codes "::serialize_"
      ∷ codes "::deserialize"
      ∷ codes "::deserialize_"
      ∷ codes "::serde"
      ∷ codes "::serde_json"
      ∷ codes "::serde_yaml"
      ∷ codes "::serde_with"
      ∷ codes "::__serde"
      ∷ codes "::__private"
      ∷ codes "::Serializer::"
      ∷ codes "::Deserializer::"
      ∷ codes "::Serialize::"
      ∷ codes "::Deserialize::"
      ∷ codes "::visit_"
      ∷ codes "::Visitor::visit"
      ∷ codes "::fmt::"
      ∷ codes "::Debug::fmt"
      ∷ codes "::core::fmt"
      ∷ codes "::alloc::fmt"
      ∷ codes "::tests::"
      ∷ codes "::test::"
      ∷ codes "::bench"
      ∷ []

  any_part : List Text → Text → Bool
  any_part [] func_name = false
  any_part (p ∷ ps) func_name = contains_text func_name p || any_part ps func_name

  pub should_ignore_function : Text → Bool
  unfolding any_part ignored
  should_ignore_function func_name = any_part ignored func_name

  -- The places of one function; those of `main` are the net's entry and exit, with a token.
  pub places_of_function : ℕ → ℕ → Text → PetriNet → PetriNet
  unfolding create_function_places
  places_of_function main_func func_id func_name s =
      let (s1, places) = create_function_places func_name (func_id == main_func) s in
      let s2 = if func_id == main_func then record s1 { entry_exit = places } else s1 in
      record s2 { functions = insert_function func_id places.0 places.1 s2.functions }

  -- The functions of the call graph, with their names; those that are not reachable are left out
  -- before.
  pub process_functions : ℕ → List (ℕ × Text) → PetriNet → PetriNet
  unfolding crate_filter_match should_ignore_function places_of_function
  process_functions main_func [] s = s
  process_functions main_func ((func_id, func_name) ∷ nodes) s = process_functions main_func nodes (
      if not (crate_filter_match func_name)
        || has_function s.functions func_id
        || should_ignore_function func_name
      then s
      else places_of_function main_func func_id func_name s)

  -- Without an entry point nothing is made.
  pub construct_func : Option ℕ → List (ℕ × Text) → PetriNet → PetriNet
  unfolding process_functions
  construct_func none nodes s = s
  construct_func (some main_func) nodes s = process_functions main_func nodes s

  -- The condition variables, each with the span that names its place.
  pub condvar_places : List (AliasId × Text) → PetriNet → PetriNet
  unfolding create_resource_place
  condvar_places [] s = s
  condvar_places ((condvar_alias, span) ∷ condvars) s =
      let (s', node) = create_resource_place (codes "Condvar:" ++ span) 1 1 [] s in
      condvar_places condvars (record s' {
        resources = record s'.resources { condvars = put condvar_alias node s'.resources.condvars };
      })

  pub is_mutex : LockGuardTy → Bool
  is_mutex LockGuardTy.std_mutex = true
  is_mutex LockGuardTy.parking_lot_mutex = true
  is_mutex LockGuardTy.spin_mutex = true
  is_mutex _ = false

  -- The receiver of the acquisition, or the guard itself when it is not known.
  pub alias_id_for : List (LockGuardId × AliasId) → LockGuardId → AliasId
  alias_id_for lock_objects guard = elim (lookup guard lock_objects) [
    | none ↦ from_lock_guard guard
    | some receiver ↦ receiver
  ]

  unfoldable pub locks_may_alias : List (LockGuardId × AliasId) → LockGuardId → LockGuardId → Bool
  unfolding alias_id_for
  locks_may_alias lock_objects a b =
      PointsTo.may_alias (o.alias (alias_id_for lock_objects a) (alias_id_for lock_objects b))
        o.alias_unknown_policy

  -- `entry(root).or_default().push(lock)`
  pub push_group :
      LockGuardId
      → LockGuardId
      → List (LockGuardId × List LockGuardId)
      → List (LockGuardId × List LockGuardId)
  push_group root lock [] = (root, lock ∷ []) ∷ []
  push_group root lock ((r, group) ∷ groups) =
      let rest = push_group root lock groups in
      if r == root then (r, group ++ lock ∷ []) ∷ groups else (r, group) ∷ rest

  pub by_root :
      List (LockGuardId × LockGuardId)
      → List LockGuardId
      → List (LockGuardId × List LockGuardId)
      → Option (List (LockGuardId × List LockGuardId))
  by_root union_find [] groups = some groups
  by_root union_find (lock ∷ locks) groups = do
    root ← find_of union_find lock
    by_root union_find locks (push_group root lock groups)

  pub lock_place : LockGuardTy → ℕ → PetriNet → PetriNet × ℕ
  unfolding is_mutex create_resource_place
  lock_place ty group_id s =
      if is_mutex ty
      then create_resource_place (codes "Mutex_" ++ decimal group_id) 1 1 [] s
      else create_resource_place (codes "RwLock_" ++ decimal group_id) rwlock_capacity
          rwlock_capacity [] s

  pub insert_locks : ℕ → List LockGuardId → List (AliasId × ℕ) → List (AliasId × ℕ)
  insert_locks node [] locks = locks
  insert_locks node (lock ∷ group) locks =
      insert_locks node group (put (from_lock_guard lock) node locks)

  -- The kind of the first guard decides; an empty group or an unknown guard panics.
  pub first_kind : List (LockGuardId × LockGuardTy) → List LockGuardId → Option LockGuardTy
  first_kind info [] = none
  first_kind info (lock ∷ group) = lookup lock info

  pub place_group : LockGuardTy → ℕ → List LockGuardId → PetriNet → PetriNet
  unfolding lock_place insert_locks
  place_group ty group_id group s =
      let (s', node) = lock_place ty group_id s in
      record s' {
        resources = record s'.resources { locks = insert_locks node group s'.resources.locks };
      }

  pub place_groups :
      List (LockGuardId × LockGuardTy)
      → List (LockGuardId × List LockGuardId)
      → ℕ
      → PetriNet
      → Option PetriNet
  unfolding place_group
  place_groups info [] group_id s = some s
  place_groups info ((root, group) ∷ groups) group_id s = do
    ty ← first_kind info group
    place_groups info groups (group_id + 1) (place_group ty group_id group s)

  unfoldable pub keys {ℓ κ} : {K : Type ℓ} {V : Type κ} → List (K × V) → List K
  keys [] = []
  keys ((k, v) ∷ m) = k ∷ keys m

  -- From all the guards of the program with their kinds, and the receivers of their acquisitions.
  pub construct_lock_with_dfs :
      List (LockGuardId × LockGuardTy) → List (LockGuardId × AliasId) → PetriNet → Option PetriNet
  unfolding locks_may_alias by_root place_groups keys
  construct_lock_with_dfs info lock_objects s = do
    let lockid_vec = keys info
    union_find ← unite_all (locks_may_alias lock_objects) lockid_vec (singletons lockid_vec [])
    groups ← by_root union_find lockid_vec []
    place_groups info groups 0 s

-- ===== src/Detect/Datarace/Merge.antt =====
-- src/detect/datarace.rs: the conditions of all states are merged by their variable.
pub mod Best
use conc_bug_dect_rust.Prelude.{
  Apart, Bool, Every, List, Option, Text, [], cons, false, if_intro, if◌then◌else◌, length, list_eq,
  list_ord, lookup, lookup-Every, ltb, map, nat_eq, nat_ord, nil, none, pair_eq, pair_ord, put,
  refl, some, sort_by, true, ℕ, ◌&&◌, ◌+◌, ◌==◌, ◌||◌, ◌∷◌, ◌≡◌,
}
use conc_bug_dect_rust.Detect.Datarace.{
  RaceOperation, RaceCondition, less, bit, read, write, data_type_priority,
  race_operation_signature, collect_state_accesses, check_race_in_state,
}
use conc_bug_dect_rust.Detect.Graph.{StateGraph}
use conc_bug_dect_rust.Detect.Datarace.Groups.{put-Every, put-Apart, first}

pub race_operation_quality : RaceOperation → ℕ
race_operation_quality operation = data_type_priority operation.variable

-- The tuples of the source, as nested pairs.
abbrev pub RaceOperationSignature : Type 0
RaceOperationSignature = Text × (Text × (ℕ × Text))

abbrev pub RaceOperationPriority : Type 0
RaceOperationPriority = ℕ × RaceOperationSignature

abbrev pub RaceConditionKey : Type 0
RaceConditionKey = Text × List RaceOperationSignature

abbrev pub RaceConditionPriority : Type 0
RaceConditionPriority = ℕ × (ℕ × (ℕ × (List RaceOperationPriority × RaceConditionKey)))

pub race_operation_priority : RaceOperation → RaceOperationPriority
unfolding race_operation_quality
race_operation_priority operation =
    (race_operation_quality operation, race_operation_signature operation)

sum : List ℕ → ℕ
sum [] = 0
sum (n ∷ ns) = n + sum ns

any_type : Text → List RaceOperation → Bool
any_type t [] = false
any_type t (o ∷ os) = o.operation_type == t || any_type t os

pub has_mixed_access_types : RaceCondition → Bool
unfolding any_type
has_mixed_access_types condition =
    any_type read condition.operations && any_type write condition.operations

pub race_condition_quality : RaceCondition → ℕ
unfolding sum race_operation_quality
race_condition_quality condition = sum (map race_operation_quality condition.operations)

pub race_condition_specificity : List RaceOperationPriority → ℕ
unfolding sum
race_condition_specificity priorities = sum (map first priorities)

pub race_condition_key : RaceCondition → RaceConditionKey
race_condition_key condition =
    (condition.variable_info, sort_by less (map race_operation_signature condition.operations))

pub race_condition_priority : RaceCondition → RaceConditionPriority
unfolding race_condition_quality race_condition_specificity race_condition_key
    has_mixed_access_types race_operation_priority
race_condition_priority condition =
    let priorities = sort_by less (map race_operation_priority condition.operations) in
    (
      race_condition_quality condition,
      (
        bit (has_mixed_access_types condition),
        (race_condition_specificity priorities, (priorities, race_condition_key condition)),
      ),
    )

pub merge_one : Option RaceCondition → RaceCondition → RaceCondition
unfolding race_condition_priority
merge_one none c = c
merge_one (some old) c =
    if less (race_condition_priority old) (race_condition_priority c) then c else old

pub merge_all : List RaceCondition → List (Text × RaceCondition) → List (Text × RaceCondition)
unfolding merge_one
merge_all [] merged = merged
merge_all (c ∷ cs) merged =
    merge_all cs (put c.variable_info (merge_one (lookup c.variable_info merged) c) merged)

second : Text × RaceCondition → RaceCondition
second x = x.1

abbrev pub by_variable : RaceCondition → RaceCondition → Bool
by_variable x y = less x.variable_info y.variable_info

pub merge_race_conditions : List RaceCondition → List RaceCondition
unfolding merge_all second
merge_race_conditions conditions = sort_by by_variable (map second (merge_all conditions []))

-- The loop of `detect` over the nodes; the snapshot of a node's marking is an argument.
pub check_states :
    StateGraph → (ℕ → List (ℕ × ℕ)) → List ℕ → List RaceCondition → List RaceCondition
check_states g snapshot [] race_infos = race_infos
check_states g snapshot (n ∷ ns) race_infos =
    let transitions = collect_state_accesses g n in
    check_states g snapshot ns (
      if ltb (length transitions) 2
      then race_infos
      else check_race_in_state transitions (snapshot n) race_infos)

pub record RaceReport : Type 0 where
  pub has_race : Bool
  pub race_count : ℕ
  pub race_conditions : List RaceCondition

-- `detect`, without its clock.
pub detect : StateGraph → (ℕ → List (ℕ × ℕ)) → RaceReport
unfolding check_states merge_race_conditions
detect g snapshot =
    let race_conditions = merge_race_conditions (check_states g snapshot g.node_indices []) in
    let race_count = length race_conditions in
    if race_count == 0
    then record { has_race = false; race_count = 0; race_conditions = [] }
    else record { has_race = true; race_count = race_count; race_conditions = race_conditions }

module _ (All : RaceCondition → Type 0) where
  unfoldable pub Merged : Text × RaceCondition → Type 0
  Merged x = All x.1 × (x.1.variable_info ≡ x.0)

  merge_one-Merged :
      (o : Option RaceCondition) (c : RaceCondition) {m : List (Text × RaceCondition)}
      → lookup c.variable_info m ≡ o
      → All c
      → Every Merged m
      → Merged (c.variable_info, merge_one o c)
  unfolding merge_one Merged
  merge_one-Merged none c e p h = (p, refl)
  merge_one-Merged (some old) c e p h =
      if_intro (λ x. All x × (x.variable_info ≡ c.variable_info)) _ (λ _. (p, refl))
        (λ _. lookup-Every c.variable_info h e)

  pub merge_all-Merged :
      {cs : List RaceCondition} {m : List (Text × RaceCondition)}
      → Every All cs
      → Every Merged m
      → Apart first m
      → Every Merged (merge_all cs m) × Apart first (merge_all cs m)
  unfolding merge_all
  merge_all-Merged nil h a = (h, a)
  merge_all-Merged {m} (cons {x} p ps) h a =
      merge_all-Merged ps (put-Every x.variable_info _ (merge_one-Merged _ x refl p h) h)
        (put-Apart x.variable_info _ a)

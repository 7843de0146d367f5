-- ===== src/Detect/Datarace.antt =====
-- src/detect/datarace.rs: data races between the unsafe accesses enabled in one state. A `HashMap`
-- is an association list in the order of insertion.
pub mod Groups
pub mod Races
pub mod Merge
use conc_bug_dect_rust.Prelude.{
  Bool, Eq, List, Option, Ord, Text, [], codes, contains, contains_text, decimal, false,
  if◌then◌else◌, length, list_eq, list_ord, lookup, ltb, map, max, nat_eq, nat_ord, none, not,
  pair_eq, pair_ord, put, rfind, some, sort_by, split_first, split_second, starts_with, take, true,
  ℕ, ◌&&◌, ◌*◌, ◌++◌, ◌+◌, ◌>>=◌, ◌||◌, ◌∷◌,
}
use conc_bug_dect_rust.Detect.Graph.{
  TransitionType, unsafe_read, unsafe_write, unsafe_access, UnsafeOp, Edge, StateGraph,
}

pub record StateAccess : Type 0 where
  pub location_id : ℕ
  pub span : Text
  pub basic_block : ℕ
  pub op_type : Text
  pub data_type : Text
  pub is_write : Bool
  pub transition_name : Text

abbrev pub read : Text
read = codes "read"

abbrev pub write : Text
write = codes "write"

ops_of : Text → List UnsafeOp → List StateAccess
ops_of name [] = []
ops_of name (op ∷ ops) =
    record {
      location_id = op.alias;
      span = op.span;
      basic_block = op.basic_block;
      op_type = if op.is_write then write else read;
      data_type = op.ty;
      is_write = op.is_write;
      transition_name = name;
    }
    ∷ ops_of name ops

pub accesses_of : Text → TransitionType → List StateAccess
unfolding ops_of
accesses_of name (unsafe_read alias_id span basic_block place_ty) =
    record {
      location_id = alias_id;
      span = span;
      basic_block = basic_block;
      op_type = read;
      data_type = place_ty;
      is_write = false;
      transition_name = name;
    }
    ∷ []
accesses_of name (unsafe_write alias_id span basic_block place_ty) =
    record {
      location_id = alias_id;
      span = span;
      basic_block = basic_block;
      op_type = write;
      data_type = place_ty;
      is_write = true;
      transition_name = name;
    }
    ∷ []
accesses_of name (unsafe_access ops) = ops_of name ops
accesses_of name _ = []

collect_edges : List Edge → List StateAccess
unfolding accesses_of
collect_edges [] = []
collect_edges (e ∷ es) = accesses_of e.name e.transition_type ++ collect_edges es

pub collect_state_accesses : StateGraph → ℕ → List StateAccess
unfolding collect_edges
collect_state_accesses g state = collect_edges (g.edges state)

pub data DataTypeCategory : Type 0 where
  closure_capture : DataTypeCategory
  thread_handle : DataTypeCategory
  wrapper : DataTypeCategory
  raw_pointer : DataTypeCategory
  scalar : DataTypeCategory

pub priority : DataTypeCategory → ℕ
priority closure_capture = 0
priority thread_handle = 1
priority wrapper = 2
priority raw_pointer = 3
priority scalar = 4

or_text : Text → Option Text → Text
or_text t none = t
or_text t (some s) = s

pub place_type_name : Text → Text
unfolding or_text
place_type_name data_type = or_text data_type (
    split_second data_type (codes "ty: ") >>= λ suffix.
    some (split_first suffix (codes ", variant_index")))

scalar_types : List Text
scalar_types = map codes (
    "i8" ∷ "i16" ∷ "i32" ∷ "i64" ∷ "i128" ∷ "isize" ∷ "u8" ∷ "u16" ∷ "u32" ∷ "u64" ∷ "u128"
    ∷ "usize" ∷ "f32" ∷ "f64" ∷ "bool" ∷ "char" ∷ [])

pub is_scalar_like_type : Text → Bool
unfolding scalar_types
is_scalar_like_type data_type = contains scalar_types data_type

pub data_type_category : Text → DataTypeCategory
unfolding place_type_name is_scalar_like_type
data_type_category data_type =
    let t = place_type_name data_type in
    if contains_text t (codes "Closure(")
    then closure_capture
    else if contains_text t (codes "JoinHandle")
    then thread_handle
    else if starts_with t (codes "*const ") || starts_with t (codes "*mut ")
    then raw_pointer
    else if is_scalar_like_type t
    then scalar
    else wrapper

pub data_type_priority : Text → ℕ
unfolding priority data_type_category
data_type_priority data_type = priority (data_type_category data_type)

pub access_quality : StateAccess → ℕ
unfolding data_type_priority
access_quality access = data_type_priority access.data_type

abbrev pub bit : Bool → ℕ
bit true = 1
bit false = 0

pub state_access_specificity : StateAccess → ℕ
unfolding access_quality
state_access_specificity access = access_quality access * 2 + bit access.is_write

-- The tuples of the source, as nested pairs.
abbrev pub StateAccessSignature : Type 0
StateAccessSignature = ℕ × (ℕ × (Text × (Text × (ℕ × (Text × Text)))))

pub state_access_signature : StateAccess → StateAccessSignature
unfolding access_quality
state_access_signature a = (
  bit a.is_write,
  (access_quality a, (a.op_type, (a.data_type, (a.basic_block, (a.span, a.transition_name))))),
)

abbrev pub less {ℓ} : {A : Type ℓ} ⦃o : Ord A⦄ → A → A → Bool
less ⦃o⦄ = o.less

pub pair_quality : StateAccess → StateAccess → ℕ
unfolding access_quality
pair_quality left right = access_quality left + access_quality right

pub pair_specificity : StateAccess → StateAccess → ℕ
unfolding state_access_specificity
pair_specificity left right = state_access_specificity left + state_access_specificity right

pub forms_mixed_access_pair : StateAccess → StateAccess → Bool
forms_mixed_access_pair left right =
    (left.is_write && not right.is_write) || (not left.is_write && right.is_write)

abbrev pub PairPriority : Type 0
PairPriority = ℕ × (ℕ × (ℕ × (StateAccessSignature × StateAccessSignature)))

-- The two signatures in descending order, after the three numbers.
pub pair_priority : StateAccess → StateAccess → PairPriority
unfolding state_access_signature pair_quality pair_specificity forms_mixed_access_pair
pair_priority left right =
    let l = state_access_signature left in
    let r = state_access_signature right in
    let signatures : StateAccessSignature × StateAccessSignature =
      if less r l then (l, r) else (r, l) in
    (
      pair_quality left right,
      (bit (forms_mixed_access_pair left right), (pair_specificity left right, signatures)),
    )

-- `AccessSiteKey`: the scope of the transition, and the block.
abbrev pub AccessSiteKey : Type 0
AccessSiteKey = Text × ℕ

max_index : Option ℕ → Option ℕ → Option ℕ
max_index none n = n
max_index m none = m
max_index (some m) (some n) = some (max m n)

pub transition_scope_key : Text → Text
unfolding max_index
transition_scope_key name =
    elim (max_index (rfind name (codes "_read_")) (rfind name (codes "_write_"))) [
      | some index ↦ take index name
      | none ↦ name
    ]

pub from_access : StateAccess → AccessSiteKey
unfolding transition_scope_key
from_access access = (transition_scope_key access.transition_name, access.basic_block)

pub record AccessSiteSummary : Type 0 where
  pub site : AccessSiteKey
  pub sort_span : Text
  pub read_representative : Option StateAccess
  pub write_representative : Option StateAccess

pub push_group : List StateAccess → StateAccess → List StateAccess
push_group xs a = xs ++ a ∷ []

pub or_default : Option (List StateAccess) → List StateAccess
or_default none = []
or_default (some xs) = xs

-- `grouped.entry(key(access)).or_default().push(access)` for every access
pub group_by {κ} :
    {K : Type κ} ⦃e : Eq K⦄
    → (StateAccess → K)
    → List StateAccess
    → List (K × List StateAccess)
    → List (K × List StateAccess)
unfolding push_group or_default
group_by key [] grouped = grouped
group_by key (a ∷ xs) grouped =
    group_by key xs (put (key a) (push_group (or_default (lookup (key a) grouped)) a) grouped)

pub group_accesses_by_location : List StateAccess → List (ℕ × List StateAccess)
unfolding group_by
group_accesses_by_location transitions = group_by (λ a. a.location_id) transitions []

-- `filter(…).max_by_key(signature)`: the last of the greatest.
pub greater : StateAccess → Option StateAccess → StateAccess
unfolding state_access_signature
greater a none = a
greater a (some b) = if less (state_access_signature a) (state_access_signature b) then b else a

pub wanted : Bool → StateAccess → Bool
wanted true a = a.is_write
wanted false a = not a.is_write

pub select_site_representative : Bool → List StateAccess → Option StateAccess → Option StateAccess
unfolding greater wanted
select_site_representative prefer_write [] best = best
select_site_representative prefer_write (a ∷ xs) best =
    select_site_representative prefer_write xs
      (if wanted prefer_write a then some (greater a best) else best)

-- `map(span).min().unwrap_or_default()`
min_span : List StateAccess → Text
min_span [] = []
min_span (a ∷ xs) = elim xs [
  | [] ↦ a.span
  | _ ∷ _ ↦ let rest = min_span xs in if less rest a.span then rest else a.span
]

pub summary_of : AccessSiteKey × List StateAccess → AccessSiteSummary
unfolding min_span select_site_representative
summary_of (site, site_accesses) = record {
  site = site;
  sort_span = min_span site_accesses;
  read_representative = select_site_representative false site_accesses none;
  write_representative = select_site_representative true site_accesses none;
}

abbrev pub sort_key : AccessSiteSummary → Text × (ℕ × Text)
sort_key s = (s.site.0, (s.site.1, s.sort_span))

abbrev pub before : AccessSiteSummary → AccessSiteSummary → Bool
before x y = less (sort_key x) (sort_key y)

pub summarize_access_sites : List StateAccess → List AccessSiteSummary
unfolding group_by summary_of from_access
summarize_access_sites accesses = sort_by before (map summary_of (group_by from_access accesses []))

pub present : Option StateAccess → List StateAccess
present none = []
present (some a) = a ∷ []

pub with_right : StateAccess → List StateAccess → List (StateAccess × StateAccess)
with_right left [] = []
with_right left (right ∷ rights) =
    let rest = with_right left rights in
    if left.is_write || right.is_write then (left, right) ∷ rest else rest

pub with_left : List StateAccess → List StateAccess → List (StateAccess × StateAccess)
unfolding with_right
with_left [] rights = []
with_left (left ∷ lefts) rights = with_right left rights ++ with_left lefts rights

pub candidate_pairs : AccessSiteSummary → AccessSiteSummary → List (StateAccess × StateAccess)
unfolding with_left present
candidate_pairs l r =
    with_left (present l.read_representative ++ present l.write_representative)
      (present r.read_representative ++ present r.write_representative)

abbrev pub Best : Type 0
Best = Option (PairPriority × (StateAccess × StateAccess))

-- `match &best_pair`: a tie keeps the earlier pair.
pub keep_best : PairPriority → StateAccess × StateAccess → Best → Best
keep_best score pair none = some (score, pair)
keep_best score pair (some b) = if less b.0 score then some (score, pair) else some b

-- The three nested loops, from the inside.
pub best_of : List (StateAccess × StateAccess) → Best → Best
unfolding pair_priority keep_best
best_of [] best = best
best_of ((left, right) ∷ pairs) best =
    best_of pairs (keep_best (pair_priority left right) (left, right) best)

pub best_right : AccessSiteSummary → List AccessSiteSummary → Best → Best
unfolding best_of candidate_pairs
best_right left [] best = best
best_right left (right ∷ rights) best =
    best_right left rights (best_of (candidate_pairs left right) best)

pub best_left : List AccessSiteSummary → Best → Best
unfolding best_right
best_left [] best = best
best_left (left ∷ rest) best = best_left rest (best_right left rest best)

pub select_best_race_pair : List AccessSiteSummary → Option (StateAccess × StateAccess)
unfolding best_left
select_best_race_pair access_sites = elim (best_left access_sites none) [
  | none ↦ none
  | some (_, pair) ↦ some pair
]

pub record RaceOperation : Type 0 where
  pub operation_type : Text
  pub variable : Text
  pub location : Text
  pub basic_block : Option ℕ

pub record RaceCondition : Type 0 where
  pub operations : List RaceOperation
  pub variable_info : Text
  pub state : List (ℕ × ℕ)

pub build_race_operation : StateAccess → RaceOperation
build_race_operation access = record {
  operation_type = access.op_type;
  variable = access.data_type;
  location = access.span;
  basic_block = some access.basic_block;
}

pub unwrap_or_default : Option ℕ → ℕ
unwrap_or_default none = 0
unwrap_or_default (some n) = n

pub race_operation_signature : RaceOperation → Text × (Text × (ℕ × Text))
unfolding unwrap_or_default
race_operation_signature o =
    (o.operation_type, (o.variable, (unwrap_or_default o.basic_block, o.location)))

abbrev pub sooner : RaceOperation → RaceOperation → Bool
sooner x y = less (race_operation_signature x) (race_operation_signature y)

pub race_condition : ℕ → List (ℕ × ℕ) → StateAccess × StateAccess → RaceCondition
unfolding build_race_operation race_operation_signature
race_condition location_id state_marks (left, right) = record {
  operations = sort_by sooner (build_race_operation left ∷ build_race_operation right ∷ []);
  variable_info = codes "Potential data race on variable " ++ decimal location_id;
  state = state_marks;
}

-- The body of the loop over the locations.
pub check_location : ℕ → List StateAccess → List (ℕ × ℕ) → List RaceCondition → List RaceCondition
unfolding summarize_access_sites select_best_race_pair race_condition
check_location location_id accesses state_marks race_infos =
    let access_sites = summarize_access_sites accesses in
    if ltb (length access_sites) 2 then race_infos else elim (select_best_race_pair access_sites) [
      | none ↦ race_infos
      | some pair ↦ race_infos ++ race_condition location_id state_marks pair ∷ []
    ]

pub check_groups :
    List (ℕ × List StateAccess) → List (ℕ × ℕ) → List RaceCondition → List RaceCondition
unfolding check_location
check_groups [] state_marks race_infos = race_infos
check_groups ((location_id, accesses) ∷ groups) state_marks race_infos =
    check_groups groups state_marks (check_location location_id accesses state_marks race_infos)

pub check_race_in_state : List StateAccess → List (ℕ × ℕ) → List RaceCondition → List RaceCondition
unfolding check_groups group_accesses_by_location
check_race_in_state transitions state_marks race_infos =
    check_groups (group_accesses_by_location transitions) state_marks race_infos

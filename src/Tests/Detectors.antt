-- ===== src/Tests/Detectors.antt =====
-- Concrete inputs for the theorems on src/detect.
use conc_bug_dect_rust.Prelude.{
  Apart, Bool, Every, Every-append, List, List-discrete, Pair-discrete, Text, [], arith, codes,
  cons, contains, decimal, false, if◌then◌else◌, insert, insert_by, length, list_eq, list_ord,
  lookup, nat_eq, nat_ord, nil, none, pair_eq, pair_ord, put, put_sorted, refl, remove_key, some,
  sort_by, suc, true, zero, ℕ, ℕ_discrete, ◌++◌, ◌↔◌, ◌∷◌, ◌≡◌, ◌≤◌, ◌⊎◌,
}
use conc_bug_dect_rust.Detect.Graph.{
  AliasId, TransitionType, atomic_load, atomic_store, lock, other, Edge, StateNode, StateGraph,
}
use conc_bug_dect_rust.Detect.Atomicity
use conc_bug_dect_rust.Detect.Atomicity.{Witness, Ev, av1, detect_witnesses}
use conc_bug_dect_rust.Detect.Atomicity.Reports.{Realised}
use conc_bug_dect_rust.Detect.Atomicity.Exploration.{detect_witnesses_total}
use conc_bug_dect_rust.Detect.Atomicity.Dedupe.{
  ViolationPattern, dedupe_patterns, pattern_eq, pattern_of,
}
use conc_bug_dect_rust.Detect.Atomicity.Dedupe.Described.{
  IsKinded, dedupe_patterns-described, described,
}
use conc_bug_dect_rust.Detect.Datarace.{
  RaceCondition, StateAccess, check_race_in_state, read, write,
}
use conc_bug_dect_rust.Detect.Datarace.Races.{IsRace, check_race_in_state-IsRace}
use conc_bug_dect_rust.Detect.Datarace.Merge.{merge_race_conditions}
use conc_bug_dect_rust.Detect.Datarace.Merge.Best.{HasBest, merge_race_conditions_lem}
use conc_bug_dect_rust.Detect.Deadlock.{
  get_consistently_blocked_transitions, is_transition_enabled, terminal_deadlocks,
}
use conc_bug_dect_rust.Detect.Deadlock.Terminal.{EndsMain, contains-terminal_deadlocks}
use conc_bug_dect_rust.Detect.Deadlock.Traps.{Acquires, Leads, along, blocked-trap, here, locks_it}

alias0 : AliasId
alias0 = record { instance_id = 4; local = 2; array_index = none; field = none }

-- Another element of the same array.
alias1 : AliasId
alias1 = record { instance_id = 4; local = 2; array_index = some 1; field = none }

step : ℕ → ℕ → TransitionType → List Edge
step target id t = record { target = target; id = id; name = codes "t"; transition_type = t } ∷ []

-- Thread 1 loads, thread 2 stores to another element of the array, thread 1 stores.
atomic_edges : ℕ → List Edge
unfolding step
atomic_edges zero = step 1 0 (atomic_load alias0 0 0 1)
atomic_edges (suc zero) = step 2 1 (atomic_store alias1 0 0 2)
atomic_edges (suc (suc zero)) = step 3 2 (atomic_store alias0 0 0 1)
atomic_edges _ = []

node0 : ℕ → StateNode
node0 n = record { places = (1, codes "main_start") ∷ []; enabled = []; marking = λ p. 0 }

atomic_graph : StateGraph
unfolding atomic_edges
atomic_graph = record {
  initial = 0;
  edges = atomic_edges;
  node_indices = 0 ∷ 1 ∷ 2 ∷ 3 ∷ [];
  node = node0;
  edge_weights = [];
}

few_edges : (n : ℕ) → length (atomic_graph.edges n) ≤ 1
unfolding atomic_graph atomic_edges step
few_edges zero = omega arith
few_edges (suc zero) = omega arith
few_edges (suc (suc zero)) = omega arith
few_edges (suc (suc (suc n))) = omega arith

detect_witnesses_total_example :
    (ws : List Witness) × (detect_witnesses 11 atomic_graph 10 10 ≡ Atomicity.done ws)
    × Every (Realised atomic_graph) ws
detect_witnesses_total_example =
    detect_witnesses_total atomic_graph 10 10 1 11 few_edges (omega arith)

-- The search finds a violation although the elements differ: only instance and local are compared.
detect_witnesses_finds :
    (w : Witness) × (detect_witnesses 11 atomic_graph 10 10 ≡ Atomicity.done (w ∷ []))
unfolding detect_witnesses atomic_graph atomic_edges step alias0 alias1 insert lookup put_sorted
    remove_key sort_by insert_by Atomicity.parse_event Atomicity.kind_of ℕ_discrete Pair-discrete
    List-discrete Atomicity.EvKind-discrete
detect_witnesses_finds = (_, refl)

ev : ℕ → Ev
unfolding alias0
ev tid = record { tid = tid; alias = alias0; kind = Atomicity.load; ord = 0; span = 0 }

-- A load, a store by another thread, and a store.
witness : Witness
unfolding ev
witness = record {
  kind = av1;
  start = ev 1;
  mid = record (ev 2) { kind = Atomicity.store };
  end = record (ev 1) { kind = Atomicity.store };
}

witness-IsKinded : IsKinded witness
unfolding witness ev
witness-IsKinded = record { start_kind = refl; mid_kind = refl; end_kind = refl }

abbrev witnesses : List Witness
witnesses = witness ∷ witness ∷ []

abbrev alias_text : AliasId → Text
alias_text a = decimal a.local

abbrev reported : ViolationPattern
reported = pattern_of decimal alias_text av1 witness

dedupe_patterns-described_example :
    (contains (dedupe_patterns decimal alias_text witnesses) reported
      ≡ described decimal alias_text reported witnesses)
    × Apart (λ q. q) (dedupe_patterns decimal alias_text witnesses)
dedupe_patterns-described_example =
    dedupe_patterns-described decimal alias_text witnesses reported
      (cons witness-IsKinded (cons witness-IsKinded nil))

access : ℕ → Bool → StateAccess
access block is_write = record {
  location_id = 7;
  span = codes "main.rs:1";
  basic_block = block;
  op_type = if is_write then write else read;
  data_type = codes "i32";
  is_write = is_write;
  transition_name = codes "main_read_1";
}

transitions : List StateAccess
unfolding access
transitions = access 1 true ∷ access 2 false ∷ []

check_race_in_state-IsRace_example :
    Every (IsRace transitions []) (check_race_in_state transitions [] [])
check_race_in_state-IsRace_example = check_race_in_state-IsRace transitions []

conditions : List RaceCondition
conditions = check_race_in_state transitions [] [] ++ check_race_in_state transitions [] []

conditions-IsRace : Every (IsRace transitions []) conditions
unfolding conditions
conditions-IsRace =
    Every-append (check_race_in_state-IsRace transitions [])
      (check_race_in_state-IsRace transitions [])

merge_race_conditions_lem_example :
    Every (IsRace transitions []) (merge_race_conditions conditions)
    × Apart (λ c. c.variable_info) (merge_race_conditions conditions)
    × Every (λ c. HasBest c (merge_race_conditions conditions)) conditions
merge_race_conditions_lem_example =
    merge_race_conditions_lem (IsRace transitions []) conditions conditions-IsRace

-- Two states that lead to each other; the only transition that acquires lock 3 is enabled in
-- neither, the one for lock 4 in both.
lock_edges : ℕ → List Edge
unfolding step
lock_edges zero = step 1 0 other
lock_edges (suc zero) = step 0 1 other
lock_edges _ = []

lock_node : ℕ → StateNode
lock_node n = record { places = []; enabled = 9 ∷ []; marking = λ p. 0 }

lock_graph : StateGraph
unfolding lock_edges lock_node step
lock_graph = record {
  initial = 2;
  edges = lock_edges;
  node_indices = 0 ∷ 1 ∷ 2 ∷ [];
  node = lock_node;
  edge_weights = step 0 8 (lock 3) ++ step 0 9 (lock 4);
}

lock_blocked : get_consistently_blocked_transitions lock_graph 0 (1 ∷ []) ≡ some (3 ∷ [])
unfolding get_consistently_blocked_transitions lock_graph lock_edges lock_node step sort_by
    insert_by lookup put ℕ_discrete
lock_blocked = refl

-- The cycle goes from its first node to its second.
second_node : Leads lock_graph 0 1
unfolding lock_graph lock_edges step
second_node = along 0 _ here refl

abbrev cycle : List ℕ
cycle = 0 ∷ 1 ∷ []

acquires_three : Acquires 3 (lock 3)
acquires_three = locks_it

blocked-trap_example : (contains cycle 1 ≡ true) × (is_transition_enabled lock_graph 1 8 ≡ false)
unfolding lock_graph step ℕ_discrete
blocked-trap_example =
    blocked-trap lock_graph 0 (1 ∷ []) (3 ∷ []) 0 1 3 0
      (record { target = 0; id = 8; name = codes "t"; transition_type = lock 3 }) lock_blocked refl
      second_node refl refl acquires_three

abbrev nodes : List ℕ
nodes = 0 ∷ 1 ∷ 2 ∷ []

abbrev none_yet : List ℕ
none_yet = []

contains-terminal_deadlocks_example :
    contains (terminal_deadlocks lock_graph nodes none_yet) 2 ≡ true ↔ (
      (contains none_yet 2 ≡ true)
      ⊎ ((contains nodes 2 ≡ true)
          × (lock_graph.edges 2 ≡ [])
          × Every (λ p. ¬ EndsMain p) (lock_graph.node 2).places))
contains-terminal_deadlocks_example = contains-terminal_deadlocks lock_graph nodes none_yet 2

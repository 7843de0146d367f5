-- ===== src/Detect/Deadlock/Search.antt =====
-- src/detect/deadlock.rs: the depth-first search for cycles with blocked locks, on fuel, and the
-- choice between the two searches. The end of the fuel, and the panic of `unwrap`, are `none`.
use conc_bug_dect_rust.Prelude.{
  List, Option, [], contains, if◌then◌else◌, insert, list_eq, list_ord, lookup, ltb, nat_eq,
  nat_ord, none, not, pair_eq, pair_ord, put, remove, some, sort_by, suc, zero, ℕ, ◌++◌, ◌==◌,
  ◌>>=◌, ◌∷◌,
}
use conc_bug_dect_rust.Detect.Graph.{Edge, StateGraph}
use conc_bug_dect_rust.Detect.Deadlock.{
  terminal_deadlocks, or_default, get_consistently_blocked_transitions,
}

pub record Dfs : Type 0 where
  pub visited : List ℕ
  pub stack : List ℕ
  pub cycle_groups : List (List ℕ × List ℕ)

-- `path[path.iter().position(|&x| x == next)..]`
pub from_first : ℕ → List ℕ → List ℕ
from_first next [] = []
from_first next (x ∷ xs) = let rest = from_first next xs in if x == next then x ∷ xs else rest

-- `set.extend(cycle)`
extend : List ℕ → List ℕ → List ℕ
extend [] set = set
extend (n ∷ ns) set = extend ns (insert n set)

add_cycle : List ℕ → List ℕ → Dfs → Dfs
unfolding extend
add_cycle [] cycle s = s
add_cycle (b ∷ bs) cycle s =
    let key = sort_by ltb (b ∷ bs) in
    record s {
      cycle_groups = put key (extend cycle (or_default (lookup key s.cycle_groups))) s.cycle_groups;
    }

-- A back edge to `next`.
pub close_cycle : StateGraph → List ℕ → ℕ → Dfs → Option Dfs
unfolding from_first add_cycle
close_cycle g path next s = elim (from_first next path) [
  | [] ↦ none
  | first ∷ rest ↦ elim (get_consistently_blocked_transitions g first rest) [
    | none ↦ some s
    | some blocked ↦ some (add_cycle blocked (first ∷ rest) s)
  ]
]

-- The loop over the edges; `visit` is the recursive call.
pub dfs_edges : (ℕ → List ℕ → Dfs → Option Dfs) → StateGraph → List ℕ → List Edge → Dfs → Option Dfs
unfolding close_cycle
dfs_edges visit g path [] s = some s
dfs_edges visit g path (e ∷ es) s =
    (if not (contains s.visited e.target)
      then visit e.target path s
      else if contains s.stack e.target
      then close_cycle g path e.target s
      else some s)
    >>= dfs_edges visit g path es

pub find_deadlock_cycles : ℕ → StateGraph → ℕ → List ℕ → Dfs → Option Dfs
unfolding dfs_edges
find_deadlock_cycles zero g current current_path s = none
find_deadlock_cycles (suc fuel) g current current_path s =
    dfs_edges (find_deadlock_cycles fuel g) g (current_path ++ current ∷ []) (g.edges current)
      (record s { visited = insert current s.visited; stack = insert current s.stack })
    >>= λ t. some (record t { stack = remove current t.stack })

pub start_all : ℕ → StateGraph → List ℕ → Dfs → Option Dfs
unfolding find_deadlock_cycles
start_all fuel g [] s = some s
start_all fuel g (n ∷ ns) s =
    (if contains s.visited n then some s else find_deadlock_cycles fuel g n [] s)
    >>= start_all fuel g ns

-- One state of each group.
pub pick_states : List (List ℕ × List ℕ) → List ℕ → List ℕ
pick_states [] deadlocks = deadlocks
pick_states ((key, []) ∷ groups) deadlocks = pick_states groups deadlocks
pick_states ((key, state ∷ states) ∷ groups) deadlocks = pick_states groups (insert state deadlocks)

pub detect_cycle_deadlocks : ℕ → StateGraph → Option (List ℕ)
unfolding start_all pick_states
detect_cycle_deadlocks fuel g =
    start_all fuel g g.node_indices (record { visited = []; stack = []; cycle_groups = [] })
    >>= λ s. some (pick_states s.cycle_groups [])

pub detect_reachability_deadlock : ℕ → StateGraph → Option (List ℕ)
unfolding detect_cycle_deadlocks
detect_reachability_deadlock fuel g = elim (terminal_deadlocks g g.node_indices []) [
  | [] ↦ detect_cycle_deadlocks fuel g
  | n ∷ ns ↦ some (n ∷ ns)
]

-- ===== src/Detect/Deadlock.antt =====
-- src/detect/deadlock.rs: terminal states, cycles with blocked locks, and the path to a state.
-- A `HashSet` is a list in the order of insertion.
pub mod Cycles
pub mod Terminal
pub mod Traps
pub mod Search
use conc_bug_dect_rust.Prelude.{
  Bool, List, Option, Text, [], codes, contains, contains_text, false, if◌then◌else◌, insert,
  length, list_eq, list_ord, lookup, ltb, map, nat_eq, nat_ord, none, not, pair_eq, pair_ord, put,
  some, sort_by, suc, true, zero, ℕ, ◌&&◌, ◌++◌, ◌==◌, ◌>>=◌, ◌||◌, ◌∷◌,
}
use conc_bug_dect_rust.Detect.Graph.{
  TransitionType, lock, rw_lock_read, rw_lock_write, Edge, StateNode, StateGraph,
}

-- `state.places.iter().any(…)`
pub ends_normally : List (ℕ × Text) → Bool
ends_normally [] = false
ends_normally ((tokens, name) ∷ places) =
    (ltb 0 tokens && contains_text name (codes "main_end")) || ends_normally places

-- `is_terminal && !is_normal_termination`
pub is_deadlock : StateGraph → ℕ → Bool
unfolding ends_normally
is_deadlock g n = length (g.edges n) == 0 && not (ends_normally (g.node n).places)

-- The loop over the nodes.
pub terminal_deadlocks : StateGraph → List ℕ → List ℕ → List ℕ
unfolding is_deadlock
terminal_deadlocks g [] deadlocks = deadlocks
terminal_deadlocks g (n ∷ ns) deadlocks =
    terminal_deadlocks g ns (if is_deadlock g n then insert n deadlocks else deadlocks)

-- The transition's lock, for the three kinds of acquisition.
pub lock_of : TransitionType → Option ℕ
lock_of (lock lock_id) = some lock_id
lock_of (rw_lock_write lock_id) = some lock_id
lock_of (rw_lock_read lock_id) = some lock_id
lock_of _ = none

pub or_default : Option (List ℕ) → List ℕ
or_default none = []
or_default (some ids) = ids

pub gather : List Edge → List (ℕ × List ℕ) → List (ℕ × List ℕ)
unfolding lock_of or_default
gather [] locks = locks
gather (e ∷ es) locks = gather es (elim (lock_of e.transition_type) [
  | none ↦ locks
  | some lock_id ↦ put lock_id (or_default (lookup lock_id locks) ++ e.id ∷ []) locks
])

dedup_after : ℕ → List ℕ → List ℕ
dedup_after x [] = []
dedup_after x (y ∷ ys) = let rest = dedup_after y ys in if y == x then rest else y ∷ rest

-- `dedup_by_key`: of equal neighbours the first stays.
pub dedup : List ℕ → List ℕ
unfolding dedup_after
dedup [] = []
dedup (x ∷ xs) = x ∷ dedup_after x xs

pub sorted_ids : ℕ × List ℕ → ℕ × List ℕ
unfolding dedup
sorted_ids (lock_id, ids) = (lock_id, dedup (sort_by ltb ids))

pub collect_lock_transitions : StateGraph → List (ℕ × List ℕ)
unfolding gather sorted_ids
collect_lock_transitions g = map sorted_ids (gather g.edge_weights [])

pub is_transition_enabled : StateGraph → ℕ → ℕ → Bool
is_transition_enabled g state transition_id = contains (g.node state).enabled transition_id

-- No transition of the list is enabled in the state.
pub all_disabled : StateGraph → ℕ → List ℕ → Bool
unfolding is_transition_enabled
all_disabled g state [] = true
all_disabled g state (t ∷ ts) = not (is_transition_enabled g state t) && all_disabled g state ts

pub blocked_at : StateGraph → ℕ → List (ℕ × List ℕ) → List ℕ
unfolding all_disabled
blocked_at g node [] = []
blocked_at g node ((lock_id, ids) ∷ locks) =
    let rest = blocked_at g node locks in if all_disabled g node ids then lock_id ∷ rest else rest

-- `consistently_blocked` intersected with `current_blocked`
pub still_blocked : StateGraph → List (ℕ × List ℕ) → ℕ → List ℕ → List ℕ
unfolding all_disabled
still_blocked g locks node [] = []
still_blocked g locks node (l ∷ ls) =
    let rest = still_blocked g locks node ls in
    elim (lookup l locks) [
      | none ↦ rest
      | some ids ↦ if all_disabled g node ids then l ∷ rest else rest
    ]

-- The loop over the nodes after the first; `none` is its early return.
pub narrow : StateGraph → List (ℕ × List ℕ) → List ℕ → List ℕ → Option (List ℕ)
unfolding still_blocked
narrow g locks [] blocked = some blocked
narrow g locks (n ∷ ns) blocked =
    let left = still_blocked g locks n blocked in
    let rest = narrow g locks ns left in if length left == 0 then none else rest

pub targets_in : List ℕ → List Edge → Bool
targets_in cycle [] = true
targets_in cycle (e ∷ es) = contains cycle e.target && targets_in cycle es

pub is_stable : StateGraph → List ℕ → List ℕ → Bool
unfolding targets_in
is_stable g cycle [] = true
is_stable g cycle (n ∷ ns) = targets_in cycle (g.edges n) && is_stable g cycle ns

-- `all_locks.is_subset(&consistently_blocked)`
pub all_blocked : List (ℕ × List ℕ) → List ℕ → Bool
all_blocked [] blocked = true
all_blocked ((lock_id, ids) ∷ locks) blocked = contains blocked lock_id && all_blocked locks blocked

-- The cycle is given by its first node and the others, since it is never empty.
unfoldable pub get_consistently_blocked_transitions : StateGraph → ℕ → List ℕ → Option (List ℕ)
unfolding blocked_at narrow is_stable all_blocked collect_lock_transitions
get_consistently_blocked_transitions g first rest =
    let locks = collect_lock_transitions g in
    narrow g locks rest (blocked_at g first locks) >>= λ blocked.
    if all_blocked locks blocked
    then none
    else if is_stable g (first ∷ rest) (first ∷ rest)
    then some blocked
    else none

-- The search's variables; `previous` has the edge that reached a node, with its source.
pub record Bfs : Type 0 where
  pub visited : List ℕ
  pub previous : List (ℕ × (ℕ × Edge))
  pub queue : List ℕ

pub scan_edges : ℕ → List Edge → Bfs → Bfs
scan_edges node [] s = s
scan_edges node (e ∷ es) s = scan_edges node es (
    if contains s.visited e.target then s else record {
      visited = insert e.target s.visited;
      previous = put e.target (node, e) s.previous;
      queue = s.queue ++ e.target ∷ [];
    })

-- `while let Some(node) = queue.pop_front()`; `none` is the end of the fuel.
pub bfs : ℕ → StateGraph → ℕ → Bfs → Option Bfs
unfolding scan_edges
bfs zero g target s = elim s.queue [ [] ↦ some s | _ ∷ _ ↦ none ]
bfs (suc fuel) g target s = elim s.queue [
  | [] ↦ some s
  | node ∷ rest ↦
      let next = bfs fuel g target (scan_edges node (g.edges node) (record s { queue = rest })) in
      if node == target then some (record s { queue = rest }) else next
]

abbrev pub Step : Type 0
Step = ℕ × (ℕ × Edge)

-- The walk back to the initial node, already reversed; a missing entry gives the empty path.
pub walk_back : ℕ → ℕ → List (ℕ × (ℕ × Edge)) → ℕ → List Step → Option (List Step)
walk_back zero initial previous current path = if current == initial then some path else none
walk_back (suc fuel) initial previous current path =
    if current == initial then some path else elim (lookup current previous) [
      | none ↦ some []
      | some (source, edge) ↦
          walk_back fuel initial previous source ((source, (current, edge)) ∷ path)
    ]

pub path_to_state : ℕ → StateGraph → ℕ → Option (List Step)
unfolding bfs walk_back
path_to_state fuel g target =
    if target == g.initial
    then some []
    else bfs fuel g target
        (record { visited = g.initial ∷ []; previous = []; queue = g.initial ∷ [] })
      >>= λ s.
          if contains s.visited target
          then walk_back fuel g.initial s.previous target []
          else some []

-- ===== src/Detect/Atomicity.antt =====
-- src/detect/atomicity_violation.rs: the search for AV1, AV2 and AV3 witnesses. A `BTreeMap` is a
-- list in the order of its keys; the array of pattern states is a function of the rule's index;
-- an index out of range, `expect` and `unreachable!` are `none`.
pub mod Patterns
pub mod Reports
pub mod Exploration
pub mod Dedupe
use conc_bug_dect_rust.Prelude.{
  Bool, Eq, List, Option, Ord, [], contains, get_elem?, if◌then◌else◌, insert, leb, length, list_eq,
  list_ord, lookup, ltb, nat_eq, nat_ord, none, not, pair_eq, pair_ord, put_sorted, remove_key,
  some, sort_by, suc, zero, ℕ, ◌&&◌, ◌++◌, ◌-◌, ◌==◌, ◌>>=◌, ◌||◌, ◌∷◌,
}
use conc_bug_dect_rust.Detect.Graph.{
  AliasId, TransitionType, atomic_load, atomic_store, atomic_cmp_xchg, Edge, StateGraph,
}

pub data EvKind : Type 0 where
  load : EvKind
  store : EvKind

unfoldable pub EvKind-discrete : Discrete EvKind
EvKind-discrete = hlevel

instance abbrev pub kind_eq : Eq EvKind
kind_eq = record { dec = EvKind-discrete }

pub record Ev : Type 0 where
  pub tid : ℕ
  pub alias : AliasId
  pub kind : EvKind
  pub ord : ℕ
  pub span : ℕ

unfoldable pub parse_event : TransitionType → Option Ev
parse_event (atomic_load alias order span tid) =
    some (record { tid = tid; alias = alias; kind = load; ord = order; span = span })
parse_event (atomic_store alias order span tid) =
    some (record { tid = tid; alias = alias; kind = store; ord = order; span = span })
parse_event (atomic_cmp_xchg alias success failure span tid) =
    some (record { tid = tid; alias = alias; kind = store; ord = success; span = span })
parse_event _ = none

pub record Rule : Type 0 where
  pub id : ℕ
  pub start : EvKind
  pub mid : EvKind
  pub end : EvKind

-- `RULES`
abbrev pub rule_av1 : Rule
rule_av1 = record { id = 0; start = load; mid = store; end = store }

abbrev pub rule_av2 : Rule
rule_av2 = record { id = 1; start = store; mid = store; end = load }

abbrev pub rule_av3 : Rule
rule_av3 = record { id = 2; start = load; mid = store; end = load }

pub data WitnessKind : Type 0 where
  av1 : WitnessKind
  av2 : WitnessKind
  av3 : WitnessKind

unfoldable pub kind_of : ℕ → Option WitnessKind
kind_of zero = some av1
kind_of (suc zero) = some av2
kind_of (suc (suc zero)) = some av3
kind_of _ = none

pub record Witness : Type 0 where
  pub kind : WitnessKind
  pub start : Ev
  pub mid : Ev
  pub end : Ev

-- `AliasKey`: the instance and the local of an alias, compared in that order; its array index and
-- its field are dropped.
abbrev pub AliasKey : Type 0
AliasKey = ℕ × ℕ

abbrev pub key_of : AliasId → AliasKey
key_of alias = (alias.instance_id, alias.local)

pub record PatternState : Type 0 where
  pub last_start : List ((AliasKey × ℕ) × ℕ)
  pub saw_mid_after_start : List ((AliasKey × ℕ) × List (ℕ × ℕ))

abbrev pub no_pattern : PatternState
no_pattern = record { last_start = []; saw_mid_after_start = [] }

pub record Frame : Type 0 where
  pub node : ℕ
  pub trace : List ℕ
  pub events : List (Option Ev)
  pub pattern_states : ℕ → PatternState

unfoldable pub new : ℕ → Frame
new node = record { node = node; trace = []; events = []; pattern_states = λ _. no_pattern }

-- The tuples of the source, as nested pairs.
abbrev pub Seen : Type 0
Seen = ℕ × (ℕ × (ℕ × ℕ))

abbrev pub StartEntry : Type 0
StartEntry = ℕ × Seen

abbrev pub SawEntry : Type 0
SawEntry = ℕ × StartEntry

-- `StateFingerprint`: the node, and the two vectors of tuples.
abbrev pub StateFingerprint : Type 0
StateFingerprint = ℕ × (List StartEntry × List SawEntry)

starts_of : ℕ → List ((AliasKey × ℕ) × ℕ) → List StartEntry
starts_of rule [] = []
starts_of rule ((((i, l), t), start) ∷ m) = (rule, (i, (l, (t, start)))) ∷ starts_of rule m

intruders_of : ℕ → ℕ → ℕ → ℕ → List (ℕ × ℕ) → List SawEntry
intruders_of rule i l t [] = []
intruders_of rule i l t ((tid, mid) ∷ m) =
    (rule, (i, (l, (t, (tid, mid))))) ∷ intruders_of rule i l t m

saw_of : ℕ → List ((AliasKey × ℕ) × List (ℕ × ℕ)) → List SawEntry
unfolding intruders_of
saw_of rule [] = []
saw_of rule ((((i, l), t), ms) ∷ m) = intruders_of rule i l t ms ++ saw_of rule m

pub less {ℓ} : {A : Type ℓ} ⦃o : Ord A⦄ → A → A → Bool
less ⦃o⦄ = o.less

-- The vectors of the three rules, one after the other, then sorted.
pub from_frame : Frame → StateFingerprint
unfolding starts_of saw_of
from_frame f =
    let starts = λ (r : ℕ). starts_of r (f.pattern_states r).last_start in
    let saws = λ (r : ℕ). saw_of r (f.pattern_states r).saw_mid_after_start in
    (
      f.node,
      (sort_by less (starts 0 ++ starts 1 ++ starts 2), sort_by less (saws 0 ++ saws 1 ++ saws 2)),
    )

-- What the search has found: `witnesses` and `seen`.
pub record Found : Type 0 where
  pub witnesses : List Witness
  pub seen : List Seen

-- The body of `if seen.insert(…)`, with the four reads that can fail.
pub report : Rule → Ev → Frame → ℕ → ℕ → ℕ → Found → Option Found
unfolding kind_of
report rule ev f start_idx mid_idx current_idx out = do
  start_tr ← get_elem? f.trace start_idx
  mid_tr ← get_elem? f.trace mid_idx
  end_tr ← get_elem? f.trace current_idx
  if contains out.seen (rule.id, (start_tr, (mid_tr, end_tr))) then some out else do
    kind ← kind_of rule.id
    start_event ← get_elem? f.events start_idx
    start ← start_event
    mid_event ← get_elem? f.events mid_idx
    mid ← mid_event
    some (record {
      witnesses = out.witnesses ++ record { kind = kind; start = start; mid = mid; end = ev } ∷ [];
      seen = insert (rule.id, (start_tr, (mid_tr, end_tr))) out.seen;
    })

-- The loop over the intruders; it also collects `to_remove`.
pub match_intruders :
    Rule → Ev → Frame → ℕ → ℕ → List (ℕ × ℕ) → List ℕ → Found → Option (List ℕ × Found)
unfolding report
match_intruders rule ev f start_idx current_idx [] to_remove out = some (to_remove, out)
match_intruders rule ev f start_idx current_idx ((tid, mid_idx) ∷ ms) to_remove out =
    if ltb start_idx mid_idx && ltb mid_idx current_idx
    then report rule ev f start_idx mid_idx current_idx out
      >>= match_intruders rule ev f start_idx current_idx ms (to_remove ++ tid ∷ [])
    else match_intruders rule ev f start_idx current_idx ms to_remove out

pub remove_all : List ℕ → List (ℕ × ℕ) → List (ℕ × ℕ)
remove_all [] m = m
remove_all (t ∷ ts) m = remove_all ts (remove_key t m)

-- What is left of the intruders goes back under its key, unless it is empty.
pub put_back :
    AliasKey × ℕ
    → List (ℕ × ℕ)
    → List ((AliasKey × ℕ) × List (ℕ × ℕ))
    → List ((AliasKey × ℕ) × List (ℕ × ℕ))
put_back key [] saw = remove_key key saw
put_back key (m ∷ ms) saw = put_sorted key (m ∷ ms) saw

-- `if ev.kind == rule.end`
pub end_phase : Rule → Ev → Frame → PatternState × Found → Option (PatternState × Found)
unfolding match_intruders remove_all put_back
end_phase rule ev f (s, out) =
    let current_idx = length f.trace - 1 in
    let key : AliasKey × ℕ = (key_of ev.alias, ev.tid) in
    if ev.kind == rule.end
    then elim (lookup key s.last_start) [
      | none ↦ some (s, out)
      | some start_idx ↦ elim (lookup key s.saw_mid_after_start) [
        | none ↦ some (s, out)
        | some intruders ↦ do
          (to_remove, out') ← match_intruders rule ev f start_idx current_idx intruders [] out
          let saw = put_back key (remove_all to_remove intruders) s.saw_mid_after_start
          some (record s { saw_mid_after_start = saw }, out')
      ]
    ]
    else some (s, out)

pub or_default : Option (List (ℕ × ℕ)) → List (ℕ × ℕ)
or_default none = []
or_default (some m) = m

-- The loop over `last_start`.
pub note_mid :
    Ev
    → ℕ
    → List ((AliasKey × ℕ) × ℕ)
    → List ((AliasKey × ℕ) × List (ℕ × ℕ))
    → List ((AliasKey × ℕ) × List (ℕ × ℕ))
unfolding or_default
note_mid ev current_idx [] saw = saw
note_mid ev current_idx (((start_key, tid), start_idx) ∷ starts) saw =
    let key : AliasKey × ℕ = (start_key, tid) in
    note_mid ev current_idx starts (
      if start_key == key_of ev.alias && not (tid == ev.tid)
      then put_sorted key (put_sorted ev.tid current_idx (or_default (lookup key saw))) saw
      else saw)

-- `if ev.kind == rule.mid`
pub mid_phase : Rule → Ev → ℕ → PatternState → PatternState
unfolding note_mid
mid_phase rule ev current_idx s =
    if ev.kind == rule.mid
    then record s {
      saw_mid_after_start = note_mid ev current_idx s.last_start s.saw_mid_after_start;
    }
    else s

-- `if ev.kind == rule.start`
pub start_phase : Rule → Ev → ℕ → PatternState → PatternState
start_phase rule ev current_idx s =
    let key : AliasKey × ℕ = (key_of ev.alias, ev.tid) in
    if ev.kind == rule.start
    then record {
      last_start = put_sorted key current_idx s.last_start;
      saw_mid_after_start = remove_key key s.saw_mid_after_start;
    }
    else s

pub set_pattern : ℕ → PatternState → Frame → Frame
set_pattern rule s f = record f {
  pattern_states = λ r. if r == rule then s else f.pattern_states r;
}

pub try_match : Rule → Ev → Frame × Found → Option (Frame × Found)
unfolding end_phase mid_phase start_phase set_pattern
try_match rule ev (f, out) = do
  let current_idx = length f.trace - 1
  (s, out') ← end_phase rule ev f (f.pattern_states rule.id, out)
  some (
    set_pattern rule.id (start_phase rule ev current_idx (mid_phase rule ev current_idx s)) f,
    out',
  )

-- `for rule in RULES.iter()`
pub match_rules : Option Ev → Frame × Found → Option (Frame × Found)
unfolding try_match
match_rules none x = some x
match_rules (some ev) x = do
  x1 ← try_match rule_av1 ev x
  x2 ← try_match rule_av2 ev x1
  try_match rule_av3 ev x2

-- The successor of a frame along an edge.
pub next_frame : Frame → Edge → Frame
next_frame f e = record f {
  node = e.target;
  trace = f.trace ++ e.id ∷ [];
  events = f.events ++ parse_event e.transition_type ∷ [];
}

-- The state of `detect_witnesses`; the top of the stack is the head of the list.
pub record Search : Type 0 where
  pub stack : List Frame
  pub visited : List StateFingerprint
  pub found : Found

pub take_edge : ℕ → ℕ → Frame → Edge → Search → Option Search
unfolding match_rules next_frame
take_edge max_states max_depth f e s =
    if leb max_depth (length f.trace) || leb max_states (length s.visited) then some s else do
      (g, out) ← match_rules (parse_event e.transition_type) (next_frame f e, s.found)
      some (record s { stack = g ∷ s.stack; found = out })

pub take_edges : ℕ → ℕ → Frame → List Edge → Search → Option Search
unfolding take_edge
take_edges max_states max_depth f [] s = some s
take_edges max_states max_depth f (e ∷ es) s =
    take_edge max_states max_depth f e s >>= take_edges max_states max_depth f es

abbrev pub earlier : Edge → Edge → Bool
earlier a b = ltb a.id b.id

-- The body of `while let Some(frame) = stack.pop()`.
pub visit : StateGraph → ℕ → ℕ → Frame → Search → Option Search
unfolding take_edges from_frame
visit g max_states max_depth f s =
    if leb max_states (length s.visited) || leb max_depth (length f.trace)
    then some s
    else if contains s.visited (from_frame f)
    then some s
    else take_edges max_states max_depth f (sort_by earlier (g.edges f.node))
        (record s { visited = insert (from_frame f) s.visited })

pub data Outcome : Type 0 where
  done : List Witness → Outcome
  panicked : Outcome
  out_of_fuel : Outcome

pub loop : ℕ → StateGraph → ℕ → ℕ → Search → Outcome
unfolding visit
loop zero g max_states max_depth s = elim s.stack [
  | [] ↦ done s.found.witnesses
  | _ ∷ _ ↦ out_of_fuel
]
loop (suc fuel) g max_states max_depth s = elim s.stack [
  | [] ↦ done s.found.witnesses
  | f ∷ rest ↦ elim (visit g max_states max_depth f (record s { stack = rest })) [
    | none ↦ panicked
    | some t ↦ loop fuel g max_states max_depth t
  ]
]

unfoldable pub detect_witnesses : ℕ → StateGraph → ℕ → ℕ → Outcome
unfolding loop new
detect_witnesses fuel g max_states max_depth =
    if max_states == 0
    then done []
    else loop fuel g max_states max_depth (record {
      stack = new g.initial ∷ [];
      visited = [];
      found = record { witnesses = []; seen = [] };
    })

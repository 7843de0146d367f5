-- ===== src/Detect/Graph.antt =====
-- What the detectors read of the state graph and of its transitions. Both are types of another
-- package, so a graph is an argument: its initial node and the outgoing edges of each node.
use conc_bug_dect_rust.Prelude.{
  Bool, List, Option, Text, list_eq, list_ord, nat_eq, nat_ord, pair_eq, pair_ord, ℕ,
}

-- The alias of a transition, as structure.rs converts it.
pub record AliasId : Type 0 where
  pub instance_id : ℕ
  pub local : ℕ
  pub array_index : Option ℕ
  pub field : Option ℕ

-- One access of a merged transition.
pub record UnsafeOp : Type 0 where
  pub is_write : Bool
  pub alias : ℕ
  pub span : Text
  pub basic_block : ℕ
  pub ty : Text

-- The acquisitions of a lock; the atomic transitions, each with its alias, orderings, source span and thread; orderings and
-- spans stand for themselves. The unsafe accesses, each with its alias, span, block and type.
-- Every other transition is `other`.
pub data TransitionType : Type 0 where
  atomic_load : AliasId → ℕ → ℕ → ℕ → TransitionType
  atomic_store : AliasId → ℕ → ℕ → ℕ → TransitionType
  atomic_cmp_xchg : AliasId → ℕ → ℕ → ℕ → ℕ → TransitionType
  unsafe_read : ℕ → Text → ℕ → Text → TransitionType
  unsafe_write : ℕ → Text → ℕ → Text → TransitionType
  unsafe_access : List UnsafeOp → TransitionType
  lock : ℕ → TransitionType
  rw_lock_read : ℕ → TransitionType
  rw_lock_write : ℕ → TransitionType
  other : TransitionType

pub record Edge : Type 0 where
  pub target : ℕ
  pub id : ℕ
  pub name : Text
  pub transition_type : TransitionType

-- What a node of the graph shows: the tokens and names of its places, the ids of the enabled
-- transitions, and its marking by place.
pub record StateNode : Type 0 where
  pub places : List (ℕ × Text)
  pub enabled : List ℕ
  pub marking : ℕ → ℕ

pub record StateGraph : Type 0 where
  pub initial : ℕ
  pub edges : ℕ → List Edge
  pub node_indices : List ℕ
  pub node : ℕ → StateNode
  pub edge_weights : List Edge

-- ===== src/Translate/Net.antt =====
-- The Petri net under construction. Its builder is a type of another package: a net is the list of
-- the calls made on it, the latest first, and the ids that the builder returns are a parameter.
use conc_bug_dect_rust.Prelude.{
  ==_refl, List, Option, Text, [], arith, if_intro, if◌then◌else◌, list_eq, list_ord, nat_eq,
  nat_ord, pair_eq, pair_ord, refl, ℕ, ◌&&◌, ◌+◌, ◌==◌, ◌∷◌, ◌≡◌, ◌≤◌,
}
use conc_bug_dect_rust.Detect.Graph.{UnsafeOp}
use conc_bug_dect_rust.Memory.PointsTo.{AliasId}
use conc_bug_dect_rust.Translate.Primitives.{AtomicOrdering}

pub data PlaceType : Type 0 where
  basic_block : PlaceType
  resources : PlaceType
  function_start : PlaceType
  function_end : PlaceType

-- A capacity of `none` stands for the largest number of the machine.
pub record PtPlace : Type 0 where
  pub name : Text
  pub tokens : ℕ
  pub capacity : Option ℕ
  pub place_type : PlaceType
  pub span : Text

pub data TransitionType : Type 0 where
  start : ℕ → TransitionType
  return_ : ℕ → TransitionType
  goto : TransitionType
  switch : TransitionType
  assert : TransitionType
  drop_ : TransitionType
  function : TransitionType
  wait : TransitionType
  notify : ℕ → TransitionType
  lock : ℕ → TransitionType
  unlock : ℕ → TransitionType
  rw_lock_read : ℕ → TransitionType
  rw_lock_write : ℕ → TransitionType
  spawn : Text → TransitionType
  join : Text → TransitionType
  atomic_load : AliasId → AtomicOrdering → Text → ℕ → TransitionType
  atomic_store : AliasId → AtomicOrdering → Text → ℕ → TransitionType
  unsafe_access : List UnsafeOp → TransitionType

pub data Call : Type 0 where
  place_added : PtPlace → Call
  transition_added : Text → TransitionType → Call
  -- from a place into a transition, and from a transition to a place
  input_added : ℕ → ℕ → ℕ → Call
  output_added : ℕ → ℕ → ℕ → Call
  tokens_set : ℕ → ℕ → Call
  type_set : ℕ → TransitionType → Call

-- The id that the builder gives to the next place and to the next transition.
pub record Ids : Type 0 where
  pub place_id : List Call → ℕ
  pub transition_id : List Call → ℕ

-- The arcs between a place and a transition, in each direction: the weights of the calls.
pub inputs : ℕ → ℕ → List Call → ℕ
inputs p t [] = 0
inputs p t (input_added q u w ∷ calls) =
    let rest = inputs p t calls in if q == p && u == t then w + rest else rest
inputs p t (place_added _ ∷ calls) = inputs p t calls
inputs p t (transition_added _ _ ∷ calls) = inputs p t calls
inputs p t (output_added _ _ _ ∷ calls) = inputs p t calls
inputs p t (tokens_set _ _ ∷ calls) = inputs p t calls
inputs p t (type_set _ _ ∷ calls) = inputs p t calls

pub outputs : ℕ → ℕ → List Call → ℕ
outputs p t [] = 0
outputs p t (output_added q u w ∷ calls) =
    let rest = outputs p t calls in if q == p && u == t then w + rest else rest
outputs p t (place_added _ ∷ calls) = outputs p t calls
outputs p t (transition_added _ _ ∷ calls) = outputs p t calls
outputs p t (input_added _ _ _ ∷ calls) = outputs p t calls
outputs p t (tokens_set _ _ ∷ calls) = outputs p t calls
outputs p t (type_set _ _ ∷ calls) = outputs p t calls

-- The types given to a transition after it was added, the latest first.
pub types_set : ℕ → List Call → List TransitionType
types_set t [] = []
types_set t (type_set u ty ∷ calls) =
    let rest = types_set t calls in if u == t then ty ∷ rest else rest
types_set t (place_added _ ∷ calls) = types_set t calls
types_set t (transition_added _ _ ∷ calls) = types_set t calls
types_set t (input_added _ _ _ ∷ calls) = types_set t calls
types_set t (output_added _ _ _ ∷ calls) = types_set t calls
types_set t (tokens_set _ _ ∷ calls) = types_set t calls

pub types_set-input_added :
    (t p u w : ℕ) (calls : List Call)
    → types_set t (Call.input_added p u w ∷ calls) ≡ types_set t calls
unfolding types_set
types_set-input_added t p u w calls = refl

pub types_set-output_added :
    (t p u w : ℕ) (calls : List Call)
    → types_set t (Call.output_added p u w ∷ calls) ≡ types_set t calls
unfolding types_set
types_set-output_added t p u w calls = refl

pub inputs-le-cons :
    (p t : ℕ) (call : Call) (calls : List Call) → inputs p t calls ≤ inputs p t (call ∷ calls)
unfolding inputs
inputs-le-cons p t (Call.input_added q u w) calls =
    if_intro (λ n. inputs p t calls ≤ n) (q == p && u == t) (λ _. omega arith) (λ _. omega arith)
inputs-le-cons p t (Call.place_added _) calls = omega arith
inputs-le-cons p t (Call.transition_added _ _) calls = omega arith
inputs-le-cons p t (Call.output_added _ _ _) calls = omega arith
inputs-le-cons p t (Call.tokens_set _ _) calls = omega arith
inputs-le-cons p t (Call.type_set _ _) calls = omega arith

pub inputs-input_added :
    (p t w : ℕ) (calls : List Call)
    → inputs p t (Call.input_added p t w ∷ calls) ≡ w + inputs p t calls
unfolding inputs
inputs-input_added p t w calls = rw (==_refl p, ==_refl t) refl

pub outputs-output_added :
    (p t w : ℕ) (calls : List Call)
    → outputs p t (Call.output_added p t w ∷ calls) ≡ w + outputs p t calls
unfolding outputs
outputs-output_added p t w calls = rw (==_refl p, ==_refl t) refl

pub inputs-output_added :
    (p t q u w : ℕ) (calls : List Call)
    → inputs p t (Call.output_added q u w ∷ calls) ≡ inputs p t calls
unfolding inputs
inputs-output_added p t q u w calls = refl

pub outputs-type_set :
    (p t u : ℕ) (ty : TransitionType) (calls : List Call)
    → outputs p t (Call.type_set u ty ∷ calls) ≡ outputs p t calls
unfolding outputs
outputs-type_set p t u ty calls = refl

pub inputs-type_set :
    (p t u : ℕ) (ty : TransitionType) (calls : List Call)
    → inputs p t (Call.type_set u ty ∷ calls) ≡ inputs p t calls
unfolding inputs
inputs-type_set p t u ty calls = refl

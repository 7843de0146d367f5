-- ===== src/Translate/Mir.antt =====
-- What the translation reads of a function's body. The types are the compiler's: here are the
-- constructors and fields that the source matches on, and src/translate/mir_utils.rs.
use conc_bug_dect_rust.Prelude.{
  Bool, List, Option, Text, [], list_eq, list_ord, nat_eq, nat_ord, none, pair_eq, pair_ord, some,
  ℕ, ◌++◌, ◌∷◌,
}
use conc_bug_dect_rust.Memory.PointsTo.{ProjectionElem}

pub record Place : Type 0 where
  pub local : ℕ
  pub projection : List ProjectionElem

-- A constant is its number in the body.
pub data Operand : Type 0 where
  move : Place → Operand
  copy : Place → Operand
  constant : ℕ → Operand

pub data Rvalue : Type 0 where
  use_ : Operand → Rvalue
  repeat : Operand → Rvalue
  cast : Operand → Rvalue
  unary_op : Operand → Rvalue
  binary_op : Operand → Operand → Rvalue
  ref : Place → Rvalue
  raw_ptr : Place → Rvalue
  discriminant : Place → Rvalue
  copy_for_deref : Place → Rvalue
  aggregate : List Operand → Rvalue
  other_rvalue : Rvalue

pub data StatementKind : Type 0 where
  assign : Place → Rvalue → StatementKind
  other_statement : StatementKind

pub record Statement : Type 0 where
  pub span : Text
  pub kind : StatementKind

-- The type of the called operand.
pub data Callee : Type 0 where
  fn_ptr : Callee
  fn_def : ℕ → Callee
  closure : ℕ → Callee
  other_callee : Callee

pub data TerminatorKind : Type 0 where
  goto : ℕ → TerminatorKind
  switch_int : List ℕ → TerminatorKind
  return_ : TerminatorKind
  assert : ℕ → TerminatorKind
  call : Callee → List Operand → Place → Option ℕ → Bool → TerminatorKind
  drop_ : Place → ℕ → TerminatorKind
  false_edge : ℕ → TerminatorKind
  false_unwind : ℕ → TerminatorKind
  yield_ : ℕ → TerminatorKind
  inline_asm : List ℕ → TerminatorKind
  unreachable : TerminatorKind
  unwind_resume : TerminatorKind
  unwind_terminate : TerminatorKind
  coroutine_drop : TerminatorKind
  tail_call : TerminatorKind

pub record Terminator : Type 0 where
  pub span : Text
  pub kind : TerminatorKind

pub record BlockData : Type 0 where
  pub is_cleanup : Bool
  pub is_empty_unreachable : Bool
  pub statements : List Statement
  pub terminator : Option Terminator

unfoldable pub operand_place : Operand → Option Place
operand_place (move place) = some place
operand_place (copy place) = some place
operand_place (constant _) = none

-- `into_iter().collect()` of an option
pub to_list {ℓ} : {A : Type ℓ} → Option A → List A
to_list none = []
to_list (some a) = a ∷ []

pub places_of : List Operand → List Place
unfolding operand_place to_list
places_of [] = []
places_of (o ∷ os) = to_list (operand_place o) ++ places_of os

pub rvalue_read_places : Rvalue → List Place
unfolding operand_place to_list places_of
rvalue_read_places (use_ operand) = to_list (operand_place operand)
rvalue_read_places (repeat operand) = to_list (operand_place operand)
rvalue_read_places (cast operand) = to_list (operand_place operand)
rvalue_read_places (unary_op operand) = to_list (operand_place operand)
rvalue_read_places (binary_op left right) =
    to_list (operand_place left) ++ to_list (operand_place right)
rvalue_read_places (ref place) = place ∷ []
rvalue_read_places (raw_ptr place) = place ∷ []
rvalue_read_places (discriminant place) = place ∷ []
rvalue_read_places (copy_for_deref place) = place ∷ []
rvalue_read_places (aggregate operands) = places_of operands
rvalue_read_places other_rvalue = []

-- ===== src/Pta/Constraint.antt =====
-- src/memory/pta/constraint.rs: inclusion constraints between location ids, and their set.
use conc_bug_dect_rust.Prelude.{
  Bool, Eq, List, [], contains, false, insert, length, list_eq, list_ord, nat_eq, nat_ord, not,
  pair_eq, pair_ord, true, ℕ, ℕ_discrete, ◌∷◌,
}

pub data Constraint : Type 0 where
  address_of : ℕ → ℕ → Constraint
  copy : ℕ → ℕ → Constraint
  load : ℕ → ℕ → Constraint
  store : ℕ → ℕ → Constraint
  offset : ℕ → ℕ → ℕ → Constraint

unfoldable pub Constraint-discrete : Discrete Constraint
Constraint-discrete = hlevel ℕ_discrete

instance abbrev pub constraint_eq : Eq Constraint
constraint_eq = record { dec = Constraint-discrete }

pub record ConstraintSet : Type 0 where
  pub set : List Constraint

abbrev pub empty : ConstraintSet
empty = record { set = [] }

-- The set after the insertion, and whether the constraint was new.
pub add : Constraint → ConstraintSet → ConstraintSet × Bool
add c cs = (record { set = insert c cs.set }, not (contains cs.set c))

pub len : ConstraintSet → ℕ
len cs = length cs.set

pub is_empty : ConstraintSet → Bool
is_empty cs = elim cs.set [ [] ↦ true | _ ∷ _ ↦ false ]

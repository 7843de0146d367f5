-- ===== src/Tests/Translation.antt =====
-- Concrete inputs for the theorems on src/translate.
use conc_bug_dect_rust.Prelude.{
  Bool, List, [], codes, false, list_eq, list_ord, lookup, nat_eq, nat_ord, none, pair_eq, pair_ord,
  true, ℕ, ◌+◌, ◌||◌, ◌∷◌, ◌≡◌,
}
use conc_bug_dect_rust.Detect.Graph.{UnsafeOp}
use conc_bug_dect_rust.Translate.Registry.{
  FunctionRegistry, get_or_insert, insert_function, no_functions, get_or_insert_again,
}
use conc_bug_dect_rust.Translate.UnsafeOps.{merge_ops, writes, any_write, writes-merge_ops}

op : ℕ → Bool → UnsafeOp
op alias is_write = record {
  is_write = is_write;
  alias = alias;
  span = codes "main.rs:1";
  basic_block = 0;
  ty = codes "i32";
}

ops : List UnsafeOp
unfolding op
ops = op 1 false ∷ op 2 false ∷ op 1 true ∷ op 1 false ∷ []

writes-merge_ops_example : writes (lookup 1 (merge_ops ops [])) ≡ writes none || any_write 1 ops
unfolding lookup
writes-merge_ops_example = writes-merge_ops ops [] 1

functions : FunctionRegistry ℕ
functions = insert_function 4 10 11 no_functions

-- A net is here the number of its places.
fresh : ℕ → ℕ × (ℕ × ℕ)
fresh n = (n + 2, (n, n + 1))

get_or_insert_again_example :
    get_or_insert 5 fresh
      (get_or_insert 5 fresh functions 12).0
      (get_or_insert 5 fresh functions 12).1.0
    ≡ get_or_insert 5 fresh functions 12
get_or_insert_again_example = get_or_insert_again 5 fresh functions 12

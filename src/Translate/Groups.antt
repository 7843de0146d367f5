-- ===== src/Translate/Groups.antt =====
-- The union and find of src/translate/petri_net.rs, over a map from each key to its parent.
pub mod Forest
pub mod Connected
use conc_bug_dect_rust.Prelude.{
  Bool, Eq, List, Option, [], if◌then◌else◌, length, list_eq, list_ord, lookup, nat_eq, nat_ord,
  none, pair_eq, pair_ord, put, some, suc, zero, ℕ, ◌==◌, ◌>>=◌, ◌∷◌,
}

module _ {K : Type 0} ⦃e : Eq K⦄ where
  -- On fuel; a key that is missing panics.
  pub find_root : ℕ → List (K × K) → K → Option K
  find_root zero union_find x = none
  find_root (suc fuel) union_find x = elim (lookup x union_find) [
    | none ↦ none
    | some parent ↦ if parent == x then some x else find_root fuel union_find parent
  ]

  -- As many steps as there are keys.
  pub find_of : List (K × K) → K → Option K
  unfolding find_root
  find_of union_find x = find_root (length union_find) union_find x

  pub unite : K → K → List (K × K) → Option (List (K × K))
  unfolding find_of
  unite x y union_find = do
    root_x ← find_of union_find x
    root_y ← find_of union_find y
    some (if root_x == root_y then union_find else put root_y root_x union_find)

  -- Every key is its own parent.
  pub singletons : List K → List (K × K) → List (K × K)
  singletons [] union_find = union_find
  singletons (x ∷ xs) union_find = singletons xs (put x x union_find)

  module _ (may_alias : K → K → Bool) where
    -- One key against the later ones.
    pub unite_with : K → List K → List (K × K) → Option (List (K × K))
    unfolding unite
    unite_with x [] union_find = some union_find
    unite_with x (y ∷ ys) union_find =
        let rest = unite_with x ys union_find in
        if may_alias x y then (unite x y union_find >>= unite_with x ys) else rest

    pub unite_all : List K → List (K × K) → Option (List (K × K))
    unfolding unite_with
    unite_all [] union_find = some union_find
    unite_all (x ∷ xs) union_find = unite_with x xs union_find >>= unite_all xs

-- ===== src/Translate/Construct/Functions.antt =====
-- construct_func and process_functions of src/translate/petri_net.rs: which functions get places.
pub mod Filtered
use conc_bug_dect_rust.Prelude.{
  Bool, Bool-cases, List, Text, [], ap, arith, eq_of_==, false, if◌then◌else◌, inl, inr, list_eq,
  list_ord, nat_eq, nat_ord, not, pair_eq, pair_ord, refl, subst, true, ℕ, ◌&&◌, ◌==◌, ◌||◌, ◌∙◌,
  ◌∷◌, ◌≡◌,
}
use conc_bug_dect_rust.Translate.Construct.{
  PetriNet, Setup, add_place, create_function_places, crate_filter_match, places_of_function,
  process_functions, should_ignore_function,
}
use conc_bug_dect_rust.Translate.Registry.{
  FunctionRegistry, has_function, has_function-insert_function, insert_function,
}

module _ (o : Setup) where
  -- Some node is the function, under a name that the filter takes and that is not ignored.
  pub wanted : List (ℕ × Text) → ℕ → Bool
  wanted [] id = false
  wanted ((func_id, func_name) ∷ nodes) id =
      (func_id == id
        && (crate_filter_match o func_name && not (should_ignore_function o func_name)))
      || wanted nodes id

  pub places_of_function-inserted :
      (main_func func_id : ℕ) (name : Text) (s : PetriNet)
      → (start : ℕ) × (end : ℕ) × ((places_of_function o main_func func_id name s).functions
          ≡ insert_function func_id start end s.functions)
  unfolding places_of_function create_function_places add_place
  places_of_function-inserted main_func func_id name s =
      let places = (create_function_places o name (func_id == main_func) s).1 in
      (
        places.0,
        places.1,
        elim (Bool-cases (func_id == main_func)) [ inl e ↦ rw (e) refl | inr e ↦ rw (e) refl ],
      )

  placed :
      (main_func func_id : ℕ) (name : Text) (s : PetriNet) (id : ℕ)
      → has_function (places_of_function o main_func func_id name s).functions id
        ≡ (func_id == id || has_function s.functions id)
  placed main_func func_id name s id =
      let (start, end, e) = places_of_function-inserted main_func func_id name s in
      ap (λ (r : FunctionRegistry ℕ). has_function r id) e
      ∙ has_function-insert_function func_id start end s.functions id

  old_function :
      (r : FunctionRegistry ℕ) (func_id id : ℕ) (b : Bool)
      → has_function r func_id ≡ true
      → has_function r id ≡ (has_function r id || (func_id == id && b))
  old_function r func_id id b h = elim (Bool-cases (func_id == id)) [
    | inl e ↦
        let there = subst (λ k. has_function r k ≡ true) (eq_of_== func_id id e) h in ground arith
    | inr e ↦ ground arith
  ]

  step_lem :
      (main_func func_id : ℕ) (name : Text) (s : PetriNet) (id : ℕ)
      → has_function
          (if not (crate_filter_match o name)
              || has_function s.functions func_id
              || should_ignore_function o name
            then s
            else places_of_function o main_func func_id name s).functions
          id
        ≡ (has_function s.functions id
            || (func_id == id
                && (crate_filter_match o name && not (should_ignore_function o name))))
  step_lem main_func func_id name s id =
      let new = placed main_func func_id name s id in
      elim (Bool-cases (has_function s.functions func_id)) [
        | inl h ↦
            let old =
              old_function s.functions func_id id
                (crate_filter_match o name && not (should_ignore_function o name)) h in
            ground (arith, old)
        | inr h ↦ ground (arith, new)
      ]

  pub has_function-process_functions :
      (main_func : ℕ) (nodes : List (ℕ × Text)) (s : PetriNet) (id : ℕ)
      → has_function (process_functions o main_func nodes s).functions id
        ≡ (has_function s.functions id || wanted nodes id)
  unfolding process_functions wanted
  has_function-process_functions main_func [] s id = ground arith
  has_function-process_functions main_func ((func_id, name) ∷ nodes) s id =
      has_function-process_functions main_func nodes _ id
      ∙ ap (λ b. b || wanted nodes id) (step_lem main_func func_id name s id)
      ∙ ground arith

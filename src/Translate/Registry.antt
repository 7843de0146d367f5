-- ===== src/Translate/Registry.antt =====
-- src/translate/structure.rs: the places of resources and of functions. A method that only gives
-- access to a map is the record's field.
use conc_bug_dect_rust.Prelude.{
  Bool, Bool-cases, Eq, List, Option-cases, [], arith, false, inl, inr, list_eq, list_ord, lookup,
  lookup-put, nat_eq, nat_ord, none, pair_eq, pair_ord, put, refl, some, true, ℕ, ◌==◌, ◌||◌, ◌≡◌,
}
use conc_bug_dect_rust.Memory.PointsTo.{AliasId}
use conc_bug_dect_rust.Translate.Primitives.{AtomicOrdering}

abbrev pub rwlock_capacity : ℕ
rwlock_capacity = 10

pub record ResourceRegistry : Type 0 where
  pub locks : List (AliasId × ℕ)
  pub condvars : List (AliasId × ℕ)
  pub atomic_places : List (AliasId × List ℕ)
  pub atomic_orders : List (AliasId × AtomicOrdering)
  pub unsafe_groups : List (AliasId × ℕ)
  pub channel_places : List (AliasId × ℕ)

pub no_resources : ResourceRegistry
no_resources = record {
  locks = [];
  condvars = [];
  atomic_places = [];
  atomic_orders = [];
  unsafe_groups = [];
  channel_places = [];
}

-- A function's id is the compiler's, so its type is a parameter.
pub record FunctionRegistry (D : Type 0) : Type 0 where
  pub counter : List (D × (ℕ × ℕ))

module _ {D : Type 0} ⦃e : Eq D⦄ where
  pub no_functions : FunctionRegistry D
  no_functions = record { counter = [] }

  pub has_function : FunctionRegistry D → D → Bool
  has_function r def_id = elim (lookup def_id r.counter) [ none ↦ false | some _ ↦ true ]

  pub insert_function : D → ℕ → ℕ → FunctionRegistry D → FunctionRegistry D
  insert_function def_id start end r = record { counter = put def_id (start, end) r.counter }

  pub has_function-insert_function :
      (def_id : D) (start end : ℕ) (r : FunctionRegistry D) (id : D)
      → has_function (insert_function def_id start end r) id ≡ (def_id == id || has_function r id)
  unfolding has_function insert_function
  has_function-insert_function def_id start end r id = elim (Bool-cases (def_id == id)) [
    | inl e ↦
        rw (insert_function, has_function, lookup-put def_id id (start, end) r.counter, e) refl
    | inr e ↦
        rw (insert_function, has_function, lookup-put def_id id (start, end) r.counter, e) refl
  ]

  pub lookup-insert_function :
      (def_id : D) (start end : ℕ) (r : FunctionRegistry D) (id : D)
      → (def_id == id) ≡ false
      → lookup id (insert_function def_id start end r).counter ≡ lookup id r.counter
  unfolding insert_function
  lookup-insert_function def_id start end r id other =
      rw (lookup-put def_id id (start, end) r.counter, other) refl

  -- `create` makes the two places in a net of type `N`, and runs only for a new function.
  pub get_or_insert :
      {N : Type 0}
      → D
      → (N → N × (ℕ × ℕ))
      → FunctionRegistry D
      → N
      → FunctionRegistry D × (N × (ℕ × ℕ))
  get_or_insert def_id create r n = elim (lookup def_id r.counter) [
    | some existing ↦ (r, (n, existing))
    | none ↦
        let (n', pair) = create n in (record { counter = put def_id pair r.counter }, (n', pair))
  ]

  module _ {N : Type 0} (def_id : D) (create : N → N × (ℕ × ℕ)) (r : FunctionRegistry D)
      (n : N) where
    get_or_insert_old :
        (pair : ℕ × ℕ)
        → lookup def_id r.counter ≡ some pair
        → get_or_insert def_id create r n ≡ (r, (n, pair))
    unfolding get_or_insert
    get_or_insert_old pair old = rw (old, get_or_insert) refl

    get_or_insert_new :
        lookup def_id r.counter ≡ none
        → get_or_insert def_id create r n
          ≡ (record { counter = put def_id (create n).1 r.counter }, create n)
    unfolding get_or_insert
    get_or_insert_new new = rw (new, get_or_insert) refl

  -- Asking again for a function gives the same two places, and leaves the registry and the net as
  -- they are.
  pub get_or_insert_again :
      {N : Type 0} (def_id : D) (create : N → N × (ℕ × ℕ)) (r : FunctionRegistry D) (n : N)
      → get_or_insert def_id create
          (get_or_insert def_id create r n).0
          (get_or_insert def_id create r n).1.0
        ≡ get_or_insert def_id create r n
  get_or_insert_again def_id create r n = elim (Option-cases (lookup def_id r.counter)) [
    | inr (pair, old) ↦ let once = get_or_insert_old def_id create r n pair old in rw once once
    | inl new ↦ rw (get_or_insert_new def_id create r n new) (
        get_or_insert_old def_id create _ (create n).0 (create n).1
          (ground (arith, lookup-put def_id def_id (create n).1 r.counter)))
  ]

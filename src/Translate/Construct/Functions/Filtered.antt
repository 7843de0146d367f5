-- ===== src/Translate/Construct/Functions/Filtered.antt =====
-- construct_func and process_functions of src/translate/petri_net.rs: the names whose functions get
-- places, and that a function gets them once.
use conc_bug_dect_rust.Prelude.{
  Every, List, Text, [], codes, contains, contains_text, false, list_eq, list_ord, nat_eq, nat_ord,
  pair_eq, pair_ord, starts_with, true, ℕ, ◌∷◌, ◌≡◌,
}
use conc_bug_dect_rust.Translate.Construct.{CrateNameList, Setup}

-- The names that the crate filter takes: with a list of crates those of a listed one, without a list
-- or with a list of excluded ones those of the crate itself, less those of an excluded one.
pub data Taken (crate_name : Text) : CrateNameList → Text → Type 0 where
  listed :
      {list : List Text} {name : Text} (c : Text)
      → contains list c ≡ true
      → starts_with name c ≡ true
      → Taken crate_name (CrateNameList.white list) name
  own :
      {name : Text}
      → starts_with name crate_name ≡ true
      → Taken crate_name (CrateNameList.white []) name
  not_excluded :
      {list : List Text} {name : Text}
      → starts_with name crate_name ≡ true
      → Every (λ c. starts_with name c ≡ false) list
      → Taken crate_name (CrateNameList.black list) name

-- Parts of names of generated, formatting and test code.
abbrev pub uninteresting : List Text
uninteresting =
    codes "::serialize"
    ∷ codes "::serialize_"
    ∷ codes "::deserialize"
    ∷ codes "::deserialize_"
    ∷ codes "::serde"
    ∷ codes "::serde_json"
    ∷ codes "::serde_yaml"
    ∷ codes "::serde_with"
    ∷ codes "::__serde"
    ∷ codes "::__private"
    ∷ codes "::Serializer::"
    ∷ codes "::Deserializer::"
    ∷ codes "::Serialize::"
    ∷ codes "::Deserialize::"
    ∷ codes "::visit_"
    ∷ codes "::Visitor::visit"
    ∷ codes "::fmt::"
    ∷ codes "::Debug::fmt"
    ∷ codes "::core::fmt"
    ∷ codes "::alloc::fmt"
    ∷ codes "::tests::"
    ∷ codes "::test::"
    ∷ codes "::bench"
    ∷ []

-- The name has no such part.
abbrev pub Interesting : Text → Type 0
Interesting name = Every (λ part. contains_text name part ≡ false) uninteresting

-- Some node is the function, under a name that is taken and interesting.
pub data Chosen (o : Setup) (id : ℕ) : List (ℕ × Text) → Type 0 where
  this_node :
      {func_id : ℕ} {name : Text} {nodes : List (ℕ × Text)}
      → func_id ≡ id
      → Taken o.crate_name o.crate_filter name
      → Interesting name
      → Chosen o id ((func_id, name) ∷ nodes)
  later_node :
      {node : ℕ × Text} {nodes : List (ℕ × Text)} → Chosen o id nodes → Chosen o id (node ∷ nodes)

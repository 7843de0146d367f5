-- ===== src/Pta/Intern.antt =====
-- src/memory/pta/intern.rs: values as dense 32-bit ids. The map is an association list, and a read
-- past the end of `items` (a panic in the source) is `none`.
pub mod Laws
use conc_bug_dect_rust.Prelude.{
  Bool, Eq, List, Option, [], false, get_elem?, length, list_eq, list_ord, lookup, nat_eq, nat_ord,
  none, pair_eq, pair_ord, put, some, suc, true, ℕ, ◌%◌, ◌++◌, ◌∷◌, ◌≡◌,
}

-- 2^32: an id is a `u32`.
abbrev pub u32_mod : ℕ
u32_mod = 4294967296

pub record Interner {ℓ} (A : Type ℓ) : Type ℓ where
  pub ids : List (A × ℕ)
  pub items : List A

abbrev pub empty {ℓ} : {A : Type ℓ} → Interner A
empty = record { ids = []; items = [] }

module _ {ℓ} {A : Type ℓ} where
  unfoldable pub get : Interner A → ℕ → Option A
  get i id = get_elem? i.items id

  unfoldable pub len : Interner A → ℕ
  len i = length i.items

  pub is_empty : Interner A → Bool
  is_empty i = elim i.items [ [] ↦ true | _ ∷ _ ↦ false ]

  enumerate_from : ℕ → List A → List (ℕ × A)
  enumerate_from n [] = []
  enumerate_from n (v ∷ vs) = (n % u32_mod, v) ∷ enumerate_from (suc n) vs

  unfoldable pub iter : Interner A → List (ℕ × A)
  unfolding enumerate_from
  iter i = enumerate_from 0 i.items

module _ {ℓ} {A : Type ℓ} ⦃e : Eq A⦄ where
  unfoldable pub get_id : Interner A → A → Option ℕ
  get_id i value = lookup value i.ids

  unfoldable pub intern : A → Interner A → Interner A × ℕ
  intern value i = elim (lookup value i.ids) [
    | some id ↦ (i, id)
    | none ↦
        let id = length i.items % u32_mod in
        (record { ids = put value id i.ids; items = i.items ++ value ∷ [] }, id)
  ]

  -- The two tables agree, in both directions, so that no value has two ids.
  pub record IsValid (i : Interner A) : Type ℓ where
    pub stored : (v : A) (id : ℕ) → get_id i v ≡ some id → get i id ≡ some v
    pub known : (v : A) (id : ℕ) → get i id ≡ some v → get_id i v ≡ some id

-- Every id that was handed out keeps its value.
abbrev pub Extends {ℓ} : {A : Type ℓ} → Interner A → Interner A → Type ℓ
Extends {A} i j = (id : ℕ) (v : A) → get i id ≡ some v → get j id ≡ some v

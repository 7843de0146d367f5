-- ===== src/Pta/Intern/Laws.antt =====
-- The interner of src/memory/pta/intern.rs: each value has one id, and ids keep their values.
use conc_bug_dect_rust.Prelude.{
  Eq, List, Option-cases, [], arith, get_elem?, get_elem?-append, get_elem?-concat, inl, inr,
  length, length-append, list_eq, list_ord, lookup, lookup-put, nat_eq, nat_ord, none, pair_eq,
  pair_ord, put, some, suc, zero, ℕ, ◌%◌, ◌++◌, ◌<◌, ◌∷◌, ◌≡◌, ◌≤◌, ◌⊎◌,
}
use native.Mathlib.Nat.{mod-eq_of_lt}
use conc_bug_dect_rust.Pta.Intern.{Interner, u32_mod, empty, get, get_id, intern, IsValid, Extends}

module _ {ℓ} {A : Type ℓ} ⦃e : Eq A⦄ where
  pub intern_old : (v : A) (i : Interner A) {id : ℕ} → get_id i v ≡ some id → intern v i ≡ (i, id)
  unfolding intern get_id
  intern_old v i h = rw (h, intern)

  pub intern_new :
      (v : A) (i : Interner A)
      → get_id i v ≡ none
      → intern v i ≡ (
        record { ids = put v (length i.items % u32_mod) i.ids; items = i.items ++ v ∷ [] },
        length i.items % u32_mod,
      )
  unfolding intern get_id
  intern_new v i h = rw (h, intern)

  pub intern-Extends : (v : A) (i : Interner A) → Extends i (intern v i).0
  unfolding get
  intern-Extends v i id w h = elim (Option-cases (get_id i v)) [
    | inl new ↦ rw (intern_new v i new) (get_elem?-append i.items (v ∷ []) id h)
    | inr (id', old) ↦ rw (intern_old v i old) h
  ]

  pub length-intern-le : (v : A) (i : Interner A) → length i.items ≤ length (intern v i).0.items
  length-intern-le v i = elim (Option-cases (get_id i v)) [
    | inl new ↦ rw (intern_new v i new) (omega (arith, length-append i.items (v ∷ [])))
    | inr (id, old) ↦ rw (intern_old v i old) (omega arith)
  ]

  -- The new entry is the only one at its index.
  get_elem?-concat_cases :
      (xs : List A) (a : A) (i : ℕ) {b : A}
      → get_elem? (xs ++ a ∷ []) i ≡ some b
      → (get_elem? xs i ≡ some b) ⊎ ((i ≡ length xs) × (b ≡ a))
  get_elem?-concat_cases [] a zero h = ground arith
  get_elem?-concat_cases [] a (suc i) h = cc
  get_elem?-concat_cases (x ∷ xs) a zero h = inl h
  get_elem?-concat_cases (x ∷ xs) a (suc i) h = ground (arith, get_elem?-concat_cases xs a i h)

  -- Interning adds the value and nothing else.
  pub get-intern_cases :
      (v : A) (i : Interner A) (id : ℕ) {w : A}
      → get (intern v i).0 id ≡ some w
      → (get i id ≡ some w) ⊎ (w ≡ v)
  unfolding get
  get-intern_cases v i id h = elim (Option-cases (get_id i v)) [
    | inl new ↦ ground (arith, get_elem?-concat_cases i.items v id (rw (intern_new v i new) at h))
    | inr (id', old) ↦ inl (rw (intern_old v i old) at h)
  ]

  new-IsValid :
      (v : A) (i : Interner A)
      → IsValid i
      → length i.items < u32_mod
      → get_id i v ≡ none
      → IsValid (record { ids = put v (length i.items) i.ids; items = i.items ++ v ∷ [] })
  unfolding get get_id
  new-IsValid v i h small new = record {
    stored = λ w id q. ground (
      arith,
      lookup-put v w (length i.items) i.ids,
      h.stored w id,
      get_elem?-append i.items (v ∷ []) id {a = w},
      get_elem?-concat i.items v,
    );
    known = λ w id q. ground (
      arith,
      get_elem?-concat_cases i.items v id q,
      lookup-put v w (length i.items) i.ids,
      h.known w id,
    );
  }

  pub intern-IsValid :
      (v : A) (i : Interner A)
      → IsValid i
      → length (intern v i).0.items ≤ u32_mod
      → IsValid (intern v i).0
  intern-IsValid v i h fits = elim (Option-cases (get_id i v)) [
    | inl new ↦
        let small : length i.items < u32_mod =
          omega (arith, length-append i.items (v ∷ []), rw (intern_new v i new) at fits) in
        rw (intern_new v i new, mod-eq_of_lt small) (new-IsValid v i h small new)
    | inr (id, old) ↦ rw (intern_old v i old) h
  ]

  pub get-intern :
      (v : A) (i : Interner A)
      → IsValid i
      → length (intern v i).0.items ≤ u32_mod
      → get (intern v i).0 (intern v i).1 ≡ some v
  unfolding get
  get-intern v i h fits = elim (Option-cases (get_id i v)) [
    | inl new ↦
        let small : length i.items < u32_mod =
          omega (arith, length-append i.items (v ∷ []), rw (intern_new v i new) at fits) in
        rw (intern_new v i new, mod-eq_of_lt small) (get_elem?-concat i.items v)
    | inr (id, old) ↦ rw (intern_old v i old) (h.stored v id old)
  ]

  -- On a valid interner whose table still fits into 32 bits after the call: `get` gives the
  -- interned value back at its id, the ids handed out before keep their values, the tables still
  -- agree, and two interned values share an id only if they are equal.
  pub intern_lem :
      (i : Interner A) (v w : A)
      → IsValid i
      → length (intern v i).0.items ≤ u32_mod
      → (get (intern v i).0 (intern v i).1 ≡ some v)
        × Extends i (intern v i).0
        × IsValid (intern v i).0
        × (get_id (intern v i).0 w ≡ some (intern v i).1 → w ≡ v)
  intern_lem i v w h fits =
      let valid = intern-IsValid v i h fits in
      let back = get-intern v i h fits in
      (back, intern-Extends v i, valid, λ q. ground (arith, valid.stored w (intern v i).1 q))

  -- Interning a value a second time changes nothing and gives the same id.
  pub intern_again : (i : Interner A) (v : A) → intern v (intern v i).0 ≡ intern v i
  unfolding get_id
  intern_again i v = elim (Option-cases (get_id i v)) [
    | inl new ↦
        rw (intern_new v i new)
          (intern_old v _ (ground (arith, lookup-put v v (length i.items % u32_mod) i.ids)))
    | inr (id, old) ↦ rw (intern_old v i old) (intern_old v i old)
  ]

pub empty-IsValid {ℓ} : {A : Type ℓ} ⦃e : Eq A⦄ → IsValid (empty {A = A})
unfolding get get_id lookup
empty-IsValid = record { stored = λ v id h. cc; known = λ v id h. cc }

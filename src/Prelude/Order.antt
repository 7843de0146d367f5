-- ===== src/Prelude/Order.antt =====
-- `Ord` of the source on numbers and tuples, `sort`, and `BTreeMap` as a list in order.
use Prim.Native.Nat.{ℕ}
use mathlib.Core.Path.{◌≡◌, refl, subst, sym}
use mathlib.Core.Logic.{inl, inr, ◌≢◌}
use mathlib.Core.Bool.{Bool, ◌&&◌, ◌||◌}
use mathlib.Core.Option.{some}
use mathlib.Core.List.{List, [], ◌∷◌}
use native.Mathlib.Omega.{arith}
use conc_bug_dect_rust.Prelude.Tests.{
  Eq, ◌==◌, if◌then◌else◌, ltb, nat_eq, pair_eq, Bool-cases, if_intro,
}
use conc_bug_dect_rust.Prelude.Lists.{length}
use conc_bug_dect_rust.Prelude.Maps.{lookup}
use conc_bug_dect_rust.Prelude.Members.{Every, nil, cons, Every-if, Apart, apart_nil, apart_cons}

pub record Ord {ℓ} (A : Type ℓ) : Type ℓ where
  pub less : A → A → Bool

instance abbrev pub nat_ord : Ord ℕ
nat_ord = record { less = ltb }

-- Tuples are compared from the left.
instance abbrev pub pair_ord {ℓ κ} :
    {A : Type ℓ} {B : Type κ} ⦃e : Eq A⦄ ⦃o : Ord A⦄ ⦃o' : Ord B⦄ → Ord (A × B)
pair_ord ⦃e⦄ ⦃o⦄ ⦃o'⦄ = record { less = λ x y. o.less x.0 y.0 || (x.0 == y.0 && o'.less x.1 y.1) }

module _ {ℓ} {A : Type ℓ} where
  unfoldable pub insert_by : (A → A → Bool) → A → List A → List A
  insert_by less a [] = a ∷ []
  insert_by less a (x ∷ xs) =
      let rest = insert_by less a xs in if less x a then x ∷ rest else a ∷ x ∷ xs

  -- A stable sort.
  unfoldable pub sort_by : (A → A → Bool) → List A → List A
  unfolding insert_by
  sort_by less [] = []
  sort_by less (x ∷ xs) = insert_by less x (sort_by less xs)

  length-insert_by :
      (less : A → A → Bool) (a : A) (xs : List A) → length (insert_by less a xs) ≡ length (a ∷ xs)
  unfolding insert_by
  length-insert_by less a [] = refl
  length-insert_by less a (x ∷ xs) = ground (arith, length-insert_by less a xs)

  pub length-sort_by : (less : A → A → Bool) (xs : List A) → length (sort_by less xs) ≡ length xs
  unfolding sort_by
  length-sort_by less [] = refl
  length-sort_by less (x ∷ xs) =
      ground (arith, length-insert_by less x (sort_by less xs), length-sort_by less xs)

  insert_by-Every {κ} :
      {P : A → Type κ} (less : A → A → Bool) (a : A) {xs : List A}
      → P a
      → Every P xs
      → Every P (insert_by less a xs)
  unfolding insert_by
  insert_by-Every less a p nil = cons p nil
  insert_by-Every less a p (cons {x} q h) =
      Every-if (less x a) (λ _. cons q (insert_by-Every less a p h)) (λ _. cons p (cons q h))

  pub sort_by-Every {κ} :
      {P : A → Type κ} (less : A → A → Bool) {xs : List A} → Every P xs → Every P (sort_by less xs)
  unfolding sort_by
  sort_by-Every less nil = nil
  sort_by-Every less (cons {x} p h) = insert_by-Every less x p (sort_by-Every less h)

  insert_by-Apart {κ} :
      {K : Type κ} {key : A → K} (less : A → A → Bool) (a : A) {xs : List A}
      → Every (λ y. key y ≢ key a) xs
      → Apart key xs
      → Apart key (insert_by less a xs)
  unfolding insert_by
  insert_by-Apart less a nil apart_nil = apart_cons nil apart_nil
  insert_by-Apart {key} less a (cons {x} {xs} q h) (apart_cons k r) =
      if_intro (Apart key) (less x a)
        (λ _. apart_cons (insert_by-Every less a (λ e. q (sym e)) k) (insert_by-Apart less a h r))
        (λ _. apart_cons (cons q h) (apart_cons k r))

  pub sort_by-Apart {κ} :
      {K : Type κ} {key : A → K} (less : A → A → Bool) {xs : List A}
      → Apart key xs
      → Apart key (sort_by less xs)
  unfolding sort_by
  sort_by-Apart less apart_nil = apart_nil
  sort_by-Apart less (apart_cons {x} h r) =
      insert_by-Apart less x (sort_by-Every less h) (sort_by-Apart less r)

module _ {ℓ κ} {K : Type ℓ} {V : Type κ} ⦃e : Eq K⦄ where
  -- `map.insert(k, v)`, `map.remove(k)` of a `BTreeMap`
  unfoldable pub put_sorted : ⦃o : Ord K⦄ → K → V → List (K × V) → List (K × V)
  put_sorted k v [] = (k, v) ∷ []
  put_sorted ⦃o⦄ k v ((j, w) ∷ m) =
      let rest = put_sorted k v m in
      if j == k then (k, v) ∷ m else if o.less k j then (k, v) ∷ (j, w) ∷ m else (j, w) ∷ rest

  unfoldable pub remove_key : K → List (K × V) → List (K × V)
  remove_key k [] = []
  remove_key k ((j, w) ∷ m) = let rest = remove_key k m in if j == k then rest else (j, w) ∷ rest

  pub put_sorted-Every {μ} :
      ⦃o : Ord K⦄ {P : K × V → Type μ} (k : K) (v : V) {m : List (K × V)}
      → P (k, v)
      → Every P m
      → Every P (put_sorted k v m)
  unfolding put_sorted
  put_sorted-Every k v p nil = cons p nil
  put_sorted-Every ⦃o⦄ k v p (cons {x} q h) =
      Every-if (x.0 == k) (λ _. cons p h)
        (λ _.
          Every-if (o.less k x.0) (λ _. cons p (cons q h)) (λ _. cons q (put_sorted-Every k v p h)))

  pub remove_key-Every {μ} :
      {P : K × V → Type μ} (k : K) {m : List (K × V)} → Every P m → Every P (remove_key k m)
  unfolding remove_key
  remove_key-Every k nil = nil
  remove_key-Every k (cons {x} q h) =
      Every-if (x.0 == k) (λ _. remove_key-Every k h) (λ _. cons q (remove_key-Every k h))

  -- What holds of every entry holds of one that `get` finds.
  pub lookup-Every {μ} :
      {P : K × V → Type μ} (k : K) {m : List (K × V)} {v : V}
      → Every P m
      → lookup k m ≡ some v
      → P (k, v)
  unfolding lookup
  lookup-Every k nil g = cc
  lookup-Every {P} k (cons {x} q h) g = elim (Bool-cases (x.0 == k)) [
    | inl same ↦ subst P (ground arith) q
    | inr other ↦ lookup-Every k h (ground arith)
  ]

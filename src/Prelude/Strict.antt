-- ===== src/Prelude/Strict.antt =====
-- The orders of the source on numbers, tuples, strings and vectors are strict.
use mathlib.Core.Path.{◌≡◌, refl, subst, sym}
use mathlib.Core.Logic.{inl, inr}
use mathlib.Core.Bool.{Bool, true, false, ◌&&◌, ◌||◌}
use mathlib.Core.List.{List, [], ◌∷◌}
use native.Mathlib.Omega.{arith}
use conc_bug_dect_rust.Prelude.Tests.{Eq, ◌==◌, eq_of_==, nat_eq, Bool-cases}
use conc_bug_dect_rust.Prelude.Order.{Ord, nat_ord, pair_ord}
use conc_bug_dect_rust.Prelude.Strings.{less_list, list_ord}

pub record IsStrict {A : Type 0} (less : A → A → Bool) : Type 0 where
  pub irrefl : (a : A) → less a a ≡ false
  pub trans : (a b c : A) → less a b ≡ true → less b c ≡ true → less a c ≡ true

pub nat-IsStrict : IsStrict nat_ord.less
nat-IsStrict = record { irrefl = λ a. ground arith; trans = λ a b c h k. ground arith }

module _ {A : Type 0} ⦃e : Eq A⦄ ⦃o : Ord A⦄ (s : IsStrict o.less) where
  -- A step of a comparison from the left: the heads, and then what is left.
  lexical :
      (x y z : A) (l m n : Bool)
      → (l ≡ true → m ≡ true → n ≡ true)
      → (o.less x y || (x == y && l)) ≡ true
      → (o.less y z || (y == z && m)) ≡ true
      → (o.less x z || (x == z && n)) ≡ true
  lexical x y z l m n rest h k = elim (Bool-cases (o.less x y)) [
    | inl a ↦ elim (Bool-cases (o.less y z)) [
      | inl b ↦ let c = s.trans x y z a b in ground arith
      | inr b ↦
          let at : (y == z) ≡ true = ground arith in
          let c = subst (λ w. o.less x w ≡ true) (eq_of_== y z at) a in ground arith
    ]
    | inr a ↦
        let at : (x == y) ≡ true = ground arith in
        let l' : l ≡ true = ground arith in
        let same = eq_of_== x y at in
        elim (Bool-cases (o.less y z)) [
          | inl b ↦ let c = subst (λ w. o.less w z ≡ true) (sym same) b in ground arith
          | inr b ↦
              let m' : m ≡ true = ground arith in
              let n' = rest l' m' in
              let at' : (y == z) ≡ true = ground arith in
              let c = subst (λ w. (w == z) ≡ true) (sym same) at' in ground arith
        ]
  ]

  pub pair-IsStrict :
      {B : Type 0} ⦃o' : Ord B⦄
      → IsStrict o'.less
      → IsStrict (pair_ord ⦃e = e⦄ ⦃o = o⦄ ⦃o' = o'⦄).less
  pair-IsStrict ⦃o'⦄ s' = record {
    irrefl = λ a. ground (arith, s.irrefl a.0, s'.irrefl a.1);
    trans = λ a b c h k.
        lexical a.0 b.0 c.0 (o'.less a.1 b.1) (o'.less b.1 c.1) (o'.less a.1 c.1)
          (s'.trans a.1 b.1 c.1) h k;
  }

  less_list_irrefl : (xs : List A) → less_list xs xs ≡ false
  unfolding less_list
  less_list_irrefl [] = refl
  less_list_irrefl (x ∷ xs) = ground (arith, s.irrefl x, less_list_irrefl xs)

  less_list_trans :
      (xs ys zs : List A) → less_list xs ys ≡ true → less_list ys zs ≡ true → less_list xs zs ≡ true
  unfolding less_list
  less_list_trans [] [] zs h k = cc
  less_list_trans [] (y ∷ ys) [] h k = cc
  less_list_trans [] (y ∷ ys) (z ∷ zs) h k = refl
  less_list_trans (x ∷ xs) [] zs h k = cc
  less_list_trans (x ∷ xs) (y ∷ ys) [] h k = cc
  less_list_trans (x ∷ xs) (y ∷ ys) (z ∷ zs) h k =
      lexical x y z (less_list xs ys) (less_list ys zs) (less_list xs zs) (less_list_trans xs ys zs)
        h k

  pub list-IsStrict : IsStrict (list_ord ⦃e = e⦄ ⦃o = o⦄).less
  list-IsStrict = record { irrefl = less_list_irrefl; trans = less_list_trans }

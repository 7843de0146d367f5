-- ===== src/Prelude/Members.antt =====
-- A property of every member of a list.
use mathlib.Core.Path.{◌≡◌, refl, sym, ◌∙◌, subst}
use mathlib.Core.Logic.{◌≢◌, inl, inr}
use mathlib.Core.Bool.{Bool, true, false}
use mathlib.Core.List.{List, [], ◌∷◌, ◌++◌, map}
use mathlib.Core.Option.{Option, none, some}
use Prim.Native.Nat.{ℕ, suc}
use conc_bug_dect_rust.Prelude.Lists.{get_elem?}
use conc_bug_dect_rust.Prelude.Tests.{if◌then◌else◌, Eq, ◌==◌, eq_of_==, Bool-cases}
use conc_bug_dect_rust.Prelude.Sets.{contains}
use native.Mathlib.Omega.{arith}

pub data Every {ℓ κ} {A : Type ℓ} (P : A → Type κ) : List A → Type (ℓ ⊔ κ) where
  nil : Every P []
  cons : {x : A} {xs : List A} → P x → Every P xs → Every P (x ∷ xs)

module _ {ℓ κ} {A : Type ℓ} {P : A → Type κ} where
  pub Every-map {μ} :
      {Q : A → Type μ} {xs : List A} → ((x : A) → P x → Q x) → Every P xs → Every Q xs
  Every-map f nil = nil
  Every-map f (cons p h) = cons (f _ p) (Every-map f h)

  pub Every-both {μ} :
      {Q : A → Type μ} {xs : List A} → Every P xs → Every Q xs → Every (λ x. P x × Q x) xs
  Every-both nil nil = nil
  Every-both (cons p h) (cons q k) = cons (p, q) (Every-both h k)

  pub Every-append : {xs ys : List A} → Every P xs → Every P ys → Every P (xs ++ ys)
  Every-append nil k = k
  Every-append (cons p h) k = cons p (Every-append h k)

  pub Every-if :
      {xs ys : List A} (b : Bool)
      → (b ≡ true → Every P xs)
      → (b ≡ false → Every P ys)
      → Every P (if b then xs else ys)
  Every-if true f g = f refl
  Every-if false f g = g refl

  pub Every-get : (xs : List A) → ((i : ℕ) (x : A) → get_elem? xs i ≡ some x → P x) → Every P xs
  Every-get [] f = nil
  Every-get (x ∷ xs) f = cons (f 0 x refl) (Every-get xs (λ i y h. f (suc i) y h))

pub map-Every {ℓ κ μ} :
    {A : Type ℓ} {B : Type κ} {Q : B → Type μ} (f : A → B) {xs : List A}
    → Every (λ x. Q (f x)) xs
    → Every Q (map f xs)
map-Every f nil = nil
map-Every f (cons p h) = cons p (map-Every f h)

-- No two members have the same key.
pub data Apart {ℓ κ} {A : Type ℓ} {K : Type κ} (key : A → K) : List A → Type (ℓ ⊔ κ) where
  apart_nil : Apart key []
  apart_cons :
      {x : A} {xs : List A} → Every (λ y. key y ≢ key x) xs → Apart key xs → Apart key (x ∷ xs)

pub map-Apart {ℓ κ μ} :
    {A : Type ℓ} {B : Type κ} {K : Type μ} {key : B → K} (f : A → B) {xs : List A}
    → Apart (λ x. key (f x)) xs
    → Apart key (map f xs)
map-Apart f apart_nil = apart_nil
map-Apart f (apart_cons h a) = apart_cons (map-Every f h) (map-Apart f a)

-- What holds of every member holds of one that `contains` finds.
pub Every-contains {ℓ κ} :
    {A : Type ℓ} ⦃e : Eq A⦄ {P : A → Type κ} {xs : List A} (a : A)
    → Every P xs
    → contains xs a ≡ true
    → P a
Every-contains a nil h = cc
Every-contains {P} a (cons {x} p ps) h = elim (Bool-cases (x == a)) [
  | inl same ↦ subst P (eq_of_== x a same) p
  | inr other ↦ Every-contains a ps (ground arith)
]

-- Two keys that agree on the members.
pub Apart-rekey {ℓ κ} :
    {A : Type ℓ} {K : Type κ} {key other : A → K} {xs : List A}
    → Every (λ x. other x ≡ key x) xs
    → Apart key xs
    → Apart other xs
Apart-rekey nil apart_nil = apart_nil
Apart-rekey (cons p ps) (apart_cons h r) =
    apart_cons (Every-map (λ y q e. q.0 (sym q.1 ∙ e ∙ p)) (Every-both h ps)) (Apart-rekey ps r)

-- A new member at the end.
pub append-Apart {ℓ} :
    {A : Type ℓ} ⦃e : Eq A⦄ (xs : List A) (a : A)
    → contains xs a ≡ false
    → Apart (λ x. x) xs
    → Apart (λ x. x) (xs ++ a ∷ [])
append-Apart [] a new apart_nil = apart_cons nil apart_nil
append-Apart (x ∷ xs) a new (apart_cons h r) =
    apart_cons (Every-append h (cons (ground arith) nil)) (append-Apart xs a (ground arith) r)

-- A property of what an option holds, if it holds something.
pub data Holds {ℓ κ} {A : Type ℓ} (P : A → Type κ) : Option A → Type (ℓ ⊔ κ) where
  holds_none : Holds P none
  holds_some : {a : A} → P a → Holds P (some a)

-- ===== src/Prelude/Sets.antt =====
-- `HashSet` as a list without repetitions, in the order of insertion.
use Prim.Native.Nat.{ℕ, zero, suc, ◌+◌, ◌≤◌, ◌<◌}
use mathlib.Core.Path.{◌≡◌, refl}
use mathlib.Core.Bool.{Bool, true, false, not, ◌&&◌, ◌||◌}
use mathlib.Core.List.{List, [], ◌∷◌, ◌++◌}
use native.Mathlib.Omega.{arith}
use conc_bug_dect_rust.Prelude.Tests.{Eq, ◌==◌, if◌then◌else◌}
use conc_bug_dect_rust.Prelude.Lists.{length, length-append}

module _ {ℓ} {A : Type ℓ} ⦃e : Eq A⦄ where
  abbrev pub contains : List A → A → Bool
  contains [] a = false
  contains (x ∷ xs) a = x == a || contains xs a

  -- `set.insert(a)`; the source's result is `not (contains xs a)`.
  unfoldable pub insert : A → List A → List A
  insert a xs = if contains xs a then xs else xs ++ a ∷ []

  -- `set.remove(a)`
  unfoldable pub remove : A → List A → List A
  remove a [] = []
  remove a (x ∷ xs) = let rest = remove a xs in if x == a then rest else x ∷ rest

  pub contains-append :
      (xs ys : List A) (a : A) → contains (xs ++ ys) a ≡ contains xs a || contains ys a
  contains-append [] ys a = refl
  contains-append (x ∷ xs) ys a = ground (arith, contains-append xs ys a)

  pub contains-insert :
      (x : A) (xs : List A) (a : A) → contains (insert x xs) a ≡ contains xs a || x == a
  unfolding insert
  contains-insert x xs a = ground (arith, contains-append xs (x ∷ []) a)

  pub length-insert :
      (x : A) (xs : List A) → contains xs x ≡ false → length (insert x xs) ≡ length xs + 1
  unfolding insert
  length-insert x xs new = simp new (length-append xs (x ∷ []))

  pub contains-remove :
      (x : A) (xs : List A) (a : A) → contains (remove x xs) a ≡ contains xs a && not (x == a)
  unfolding remove
  contains-remove x [] a = refl
  contains-remove x (y ∷ xs) a = ground (arith, contains-remove x xs a)

  pub length-remove-le : (a : A) (xs : List A) → length (remove a xs) ≤ length xs
  unfolding remove
  length-remove-le a [] = omega arith
  length-remove-le a (x ∷ xs) = ground (arith, length-remove-le a xs)

  pub length-remove-lt :
      (a : A) (xs : List A) → contains xs a ≡ true → length (remove a xs) < length xs
  unfolding remove
  length-remove-lt a [] h = cc
  length-remove-lt a (x ∷ xs) h = ground (arith, length-remove-lt a xs, length-remove-le a xs)

  -- `k` different members of a list make it at least `k` long.
  pub pigeonhole :
      (k : ℕ) (xs : List A) (f : (i : ℕ) → i < k → A)
      → ((i : ℕ) (h : i < k) → contains xs (f i h) ≡ true)
      → ((i j : ℕ) (h : i < k) (h' : j < k) → f i h ≡ f j h' → i ≡ j)
      → k ≤ length xs
  pigeonhole zero xs f inside inj = omega arith
  pigeonhole (suc k) xs f inside inj =
      let top : k < suc k = omega arith in
      let up : (i : ℕ) → i < k → i < suc k = λ i h. omega arith in
      let last = f k top in
      let below = λ (i : ℕ) (h : i < k). f i (up i h) in
      let rest : k ≤ length (remove last xs) =
        pigeonhole k (remove last xs) below
          (λ i h. ground (
            arith,
            contains-remove last xs (below i h),
            inside i (up i h),
            λ (e : last ≡ below i h). inj k i top (up i h) e,
          ))
          (λ i j h h' e. inj i j (up i h) (up j h') e) in
      omega (arith, length-remove-lt last xs (inside k top))

-- ===== src/Prelude/Strings.antt =====
-- Strings as lists of code points, with the operations of the source's `str`.
use Prim.Native.Nat.{ℕ, zero, suc, ◌+◌, ◌/◌, ◌%◌}
use Prim.Native.Char.{code}
use Prim.Native.String.{String}
use mathlib.Core.Bool.{Bool, true, false, ◌&&◌, ◌||◌}
use mathlib.Core.Option.{Option, none, some}
use mathlib.Core.List.{List, [], ◌∷◌, ◌++◌}
use conc_bug_dect_rust.Prelude.Tests.{Eq, ◌==◌, if◌then◌else◌, nat_eq, ltb}
use conc_bug_dect_rust.Prelude.Lists.{length, drop}
use conc_bug_dect_rust.Prelude.Order.{Ord, nat_ord}

abbrev pub Text : Type 0
Text = List ℕ

abbrev pub codes : String → List ℕ
codes String.[] = []
codes (String.◌∷◌ c s) = code c ∷ codes s

abbrev pub take {ℓ} : {A : Type ℓ} → ℕ → List A → List A
take zero xs = []
take (suc n) [] = []
take (suc n) (x ∷ xs) = x ∷ take n xs

-- `Vec` and `String` are compared from the left, and a proper prefix is less.
unfoldable pub less_list {ℓ} : {A : Type ℓ} ⦃e : Eq A⦄ ⦃o : Ord A⦄ → List A → List A → Bool
less_list [] [] = false
less_list [] (y ∷ ys) = true
less_list (x ∷ xs) [] = false
less_list ⦃e⦄ ⦃o⦄ (x ∷ xs) (y ∷ ys) = o.less x y || (x == y && less_list xs ys)

instance abbrev pub list_ord {ℓ} : {A : Type ℓ} ⦃e : Eq A⦄ ⦃o : Ord A⦄ → Ord (List A)
list_ord = record { less = less_list }

-- `s.starts_with(t)`
pub starts_with : Text → Text → Bool
starts_with s [] = true
starts_with [] (c ∷ t) = false
starts_with (d ∷ s) (c ∷ t) = d == c && starts_with s t

abbrev later : Option ℕ → Option ℕ
later none = none
later (some n) = some (suc n)

-- `s.find(t)` and `s.rfind(t)`
pub find : Text → Text → Option ℕ
unfolding starts_with
find [] t = if starts_with [] t then some 0 else none
find (c ∷ s) t = let rest = find s t in if starts_with (c ∷ s) t then some 0 else later rest

pub rfind : Text → Text → Option ℕ
unfolding starts_with
rfind [] t = if starts_with [] t then some 0 else none
rfind (c ∷ s) t = elim (rfind s t) [
  | some n ↦ some (suc n)
  | none ↦ if starts_with (c ∷ s) t then some 0 else none
]

-- `s.contains(t)`
pub contains_text : Text → Text → Bool
unfolding find
contains_text s t = elim (find s t) [ none ↦ false | some _ ↦ true ]

-- The first and the second piece of `s.split(t)`
pub split_first : Text → Text → Text
unfolding find
split_first s t = elim (find s t) [ none ↦ s | some n ↦ take n s ]

pub split_second : Text → Text → Option Text
unfolding find split_first
split_second s t = elim (find s t) [
  | none ↦ none
  | some n ↦ some (split_first (drop (n + length t) s) t)
]

-- `n.to_string()`; `n` digits are always enough.
digits : ℕ → ℕ → Text
digits zero n = []
digits (suc fuel) n =
    let rest = digits fuel (n / 10) in
    if ltb n 10 then (48 + n) ∷ [] else rest ++ (48 + n % 10) ∷ []

pub decimal : ℕ → Text
unfolding digits
decimal n = digits (suc n) n

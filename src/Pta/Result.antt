-- ===== src/Pta/Result.antt =====
-- src/memory/pta/result.rs: alias queries over a solved points-to relation.
use conc_bug_dect_rust.Prelude.{
  Bool, Bool-cases, List, [], ap, arith, contains, false, inl, inr, list_eq, list_ord, nat_eq,
  nat_ord, pair_eq, pair_ord, true, ℕ, ℕ_discrete, ◌||◌, ◌∷◌, ◌≡◌,
}
use conc_bug_dect_rust.Pta.Constraint.{ConstraintSet}
use conc_bug_dect_rust.Pta.Loc.{LocArena}
use conc_bug_dect_rust.Pta.Loc.Access.{IsArena, Fits}
use conc_bug_dect_rust.Pta.Solver.{State, solve, done}
use conc_bug_dect_rust.Pta.Solver.Least.{Derives}
use conc_bug_dect_rust.Pta.Solver.Exact.{solve-Derives}

-- `!pa.is_disjoint(pb)`
pub intersects : List ℕ → List ℕ → Bool
intersects [] ys = false
intersects (x ∷ xs) ys = contains ys x || intersects xs ys

unfoldable pub may_alias : State → ℕ → ℕ → Bool
unfolding intersects
may_alias s a b = intersects (s.pts a) (s.pts b)

intersects-common :
    (xs ys : List ℕ)
    → intersects xs ys ≡ true
    → (o : ℕ) × (contains xs o ≡ true) × (contains ys o ≡ true)
unfolding intersects
intersects-common [] ys h = cc
intersects-common (x ∷ xs) ys h = elim (Bool-cases (contains ys x)) [
  | inl here ↦ (x, ground arith, here)
  | inr not_here ↦ let (o, p, q) = intersects-common xs ys (ground arith) in (o, ground arith, q)
]

common-intersects :
    (xs ys : List ℕ) (o : ℕ) → contains xs o ≡ true → contains ys o ≡ true → intersects xs ys ≡ true
unfolding intersects
common-intersects [] ys o h k = cc
common-intersects (x ∷ xs) ys o h k = elim (ℕ_discrete x o) [
  | yes e ↦ ground (arith, ap (contains ys) e)
  | no ne ↦ ground (arith, common-intersects xs ys o)
]

-- Two pointers are reported as aliases exactly when the constraints derive a common pointee for
-- them, for a run of the solver that returned over an arena that still fits into 32-bit ids.
pub may_alias-Derives :
    (fuel : ℕ) (cs : ConstraintSet) (a : LocArena) (t : State) (p q : ℕ)
    → IsArena a
    → solve fuel cs a ≡ done t
    → Fits t.arena
    → ((may_alias t p q ≡ true) → (o : ℕ) × Derives cs.set t.arena p o × Derives cs.set t.arena q o)
      × ((o : ℕ) → Derives cs.set t.arena p o → Derives cs.set t.arena q o → may_alias t p q ≡ true)
unfolding may_alias
may_alias-Derives fuel cs a t p q v run f =
    let exact = λ (n o : ℕ). solve-Derives fuel cs a t n o v run f in
    (
      λ h.
          let (o, hp, hq) = intersects-common (t.pts p) (t.pts q) h in
          (o, (exact p o).0 hp, (exact q o).0 hq),
      λ o dp dq. common-intersects (t.pts p) (t.pts q) o ((exact p o).1 dp) ((exact q o).1 dq),
    )

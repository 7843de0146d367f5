-- ===== src/Pta/Solver/Total.antt =====
-- The solver of src/memory/pta/solver.rs, with enough fuel, returns the least solution.
use conc_bug_dect_rust.Prelude.{
  Bool, List, [], arith, contains, false, length, list_eq, list_ord, nat_eq, nat_ord, not, pair_eq,
  pair_ord, subst, sym, true, ℕ, ◌*◌, ◌+◌, ◌↔◌, ◌∙◌, ◌∷◌, ◌≡◌, ◌≤◌,
}
use conc_bug_dect_rust.Pta.Constraint.{
  Constraint, ConstraintSet, address_of, copy, load, store, offset, constraint_eq,
}
use conc_bug_dect_rust.Pta.Loc.{ProjElem, LocArena, elem_eq}
use conc_bug_dect_rust.Pta.Loc.Access.{Fits}
use conc_bug_dect_rust.Pta.Loc.Universe.{Access, IsInside, IsUniverse, IsInside-Fits}
use conc_bug_dect_rust.Pta.Solver.{
  State, push_if, add_pts, add_copy, add_load, add_store, add_offset, start, init_one, init, solve,
  done,
}
use conc_bug_dect_rust.Pta.Solver.Facts.{
  Fact, key, has, Has, Adds, add_pts-Adds, add_copy-Adds, add_load-Adds, add_store-Adds,
  add_offset-Adds,
}
use conc_bug_dect_rust.Pta.Solver.Facts
use conc_bug_dect_rust.Pta.Solver.Offsets.{arena-push_if}
use conc_bug_dect_rust.Pta.Solver.Sound.{fact_of, Satisfies, solve-Satisfies}
use conc_bug_dect_rust.Pta.Solver.Least.{Derives}
use conc_bug_dect_rust.Pta.Solver.Exact.{solve-Derives}
use conc_bug_dect_rust.Pta.Solver.Measure.{missing-le}
use conc_bug_dect_rust.Pta.Solver.Progress.{
  bit, KnownFact, IsGood, Adds-IsGood, push_if-IsGood, length-push_if-le,
}
use conc_bug_dect_rust.Pta.Solver.Ends.{loop_returns}

length-init_one-le :
    (c : Constraint) (s : State) → length (init_one c s).worklist ≤ length s.worklist + 1
unfolding init_one push_if add_pts add_copy add_load add_store add_offset
length-init_one-le (address_of dst obj) s =
    omega
      (arith, length-push_if-le (not (contains (s.pts dst) obj)) dst (add_pts dst obj s), bit-le _)
  where
    bit-le : (b : Bool) → bit b ≤ 1
    bit-le true = omega arith
    bit-le false = omega arith
length-init_one-le (copy dst src) s = length-push_if-le true src (add_copy src dst s)
length-init_one-le (load dst src) s = length-push_if-le true src (add_load src dst s)
length-init_one-le (store dst src) s = length-push_if-le true dst (add_store dst src s)
length-init_one-le (offset dst src suffix) s =
    length-push_if-le true src (add_offset src dst suffix s)

length-init-le :
    (cs : List Constraint) (s : State) → length (init cs s).worklist ≤ length s.worklist + length cs
unfolding init
length-init-le [] s = omega arith
length-init-le (c ∷ cs) s = omega (arith, length-init-le cs (init_one c s), length-init_one-le c s)

module _ (accesses : List Access) (walked suffixes : List (List ProjElem)) where
  abbrev Good : State → Type 0
  Good = IsGood accesses walked suffixes

  update-IsGood :
      {f : Fact} {s t : State} (b : Bool) (k : ℕ)
      → Adds f s t
      → KnownFact accesses walked suffixes s.arena f
      → Good s
      → Good (push_if b k t) × ((push_if b k t).arena ≡ s.arena)
  update-IsGood {f} {s} {t} b k a j h = (
    push_if-IsGood accesses walked suffixes b k (Adds-IsGood accesses walked suffixes a j h),
    arena-push_if b k t ∙ a.arena,
  )

  init_one-IsGood :
      (c : Constraint) (s : State)
      → KnownFact accesses walked suffixes s.arena (fact_of c)
      → Good s
      → Good (init_one c s) × ((init_one c s).arena ≡ s.arena)
  unfolding init_one push_if
  init_one-IsGood (address_of dst obj) s k h =
      update-IsGood (not (contains (s.pts dst) obj)) dst (add_pts-Adds dst obj s) k h
  init_one-IsGood (copy dst src) s k h = update-IsGood true src (add_copy-Adds src dst s) k h
  init_one-IsGood (load dst src) s k h = update-IsGood true src (add_load-Adds src dst s) k h
  init_one-IsGood (store dst src) s k h = update-IsGood true dst (add_store-Adds dst src s) k h
  init_one-IsGood (offset dst src suffix) s k h =
      update-IsGood true src (add_offset-Adds src dst suffix s) k h

  init-IsGood :
      (cs : List Constraint) (s : State)
      → ((c : Constraint)
          → contains cs c ≡ true
          → KnownFact accesses walked suffixes s.arena (fact_of c))
      → Good s
      → Good (init cs s)
  unfolding init
  init-IsGood [] s known h = h
  init-IsGood (c ∷ cs) s known h =
      let (one, same) = init_one-IsGood c s (known c (ground arith)) h in
      init-IsGood cs (init_one c s)
        (λ d k.
          subst (λ a. KnownFact accesses walked suffixes a (fact_of d)) (sym same)
            (known d (ground arith)))
        one

  start-IsGood : (a : LocArena) → IsInside accesses walked a → Good (start a)
  unfolding start
  start-IsGood a v = record { inside = v; known = λ f h. absurd (none_yet f h) }
    where
      none_yet : (f : Fact) → Has (start a) f → ⊥
      none_yet (Facts.pts n o) h = cc
      none_yet _ h = cc

-- Total correctness. Let the arena lie inside a finite set of accesses that is closed under the
-- suffixes in use and short enough for 32-bit ids, let the constraints name only ids of the arena,
-- and let the fuel be at least 2 · N² + the number of constraints, for N accesses. Then the solver
-- returns, the arena still fits into 32-bit ids, the result satisfies every constraint, and a location is among another's pointees
-- exactly when the constraints derive it.
pub solve_total :
    (fuel : ℕ) (cs : ConstraintSet) (a : LocArena) (accesses : List Access)
    (walked suffixes : List (List ProjElem))
    → IsUniverse accesses walked suffixes
    → IsInside accesses walked a
    → ((c : Constraint)
        → contains cs.set c ≡ true
        → KnownFact accesses walked suffixes a (fact_of c))
    → 2 * (length accesses * length accesses) + length cs.set ≤ fuel
    → (t : State) × (solve fuel cs a ≡ done t)
      × Fits t.arena
      × Satisfies t cs.set
      × ((n o : ℕ) → (contains (t.pts n) o ≡ true) ↔ Derives cs.set t.arena n o)
unfolding solve start
solve_total fuel cs a accesses walked suffixes u v known le =
    let s = init cs.set (start a) in
    let (t, run, good) =
      loop_returns accesses walked suffixes u fuel s
        (init-IsGood accesses walked suffixes cs.set (start a) known
          (start-IsGood accesses walked suffixes a v))
        (omega (arith, missing-le (length accesses) s, length-init-le cs.set (start a))) in
    let fits = IsInside-Fits accesses walked t.arena u good.inside in
    (
      t,
      run,
      fits,
      solve-Satisfies fuel cs a t v.arena run fits,
      λ n o. solve-Derives fuel cs a t n o v.arena run fits,
    )

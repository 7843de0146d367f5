-- ===== src/Pta/Solver/Exact.antt =====
-- The result of src/memory/pta/solver.rs is exactly the least solution of the constraints.
use conc_bug_dect_rust.Prelude.{
  List, [], arith, contains, list_eq, list_ord, nat_eq, nat_ord, pair_eq, pair_ord, refl, some,
  subst, sym, true, ℕ, ◌↔◌, ◌∷◌, ◌≡◌,
}
use conc_bug_dect_rust.Pta.Constraint.{
  Constraint, ConstraintSet, address_of, copy, load, store, offset, constraint_eq,
}
use conc_bug_dect_rust.Pta.Loc.{LocArena}
use conc_bug_dect_rust.Pta.Loc.Access.{IsArena, Fits}
use conc_bug_dect_rust.Pta.Loc.Laws.{Projects-unique}
use conc_bug_dect_rust.Pta.Solver.{
  State, add_pts, add_copy, add_load, add_store, add_offset, copy_phase, load_phase, store_phase,
  offset_phase, round, pop, start, init_one, init, solve, done,
}
use conc_bug_dect_rust.Pta.Solver.Facts.{
  Fact, has, Has, add_pts-Adds, add_copy-Adds, add_load-Adds, add_store-Adds, add_offset-Adds,
}
use conc_bug_dect_rust.Pta.Solver.Facts
use conc_bug_dect_rust.Pta.Solver.Offsets.{via}
use conc_bug_dect_rust.Pta.Solver.Closed.{round-Grow}
use conc_bug_dect_rust.Pta.Solver.Sound.{
  Run, ends, turns, loop-Run, Run-Keeps, Satisfies, solve-Satisfies, has-pop,
}
use conc_bug_dect_rust.Pta.Solver.Least.{
  Derives, addressed, copied, loaded, stored, projected, IsJust, by_copy, Adds-IsJust, push-IsJust,
  push_if-IsJust, copy_loop-IsJust, load_loop-IsJust, store_loop-IsJust, offset_loop-IsJust,
}

module _ (cs : List Constraint) where
  init_one-IsJust :
      {a : LocArena} (c : Constraint) (s : State)
      → contains cs c ≡ true
      → IsJust cs a s
      → IsJust cs a (init_one c s)
  unfolding init_one
  init_one-IsJust (address_of dst obj) s c h =
      push_if-IsJust cs _ dst (add_pts dst obj s)
        (Adds-IsJust cs (add_pts-Adds dst obj s) (addressed c) h)
  init_one-IsJust (copy dst src) s c h =
      push-IsJust cs src (add_copy src dst s)
        (Adds-IsJust cs (add_copy-Adds src dst s) (by_copy c) h)
  init_one-IsJust (load dst src) s c h =
      push-IsJust cs src (add_load src dst s) (Adds-IsJust cs (add_load-Adds src dst s) c h)
  init_one-IsJust (store dst src) s c h =
      push-IsJust cs dst (add_store dst src s) (Adds-IsJust cs (add_store-Adds dst src s) c h)
  init_one-IsJust (offset dst src suffix) s c h =
      push-IsJust cs src (add_offset src dst suffix s)
        (Adds-IsJust cs (add_offset-Adds src dst suffix s) c h)

  init-IsJust :
      {a : LocArena} (ds : List Constraint) (s : State)
      → ((c : Constraint) → contains ds c ≡ true → contains cs c ≡ true)
      → IsJust cs a s
      → IsJust cs a (init ds s)
  unfolding init
  init-IsJust [] s sub h = h
  init-IsJust (d ∷ ds) s sub h =
      init-IsJust ds (init_one d s) (λ c k. sub c (ground (arith)))
        (init_one-IsJust d s (sub d (ground arith)) h)

  start-IsJust : (a : LocArena) → IsJust cs a (start a)
  unfolding start
  start-IsJust a = record { arena = refl; facts = λ f h. absurd (none_yet f h) }
    where
      none_yet : (f : Fact) → Has (start a) f → ⊥
      none_yet (Facts.pts n o) h = cc
      none_yet _ h = cc

  round-IsJust :
      (n : ℕ) (s : State) {t : State}
      → round n s ≡ some t
      → IsArena s.arena
      → Fits t.arena
      → IsJust cs s.arena s
      → IsJust cs t.arena t
  unfolding round copy_phase load_phase store_phase offset_phase
  round-IsJust n s {t} h v f j =
      let os = s.pts n in
      let all = λ (o : ℕ) (k : contains (s.pts n) o ≡ true). j.facts (Facts.pts n o) k in
      let s1 = copy_phase n os s in
      let s2 = load_phase n os s1 in
      let s3 = store_phase n os s2 in
      let j1 =
        copy_loop-IsJust cs n os all (s.copy_succ n) s (λ d k. j.facts (Facts.succ n d) k) j in
      let j2 =
        load_loop-IsJust cs n os all (s1.loads n) s1 (λ d k. j1.facts (Facts.load n d) k) j1 in
      let j3 =
        store_loop-IsJust cs n os all (s2.stores n) s2 (λ x k. j2.facts (Facts.store n x) k) j2 in
      let e : s.arena ≡ s3.arena = sym j3.arena in
      offset_loop-IsJust cs n os (s3.offsets n) s3 h (subst IsArena e v) f
        (λ d u k. j3.facts (Facts.offset n d u) k)
        (λ o k. subst (λ y. Derives cs y n o) e (all o k)) (subst (λ y. IsJust cs y s3) e j3)

  turn-IsJust :
      (n : ℕ) (rest : List ℕ) (s : State) {t : State}
      → round n (pop n rest s) ≡ some t
      → IsArena s.arena
      → Fits t.arena
      → IsJust cs s.arena s
      → IsJust cs t.arena t
  unfolding pop
  turn-IsJust n rest s h v f j =
      round-IsJust n (pop n rest s) h v f
        (record { arena = refl; facts = λ g k. j.facts g (rw (has-pop n rest s g) at k) })

  Run-IsJust :
      {s t : State}
      → Run s t
      → IsArena s.arena
      → Fits t.arena
      → IsJust cs s.arena s
      → IsArena t.arena × IsJust cs t.arena t
  unfolding pop
  Run-IsJust (ends s e) v f j = (v, j)
  Run-IsJust (turns s n rest w r more) v f j =
      let f' = (Run-Keeps more).fits f in
      let (v', _) = (round-Grow n (pop n rest s) r).arena v f' in
      Run-IsJust more v' f (turn-IsJust n rest s r v f' j)

  -- Whatever satisfies the constraints contains all that they derive.
  Satisfies-Derives :
      (t : State) {n o : ℕ}
      → IsArena t.arena
      → Satisfies t cs
      → Derives cs t.arena n o
      → contains (t.pts n) o ≡ true
  Satisfies-Derives t v s (addressed c) = s.addressed _ _ c
  Satisfies-Derives t v s (copied c d) = s.copied _ _ _ c (Satisfies-Derives t v s d)
  Satisfies-Derives t v s (loaded c d e) =
      s.loaded _ _ _ _ c (Satisfies-Derives t v s d) (Satisfies-Derives t v s e)
  Satisfies-Derives t v s (stored c d e) =
      s.stored _ _ _ _ c (Satisfies-Derives t v s d) (Satisfies-Derives t v s e)
  Satisfies-Derives t v s (projected {dst} c d p) =
      elim (s.projected _ _ _ _ c (Satisfies-Derives t v s d)) [
        | via q x h ↦ subst (λ y. contains (t.pts dst) y ≡ true) (Projects-unique v x p) h
      ]

-- When the solver returns (and the arena, valid at the start, still fits into 32-bit ids), a
-- location is among another's pointees exactly when the constraints derive it: the result is
-- their least solution.
pub solve-Derives :
    (fuel : ℕ) (cs : ConstraintSet) (a : LocArena) (t : State) (n o : ℕ)
    → IsArena a
    → solve fuel cs a ≡ done t
    → Fits t.arena
    → (contains (t.pts n) o ≡ true) ↔ Derives cs.set t.arena n o
unfolding solve
solve-Derives fuel cs a t n o v h f =
    let run = loop-Run fuel (init cs.set (start a)) h in
    let j = init-IsJust cs.set cs.set (start a) (λ c k. k) (start-IsJust cs.set a) in
    let e : a ≡ (init cs.set (start a)).arena = sym j.arena in
    let (v', j') =
      Run-IsJust cs.set run (subst IsArena e v) f
        (subst (λ y. IsJust cs.set y (init cs.set (start a))) e j) in
    (j'.facts (Facts.pts n o), Satisfies-Derives cs.set t v' (solve-Satisfies fuel cs a t v h f))

-- ===== src/Pta/Solver/Ends.antt =====
-- The solver of src/memory/pta/solver.rs returns: each turn of its loop leaves less work.
use conc_bug_dect_rust.Prelude.{
  Bool, List, List-cases, [], ap, arith, contains, false, inl, inr, length, list_eq, list_ord,
  nat_eq, nat_ord, not, pair_eq, pair_ord, refl, some, subst, suc, sym, true, zero, ℕ, ◌+◌, ◌<◌,
  ◌||◌, ◌∷◌, ◌≡◌, ◌≤◌,
}
use native.Mathlib.Nat.{le_trans, le_refl}
use conc_bug_dect_rust.Pta.Constraint.{constraint_eq}
use conc_bug_dect_rust.Pta.Loc.{ProjElem, elem_eq}
use conc_bug_dect_rust.Pta.Loc.Access.{Extends, Extends-refl, Extends-trans}
use conc_bug_dect_rust.Pta.Loc.Laws.{project-Projected}
use conc_bug_dect_rust.Pta.Loc.Universe.{Access, IsUniverse, IsInside-Fits, project_returns}
use conc_bug_dect_rust.Pta.Solver.{
  State, push_if, add_pts, insert_all, copy_to, copy_loop, add_edge, load_to, load_loop, store_from,
  store_loop, project_all, offset_to, offset_loop, copy_phase, load_phase, store_phase,
  offset_phase, round, pop, loop, done,
}
use conc_bug_dect_rust.Pta.Solver.Facts.{
  Fact, key, has, Has, Adds, has-push, arena-push, fact_eq, add_pts-Adds, add_copy-Adds,
  add_load-Adds, add_store-Adds, add_offset-Adds,
}
use conc_bug_dect_rust.Pta.Solver.Facts
use conc_bug_dect_rust.Pta.Solver.Offsets.{has-arena, project_one}
use conc_bug_dect_rust.Pta.Solver.Sound.{has-pop}
use conc_bug_dect_rust.Pta.Solver.Measure.{missing, missing_mono}
use conc_bug_dect_rust.Pta.Solver.Progress.{
  Known, Known-mono, Suffix, Suffix-mono, KnownFact-mono, IsGood, Known-lt, Better, Better-refl,
  Better-trans, Adds-IsGood, Paid, Paid-push, Paid-cons, Adds-Better,
}

module _ (accesses : List Access) (walked suffixes : List (List ProjElem))
    (u : IsUniverse accesses walked suffixes) where
  abbrev pub Good : State → Type 0
  Good = IsGood accesses walked suffixes

  abbrev BetterU : State → State → Type 0
  BetterU = Better accesses walked suffixes

  lt : (s : State) (id : ℕ) → Good s → Known s.arena id → id < length accesses
  lt s id = Known-lt accesses walked suffixes {s = s} {id = id}

  insert_all-Paid :
      (dst : ℕ) (os : List ℕ) (s : State) (b : Bool)
      → Good s
      → Known s.arena dst
      → ((o : ℕ) → contains os o ≡ true → Known s.arena o)
      → Paid accesses walked suffixes s b (insert_all dst os s b)
  unfolding insert_all
  insert_all-Paid dst [] s b h k all = record {
    good = h;
    extends = Extends-refl s.arena;
    less = le_refl _;
    queue = refl;
  }
  insert_all-Paid dst (o ∷ os) s b h k all =
      let a = add_pts-Adds dst o s in
      let j = all o (ground arith) in
      let back = λ (x : ℕ) (q : Known s.arena x). subst (λ y. Known y x) (sym a.arena) q in
      Paid-cons accesses walked suffixes a (lt s dst h k, lt s o h j)
        (insert_all-Paid dst os (add_pts dst o s) _
          (Adds-IsGood accesses walked suffixes a (k, j) h) (back dst k)
          (λ x q. back x (all x (ground arith))))

  copy_loop-Better :
      (os dsts : List ℕ) (s : State)
      → Good s
      → ((o : ℕ) → contains os o ≡ true → Known s.arena o)
      → ((d : ℕ) → contains dsts d ≡ true → Known s.arena d)
      → BetterU s (copy_loop os dsts s)
  unfolding copy_loop copy_to
  copy_loop-Better os [] s h all each = Better-refl accesses walked suffixes s h
  copy_loop-Better os (d ∷ dsts) s h all each =
      let r = insert_all d os s false in
      let one : BetterU s (push_if r.1 d r.0) =
        Paid-push accesses walked suffixes d
          (insert_all-Paid d os s false h (each d (ground arith)) all) in
      Better-trans accesses walked suffixes one (
        copy_loop-Better os dsts (push_if r.1 d r.0) one.good
          (λ o k. Known-mono o one.extends (all o k))
          (λ x k. Known-mono x one.extends (each x (ground arith))))

  add_edge-Better :
      (src dst : ℕ) (s : State)
      → Good s
      → Known s.arena src
      → Known s.arena dst
      → BetterU s (add_edge src dst s)
  unfolding add_edge
  add_edge-Better src dst s h k j =
      Adds-Better accesses walked suffixes (add_copy-Adds src dst s) (k, j)
        (lt s src h k, lt s dst h j) h

  load_to-Better :
      (dst : ℕ) (os : List ℕ) (s : State)
      → Good s
      → Known s.arena dst
      → ((o : ℕ) → contains os o ≡ true → Known s.arena o)
      → BetterU s (load_to dst os s)
  unfolding load_to
  load_to-Better dst [] s h k all = Better-refl accesses walked suffixes s h
  load_to-Better dst (o ∷ os) s h k all =
      let one = add_edge-Better o dst s h (all o (ground arith)) k in
      Better-trans accesses walked suffixes one (
        load_to-Better dst os (add_edge o dst s) one.good (Known-mono dst one.extends k)
          (λ x q. Known-mono x one.extends (all x (ground arith))))

  load_loop-Better :
      (os dsts : List ℕ) (s : State)
      → Good s
      → ((o : ℕ) → contains os o ≡ true → Known s.arena o)
      → ((d : ℕ) → contains dsts d ≡ true → Known s.arena d)
      → BetterU s (load_loop os dsts s)
  unfolding load_loop
  load_loop-Better os [] s h all each = Better-refl accesses walked suffixes s h
  load_loop-Better os (d ∷ dsts) s h all each =
      let one = load_to-Better d os s h (each d (ground arith)) all in
      Better-trans accesses walked suffixes one (
        load_loop-Better os dsts (load_to d os s) one.good
          (λ o k. Known-mono o one.extends (all o k))
          (λ x k. Known-mono x one.extends (each x (ground arith))))

  store_from-Better :
      (src : ℕ) (os : List ℕ) (s : State)
      → Good s
      → Known s.arena src
      → ((o : ℕ) → contains os o ≡ true → Known s.arena o)
      → BetterU s (store_from src os s)
  unfolding store_from
  store_from-Better src [] s h k all = Better-refl accesses walked suffixes s h
  store_from-Better src (o ∷ os) s h k all =
      let one = add_edge-Better src o s h k (all o (ground arith)) in
      Better-trans accesses walked suffixes one (
        store_from-Better src os (add_edge src o s) one.good (Known-mono src one.extends k)
          (λ x q. Known-mono x one.extends (all x (ground arith))))

  store_loop-Better :
      (os srcs : List ℕ) (s : State)
      → Good s
      → ((o : ℕ) → contains os o ≡ true → Known s.arena o)
      → ((x : ℕ) → contains srcs x ≡ true → Known s.arena x)
      → BetterU s (store_loop os srcs s)
  unfolding store_loop
  store_loop-Better os [] s h all each = Better-refl accesses walked suffixes s h
  store_loop-Better os (x ∷ srcs) s h all each =
      let one = store_from-Better x os s h (each x (ground arith)) all in
      Better-trans accesses walked suffixes one (
        store_loop-Better os srcs (store_from x os s) one.good
          (λ o k. Known-mono o one.extends (all o k))
          (λ y k. Known-mono y one.extends (each y (ground arith))))

  -- The projection loop returns.
  project_all_returns :
      (dst v : ℕ) (os : List ℕ) (s : State) (b : Bool)
      → Good s
      → Known s.arena dst
      → Suffix accesses walked suffixes s.arena v
      → ((o : ℕ) → contains os o ≡ true → Known s.arena o)
      → (r : State × Bool) × (project_all dst v os s b ≡ some r)
        × Paid accesses walked suffixes s b r
  unfolding project_all
  project_all_returns dst v [] s b h k x all = (
    (s, b),
    refl,
    record { good = h; extends = Extends-refl s.arena; less = le_refl _; queue = refl },
  )
  project_all_returns dst v (o ∷ os) s b h k (c, read, listed) all =
      let (l, at_o) = all o (ground arith) in
      let (p, proj, inside, m, at_p) =
        project_returns accesses walked s.arena o v l c u h.inside at_o read listed in
      let known : Known p.0 p.1 = (m, at_p) in
      let grown =
        (project-Projected s.arena o v h.inside.arena proj
          (IsInside-Fits accesses walked p.0 u inside)).extends in
      let s' = record s { arena = p.0 } in
      let good' : Good s' = record {
        inside = inside;
        known = λ g q.
            KnownFact-mono accesses walked suffixes g grown
              (h.known g (rw (has-arena s p.0 g) at q));
      } in
      let t = project_one dst p s in
      let a = add_pts-Adds dst p.1 s' in
      let dst' : Known s'.arena dst = Known-mono dst grown k in
      let back : Extends s'.arena t.arena =
        subst (λ y. Extends s'.arena y) (sym a.arena) (Extends-refl s'.arena) in
      let to_t = Extends-trans grown back in
      let (r, run, paid) =
        project_all_returns dst v os t (b || not (contains (s.pts dst) p.1))
          (Adds-IsGood accesses walked suffixes a (dst', known) good') (Known-mono dst to_t k)
          (Suffix-mono accesses walked suffixes v to_t (c, read, listed))
          (λ y q. Known-mono y to_t (all y (ground arith))) in
      let step : Paid accesses walked suffixes s' b r =
        Paid-cons accesses walked suffixes a (lt s' dst good' dst', lt s' p.1 good' known) paid in
      (
        r,
        rw proj run,
        record {
          good = step.good;
          extends = Extends-trans grown step.extends;
          less = le_trans step.less (
              omega (arith, missing_mono (length accesses) s s' (λ g q. rw (has-arena s p.0 g) q)));
          queue = step.queue;
        },
      )

  offset_loop_returns :
      (os : List ℕ) (targets : List (ℕ × ℕ)) (s : State)
      → Good s
      → ((o : ℕ) → contains os o ≡ true → Known s.arena o)
      → ((d v : ℕ)
          → contains targets (d, v) ≡ true
          → Known s.arena d × Suffix accesses walked suffixes s.arena v)
      → (t : State) × (offset_loop os targets s ≡ some t) × BetterU s t
  unfolding offset_loop offset_to
  offset_loop_returns os [] s h all each = (s, refl, Better-refl accesses walked suffixes s h)
  offset_loop_returns os ((d, v) ∷ targets) s h all each =
      let (k, x) = each d v (ground arith) in
      let (r, run, paid) = project_all_returns d v os s false h k x all in
      let w = push_if r.1 d r.0 in
      let one : BetterU s w = Paid-push accesses walked suffixes d paid in
      let (t, rest, more) =
        offset_loop_returns os targets w one.good (λ o q. Known-mono o one.extends (all o q))
          (λ d' v' q.
            let (k', x') = each d' v' (ground arith) in
            (
              Known-mono d' one.extends k',
              Suffix-mono accesses walked suffixes v' one.extends x',
            )) in
      (t, rw run rest, Better-trans accesses walked suffixes one more)

  round_returns : (n : ℕ) (s : State) → Good s → (t : State) × (round n s ≡ some t) × BetterU s t
  unfolding round copy_phase load_phase store_phase offset_phase
  round_returns n s h =
      let os = s.pts n in
      let all = λ (o : ℕ) (k : contains (s.pts n) o ≡ true). (h.known (Facts.pts n o) k).1 in
      let s1 = copy_phase n os s in
      let s2 = load_phase n os s1 in
      let s3 = store_phase n os s2 in
      let b1 : BetterU s s1 =
        copy_loop-Better os (s.copy_succ n) s h all (λ d k. (h.known (Facts.succ n d) k).1) in
      let b2 : BetterU s1 s2 =
        load_loop-Better os (s1.loads n) s1 b1.good (λ o k. Known-mono o b1.extends (all o k))
          (λ d k. (b1.good.known (Facts.load n d) k).1) in
      let b12 = Better-trans accesses walked suffixes b1 b2 in
      let b3 : BetterU s2 s3 =
        store_loop-Better os (s2.stores n) s2 b2.good (λ o k. Known-mono o b12.extends (all o k))
          (λ x k. (b2.good.known (Facts.store n x) k).1) in
      let b123 = Better-trans accesses walked suffixes b12 b3 in
      let (t, run, b4) =
        offset_loop_returns os (s3.offsets n) s3 b3.good
          (λ o k. Known-mono o b123.extends (all o k))
          (λ d v k. let (_, kd, kv) = b3.good.known (Facts.offset n d v) k in (kd, kv)) in
      (t, run, Better-trans accesses walked suffixes b123 b4)

  -- With at least as much fuel as work the loop ends by itself, and does not panic.
  pub loop_returns :
      (fuel : ℕ) (s : State)
      → Good s
      → missing (length accesses) s + length s.worklist ≤ fuel
      → (t : State) × (loop fuel s ≡ done t) × Good t
  unfolding loop pop
  loop_returns zero s h le = elim (List-cases s.worklist) [
    | inl e ↦ (s, simp (e, loop), h)
    | inr (n, rest, e) ↦ absurd (omega (arith, ap length e))
  ]
  loop_returns (suc fuel) s h le = elim (List-cases s.worklist) [
    | inl e ↦ (s, simp (e, loop), h)
    | inr (n, rest, e) ↦
        let p = pop n rest s in
        let good : Good p = record {
          inside = h.inside;
          known = λ g q. h.known g (rw (has-pop n rest s g) at q);
        } in
        let (m, run, better) = round_returns n p good in
        let (t, more, end) = loop_returns fuel m better.good (
          omega (
            arith,
            better.less,
            ap length e,
            missing_mono (length accesses) s p (λ g q. rw (has-pop n rest s g) q),
          )) in
        (t, simp (e, loop) (rw run more), end)
  ]

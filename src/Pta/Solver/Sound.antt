-- ===== src/Pta/Solver/Sound.antt =====
-- A run of the solver of src/memory/pta/solver.rs that ends satisfies every constraint.
use conc_bug_dect_rust.Prelude.{
  List, List-cases, Option-cases, [], ap, arith, contains, contains-remove, inl, inr, list_eq,
  list_ord, nat_eq, nat_ord, pair_eq, pair_ord, refl, some, subst, suc, sym, true, zero, ℕ,
  ℕ_discrete, ◌∷◌, ◌≡◌, ◌⊎◌,
}
use conc_bug_dect_rust.Pta.Constraint.{
  Constraint, ConstraintSet, address_of, copy, load, store, offset, constraint_eq,
}
use conc_bug_dect_rust.Pta.Loc.{LocArena}
use conc_bug_dect_rust.Pta.Loc.Access.{IsArena, Fits}
use conc_bug_dect_rust.Pta.Solver.{State, round, pop, start, init_one, init, loop, solve, done}
use conc_bug_dect_rust.Pta.Solver.Facts.{
  Fact, has, Has, Queued, add_pts-Adds, add_copy-Adds, add_load-Adds, add_store-Adds,
  add_offset-Adds,
}
use conc_bug_dect_rust.Pta.Solver.Facts
use conc_bug_dect_rust.Pta.Solver.Grow.{
  Grow, Nowhere, Grow-refl, Grow-trans, Adds-push_if, Adds-push,
}
use conc_bug_dect_rust.Pta.Solver.Offsets.{Reaches, via}
use conc_bug_dect_rust.Pta.Solver.Closed.{
  IsSettled, Inv, IsSettled-mono, round-Grow, round-IsSettled,
}

-- The fact under which the solver stores a constraint.
abbrev pub fact_of : Constraint → Fact
fact_of (address_of dst obj) = Facts.pts dst obj
fact_of (copy dst src) = Facts.succ src dst
fact_of (load dst src) = Facts.load src dst
fact_of (store dst src) = Facts.store dst src
fact_of (offset dst src suffix) = Facts.offset src dst suffix

init_one_lem :
    (c : Constraint) (s : State) → Grow Nowhere s (init_one c s) × Has (init_one c s) (fact_of c)
unfolding init_one
init_one_lem (address_of dst obj) s = Adds-push_if (add_pts-Adds dst obj s)
init_one_lem (copy dst src) s = Adds-push (add_copy-Adds src dst s)
init_one_lem (load dst src) s = Adds-push (add_load-Adds src dst s)
init_one_lem (store dst src) s = Adds-push (add_store-Adds dst src s)
init_one_lem (offset dst src suffix) s = Adds-push (add_offset-Adds src dst suffix s)

pub init_lem :
    (cs : List Constraint) (s : State)
    → Grow Nowhere s (init cs s)
      × ((c : Constraint) → contains cs c ≡ true → Has (init cs s) (fact_of c))
unfolding init
init_lem [] s = (Grow-refl _ s, λ c h. cc)
init_lem (x ∷ cs) s =
    let (g, here) = init_one_lem x s in
    let (g', rest) = init_lem cs (init_one x s) in
    (
      Grow-trans g g',
      λ c h. elim (constraint_eq.dec x c) [
        | yes e ↦ g'.mono (fact_of c) (subst (λ y. Has (init_one x s) (fact_of y)) e here)
        | no ne ↦ rest c (ground arith)
      ],
    )

pub start-Inv : (a : LocArena) → IsArena a → Inv (start a)
unfolding start
start-Inv a v = record {
  settled = λ n. inr (record {
    copied = λ d o e p. cc;
    loaded = λ d o e p. cc;
    stored = λ x o e p. cc;
    projected = λ d u o e p. cc;
  });
  synced = λ n h. h;
  valid = v;
}

pub Grow-Inv : {s t : State} → Grow Nowhere s t → Inv s → Fits t.arena → Inv t
Grow-Inv g i f = record {
  settled = λ n. elim (i.settled n) [
    | inl q ↦ inl (g.queued n q)
    | inr h ↦ IsSettled-mono n g i.valid f h
  ];
  synced = g.synced i.synced;
  valid = (g.arena i.valid f).0;
}

-- What every state of the loop keeps of an earlier one.
pub record Keeps (s t : State) : Type 0 where
  pub mono : (g : Fact) → Has s g → Has t g
  pub fits : Fits t.arena → Fits s.arena

pub has-pop : (n : ℕ) (rest : List ℕ) (s : State) (g : Fact) → has (pop n rest s) g ≡ has s g
unfolding pop
has-pop n rest s (Facts.pts k o) = refl
has-pop n rest s _ = refl

IsSettled-pop :
    (n : ℕ) (rest : List ℕ) (s : State) (m : ℕ) → IsSettled s m → IsSettled (pop n rest s) m
unfolding pop
IsSettled-pop n rest s m h = record {
  copied = h.copied;
  loaded = h.loaded;
  stored = h.stored;
  projected = λ d u o e p. elim (h.projected d u o e p) [ via q x y ↦ via q x y ];
}

-- One turn of the loop.
pub turn-Inv :
    (s : State) (n : ℕ) (rest : List ℕ) {t : State}
    → s.worklist ≡ n ∷ rest
    → round n (pop n rest s) ≡ some t
    → Inv s
    → Fits t.arena
    → Inv t
unfolding pop
turn-Inv s n rest {t} w h i f =
    let p = pop n rest s in
    let g = round-Grow n p h in
    record {
      settled = λ m. elim (ℕ_discrete m n) [
        | yes e ↦ subst (λ k. Queued t k ⊎ IsSettled t k) (sym e) (round-IsSettled n p h i.valid f)
        | no ne ↦ elim (i.settled m) [
          | inl q ↦ inl (g.queued m (ground (arith, contains-remove n s.in_wl m)))
          | inr old ↦ IsSettled-mono m g i.valid f (IsSettled-pop n rest s m old)
        ]
      ];
      synced = g.synced (λ m q.
          ground (arith, contains-remove n s.in_wl m, i.synced m, ap (λ l. contains l m) w));
      valid = (g.arena i.valid f).0;
    }

pub turn-Keeps :
    (s : State) (n : ℕ) (rest : List ℕ) {t : State} → round n (pop n rest s) ≡ some t → Keeps s t
turn-Keeps s n rest h =
    let g = round-Grow n (pop n rest s) h in
    record {
      mono = λ f k. g.mono f (rw (has-pop n rest s f) k);
      fits = λ f. subst Fits (arena-pop n rest s) (g.fits f);
    }
  where
    arena-pop : (n : ℕ) (rest : List ℕ) (s : State) → (pop n rest s).arena ≡ s.arena
    arena-pop n rest s = unfold pop in refl

-- A run of the loop, taken apart.
pub data Run : State → State → Type 0 where
  ends : (s : State) → s.worklist ≡ [] → Run s s
  turns :
      (s : State) (n : ℕ) (rest : List ℕ) {t u : State}
      → s.worklist ≡ n ∷ rest
      → round n (pop n rest s) ≡ some t
      → Run t u
      → Run s u

done-injective : {s t : State} → done s ≡ done t → s ≡ t
done-injective h = cc

pub loop-Run : (fuel : ℕ) (s : State) {t : State} → loop fuel s ≡ done t → Run s t
unfolding loop
loop-Run zero s {t} h = elim (List-cases s.worklist) [
  | inl e ↦ subst (Run s) (done-injective (rw (e, loop) at h)) (ends s e)
  | inr (n, rest, e) ↦ absurd (ground (arith, rw (e, loop) at h))
]
loop-Run (suc fuel) s {t} h = elim (List-cases s.worklist) [
  | inl e ↦ subst (Run s) (done-injective (rw (e, loop) at h)) (ends s e)
  | inr (n, rest, e) ↦
      let h' = rw (e, loop) at h in
      elim (Option-cases (round n (pop n rest s))) [
        | inl panic ↦ absurd (ground (arith, rw panic at h'))
        | inr (m, r) ↦ turns s n rest e r (loop-Run fuel m (rw r at h'))
      ]
]

pub Run-Keeps : {s t : State} → Run s t → Keeps s t
Run-Keeps (ends s e) = record { mono = λ g h. h; fits = λ f. f }
Run-Keeps (turns s n rest w r more) =
    let k = turn-Keeps s n rest r in
    let q = Run-Keeps more in
    record { mono = λ g h. q.mono g (k.mono g h); fits = λ f. k.fits (q.fits f) }

pub Run-Inv : {s t : State} → Run s t → Inv s → Fits t.arena → Inv t × (t.worklist ≡ [])
Run-Inv (ends s e) i f = (i, e)
Run-Inv (turns s n rest w r more) i f =
    Run-Inv more (turn-Inv s n rest w r i ((Run-Keeps more).fits f)) f

-- Every constraint holds of the points-to sets of `s`.
pub record Satisfies (s : State) (cs : List Constraint) : Type 0 where
  pub addressed :
      (dst obj : ℕ) → contains cs (address_of dst obj) ≡ true → contains (s.pts dst) obj ≡ true
  pub copied :
      (dst src o : ℕ)
      → contains cs (copy dst src) ≡ true
      → contains (s.pts src) o ≡ true
      → contains (s.pts dst) o ≡ true
  pub loaded :
      (dst src p o : ℕ)
      → contains cs (load dst src) ≡ true
      → contains (s.pts src) p ≡ true
      → contains (s.pts p) o ≡ true
      → contains (s.pts dst) o ≡ true
  pub stored :
      (dst src p o : ℕ)
      → contains cs (store dst src) ≡ true
      → contains (s.pts dst) p ≡ true
      → contains (s.pts src) o ≡ true
      → contains (s.pts p) o ≡ true
  pub projected :
      (dst src suffix o : ℕ)
      → contains cs (offset dst src suffix) ≡ true
      → contains (s.pts src) o ≡ true
      → Reaches s dst o suffix

all-IsSettled : {s : State} → Inv s → s.worklist ≡ [] → (n : ℕ) → IsSettled s n
all-IsSettled {s} i e n = elim (i.settled n) [
  | inl q ↦ absurd (ground (arith, i.synced n q, ap (λ l. contains l n) e))
  | inr h ↦ h
]

settled-Satisfies :
    (s : State) (cs : List Constraint)
    → ((c : Constraint) → contains cs c ≡ true → Has s (fact_of c))
    → ((n : ℕ) → IsSettled s n)
    → Satisfies s cs
settled-Satisfies s cs known settled = record {
  addressed = λ dst obj c. known (address_of dst obj) c;
  copied = λ dst src o c h. (settled src).copied dst o (known (copy dst src) c) h;
  loaded = λ dst src p o c h k.
      (settled p).copied dst o ((settled src).loaded dst p (known (load dst src) c) h) k;
  stored = λ dst src p o c h k.
      (settled src).copied p o ((settled dst).stored src p (known (store dst src) c) h) k;
  projected = λ dst src u o c h. (settled src).projected dst u o (known (offset dst src u) c) h;
}

-- The solved relation satisfies every constraint (address-of, copy, load, store and projection),
-- when the run ends and the arena, valid at the start, still fits into 32-bit ids at the end.
pub solve-Satisfies :
    (fuel : ℕ) (cs : ConstraintSet) (a : LocArena) (t : State)
    → IsArena a
    → solve fuel cs a ≡ done t
    → Fits t.arena
    → Satisfies t cs.set
unfolding solve
solve-Satisfies fuel cs a t v h f =
    let run = loop-Run fuel (init cs.set (start a)) h in
    let (g, known) = init_lem cs.set (start a) in
    let keeps = Run-Keeps run in
    let inv = Grow-Inv g (start-Inv a v) (keeps.fits f) in
    let (i, e) = Run-Inv run inv f in
    settled-Satisfies t cs.set (λ c k. keeps.mono (fact_of c) (known c k)) (all-IsSettled i e)

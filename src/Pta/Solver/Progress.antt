-- ===== src/Pta/Solver/Progress.antt =====
-- Every loop of src/memory/pta/solver.rs returns on an arena inside a finite universe, and leaves
-- no more work than before: each push is paid for by a new fact.
use conc_bug_dect_rust.Prelude.{
  Bool, Bool-cases, List, [], ap, arith, contains, false, inl, inr, length, length-append, list_eq,
  list_ord, lt-length_of_get_elem?, nat_eq, nat_ord, not, pair_eq, pair_ord, refl, some, subst, sym,
  true, ℕ, ◌+◌, ◌<◌, ◌||◌, ◌∙◌, ◌∷◌, ◌≡◌, ◌≤◌,
}
use native.Mathlib.Nat.{le_trans, le_refl}
use conc_bug_dect_rust.Pta.Intern
use conc_bug_dect_rust.Pta.Loc.{AbstractLoc, ProjElem, LocArena, elem_eq}
use conc_bug_dect_rust.Pta.Loc.Access.{Extends, Extends-refl, Extends-trans}
use conc_bug_dect_rust.Pta.Loc.Universe.{Access, IsInside, length-locs-le}
use conc_bug_dect_rust.Pta.Solver.{State, push, push_if}
use conc_bug_dect_rust.Pta.Solver.Facts.{
  Fact, key, has, Has, Adds, has-push, arena-push, fact_eq, add_pts-Adds, add_copy-Adds,
}
use conc_bug_dect_rust.Pta.Solver.Facts
use conc_bug_dect_rust.Pta.Solver.Grow.{Adds-mono, has-push_if}
use conc_bug_dect_rust.Pta.Solver.Offsets.{arena-push_if}
use conc_bug_dect_rust.Pta.Solver.Measure.{missing, missing_mono, missing-lt, Counted}

abbrev pub bit : Bool → ℕ
bit true = 1
bit false = 0

-- The id was handed out.
abbrev pub Known : LocArena → ℕ → Type 0
Known a id = (l : AbstractLoc) × (Intern.get a.locs id ≡ some l)

pub Known-mono : {a b : LocArena} (id : ℕ) → Extends a b → Known a id → Known b id
Known-mono id x (l, g) = (l, x.locs id l g)

pub length-push-le : (k : ℕ) (s : State) → length (push k s).worklist ≤ length s.worklist + 1
unfolding push
length-push-le k s = ground (arith, length-append s.worklist (k ∷ []))

pub length-push_if-le :
    (b : Bool) (k : ℕ) (s : State) → length (push_if b k s).worklist ≤ length s.worklist + bit b
unfolding push_if
length-push_if-le true k s = length-push-le k s
length-push_if-le false k s = omega arith

pub missing-push_if-le :
    (n : ℕ) (b : Bool) (k : ℕ) (s : State) → missing n (push_if b k s) ≤ missing n s
missing-push_if-le n b k s = missing_mono n s (push_if b k s) (λ g h. rw (has-push_if b k s g) h)

module _ (accesses : List Access) (walked suffixes : List (List ProjElem)) where
  abbrev pub Suffix : LocArena → ℕ → Type 0
  Suffix a u = (s : List ProjElem) × (Intern.get a.paths u ≡ some s) × (contains suffixes s ≡ true)

  pub Suffix-mono : {a b : LocArena} (u : ℕ) → Extends a b → Suffix a u → Suffix b u
  Suffix-mono u x (s, g, k) = (s, x.paths u s g, k)

  -- The ids of a fact are known.
  abbrev pub KnownFact : LocArena → Fact → Type 0
  KnownFact a (Facts.pts k o) = Known a k × Known a o
  KnownFact a (Facts.succ k d) = Known a k × Known a d
  KnownFact a (Facts.load k d) = Known a k × Known a d
  KnownFact a (Facts.store k x) = Known a k × Known a x
  KnownFact a (Facts.offset k d u) = Known a k × Known a d × Suffix a u

  pub KnownFact-mono : {a b : LocArena} (f : Fact) → Extends a b → KnownFact a f → KnownFact b f
  KnownFact-mono (Facts.pts k o) x (h, h') = (Known-mono k x h, Known-mono o x h')
  KnownFact-mono (Facts.succ k o) x (h, h') = (Known-mono k x h, Known-mono o x h')
  KnownFact-mono (Facts.load k o) x (h, h') = (Known-mono k x h, Known-mono o x h')
  KnownFact-mono (Facts.store k o) x (h, h') = (Known-mono k x h, Known-mono o x h')
  KnownFact-mono (Facts.offset k d u) x (h, h', s) =
      (Known-mono k x h, Known-mono d x h', Suffix-mono u x s)

  pub record IsGood (s : State) : Type 0 where
    pub inside : IsInside accesses walked s.arena
    pub known : (f : Fact) → Has s f → KnownFact s.arena f

  -- The bound on the ids.
  abbrev pub bound : ℕ
  bound = length accesses

  pub Known-lt : {s : State} {id : ℕ} → IsGood s → Known s.arena id → id < bound
  unfolding Intern.get
  Known-lt {s} {id} h (l, g) = omega (
    arith,
    lt-length_of_get_elem? s.arena.locs.items id g,
    length-locs-le s.arena accesses h.inside.arena h.inside.objects,
  )

  -- `t` is good, knows what `s` knows, and has no more work to do.
  pub record Better (s t : State) : Type 0 where
    pub good : IsGood t
    pub extends : Extends s.arena t.arena
    pub less : missing bound t + length t.worklist ≤ missing bound s + length s.worklist

  pub Better-refl : (s : State) → IsGood s → Better s s
  Better-refl s h = record { good = h; extends = Extends-refl s.arena; less = le_refl _ }

  pub Better-trans : {s t u : State} → Better s t → Better t u → Better s u
  Better-trans p q = record {
    good = q.good;
    extends = Extends-trans p.extends q.extends;
    less = le_trans q.less p.less;
  }

  pub Adds-IsGood :
      {f : Fact} {s t : State} → Adds f s t → KnownFact s.arena f → IsGood s → IsGood t
  Adds-IsGood {f} {s} {t} a j h = record {
    inside = subst (IsInside accesses walked) (sym a.arena) h.inside;
    known = λ g k.
        subst (λ x. KnownFact x g) (sym a.arena)
          (elim (fact_eq.dec g f) [
            | yes e ↦ subst (KnownFact s.arena) (sym e) j
            | no ne ↦ h.known g (ground (arith, a.facts g))
          ]);
  }

  pub push_if-IsGood : (b : Bool) (k : ℕ) {s : State} → IsGood s → IsGood (push_if b k s)
  push_if-IsGood b k {s} h = record {
    inside = subst (IsInside accesses walked) (sym (arena-push_if b k s)) h.inside;
    known = λ g q.
        subst (λ x. KnownFact x g) (sym (arena-push_if b k s))
          (h.known g (rw (has-push_if b k s g) at q));
  }

  -- A batch of insertions: the flag is paid for by a new fact.
  pub record Paid (s : State) (b : Bool) (r : State × Bool) : Type 0 where
    pub good : IsGood r.0
    pub extends : Extends s.arena r.0.arena
    pub less : missing bound r.0 + bit r.1 ≤ missing bound s + bit b
    pub queue : r.0.worklist ≡ s.worklist

  pub Paid-push :
      {s : State} {r : State × Bool} (k : ℕ) → Paid s false r → Better s (push_if r.1 k r.0)
  Paid-push {s} {r} k p = record {
    good = push_if-IsGood r.1 k p.good;
    extends = subst (Extends s.arena) (sym (arena-push_if r.1 k r.0)) p.extends;
    less = omega (
      arith,
      p.less,
      missing-push_if-le bound r.1 k r.0,
      length-push_if-le r.1 k r.0,
      ap length p.queue,
    );
  }

  pub Adds-less :
      {f : Fact} {s t : State} (b : Bool)
      → Adds f s t
      → Counted bound f
      → missing bound t + bit (b || not (has s f)) ≤ missing bound s + bit b
  Adds-less {f} {s} {t} b a c = elim (Bool-cases (has s f)) [
    | inl old ↦ rw old (ground (arith, missing_mono bound s t (Adds-mono a)))
    | inr new ↦ rw new (ground (arith, missing-lt bound f s t a new c))
  ]

  pub Paid-cons :
      {f : Fact} {s t : State} {b : Bool} {r : State × Bool}
      → Adds f s t
      → Counted bound f
      → Paid t (b || not (has s f)) r
      → Paid s b r
  Paid-cons {f} {s} {t} {b} {r} a c p = record {
    good = p.good;
    extends = subst (λ x. Extends x r.0.arena) a.arena p.extends;
    less = le_trans p.less (Adds-less b a c);
    queue = p.queue ∙ a.worklist;
  }

  -- One update and its push.
  pub Adds-Better :
      {f : Fact} {s t : State}
      → Adds f s t
      → KnownFact s.arena f
      → Counted bound f
      → IsGood s
      → Better s (push_if (not (has s f)) (key f) t)
  Adds-Better {f} {s} {t} a j c h = Paid-push {r = (t, not (has s f))} (key f) (
      Paid-cons a c (record {
        good = Adds-IsGood a j h;
        extends = Extends-refl t.arena;
        less = le_refl _;
        queue = refl;
      }))

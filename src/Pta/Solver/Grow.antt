-- ===== src/Pta/Solver/Grow.antt =====
-- The solver's state only grows, and a location whose facts change is queued: the relation that
-- every loop of src/memory/pta/solver.rs keeps.
use conc_bug_dect_rust.Prelude.{
  Bool, Bool-cases, ap, arith, contains, false, inl, inr, list_eq, list_ord, nat_eq, nat_ord, not,
  pair_eq, pair_ord, refl, sym, true, ℕ, ℕ_discrete, ◌∙◌, ◌≡◌, ◌⊎◌,
}
use conc_bug_dect_rust.Pta.Loc.Access.{IsArena, Fits, Extends, Extends-refl, Extends-trans}
use conc_bug_dect_rust.Pta.Solver.{State, push, push_if}
use conc_bug_dect_rust.Pta.Solver.Facts.{
  Fact, key, has, Has, Queued, Adds, has-push, in_wl-push, worklist-push, arena-push, fact_eq,
}

abbrev pub Synced : State → Type 0
Synced s = (n : ℕ) → Queued s n → contains s.worklist n ≡ true

-- From `s` to `t` no fact is lost, and a location outside `X` that gained one is queued.
pub record Grow (X : ℕ → Type 0) (s t : State) : Type 0 where
  pub mono : (g : Fact) → Has s g → Has t g
  pub queued : (n : ℕ) → Queued s n → Queued t n
  pub synced : Synced s → Synced t
  pub fits : Fits t.arena → Fits s.arena
  pub arena : IsArena s.arena → Fits t.arena → IsArena t.arena × Extends s.arena t.arena
  pub still : (n : ℕ) → X n ⊎ Queued t n ⊎ ((g : Fact) → key g ≡ n → Has t g → Has s g)

abbrev pub Nowhere : ℕ → Type 0
Nowhere _ = ⊥

abbrev pub At : ℕ → ℕ → Type 0
At k n = n ≡ k

pub Grow-refl : (X : ℕ → Type 0) (s : State) → Grow X s s
Grow-refl X s = record {
  mono = λ g h. h;
  queued = λ n h. h;
  synced = λ h. h;
  fits = λ f. f;
  arena = λ v f. (v, Extends-refl s.arena);
  still = λ n. inr (inr (λ g k h. h));
}

pub Grow-trans : {X : ℕ → Type 0} {s t u : State} → Grow X s t → Grow X t u → Grow X s u
Grow-trans {X} {s} {t} {u} p q = record {
  mono = λ g h. q.mono g (p.mono g h);
  queued = λ n h. q.queued n (p.queued n h);
  synced = λ h. q.synced (p.synced h);
  fits = λ f. p.fits (q.fits f);
  arena = λ v f.
      let (v', x) = p.arena v (q.fits f) in let (v'', y) = q.arena v' f in (v'', Extends-trans x y);
  still = λ n. elim (q.still n) [
    | inl x ↦ inl x
    | inr (inl w) ↦ inr (inl w)
    | inr (inr same) ↦ elim (p.still n) [
      | inl x ↦ inl x
      | inr (inl w) ↦ inr (inl (q.queued n w))
      | inr (inr same') ↦ inr (inr (λ g k h. same' g k (same g k h)))
    ]
  ];
}

pub Grow-weaken : {X : ℕ → Type 0} {s t : State} → Grow Nowhere s t → Grow X s t
Grow-weaken p = record {
  mono = p.mono;
  queued = p.queued;
  synced = p.synced;
  fits = p.fits;
  arena = p.arena;
  still = λ n. elim (p.still n) [ inl x ↦ absurd x | inr r ↦ inr r ];
}

module _ {f : Fact} {s t : State} (a : Adds f s t) where
  pub Adds-mono : (g : Fact) → Has s g → Has t g
  Adds-mono g h = rw (a.facts g, h) refl

  pub Adds-new : Has t f
  Adds-new = ground (arith, a.facts f)

  Adds-Synced : Synced s → Synced t
  Adds-Synced h n q = rw a.worklist (h n (rw a.in_wl at q))

  Adds-arena : IsArena s.arena → Fits t.arena → IsArena t.arena × Extends s.arena t.arena
  Adds-arena v _ = rw a.arena (v, Extends-refl s.arena)

  pub Adds-Grow : Grow (At (key f)) s t
  Adds-Grow = record {
    mono = Adds-mono;
    queued = λ n q. rw a.in_wl q;
    synced = Adds-Synced;
    fits = λ x. rw a.arena at x;
    arena = Adds-arena;
    still = λ n. elim (ℕ_discrete n (key f)) [
      | yes e ↦ inl e
      | no ne ↦ inr (
          inr (λ g k h. elim (fact_eq.dec g f) [
            | yes e ↦ absurd (ne (sym k ∙ ap key e))
            | no other ↦ ground (arith, a.facts g)
          ]))
    ];
  }

  pub Adds-Grow_old : Has s f → Grow Nowhere s t
  Adds-Grow_old old = record {
    mono = Adds-mono;
    queued = λ n q. rw a.in_wl q;
    synced = Adds-Synced;
    fits = λ x. rw a.arena at x;
    arena = Adds-arena;
    still = λ n. inr (inr (λ g k h. ground (arith, a.facts g)));
  }

pub push-Grow : (k : ℕ) {s t : State} → Grow (At k) s t → Grow Nowhere s (push k t)
push-Grow k {s} {t} p = record {
  mono = λ g h. rw (has-push k t g) (p.mono g h);
  queued = λ n q. ground (arith, in_wl-push k t n, p.queued n q);
  synced = λ h n q. ground (arith, in_wl-push k t n, worklist-push k t n, p.synced h n);
  fits = λ x. p.fits (rw (arena-push k t) at x);
  arena = λ v x. rw (arena-push k t) (p.arena v (rw (arena-push k t) at x));
  still = λ n. elim (p.still n) [
    | inl e ↦ inr (inl (ground (arith, in_wl-push k t n)))
    | inr (inl q) ↦ inr (inl (ground (arith, in_wl-push k t n)))
    | inr (inr same) ↦ inr (inr (λ g e h. same g e (rw (has-push k t g) at h)))
  ];
}

pub push_if-Grow :
    (b : Bool) (k : ℕ) {s t : State}
    → Grow (At k) s t
    → (b ≡ true) ⊎ Grow Nowhere s t
    → Grow Nowhere s (push_if b k t)
unfolding push_if
push_if-Grow true k p c = push-Grow k p
push_if-Grow false k p c = elim c [ inl e ↦ cc | inr q ↦ q ]

pub has-push_if : (b : Bool) (k : ℕ) (s : State) (g : Fact) → has (push_if b k s) g ≡ has s g
unfolding push_if
has-push_if true k s g = has-push k s g
has-push_if false k s g = refl

-- One update with its push: the state grows, and has the new fact.
pub Adds-push_if :
    {f : Fact} {s t : State}
    → Adds f s t
    → Grow Nowhere s (push_if (not (has s f)) (key f) t) × Has (push_if (not (has s f)) (key f) t) f
Adds-push_if {f} {s} {t} a = (
  push_if-Grow (not (has s f)) (key f) (Adds-Grow a) (elim (Bool-cases (has s f)) [
    | inl old ↦ inr (Adds-Grow_old a old)
    | inr new ↦ inl (rw new refl)
  ]),
  rw (has-push_if (not (has s f)) (key f) t f) (Adds-new a),
)

pub Adds-push :
    {f : Fact} {s t : State} → Adds f s t → Grow Nowhere s (push (key f) t) × Has (push (key f) t) f
Adds-push {f} {s} {t} a = (push-Grow (key f) (Adds-Grow a), rw (has-push (key f) t f) (Adds-new a))

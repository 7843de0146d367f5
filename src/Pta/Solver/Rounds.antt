-- ===== src/Pta/Solver/Rounds.antt =====
-- What each loop of src/memory/pta/solver.rs achieves.
use conc_bug_dect_rust.Prelude.{
  Bool, List, [], arith, contains, false, inl, inr, list_eq, list_ord, nat_eq, nat_ord, not,
  pair_eq, pair_ord, refl, subst, sym, true, ℕ, ℕ_discrete, ◌||◌, ◌∷◌, ◌≡◌, ◌⊎◌,
}
use conc_bug_dect_rust.Pta.Solver.{
  State, push_if, add_pts, insert_all, copy_to, copy_loop, add_edge, load_to, load_loop, store_from,
  store_loop,
}
use conc_bug_dect_rust.Pta.Solver.Facts.{Fact, has, Has, Adds, add_pts-Adds, add_copy-Adds}
use conc_bug_dect_rust.Pta.Solver.Facts
use conc_bug_dect_rust.Pta.Solver.Grow.{
  Grow, Nowhere, At, Grow-refl, Grow-trans, Adds-Grow, Adds-Grow_old, Adds-new, push_if-Grow,
  has-push_if, Adds-push_if,
}

-- A batch of insertions under one location, with its `changed` flag.
pub record Batch (k : ℕ) (s : State) (before : Bool) (r : State × Bool) : Type 0 where
  pub grow : Grow (At k) s r.0
  pub flag : (r.1 ≡ true) ⊎ (before ≡ false) × Grow Nowhere s r.0

pub Batch-refl : (k : ℕ) (s : State) (b : Bool) → Batch k s b (s, b)
Batch-refl k s true = record { grow = Grow-refl _ s; flag = inl refl }
Batch-refl k s false = record { grow = Grow-refl _ s; flag = inr (refl, Grow-refl _ s) }

-- One insertion before the rest of the batch.
pub Batch-cons :
    {f : Fact} {s t : State} {b : Bool} {r : State × Bool}
    → Adds f s t
    → Batch (Facts.key f) t (b || not (has s f)) r
    → Batch (Facts.key f) s b r
Batch-cons {f} {s} {t} {b} {r} a q = record {
  grow = Grow-trans (Adds-Grow a) q.grow;
  flag = elim q.flag [
    | inl changed ↦ inl changed
    | inr (same, g) ↦ inr (ground arith, Grow-trans (Adds-Grow_old a (ground arith)) g)
  ];
}

pub Batch-push :
    {k : ℕ} {s : State} {r : State × Bool} → Batch k s false r → Grow Nowhere s (push_if r.1 k r.0)
Batch-push {k} {s} {r} q =
    push_if-Grow r.1 k q.grow (elim q.flag [ inl c ↦ inl c | inr (_, g) ↦ inr g ])

insert_all-Batch :
    (dst : ℕ) (os : List ℕ) (s : State) (b : Bool) → Batch dst s b (insert_all dst os s b)
unfolding insert_all
insert_all-Batch dst [] s b = Batch-refl dst s b
insert_all-Batch dst (o ∷ os) s b =
    Batch-cons (add_pts-Adds dst o s) (insert_all-Batch dst os (add_pts dst o s) _)

insert_all-Has :
    (dst : ℕ) (os : List ℕ) (s : State) (b : Bool) (o : ℕ)
    → contains os o ≡ true
    → Has (insert_all dst os s b).0 (Facts.pts dst o)
unfolding insert_all
insert_all-Has dst [] s b o h = cc
insert_all-Has dst (x ∷ os) s b o h =
    let t = add_pts dst x s in
    let b' = b || not (contains (s.pts dst) x) in
    elim (ℕ_discrete x o) [
      | yes e ↦ (insert_all-Batch dst os t b').grow.mono (Facts.pts dst o) (
          subst (λ y. Has (add_pts dst y s) (Facts.pts dst o)) (sym e)
            (Adds-new (add_pts-Adds dst o s)))
      | no ne ↦ insert_all-Has dst os t b' o (ground arith)
    ]

pub copy_to_lem :
    (os : List ℕ) (dst : ℕ) (s : State)
    → Grow Nowhere s (copy_to os dst s)
      × ((o : ℕ) → contains os o ≡ true → Has (copy_to os dst s) (Facts.pts dst o))
unfolding copy_to
copy_to_lem os dst s =
    let r = insert_all dst os s false in
    (
      Batch-push (insert_all-Batch dst os s false),
      λ o h. rw (has-push_if r.1 dst r.0 (Facts.pts dst o)) (insert_all-Has dst os s false o h),
    )

pub copy_loop_lem :
    (os dsts : List ℕ) (s : State)
    → Grow Nowhere s (copy_loop os dsts s)
      × ((d o : ℕ)
          → contains dsts d ≡ true
          → contains os o ≡ true
          → Has (copy_loop os dsts s) (Facts.pts d o))
unfolding copy_loop
copy_loop_lem os [] s = (Grow-refl _ s, λ d o h k. cc)
copy_loop_lem os (dst ∷ dsts) s =
    let (g, all) = copy_to_lem os dst s in
    let (g', rest) = copy_loop_lem os dsts (copy_to os dst s) in
    (
      Grow-trans g g',
      λ d o h k. elim (ℕ_discrete dst d) [
        | yes e ↦
            g'.mono (Facts.pts d o)
              (subst (λ y. Has (copy_to os dst s) (Facts.pts y o)) e (all o k))
        | no ne ↦ rest d o (ground arith) k
      ],
    )

add_edge_lem :
    (src dst : ℕ) (s : State)
    → Grow Nowhere s (add_edge src dst s) × Has (add_edge src dst s) (Facts.succ src dst)
unfolding add_edge
add_edge_lem src dst s = Adds-push_if (add_copy-Adds src dst s)

pub load_to_lem :
    (dst : ℕ) (os : List ℕ) (s : State)
    → Grow Nowhere s (load_to dst os s)
      × ((o : ℕ) → contains os o ≡ true → Has (load_to dst os s) (Facts.succ o dst))
unfolding load_to
load_to_lem dst [] s = (Grow-refl _ s, λ o h. cc)
load_to_lem dst (x ∷ os) s =
    let (g, here) = add_edge_lem x dst s in
    let (g', rest) = load_to_lem dst os (add_edge x dst s) in
    (
      Grow-trans g g',
      λ o h. elim (ℕ_discrete x o) [
        | yes e ↦
            g'.mono (Facts.succ o dst)
              (subst (λ y. Has (add_edge x dst s) (Facts.succ y dst)) e here)
        | no ne ↦ rest o (ground arith)
      ],
    )

pub load_loop_lem :
    (os dsts : List ℕ) (s : State)
    → Grow Nowhere s (load_loop os dsts s)
      × ((d o : ℕ)
          → contains dsts d ≡ true
          → contains os o ≡ true
          → Has (load_loop os dsts s) (Facts.succ o d))
unfolding load_loop
load_loop_lem os [] s = (Grow-refl _ s, λ d o h k. cc)
load_loop_lem os (dst ∷ dsts) s =
    let (g, all) = load_to_lem dst os s in
    let (g', rest) = load_loop_lem os dsts (load_to dst os s) in
    (
      Grow-trans g g',
      λ d o h k. elim (ℕ_discrete dst d) [
        | yes e ↦
            g'.mono (Facts.succ o d)
              (subst (λ y. Has (load_to dst os s) (Facts.succ o y)) e (all o k))
        | no ne ↦ rest d o (ground arith) k
      ],
    )

pub store_from_lem :
    (src : ℕ) (os : List ℕ) (s : State)
    → Grow Nowhere s (store_from src os s)
      × ((o : ℕ) → contains os o ≡ true → Has (store_from src os s) (Facts.succ src o))
unfolding store_from
store_from_lem src [] s = (Grow-refl _ s, λ o h. cc)
store_from_lem src (x ∷ os) s =
    let (g, here) = add_edge_lem src x s in
    let (g', rest) = store_from_lem src os (add_edge src x s) in
    (
      Grow-trans g g',
      λ o h. elim (ℕ_discrete x o) [
        | yes e ↦
            g'.mono (Facts.succ src o)
              (subst (λ y. Has (add_edge src x s) (Facts.succ src y)) e here)
        | no ne ↦ rest o (ground arith)
      ],
    )

pub store_loop_lem :
    (os srcs : List ℕ) (s : State)
    → Grow Nowhere s (store_loop os srcs s)
      × ((x o : ℕ)
          → contains srcs x ≡ true
          → contains os o ≡ true
          → Has (store_loop os srcs s) (Facts.succ x o))
unfolding store_loop
store_loop_lem os [] s = (Grow-refl _ s, λ d o h k. cc)
store_loop_lem os (src ∷ srcs) s =
    let (g, all) = store_from_lem src os s in
    let (g', rest) = store_loop_lem os srcs (store_from src os s) in
    (
      Grow-trans g g',
      λ x o h k. elim (ℕ_discrete src x) [
        | yes e ↦
            g'.mono (Facts.succ x o)
              (subst (λ y. Has (store_from src os s) (Facts.succ y o)) e (all o k))
        | no ne ↦ rest x o (ground arith) k
      ],
    )

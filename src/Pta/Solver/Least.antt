-- ===== src/Pta/Solver/Least.antt =====
-- The solver of src/memory/pta/solver.rs adds nothing that the constraints do not force.
use conc_bug_dect_rust.Prelude.{
  >>=-eq-some, Bool, List, [], ap, arith, contains, false, list_eq, list_ord, nat_eq, nat_ord,
  pair_eq, pair_ord, refl, some, subst, sym, true, ℕ, ◌∙◌, ◌∷◌, ◌≡◌,
}
use mathlib.Core.Option.{some-injective}
use conc_bug_dect_rust.Pta.Constraint.{
  Constraint, address_of, copy, load, store, offset, constraint_eq,
}
use conc_bug_dect_rust.Pta.Loc.{LocArena, project}
use conc_bug_dect_rust.Pta.Loc.Access.{IsArena, Fits, Extends, Projects, Projects-mono}
use conc_bug_dect_rust.Pta.Loc.Laws.{project-Projected}
use conc_bug_dect_rust.Pta.Solver.{
  State, push, push_if, add_pts, add_copy, insert_all, copy_to, copy_loop, add_edge, load_to,
  load_loop, store_from, store_loop, project_all, offset_to, offset_loop,
}
use conc_bug_dect_rust.Pta.Solver.Facts.{
  Fact, has, Has, fact_eq, Adds, has-push, arena-push, add_pts-Adds, add_copy-Adds, add_load-Adds,
  add_store-Adds, add_offset-Adds,
}
use conc_bug_dect_rust.Pta.Solver.Facts
use conc_bug_dect_rust.Pta.Solver.Grow.{has-push_if}
use conc_bug_dect_rust.Pta.Solver.Offsets.{
  has-arena, arena-push_if, project_one, project_all-Batch, offset_to-Grow, offset_loop-Grow,
}

module _ (cs : List Constraint) where
  -- The least relation that satisfies the constraints, over the ids of an arena.
  pub data Derives (a : LocArena) : ℕ → ℕ → Type 0 where
    addressed : {dst obj : ℕ} → contains cs (address_of dst obj) ≡ true → Derives a dst obj
    copied : {dst src o : ℕ} → contains cs (copy dst src) ≡ true → Derives a src o → Derives a dst o
    loaded :
        {dst src p o : ℕ}
        → contains cs (load dst src) ≡ true
        → Derives a src p
        → Derives a p o
        → Derives a dst o
    stored :
        {dst src p o : ℕ}
        → contains cs (store dst src) ≡ true
        → Derives a dst p
        → Derives a src o
        → Derives a p o
    projected :
        {dst src suffix o p : ℕ}
        → contains cs (offset dst src suffix) ≡ true
        → Derives a src o
        → Projects a o suffix p
        → Derives a dst p

  pub Derives-mono : {a b : LocArena} {n o : ℕ} → Extends a b → Derives a n o → Derives b n o
  Derives-mono x (addressed c) = addressed c
  Derives-mono x (copied c d) = copied c (Derives-mono x d)
  Derives-mono x (loaded c d e) = loaded c (Derives-mono x d) (Derives-mono x e)
  Derives-mono x (stored c d e) = stored c (Derives-mono x d) (Derives-mono x e)
  Derives-mono x (projected c d p) = projected c (Derives-mono x d) (Projects-mono x p)

  -- Why a copy edge is there.
  pub data Edge (a : LocArena) (src dst : ℕ) : Type 0 where
    by_copy : contains cs (copy dst src) ≡ true → Edge a src dst
    by_load : (q : ℕ) → contains cs (load dst q) ≡ true → Derives a q src → Edge a src dst
    by_store : (q : ℕ) → contains cs (store q src) ≡ true → Derives a q dst → Edge a src dst

  Edge-Derives : {a : LocArena} {src dst o : ℕ} → Edge a src dst → Derives a src o → Derives a dst o
  Edge-Derives (by_copy c) d = copied c d
  Edge-Derives (by_load q c e) d = loaded c e d
  Edge-Derives (by_store q c e) d = stored c e d

  abbrev pub Justified : LocArena → Fact → Type 0
  Justified a (Facts.pts n o) = Derives a n o
  Justified a (Facts.succ n d) = Edge a n d
  Justified a (Facts.load n d) = contains cs (load d n) ≡ true
  Justified a (Facts.store n x) = contains cs (store n x) ≡ true
  Justified a (Facts.offset n d u) = contains cs (offset d n u) ≡ true

  Justified-mono : {a b : LocArena} (f : Fact) → Extends a b → Justified a f → Justified b f
  Justified-mono (Facts.pts n o) x j = Derives-mono x j
  Justified-mono (Facts.succ n d) x (by_copy c) = by_copy c
  Justified-mono (Facts.succ n d) x (by_load q c e) = by_load q c (Derives-mono x e)
  Justified-mono (Facts.succ n d) x (by_store q c e) = by_store q c (Derives-mono x e)
  Justified-mono (Facts.load n d) x j = j
  Justified-mono (Facts.store n y) x j = j
  Justified-mono (Facts.offset n d u) x j = j

  -- The arena of `s`, and that its facts are justified over it.
  pub record IsJust (a : LocArena) (s : State) : Type 0 where
    pub arena : s.arena ≡ a
    pub facts : (f : Fact) → Has s f → Justified a f

  module _ {a : LocArena} where
    pub Adds-IsJust :
        {f : Fact} {s t : State} → Adds f s t → Justified a f → IsJust a s → IsJust a t
    Adds-IsJust {f} {s} {t} x j h = record {
      arena = x.arena ∙ h.arena;
      facts = λ g k. elim (fact_eq.dec g f) [
        | yes e ↦ subst (Justified a) (sym e) j
        | no ne ↦ h.facts g (ground (arith, x.facts g))
      ];
    }

    pub push-IsJust : (k : ℕ) (s : State) → IsJust a s → IsJust a (push k s)
    push-IsJust k s h = record {
      arena = arena-push k s ∙ h.arena;
      facts = λ g q. h.facts g (rw (has-push k s g) at q);
    }

    pub push_if-IsJust : (b : Bool) (k : ℕ) (s : State) → IsJust a s → IsJust a (push_if b k s)
    push_if-IsJust b k s h = record {
      arena = arena-push_if b k s ∙ h.arena;
      facts = λ g q. h.facts g (rw (has-push_if b k s g) at q);
    }

    insert_all-IsJust :
        (dst : ℕ) (os : List ℕ) (s : State) (b : Bool)
        → IsJust a s
        → ((o : ℕ) → contains os o ≡ true → Derives a dst o)
        → IsJust a (insert_all dst os s b).0
    unfolding insert_all
    insert_all-IsJust dst [] s b h all = h
    insert_all-IsJust dst (o ∷ os) s b h all =
        insert_all-IsJust dst os (add_pts dst o s) _
          (Adds-IsJust (add_pts-Adds dst o s) (all o (ground arith)) h)
          (λ x k. all x (ground arith))

    add_edge-IsJust :
        (src dst : ℕ) (s : State) → Edge a src dst → IsJust a s → IsJust a (add_edge src dst s)
    unfolding add_edge
    add_edge-IsJust src dst s j h =
        push_if-IsJust _ src (add_copy src dst s) (Adds-IsJust (add_copy-Adds src dst s) j h)

    module _ (n : ℕ) (os : List ℕ) (all : (o : ℕ) → contains os o ≡ true → Derives a n o) where
      pub copy_loop-IsJust :
          (dsts : List ℕ) (s : State)
          → ((d : ℕ) → contains dsts d ≡ true → Edge a n d)
          → IsJust a s
          → IsJust a (copy_loop os dsts s)
      unfolding copy_loop copy_to
      copy_loop-IsJust [] s e h = h
      copy_loop-IsJust (d ∷ dsts) s e h =
          let edge = e d (ground arith) in
          let r = insert_all d os s false in
          copy_loop-IsJust dsts (push_if r.1 d r.0) (λ x k. e x (ground arith))
            (push_if-IsJust r.1 d r.0
              (insert_all-IsJust d os s false h (λ o k. Edge-Derives edge (all o k))))

      load_to-IsJust :
          (dst : ℕ) (ps : List ℕ) (s : State)
          → contains cs (load dst n) ≡ true
          → ((o : ℕ) → contains ps o ≡ true → Derives a n o)
          → IsJust a s
          → IsJust a (load_to dst ps s)
      unfolding load_to
      load_to-IsJust dst [] s c each h = h
      load_to-IsJust dst (o ∷ ps) s c each h =
          load_to-IsJust dst ps (add_edge o dst s) c (λ x k. each x (ground arith))
            (add_edge-IsJust o dst s (by_load n c (each o (ground arith))) h)

      pub load_loop-IsJust :
          (dsts : List ℕ) (s : State)
          → ((d : ℕ) → contains dsts d ≡ true → contains cs (load d n) ≡ true)
          → IsJust a s
          → IsJust a (load_loop os dsts s)
      unfolding load_loop
      load_loop-IsJust [] s e h = h
      load_loop-IsJust (d ∷ dsts) s e h =
          load_loop-IsJust dsts (load_to d os s) (λ x k. e x (ground arith))
            (load_to-IsJust d os s (e d (ground arith)) all h)

      store_from-IsJust :
          (src : ℕ) (ps : List ℕ) (s : State)
          → contains cs (store n src) ≡ true
          → ((o : ℕ) → contains ps o ≡ true → Derives a n o)
          → IsJust a s
          → IsJust a (store_from src ps s)
      unfolding store_from
      store_from-IsJust src [] s c each h = h
      store_from-IsJust src (o ∷ ps) s c each h =
          store_from-IsJust src ps (add_edge src o s) c (λ x k. each x (ground arith))
            (add_edge-IsJust src o s (by_store n c (each o (ground arith))) h)

      pub store_loop-IsJust :
          (srcs : List ℕ) (s : State)
          → ((x : ℕ) → contains srcs x ≡ true → contains cs (store n x) ≡ true)
          → IsJust a s
          → IsJust a (store_loop os srcs s)
      unfolding store_loop
      store_loop-IsJust [] s e h = h
      store_loop-IsJust (x ∷ srcs) s e h =
          store_loop-IsJust srcs (store_from x os s) (λ y k. e y (ground arith))
            (store_from-IsJust x os s (e x (ground arith)) all h)

  -- The projection loop, where the arena grows.
  IsJust-extend :
      {a b : LocArena} (s : State) → IsJust a s → Extends a b → IsJust b (record s { arena = b })
  IsJust-extend {a} {b} s h x = record {
    arena = refl;
    facts = λ g k. Justified-mono g x (h.facts g (rw (has-arena s b g) at k));
  }

  project_all-IsJust :
      (n dst u : ℕ) (os : List ℕ) (s : State) (b : Bool) {r : State × Bool}
      → project_all dst u os s b ≡ some r
      → IsArena s.arena
      → Fits r.0.arena
      → contains cs (offset dst n u) ≡ true
      → ((o : ℕ) → contains os o ≡ true → Derives s.arena n o)
      → IsJust s.arena s
      → IsJust r.0.arena r.0
  unfolding project_all
  project_all-IsJust n dst u [] s b {r} e v f c all h =
      subst (λ x. IsJust x.0.arena x.0) (some-injective _ _ e) h
  project_all-IsJust n dst u (o ∷ os) s b {r} e v f c all h =
      let (p, proj, rest) = >>=-eq-some (project o u s.arena) _ e in
      let s' = record s { arena = p.0 } in
      let t = project_one dst p s in
      let a = add_pts-Adds dst p.1 s' in
      let f' : Fits t.arena = (project_all-Batch dst u os t _ rest).grow.fits f in
      let q = project-Projected s.arena o u v proj (subst Fits a.arena f') in
      let here = projected c (Derives-mono q.extends (all o (ground arith))) q.result in
      let just = Adds-IsJust a here (IsJust-extend s h q.extends) in
      project_all-IsJust n dst u os t _ rest (subst IsArena (sym a.arena) q.valid) f c
        (λ x k.
          subst (λ y. Derives y n x) (sym a.arena) (Derives-mono q.extends (all x (ground arith))))
        (subst (λ y. IsJust y t) (sym a.arena) just)

  pub offset_loop-IsJust :
      (n : ℕ) (os : List ℕ) (targets : List (ℕ × ℕ)) (s : State) {t : State}
      → offset_loop os targets s ≡ some t
      → IsArena s.arena
      → Fits t.arena
      → ((d u : ℕ) → contains targets (d, u) ≡ true → contains cs (offset d n u) ≡ true)
      → ((o : ℕ) → contains os o ≡ true → Derives s.arena n o)
      → IsJust s.arena s
      → IsJust t.arena t
  unfolding offset_loop offset_to
  offset_loop-IsJust n os [] s {t} e v f c all h =
      subst (λ x. IsJust x.arena x) (some-injective _ _ e) h
  offset_loop-IsJust n os ((d, u) ∷ targets) s {t} e v f c all h =
      let (w, one, rest) = >>=-eq-some (offset_to os (d, u) s) (offset_loop os targets) e in
      let f' = (offset_loop-Grow os targets w rest).fits f in
      let (v', x) = (offset_to-Grow os (d, u) s one).arena v f' in
      let (r, made, end) = >>=-eq-some (project_all d u os s false) _ one in
      let same : push_if r.1 d r.0 ≡ w = some-injective _ _ end in
      let to_r = sym (ap (λ y. y.arena) (sym same) ∙ arena-push_if r.1 d r.0) in
      let just =
        project_all-IsJust n d u os s false made v (subst Fits (sym to_r) f') (c d u (ground arith))
          all h in
      let just_w : IsJust w.arena w =
        subst (λ y. IsJust y.arena y) same
          (subst (λ y. IsJust y (push_if r.1 d r.0)) (sym (arena-push_if r.1 d r.0))
            (push_if-IsJust r.1 d r.0 just)) in
      offset_loop-IsJust n os targets w rest v' f (λ d' u' k. c d' u' (ground arith))
        (λ o k. Derives-mono x (all o k)) just_w

-- ===== src/Pta/Solver/Offsets.antt =====
-- The projection loop of src/memory/pta/solver.rs.
use conc_bug_dect_rust.Prelude.{
  >>=-eq-some, Bool, List, [], ap, arith, contains, false, inl, inr, list_eq, list_ord, nat_eq,
  nat_ord, pair_eq, pair_ord, refl, some, subst, sym, true, ℕ, ℕ_discrete, ◌∙◌, ◌∷◌, ◌≡◌,
}
use mathlib.Core.Option.{some-injective}
use conc_bug_dect_rust.Pta.Loc.{LocArena, project}
use conc_bug_dect_rust.Pta.Loc.Access.{IsArena, Fits, Projects, Projects-mono}
use conc_bug_dect_rust.Pta.Loc.Laws.{project-Projected, project-fits}
use conc_bug_dect_rust.Pta.Solver.{State, push_if, add_pts, project_all, offset_to, offset_loop}
use conc_bug_dect_rust.Pta.Solver.Facts.{Fact, has, Has, Adds, add_pts-Adds, arena-push}
use conc_bug_dect_rust.Pta.Solver.Facts
use conc_bug_dect_rust.Pta.Solver.Grow.{
  Grow, Nowhere, At, Grow-refl, Grow-trans, Grow-weaken, Adds-Grow, Adds-new, has-push_if,
}
use conc_bug_dect_rust.Pta.Solver.Rounds.{Batch, Batch-refl, Batch-cons, Batch-push}

pub has-arena : (s : State) (a : LocArena) (g : Fact) → has (record s { arena = a }) g ≡ has s g
has-arena s a (Facts.pts n o) = refl
has-arena s a (Facts.succ n d) = refl
has-arena s a (Facts.load n d) = refl
has-arena s a (Facts.store n x) = refl
has-arena s a (Facts.offset n d u) = refl

-- A projection changes the arena alone.
pub project-Grow :
    (o u : ℕ) (s : State) {r : LocArena × ℕ}
    → project o u s.arena ≡ some r
    → Grow Nowhere s (record s { arena = r.0 })
project-Grow o u s {r} h = record {
  mono = λ g k. rw (has-arena s r.0 g) k;
  queued = λ n k. k;
  synced = λ k. k;
  fits = project-fits s.arena o u h;
  arena = λ v f. let p = project-Projected s.arena o u v h f in (p.valid, p.extends);
  still = λ n. inr (inr (λ g k x. rw (has-arena s r.0 g) at x));
}

-- The projection of `o` is among the pointees of `d`.
pub data Reaches (s : State) (d o u : ℕ) : Type 0 where
  via : (p : ℕ) → Projects s.arena o u p → Has s (Facts.pts d p) → Reaches s d o u

pub Reaches-mono :
    {X : ℕ → Type 0} {s t : State} {d o u : ℕ}
    → Grow X s t
    → IsArena s.arena
    → Fits t.arena
    → Reaches s d o u
    → Reaches t d o u
Reaches-mono {d} g v f (via p x h) =
    via p (Projects-mono (g.arena v f).1 x) (g.mono (Facts.pts d p) h)

-- One pointee: project, then insert.
abbrev pub project_one : ℕ → LocArena × ℕ → State → State
project_one dst r s = add_pts dst r.1 (record s { arena = r.0 })

pub project_one-Grow :
    (dst o u : ℕ) (s : State) {r : LocArena × ℕ}
    → project o u s.arena ≡ some r
    → Grow (At dst) s (project_one dst r s)
project_one-Grow dst o u s {r} h =
    Grow-trans (Grow-weaken (project-Grow o u s h))
      (Adds-Grow (add_pts-Adds dst r.1 (record s { arena = r.0 })))

project_one-Reaches :
    (dst o u : ℕ) (s : State) {r : LocArena × ℕ}
    → project o u s.arena ≡ some r
    → IsArena s.arena
    → Fits (project_one dst r s).arena
    → Reaches (project_one dst r s) dst o u
unfolding add_pts
project_one-Reaches dst o u s {r} h v f =
    via r.1 (project-Projected s.arena o u v h f).result
      (Adds-new (add_pts-Adds dst r.1 (record s { arena = r.0 })))

pub project_all-Batch :
    (dst u : ℕ) (os : List ℕ) (s : State) (b : Bool) {r : State × Bool}
    → project_all dst u os s b ≡ some r
    → Batch dst s b r
unfolding project_all
project_all-Batch dst u [] s b {r} h =
    subst (Batch dst s b) (some-injective _ _ h) (Batch-refl dst s b)
project_all-Batch dst u (o ∷ os) s b {r} h =
    let (p, proj, rest) = >>=-eq-some (project o u s.arena) _ h in
    let s' = record s { arena = p.0 } in
    let q : Batch dst s' b r =
      Batch-cons (add_pts-Adds dst p.1 s')
        (project_all-Batch dst u os (project_one dst p s) _ rest) in
    let g = project-Grow o u s proj in
    record {
      grow = Grow-trans (Grow-weaken g) q.grow;
      flag = elim q.flag [ inl c ↦ inl c | inr (same, g') ↦ inr (same, Grow-trans g g') ];
    }

pub project_all-Reaches :
    (dst u : ℕ) (os : List ℕ) (s : State) (b : Bool) {r : State × Bool}
    → project_all dst u os s b ≡ some r
    → IsArena s.arena
    → Fits r.0.arena
    → (o : ℕ) → contains os o ≡ true
    → Reaches r.0 dst o u
unfolding project_all
project_all-Reaches dst u [] s b h v f o k = cc
project_all-Reaches dst u (x ∷ os) s b {r} h v f o k =
    let (p, proj, rest) = >>=-eq-some (project x u s.arena) _ h in
    let t = project_one dst p s in
    let more = (project_all-Batch dst u os t _ rest).grow in
    let f' : Fits t.arena = more.fits f in
    let (v', _) = (project_one-Grow dst x u s proj).arena v f' in
    elim (ℕ_discrete x o) [
      | yes e ↦
          Reaches-mono more v' f
            (subst (λ y. Reaches t dst y u) e (project_one-Reaches dst x u s proj v f'))
      | no ne ↦ project_all-Reaches dst u os t _ rest v' f o (ground arith)
    ]

pub offset_to-Grow :
    (os : List ℕ) (target : ℕ × ℕ) (s : State) {t : State}
    → offset_to os target s ≡ some t
    → Grow Nowhere s t
unfolding offset_to
offset_to-Grow os (dst, u) s {t} h =
    let (r, all, made) = >>=-eq-some (project_all dst u os s false) _ h in
    subst (Grow Nowhere s) (some-injective _ _ made)
      (Batch-push (project_all-Batch dst u os s false all))

pub arena-push_if : (b : Bool) (k : ℕ) (s : State) → (push_if b k s).arena ≡ s.arena
unfolding push_if
arena-push_if true k s = arena-push k s
arena-push_if false k s = refl

Reaches-push_if :
    (b : Bool) (k : ℕ) (s : State) {d o u : ℕ} → Reaches s d o u → Reaches (push_if b k s) d o u
Reaches-push_if b k s {d} {o} {u} (via p x h) =
    via p (subst (λ a. Projects a o u p) (sym (arena-push_if b k s)) x)
      (rw (has-push_if b k s (Facts.pts d p)) h)

pub offset_to-Reaches :
    (os : List ℕ) (target : ℕ × ℕ) (s : State) {t : State}
    → offset_to os target s ≡ some t
    → IsArena s.arena
    → Fits t.arena
    → (o : ℕ) → contains os o ≡ true
    → Reaches t target.0 o target.1
unfolding offset_to
offset_to-Reaches os (dst, u) s {t} h v f o k =
    let (r, all, made) = >>=-eq-some (project_all dst u os s false) _ h in
    let end : push_if r.1 dst r.0 ≡ t = some-injective _ _ made in
    let f' : Fits r.0.arena =
      subst Fits (ap (λ x. x.arena) (sym end) ∙ arena-push_if r.1 dst r.0) f in
    subst (λ x. Reaches x dst o u) end
      (Reaches-push_if r.1 dst r.0 (project_all-Reaches dst u os s false all v f' o k))

pub offset_loop-Grow :
    (os : List ℕ) (targets : List (ℕ × ℕ)) (s : State) {t : State}
    → offset_loop os targets s ≡ some t
    → Grow Nowhere s t
unfolding offset_loop
offset_loop-Grow os [] s {t} h = subst (Grow Nowhere s) (some-injective _ _ h) (Grow-refl _ s)
offset_loop-Grow os (x ∷ xs) s {t} h =
    let (m, one, rest) = >>=-eq-some (offset_to os x s) (offset_loop os xs) h in
    Grow-trans (offset_to-Grow os x s one) (offset_loop-Grow os xs m rest)

pub offset_loop-Reaches :
    (os : List ℕ) (targets : List (ℕ × ℕ)) (s : State) {t : State}
    → offset_loop os targets s ≡ some t
    → IsArena s.arena
    → Fits t.arena
    → (d u o : ℕ) → contains targets (d, u) ≡ true
    → contains os o ≡ true
    → Reaches t d o u
unfolding offset_loop
offset_loop-Reaches os [] s h v f d u o k m = cc
offset_loop-Reaches os (x ∷ xs) s {t} h v f d u o k m =
    let (w, one, rest) = >>=-eq-some (offset_to os x s) (offset_loop os xs) h in
    let more = offset_loop-Grow os xs w rest in
    let f' : Fits w.arena = more.fits f in
    let (v', _) = (offset_to-Grow os x s one).arena v f' in
    elim (pair_eq.dec x (d, u)) [
      | yes e ↦
          Reaches-mono more v' f
            (subst (λ y. Reaches w y.0 o y.1) e (offset_to-Reaches os x s one v f' o m))
      | no ne ↦ offset_loop-Reaches os xs w rest v' f d u o (ground arith) m
    ]

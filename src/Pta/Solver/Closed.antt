-- ===== src/Pta/Solver/Closed.antt =====
-- The invariant of the `while` loop of src/memory/pta/solver.rs: a location that is not queued has
-- passed all its pointees on.
use conc_bug_dect_rust.Prelude.{
  inl, inr, list_eq, list_ord, nat_eq, nat_ord, pair_eq, pair_ord, refl, some, ℕ, ◌≡◌, ◌⊎◌,
}
use conc_bug_dect_rust.Pta.Loc.Access.{IsArena, Fits}
use conc_bug_dect_rust.Pta.Solver.{State, copy_phase, load_phase, store_phase, offset_phase, round}
use conc_bug_dect_rust.Pta.Solver.Facts.{Fact, has, Has, Queued}
use conc_bug_dect_rust.Pta.Solver.Facts
use conc_bug_dect_rust.Pta.Solver.Grow.{Grow, Nowhere, Synced, Grow-trans}
use conc_bug_dect_rust.Pta.Solver.Rounds.{copy_loop_lem, load_loop_lem, store_loop_lem}
use conc_bug_dect_rust.Pta.Solver.Offsets.{
  Reaches, Reaches-mono, offset_loop-Grow, offset_loop-Reaches,
}

-- Everything that follows from the pointees of `n` is there.
pub record IsSettled (s : State) (n : ℕ) : Type 0 where
  pub copied : (d o : ℕ) → Has s (Facts.succ n d) → Has s (Facts.pts n o) → Has s (Facts.pts d o)
  pub loaded : (d o : ℕ) → Has s (Facts.load n d) → Has s (Facts.pts n o) → Has s (Facts.succ o d)
  pub stored : (x o : ℕ) → Has s (Facts.store n x) → Has s (Facts.pts n o) → Has s (Facts.succ x o)
  pub projected : (d u o : ℕ) → Has s (Facts.offset n d u) → Has s (Facts.pts n o) → Reaches s d o u

pub record Inv (s : State) : Type 0 where
  pub settled : (n : ℕ) → Queued s n ⊎ IsSettled s n
  pub synced : Synced s
  pub valid : IsArena s.arena

-- A settled location stays settled until it is queued again.
pub IsSettled-mono :
    {s t : State} (n : ℕ)
    → Grow Nowhere s t
    → IsArena s.arena
    → Fits t.arena
    → IsSettled s n
    → Queued t n ⊎ IsSettled t n
IsSettled-mono {s} {t} n g v f h = elim (g.still n) [
  | inl x ↦ absurd x
  | inr (inl q) ↦ inl q
  | inr (inr same) ↦ inr (record {
    copied = λ d o e p.
        g.mono (Facts.pts d o)
          (h.copied d o (same (Facts.succ n d) refl e) (same (Facts.pts n o) refl p));
    loaded = λ d o e p.
        g.mono (Facts.succ o d)
          (h.loaded d o (same (Facts.load n d) refl e) (same (Facts.pts n o) refl p));
    stored = λ x o e p.
        g.mono (Facts.succ x o)
          (h.stored x o (same (Facts.store n x) refl e) (same (Facts.pts n o) refl p));
    projected = λ d u o e p.
        Reaches-mono g v f
          (h.projected d u o (same (Facts.offset n d u) refl e) (same (Facts.pts n o) refl p));
  })
]

-- One round settles the location that was popped, or queues it again.
pub round-Grow : (n : ℕ) (s : State) {t : State} → round n s ≡ some t → Grow Nowhere s t
unfolding round copy_phase load_phase store_phase offset_phase
round-Grow n s {t} h =
    let os = s.pts n in
    let s1 = copy_phase n os s in
    let s2 = load_phase n os s1 in
    let s3 = store_phase n os s2 in
    Grow-trans (copy_loop_lem os (s.copy_succ n) s).0 (
      Grow-trans (load_loop_lem os (s1.loads n) s1).0 (
        Grow-trans (store_loop_lem os (s2.stores n) s2).0
          (offset_loop-Grow os (s3.offsets n) s3 h)))

pub round-IsSettled :
    (n : ℕ) (s : State) {t : State}
    → round n s ≡ some t
    → IsArena s.arena
    → Fits t.arena
    → Queued t n ⊎ IsSettled t n
unfolding round copy_phase load_phase store_phase offset_phase
round-IsSettled n s {t} h v f =
    let os = s.pts n in
    let s1 = copy_phase n os s in
    let s2 = load_phase n os s1 in
    let s3 = store_phase n os s2 in
    let (g1, copied) = copy_loop_lem os (s.copy_succ n) s in
    let (g2, loaded) = load_loop_lem os (s1.loads n) s1 in
    let (g3, stored) = store_loop_lem os (s2.stores n) s2 in
    let g4 = offset_loop-Grow os (s3.offsets n) s3 h in
    let to3 = Grow-trans g1 (Grow-trans g2 g3) in
    let whole = Grow-trans to3 g4 in
    elim (whole.still n) [
      | inl x ↦ absurd x
      | inr (inl q) ↦ inl q
      | inr (inr same) ↦ inr (record {
        copied = λ d o e p.
            (Grow-trans g2 (Grow-trans g3 g4)).mono (Facts.pts d o)
              (copied d o (same (Facts.succ n d) refl e) (same (Facts.pts n o) refl p));
        loaded = λ d o e p. (Grow-trans g3 g4).mono (Facts.succ o d) (
            loaded d o (g1.mono (Facts.load n d) (same (Facts.load n d) refl e))
              (same (Facts.pts n o) refl p));
        stored = λ x o e p. g4.mono (Facts.succ x o) (
            stored x o ((Grow-trans g1 g2).mono (Facts.store n x) (same (Facts.store n x) refl e))
              (same (Facts.pts n o) refl p));
        projected = λ d u o e p.
            offset_loop-Reaches os (s3.offsets n) s3 h (to3.arena v (g4.fits f)).0 f d u o
              (to3.mono (Facts.offset n d u) (same (Facts.offset n d u) refl e))
              (same (Facts.pts n o) refl p);
      })
    ]

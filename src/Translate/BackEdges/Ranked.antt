-- ===== src/Translate/BackEdges/Ranked.antt =====
-- The search of src/translate/mir_to_pn/cfg_utils.rs ends, and what is left without the back edges
-- has no cycle.
use conc_bug_dect_rust.Prelude.{
  ==_refl, Bool-cases, List, Option, [], ap, arith, contains, contains-insert, contains-remove,
  eq_of_==, false, inl, inr, insert, length, list_eq, list_ord, nat_eq, nat_ord, pair_eq, pair_ord,
  refl, some, subst, suc, sym, true, zero, ℕ, ◌<◌, ◌==◌, ◌||◌, ◌∙◌, ◌∷◌, ◌≡◌, ◌⊎◌,
}
use conc_bug_dect_rust.Translate.BackEdges.{Search, compute_back_edges, dfs, dfs_all, enter, leave}
use conc_bug_dect_rust.Translate.Mir.{BlockData}
use conc_bug_dect_rust.Translate.BackEdges.Edges.{
  Edge, Kept, Targets, listed, terminator_successors-Kept,
}
use conc_bug_dect_rust.Translate.BackEdges.Ranks.{
  Forward, Forward-falls, Ranked, Ranked-back, Ranked-leave,
}
use conc_bug_dect_rust.Translate.BackEdges.Depth.{
  free, free-le, free-lt, free_empty, ids, ids-contains,
}

module _ (body : List BlockData) where
  -- What a search leaves behind: ranks, the stack as it was, and nothing forgotten.
  record Post (s s' : Search) : Type 0 where
    ranked : Ranked body s'.visited s'.back_edges
    stack : (a : ℕ) → contains s'.in_stack a ≡ contains s.in_stack a
    visits : (a : ℕ) → contains s.visited a ≡ true → contains s'.visited a ≡ true
    backs : (b : ℕ × ℕ) → contains s.back_edges b ≡ true → contains s'.back_edges b ≡ true

  Post-trans : {s s' s'' : Search} → Post s s' → Post s' s'' → Post s s''
  Post-trans p q = record {
    ranked = q.ranked;
    stack = λ a. q.stack a ∙ p.stack a;
    visits = λ a h. q.visits a (p.visits a h);
    backs = λ b h. q.backs b (p.backs b h);
  }

  Post-refl : {s : Search} → Ranked body s.visited s.back_edges → Post s s
  Post-refl r = record { ranked = r; stack = λ a. refl; visits = λ a h. h; backs = λ b h. h }

  abbrev Settled : ℕ → List ℕ → Search → Type 0
  Settled u vs s =
      (v : ℕ)
      → contains vs v ≡ true
      → (contains s.back_edges (u, v) ≡ true) ⊎ (contains s.visited v ≡ true)

  Settled-cons :
      (u v : ℕ) (vs : List ℕ) (s : Search)
      → (contains s.back_edges (u, v) ≡ true) ⊎ (contains s.visited v ≡ true)
      → Settled u vs s
      → Settled u (v ∷ vs) s
  Settled-cons u v vs s now rest w h = elim (Bool-cases (v == w)) [
    | inl d ↦
        subst (λ k. (contains s.back_edges (u, k) ≡ true) ⊎ (contains s.visited k ≡ true))
          (eq_of_== v w d) now
    | inr d ↦ rest w (ground arith)
  ]

  abbrev Visits : (ℕ → Search → Option Search) → List ℕ → Type 0
  Visits visit stack =
      (v : ℕ) (s : Search)
      → Ranked body s.visited s.back_edges
      → ((a : ℕ) → contains s.in_stack a ≡ contains stack a)
      → contains stack v ≡ false
      → Kept body v
      → (s' : Search) × (visit v s ≡ some s') × Post s s' × (contains s'.visited v ≡ true)

  dfs_all_lem :
      (visit : ℕ → Search → Option Search) (u : ℕ) (stack vs : List ℕ) (s : Search)
      → Visits visit stack
      → Ranked body s.visited s.back_edges
      → ((a : ℕ) → contains s.in_stack a ≡ contains stack a)
      → ((v : ℕ) → contains vs v ≡ true → Kept body v)
      → (s' : Search) × (dfs_all body visit u vs s ≡ some s') × Post s s' × Settled u vs s'
  unfolding dfs_all
  dfs_all_lem visit u stack [] s vis r st kept = (s, refl, Post-refl r, λ v h. cc)
  dfs_all_lem visit u stack (v ∷ vs) s vis r st kept = elim (Bool-cases (contains s.in_stack v)) [
    | inl on ↦
        let s1 : Search = record s { back_edges = insert (u, v) s.back_edges } in
        let p1 : Post s s1 = record {
          ranked = Ranked-back body (u, v) r;
          stack = λ a. refl;
          visits = λ a h. h;
          backs = λ b h. contains-insert (u, v) s.back_edges b ∙ ap (λ x. x || (u, v) == b) h;
        } in
        let edge : ℕ × ℕ = (u, v) in
        let new_edge : contains s1.back_edges (u, v) ≡ true =
          ground (arith, contains-insert edge s.back_edges edge, ==_refl edge) in
        let (s', e, p, all) =
          dfs_all_lem visit u stack vs s1 vis p1.ranked st (λ w h. kept w (ground arith)) in
        (
          s',
          rw (on, dfs_all) e,
          Post-trans p1 p,
          Settled-cons u v vs s' (inl (p.backs (u, v) new_edge)) all,
        )
    | inr off ↦ elim (Bool-cases (contains s.visited v)) [
      | inl seen ↦
          let (s', e, p, all) =
            dfs_all_lem visit u stack vs s vis r st (λ w h. kept w (ground arith)) in
          (s', rw (off, dfs_all, seen) e, p, Settled-cons u v vs s' (inr (p.visits v seen)) all)
      | inr fresh ↦
          let (s1, e1, p1, done) =
            vis v s r st (sym (st v) ∙ off) (kept v (ground (arith, ==_refl v))) in
          let (s', e, p, all) =
            dfs_all_lem visit u stack vs s1 vis p1.ranked (λ a. p1.stack a ∙ st a)
              (λ w h. kept w (ground arith)) in
          (
            s',
            rw (off, dfs_all, fresh, e1) e,
            Post-trans p1 p,
            Settled-cons u v vs s' (inr (p.visits v done)) all,
          )
    ]
  ]

  leave-Post :
      (u : ℕ) (s s' : Search)
      → contains s.in_stack u ≡ false
      → Post (enter body u s) s'
      → ((v : ℕ)
          → Edge body u v
          → (contains s'.back_edges (u, v) ≡ true) ⊎ (contains s'.visited v ≡ true))
      → Post s (leave body u s') × (contains (leave body u s').visited u ≡ true)
  unfolding enter leave
  leave-Post u s s' new p settled = (
    record {
      ranked = Ranked-leave body u p.ranked settled;
      stack = λ a.
          let c = contains-remove u s'.in_stack a in
          let c' = contains-insert u s.in_stack a in
          let old = p.stack a in
          elim (Bool-cases (u == a)) [
            | inl d ↦ let at = eq_of_== u a d in ground arith
            | inr d ↦ ground arith
          ];
      visits = λ a h. contains-insert u s'.visited a ∙ ap (λ b. b || u == a) (p.visits a h);
      backs = λ b h. p.backs b h;
    },
    ground (arith, contains-insert u s'.visited u, ==_refl u),
  )

  dfs_lem :
      Targets body
      → (fuel u : ℕ) (s : Search) → Ranked body s.visited s.back_edges
      → contains s.in_stack u ≡ false
      → Kept body u
      → free s.in_stack (ids 0 body) < fuel
      → (s' : Search) × (dfs body fuel u s ≡ some s') × Post s s' × (contains s'.visited u ≡ true)
  unfolding dfs
  dfs_lem targets zero u s r new k small = absurd (omega arith)
  dfs_lem targets (suc fuel) u s r new k small = elim (Bool-cases (contains s.visited u)) [
    | inl seen ↦ (s, rw (k.found, dfs, k.kept, seen) refl, Post-refl r, seen)
    | inr fresh ↦
        let (succs, e) = targets u k.block k.found in
        let fewer =
          free-lt u s.in_stack (ids 0 body) (ids-contains 0 u u body (omega arith) k.found) new in
        let (s', e', p, all) =
          dfs_all_lem (dfs body fuel) u (insert u s.in_stack) succs (enter body u s)
            (λ w s0 r0 st0 new0 k0.
              let le = free-le (insert u s.in_stack) s0.in_stack (ids 0 body) (λ a h. st0 a ∙ h) in
              dfs_lem targets fuel w s0 r0 (st0 w ∙ new0) k0 (omega (arith, le, fewer, small)))
            (unfold enter in r) (λ a. unfold enter in refl)
            (terminator_successors-Kept body k.block.terminator e) in
        let (q, done) = leave-Post u s s' new p (λ v edge. all v (listed body k edge e)) in
        (leave body u s', rw (k.found, dfs, k.kept, fresh, e, e') refl, q, done)
  ]

  -- The search for the back edges of a body returns, when the targets of its blocks are blocks of
  -- the body and the first block is translated, and then no cycle without a back edge can be reached
  -- from the first block without a back edge.
  pub compute_back_edges_acyclic :
      Targets body
      → Kept body 0
      → (back : List (ℕ × ℕ)) × (compute_back_edges body ≡ some back)
        × ((u : ℕ) → Forward body back 0 u → ¬ Forward body back u u)
  unfolding compute_back_edges
  compute_back_edges_acyclic targets k =
      let start : Search = record { in_stack = []; visited = []; back_edges = [] } in
      let none_yet : Ranked body start.visited start.back_edges = record {
        rank = λ a. 0;
        top = 0;
        below = λ a h. cc;
        falls = λ u v h e. cc;
      } in
      let (s', e, p, here) =
        dfs_lem targets (suc (suc (length body))) 0 start none_yet refl k
          (omega (arith, free_empty 0 body)) in
      (
        s'.back_edges,
        rw (e) refl,
        λ u path cycle.
            let (vis, _) = Forward-falls body p.ranked here path in
            let (_, lower) = Forward-falls body p.ranked vis cycle in absurd (omega (arith, lower)),
      )

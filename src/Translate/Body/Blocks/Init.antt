-- ===== src/Translate/Body/Blocks/Init.antt =====
-- init_basic_block of src/translate/mir_to_pn/terminator.rs gives every translated block its place.
use conc_bug_dect_rust.Prelude.{
  ==_refl, Bool, Bool-cases, List, Option, Text, [], arith, contains, false, get_elem?, if_intro,
  if◌then◌else◌, inl, inr, list_eq, list_ord, lookup-put, nat_eq, nat_ord, pair_eq, pair_ord, refl,
  some, suc, true, zero, ℕ, ◌+◌, ◌==◌, ◌∷◌, ◌≡◌,
}
use conc_bug_dect_rust.Translate.Body.{
  BasicBlockGraph, BodyState, Context, add_place, bb_place, emit, last_element, last_of, register,
  start_of,
}
use conc_bug_dect_rust.Translate.Body.Blocks.{
  init_basic_block, init_block, init_blocks, is_excluded,
}
use conc_bug_dect_rust.Translate.Body.Frame.{Ready}
use conc_bug_dect_rust.Translate.Mir.{BlockData}

-- What holds of a block once it is passed.
record Settled (g : BasicBlockGraph) (excluded : List ℕ) (t : ℕ) (bb : BlockData) : Type 0 where
  opened :
      is_excluded bb ≡ false
      → ((p : ℕ) × (start_of t g ≡ some p)) × ((p : ℕ) × (last_of t g ≡ some p))
  closed : is_excluded bb ≡ true → contains excluded t ≡ true

some_after :
    (b : Bool) (v : ℕ) {o : Option ℕ}
    → (p : ℕ) × (o ≡ some p)
    → (p : ℕ) × ((if b then some v else o) ≡ some p)
some_after true v old = (v, refl)
some_after false v old = old

start_of-register :
    (bb t place : ℕ) (g : BasicBlockGraph)
    → start_of t (register bb place g) ≡ (if bb == t then some place else start_of t g)
unfolding start_of register
start_of-register bb t place g = lookup-put bb t place g.start_places

last_of-register :
    (bb t place : ℕ) (g : BasicBlockGraph)
    → last_of t (register bb place g) ≡ (if bb == t then some place else last_of t g)
unfolding last_of register last_element
last_of-register bb t place g =
    rw (lookup-put bb t (place ∷ []) g.sequences)
      (elim (Bool-cases (bb == t)) [ inl e ↦ rw (e) refl | inr e ↦ rw (e) refl ])

module _ (c : Context) (body_name : Text) where
  kept-Settled :
      (i t place : ℕ) (bb : BlockData) (g : BasicBlockGraph) (ex : List ℕ)
      → Settled g ex t bb
      → Settled (register i place g) ex t bb
  kept-Settled i t place bb g ex h = record {
    opened = λ e. (
      rw (start_of-register i t place g) (some_after (i == t) place (h.opened e).0),
      rw (last_of-register i t place g) (some_after (i == t) place (h.opened e).1),
    );
    closed = h.closed;
  }

  init_block-Settled :
      (i : ℕ) (bb : BlockData) (t : ℕ) (old : BlockData) (s : BodyState)
      → Settled s.bb_graph s.exclude_bb t old
      → let s' = init_block c body_name i bb s in Settled s'.bb_graph s'.exclude_bb t old
  unfolding init_block bb_place add_place emit
  init_block-Settled i bb t old s h =
      if_intro (λ (s' : BodyState). Settled s'.bb_graph s'.exclude_bb t old) (is_excluded bb)
        (λ _. record { opened = h.opened; closed = λ e. ground (arith, h.closed e) })
        (λ _. kept-Settled i t _ old s.bb_graph s.exclude_bb h)

  init_block_new :
      (i : ℕ) (bb : BlockData) (s : BodyState)
      → let s' = init_block c body_name i bb s in Settled s'.bb_graph s'.exclude_bb i bb
  unfolding init_block bb_place add_place emit
  init_block_new i bb s =
      if_intro (λ (s' : BodyState). Settled s'.bb_graph s'.exclude_bb i bb) (is_excluded bb)
        (λ e. record { opened = λ e'. cc; closed = λ _. ground (arith, ==_refl i) })
        (λ e.
          let place = c.ids.place_id s.net in
          record {
            opened = λ _. (
              (place, rw (start_of-register i i place s.bb_graph, ==_refl i) refl),
              (place, rw (last_of-register i i place s.bb_graph, ==_refl i) refl),
            );
            closed = λ e'. cc;
          })

  init_blocks-Settled :
      (bbs : List BlockData) (i t : ℕ) (old : BlockData) (s : BodyState)
      → Settled s.bb_graph s.exclude_bb t old
      → let s' = init_blocks c body_name bbs i s in Settled s'.bb_graph s'.exclude_bb t old
  unfolding init_blocks
  init_blocks-Settled [] i t old s h = h
  init_blocks-Settled (bb ∷ bbs) i t old s h =
      init_blocks-Settled bbs (i + 1) t old (init_block c body_name i bb s)
        (init_block-Settled i bb t old s h)

  init_blocks_all :
      (bbs : List BlockData) (i k t : ℕ) (bb : BlockData) (s : BodyState)
      → i + k ≡ t
      → get_elem? bbs k ≡ some bb
      → let s' = init_blocks c body_name bbs i s in Settled s'.bb_graph s'.exclude_bb t bb
  unfolding init_blocks
  init_blocks_all [] i k t bb s at e = cc
  init_blocks_all (b ∷ bbs) i zero t bb s at e =
      let here = init_block_new i b s in
      let same : b ≡ bb = cc in
      let at' : i ≡ t = omega arith in
      init_blocks-Settled bbs (i + 1) t bb (init_block c body_name i b s) (rw (← same, ← at') here)
  init_blocks_all (b ∷ bbs) i (suc k) t bb s at e =
      init_blocks_all bbs (i + 1) k t bb (init_block c body_name i b s) (omega arith) e

  -- After it every translated block has a first and a last place, and the others are noted.
  pub init_basic_block-Ready : (s : BodyState) → Ready c (init_basic_block c body_name s)
  unfolding init_basic_block
  init_basic_block-Ready s = record {
    first = λ t o. ((init_blocks_all c.body 0 t t o.block s (omega arith) o.found).opened o.kept).0;
    last = λ t o. ((init_blocks_all c.body 0 t t o.block s (omega arith) o.found).opened o.kept).1;
    noted = λ t bb e e'. (init_blocks_all c.body 0 t t bb s (omega arith) e).closed e';
  }

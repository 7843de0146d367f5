-- ===== src/Translate/Body/Blocks/Switch.antt =====
-- handle_switch of src/translate/mir_to_pn/terminator.rs returns, as long as its counter of eight
-- bits suffices.
use conc_bug_dect_rust.Prelude.{
  Bool, Every, List, Option, Text, [], arith, codes, cons, contains, dec_lt, decimal, false,
  if_intro, if◌then◌else◌, inl, inr, length, list_eq, list_ord, ltb, nat_eq, nat_ord, none, pair_eq,
  pair_ord, refl, some, suc, true, ℕ, ◌&&◌, ◌++◌, ◌+◌, ◌<◌, ◌==◌, ◌∷◌, ◌≡◌, ◌≤◌,
}
use conc_bug_dect_rust.Translate.Body.{
  Context, BodyState, add_input_arc, add_output_arc, add_transition, emit, transition_name,
}
use conc_bug_dect_rust.Translate.Body.Blocks.{
  arcs_through, handle_switch, is_back_edge, next_u8, switch_target, switch_targets,
}
use conc_bug_dect_rust.Translate.Net.{TransitionType}
use conc_bug_dect_rust.Translate.Body.Frame.{
  Done, Done-returns, Known, Known-Open, Open, Ready, done,
}

-- The targets that get a transition.
pub kept : List ℕ → List ℕ → ℕ
kept excluded [] = 0
kept excluded (t ∷ ts) =
    let rest = kept excluded ts in if contains excluded t then rest else suc rest

pub kept-le-length : (excluded ts : List ℕ) → kept excluded ts ≤ length ts
unfolding kept
kept-le-length excluded [] = omega arith
kept-le-length excluded (t ∷ ts) = ground (arith, kept-le-length excluded ts)

pub returns : Option BodyState → Bool
returns none = false
returns (some s) = true

record Switched (c : Context) (bb t t_num : ℕ) (name : Text) (s : BodyState) : Type 0 where
  after : BodyState
  returned : switch_target c bb t t_num name s ≡ some (after, t_num + 1)
  ready : Ready c after
  same : after.exclude_bb ≡ s.exclude_bb

module _ (c : Context) (bb : ℕ) (name : Text) where
  next_u8-some : (n : ℕ) → n + 1 < 256 → next_u8 c n ≡ some (n + 1)
  unfolding next_u8
  next_u8-some n h = ground arith

  next_u8-none : (n : ℕ) → 256 ≤ n + 1 → next_u8 c n ≡ none
  unfolding next_u8
  next_u8-none n h = ground arith

  switch_target-Switched :
      (t t_num : ℕ) (s : BodyState)
      → Ready c s
      → Open c bb
      → Open c t
      → t_num + 1 < 256
      → Switched c bb t t_num name s
  unfolding switch_target arcs_through add_transition add_input_arc add_output_arc emit
  switch_target-Switched t t_num s h here there small =
      let (l, e) = h.last bb here in
      let (p, e') = h.first t there in
      let bb_end = c.ids.transition_id s.net in
      let bb_term_name = transition_name name bb (codes "switch") ++ decimal t_num in
      let s' = (add_transition c bb_term_name TransitionType.switch s).0 in
      record {
        after = add_output_arc p bb_end 1 (add_input_arc l bb_end 1 s');
        returned = rw (next_u8-some t_num small, e', e, switch_target, arcs_through) refl;
        ready = h;
        same = refl;
      }

  pub switch_targets-Done :
      (dispatch : Bool) (ts : List ℕ) (t_num : ℕ) (s : BodyState)
      → Ready c s
      → Open c bb
      → Every (Known c) ts
      → t_num + kept s.exclude_bb ts < 256
      → Done c (switch_targets c dispatch bb ts t_num name s)
  unfolding switch_targets is_back_edge kept
  switch_targets-Done dispatch [] t_num s h here known small = done h
  switch_targets-Done dispatch (t ∷ ts) t_num s h here (cons k known) small =
      if_intro (Done c) (dispatch && ltb 1 t_num) (λ _. done h)
        (λ _.
          if_intro (Done c) (contains s.exclude_bb t)
            (λ e. switch_targets-Done dispatch ts t_num s h here known (ground arith))
            (λ e. elim (Known-Open s h k) [
              | inl e' ↦ cc
              | inr there ↦
                  let w = switch_target-Switched t t_num s h here there (ground arith) in
                  rw w.returned (
                    switch_targets-Done dispatch ts (t_num + 1) w.after w.ready here known
                      (ground (arith, w.same)))
            ]))

  -- Without the dispatch of a coroutine every target counts.
  switch_targets_overflow :
      (ts : List ℕ) (t_num : ℕ) (s : BodyState)
      → Ready c s
      → Open c bb
      → Every (Known c) ts
      → t_num < 256
      → 256 ≤ t_num + kept s.exclude_bb ts
      → switch_targets c false bb ts t_num name s ≡ none
  unfolding switch_targets is_back_edge kept
  switch_targets_overflow [] t_num s h here known low big = absurd (omega arith)
  switch_targets_overflow (t ∷ ts) t_num s h here (cons k known) low big =
      if_intro (λ o. o ≡ none) (contains s.exclude_bb t)
        (λ e. switch_targets_overflow ts t_num s h here known low (ground arith))
        (λ e. elim (Known-Open s h k) [
          | inl e' ↦ cc
          | inr there ↦ elim (dec_lt (t_num + 1) 256) [
            | yes small ↦
                let w = switch_target-Switched t t_num s h here there small in
                rw w.returned (
                  switch_targets_overflow ts (t_num + 1) w.after w.ready here known small
                    (ground (arith, w.same)))
            | no big' ↦ rw (next_u8-none t_num (omega arith), switch_target) refl
          ]
        ])

  -- A switch outside the dispatch of a coroutine, at a translated block and with known targets,
  -- returns exactly when fewer than 255 of its targets are translated: its counter has eight bits
  -- and is counted up after the last target too.
  pub handle_switch_bounds :
      (targets : List ℕ) (s : BodyState)
      → Ready c s
      → Open c bb
      → Every (Known c) targets
      → (bb == 0 && c.is_coroutine) ≡ false
      → returns (handle_switch c bb targets name s) ≡ ltb (kept s.exclude_bb targets) 255
  unfolding handle_switch returns
  handle_switch_bounds targets s h here known plain =
      elim (dec_lt (kept s.exclude_bb targets) 255) [
        | yes small ↦
            let (s', e, _) =
              Done-returns (switch_targets-Done false targets 1 s h here known (omega arith)) in
            rw (plain, handle_switch, e) (ground arith)
        | no big ↦
            let e = switch_targets_overflow targets 1 s h here known (omega arith) (omega arith) in
            rw (plain, handle_switch, e) (ground arith)
      ]

  pub handle_switch-Done :
      (targets : List ℕ) (s : BodyState)
      → Ready c s
      → Open c bb
      → Every (Known c) targets
      → length targets < 255
      → Done c (handle_switch c bb targets name s)
  unfolding handle_switch
  handle_switch-Done targets s h here known few =
      switch_targets-Done (bb == 0 && c.is_coroutine) targets 1 s h here known
        (omega (arith, kept-le-length s.exclude_bb targets))

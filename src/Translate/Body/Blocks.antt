-- ===== src/Translate/Body/Blocks.antt =====
-- src/translate/mir_to_pn/terminator.rs and the macros it uses: the places of the blocks, and the
-- transitions of the terminators that are not calls.
pub mod Total
pub mod Init
pub mod Switch
pub mod Return
use conc_bug_dect_rust.Prelude.{
  Bool, List, Option, Text, [], codes, contains, decimal, false, get_elem?, if◌then◌else◌, list_eq,
  list_ord, ltb, nat_eq, nat_ord, none, pair_eq, pair_ord, some, ℕ, ◌&&◌, ◌++◌, ◌+◌, ◌==◌, ◌>>=◌,
  ◌||◌, ◌∷◌,
}
use conc_bug_dect_rust.Translate.Body.{
  Context, BodyState, add_input_arc, add_output_arc, add_transition, bb_place, function_places,
  last_of, register, separator, start_of, transition_name,
}
use conc_bug_dect_rust.Translate.Mir.{BlockData, Terminator, TerminatorKind}
use conc_bug_dect_rust.Translate.Net.{TransitionType}

unfoldable pub is_excluded : BlockData → Bool
is_excluded bb = bb.is_cleanup || bb.is_empty_unreachable

pub span_of : Option Terminator → Text
span_of none = []
span_of (some term) = term.span

module _ (c : Context) where
  -- Complete control flow is preserved: no edge is left out.
  unfoldable pub is_back_edge : ℕ → ℕ → Bool
  is_back_edge src target = false

  init_block : Text → ℕ → BlockData → BodyState → BodyState
  unfolding span_of is_excluded
  init_block body_name bb_idx bb s =
      if is_excluded bb
      then record s { exclude_bb = bb_idx ∷ s.exclude_bb }
      else let (s', place) =
          bb_place c (body_name ++ separator ++ decimal bb_idx) (span_of bb.terminator) s in
        record s' { bb_graph = register bb_idx place s'.bb_graph }

  init_blocks : Text → List BlockData → ℕ → BodyState → BodyState
  unfolding init_block
  init_blocks body_name [] bb_idx s = s
  init_blocks body_name (bb ∷ bbs) bb_idx s =
      init_blocks body_name bbs (bb_idx + 1) (init_block body_name bb_idx bb s)

  pub init_basic_block : Text → BodyState → BodyState
  unfolding init_blocks
  init_basic_block body_name s = init_blocks body_name c.body 0 s

  -- `last(bb) -> t -> place`
  pub arcs_through : ℕ → ℕ → ℕ → BodyState → Option BodyState
  arcs_through bb_idx place t s = do
    last ← last_of bb_idx s.bb_graph
    some (add_output_arc place t 1 (add_input_arc last t 1 s))

  pub add_fallthrough_transition :
      ℕ → Text → Text → TransitionType → ℕ → BodyState → Option BodyState
  unfolding arcs_through
  add_fallthrough_transition bb_idx name kind ty target s = do
    let (s', t) = add_transition c (transition_name name bb_idx kind) ty s
    first ← start_of target s'.bb_graph
    arcs_through bb_idx first t s'

  pub add_terminal_transition : ℕ → Text → Text → TransitionType → BodyState → Option BodyState
  unfolding arcs_through
  add_terminal_transition bb_idx name kind ty s =
      let (s', t) = add_transition c (transition_name name bb_idx kind) ty s in
      arcs_through bb_idx c.entry_exit.1 t s'

  pub start_arc : Option (ℕ × ℕ) → ℕ → BodyState → BodyState
  start_arc none t s = s
  start_arc (some (func_start, _)) t s = add_input_arc func_start t 1 s

  pub handle_start_block : Text → ℕ → ℕ → BodyState → Option BodyState
  unfolding start_arc
  handle_start_block name bb_idx def_id s = do
    let (s', t) =
        add_transition c (transition_name name bb_idx (codes "start"))
          (TransitionType.start c.instance_id) s
    first ← start_of bb_idx s'.bb_graph
    some (add_output_arc first t 1 (start_arc (function_places c def_id) t s'))

  pub handle_assert : ℕ → ℕ → Text → BodyState → Option BodyState
  unfolding is_back_edge add_fallthrough_transition
  handle_assert bb_idx target name s =
      if is_back_edge bb_idx target
      then some s
      else add_fallthrough_transition bb_idx name (codes "assert") TransitionType.assert target s

  pub handle_fallthrough : ℕ → ℕ → Text → Text → BodyState → Option BodyState
  unfolding is_back_edge add_fallthrough_transition
  handle_fallthrough bb_idx target name kind s =
      if contains s.exclude_bb target
      then some s
      else if is_back_edge bb_idx target
      then some s
      else add_fallthrough_transition bb_idx name kind TransitionType.goto target s

  pub handle_terminal_block : ℕ → Text → Text → BodyState → Option BodyState
  unfolding add_terminal_transition
  handle_terminal_block bb_idx name kind s =
      add_terminal_transition bb_idx name kind (TransitionType.return_ c.instance_id) s

  pub handle_unwind_continue : ℕ → Text → BodyState → Option BodyState
  unfolding add_terminal_transition
  handle_unwind_continue bb_idx name s =
      add_terminal_transition bb_idx name (codes "unwind") (TransitionType.return_ c.instance_id) s

  pub handle_panic : ℕ → Text → BodyState → Option BodyState
  unfolding add_terminal_transition
  handle_panic bb_idx name s =
      add_terminal_transition bb_idx name (codes "panic") (TransitionType.return_ c.instance_id) s

  pub handle_goto : ℕ → ℕ → Text → BodyState → Option BodyState
  unfolding handle_panic is_back_edge add_fallthrough_transition
  handle_goto bb_idx target name s = do
    bb ← get_elem? c.body target
    if bb.is_cleanup
        then handle_panic bb_idx name s
        else if is_back_edge bb_idx target
        then some s
        else add_fallthrough_transition bb_idx name (codes "goto") TransitionType.goto target s

  -- `t_num` is a `u8`: the addition panics when it passes 255.
  pub next_u8 : ℕ → Option ℕ
  next_u8 n = if ltb (n + 1) 256 then some (n + 1) else none

  -- The transition of one target of a switch.
  pub switch_target : ℕ → ℕ → ℕ → Text → BodyState → Option (BodyState × ℕ)
  unfolding arcs_through next_u8
  switch_target bb_idx t t_num name s = do
    let bb_term_name = transition_name name bb_idx (codes "switch") ++ decimal t_num
    next ← next_u8 t_num
    let (s', bb_end) = add_transition c bb_term_name TransitionType.switch s
    first ← start_of t s'.bb_graph
    s'' ← arcs_through bb_idx first bb_end s'
    some (s'', next)

  pub switch_targets : Bool → ℕ → List ℕ → ℕ → Text → BodyState → Option BodyState
  unfolding is_back_edge switch_target
  switch_targets dispatch bb_idx [] t_num name s = some s
  switch_targets dispatch bb_idx (t ∷ ts) t_num name s =
      let skip = switch_targets dispatch bb_idx ts t_num name s in
      if dispatch && ltb 1 t_num
      then some s
      else if contains s.exclude_bb t
      then skip
      else if is_back_edge bb_idx t
      then skip
      else (switch_target bb_idx t t_num name s >>= λ r.
          switch_targets dispatch bb_idx ts r.1 name r.0)

  pub handle_switch : ℕ → List ℕ → Text → BodyState → Option BodyState
  unfolding switch_targets
  handle_switch bb_idx targets name s =
      switch_targets (bb_idx == 0 && c.is_coroutine) bb_idx targets 1 name s

  -- The first other target of a switch that is not for cleanup; a missing block panics.
  pub other_target : ℕ → List ℕ → Option (Option ℕ)
  other_target suspend_bb [] = some none
  other_target suspend_bb (t ∷ ts) =
      let rest = other_target suspend_bb ts in
      if t == suspend_bb
      then rest
      else (get_elem? c.body t >>= λ bb. if bb.is_cleanup then rest else some (some t))

  abbrev pub switch_of : Option Terminator → List ℕ
  switch_of none = []
  switch_of (some term) = elim term.kind [ TerminatorKind.switch_int targets ↦ targets | _ ↦ [] ]

  pub find_continuation : ℕ → List BlockData → Option (Option ℕ)
  unfolding other_target
  find_continuation suspend_bb [] = some none
  find_continuation suspend_bb (bb ∷ bbs) =
      let rest = find_continuation suspend_bb bbs in
      if contains (switch_of bb.terminator) suspend_bb
      then (other_target suspend_bb (switch_of bb.terminator) >>= λ found. elim found [
        | some t ↦ some (some t)
        | none ↦ rest
      ])
      else rest

  pub find_suspend_continuation : ℕ → Option (Option ℕ)
  unfolding find_continuation
  find_suspend_continuation suspend_bb = find_continuation suspend_bb c.body

  suspend_to : ℕ → Text → BodyState → Option ℕ → Option BodyState
  unfolding handle_fallthrough
  suspend_to bb_idx name s none = some s
  suspend_to bb_idx name s (some cont) = handle_fallthrough bb_idx cont name (codes "suspend") s

  -- The return transition is made once: id 0 stands for none.
  unfoldable pub ensure_return_transition : Text → TransitionType → BodyState → BodyState
  ensure_return_transition name ty s =
      let (s', t) = add_transition c name ty s in
      if s.return_transition == 0 then record s' { return_transition = t } else s

  pub join_return : ℕ → ℕ → Text → BodyState → Option BodyState
  unfolding ensure_return_transition arcs_through
  join_return bb_idx return_node name s =
      let s' =
        ensure_return_transition (transition_name name bb_idx (codes "return"))
          (TransitionType.return_ c.instance_id) s in
      arcs_through bb_idx return_node s'.return_transition s'

  pub handle_return : ℕ → Text → BodyState → Option BodyState
  unfolding suspend_to find_suspend_continuation join_return
  handle_return bb_idx name s =
      if c.is_coroutine && c.sets_poll_pending bb_idx
      then (find_suspend_continuation bb_idx >>= suspend_to bb_idx name s)
      else (function_places c c.def_id >>= λ places. join_return bb_idx places.1 name s)

  pub create_call_transition : ℕ → Text → BodyState → Option (BodyState × ℕ)
  create_call_transition bb_idx bb_term_name s = do
    let (s', bb_end) = add_transition c bb_term_name TransitionType.function s
    last ← last_of bb_idx s'.bb_graph
    some (add_input_arc last bb_end 1 s', bb_end)

  unfoldable pub connect_to_target : ℕ → Option ℕ → BodyState → Option BodyState
  connect_to_target bb_end none s = some s
  connect_to_target bb_end (some target_bb) s = do
    first ← start_of target_bb s.bb_graph
    some (add_output_arc first bb_end 1 s)

  -- `wait -> bb_end`, `wait -> ret`: the wait place and the transition that returns from it
  pub add_wait_ret_subnet :
      Text → ℕ → Text → Text → TransitionType → Text → ℕ → BodyState → BodyState × ℕ
  add_wait_ret_subnet name bb_idx kind_wait kind_ret ty span bb_end s =
      let (s1, wait_place) = bb_place c (transition_name name bb_idx kind_wait) span s in
      let (s2, ret) = add_transition c (transition_name name bb_idx kind_ret) ty s1 in
      (add_input_arc wait_place ret 1 (add_output_arc wait_place bb_end 1 s2), ret)

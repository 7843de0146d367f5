-- ===== src/Translate/Body/Visit.antt =====
-- src/translate/mir_to_pn/mod.rs: the translation of a body, block by block.
pub mod Total
use conc_bug_dect_rust.Prelude.{
  Bool, List, Option, Text, [], codes, contains_text, false, if◌then◌else◌, list_eq, list_ord,
  nat_eq, nat_ord, none, pair_eq, pair_ord, put, some, true, ℕ, ◌+◌, ◌==◌, ◌>>=◌, ◌||◌, ◌∷◌,
}
use conc_bug_dect_rust.Translate.Body.{Context, BodyState, emit}
use conc_bug_dect_rust.Translate.Body.Blocks.{
  handle_assert, handle_fallthrough, handle_goto, handle_return, handle_start_block, handle_switch,
  handle_terminal_block, init_basic_block, is_excluded,
}
use conc_bug_dect_rust.Translate.Body.Calls.{handle_call}
use conc_bug_dect_rust.Translate.Body.Locks.{handle_drop}
use conc_bug_dect_rust.Translate.Body.Ordering.{ensure_seg_place}
use conc_bug_dect_rust.Translate.Body.Threads.{track_joinhandle_dataflow}
use conc_bug_dect_rust.Translate.Body.Unsafe.{
  flush_unsafe_ops, process_place_writes, process_rvalue_reads,
}
use conc_bug_dect_rust.Translate.Mir.{
  BlockData, Statement, StatementKind, Terminator, TerminatorKind,
}
use conc_bug_dect_rust.Translate.Net.{Call}

unfoldable pub empty_state : List Call → BodyState
empty_state net = record {
  net = net;
  bb_graph = record { start_places = []; sequences = [] };
  exclude_bb = [];
  return_transition = 0;
  ordered_spawn_ends = [];
  spawn_handle_end = [];
  local_ref_source = [];
  vec_alias_source = [];
  vec_spawn_ends = [];
  iter_vec_source = [];
  option_vec_source = [];
  handle_vec_source = [];
  seg = record { seg_index = []; seg_place_of = []; seqcst_place = none };
  pending_unsafe_ops = [];
}

pub is_skipped : Text → Bool
is_skipped fn_name =
    contains_text fn_name (codes "::deserialize")
    || contains_text fn_name (codes "::serialize")
    || contains_text fn_name (codes "::visit_seq")
    || contains_text fn_name (codes "::visit_map")

is_assert : Option Terminator → Bool
is_assert none = false
is_assert (some term) = elim term.kind [ TerminatorKind.assert _ ↦ true | _ ↦ false ]

module _ (c : Context) where
  -- The first segment starts with a token; its place has the largest capacity already.
  pub new : List Call → BodyState
  unfolding empty_state
  new net =
      let s = empty_state net in
      let seg' = record s.seg { seg_index = put c.instance_id 0 s.seg.seg_index } in
      let (s', seg_place) = ensure_seg_place c c.instance_id 0 (record s { seg = seg' }) in
      if c.translate_atomic_ordering then emit (Call.tokens_set seg_place 1) s' else s

  pub handle_terminator : Terminator → ℕ → Text → BlockData → BodyState → Option BodyState
  handle_terminator term bb_idx name bb s = elim term.kind [
    | TerminatorKind.goto target ↦ handle_goto c bb_idx target name s
    | TerminatorKind.switch_int targets ↦ handle_switch c bb_idx targets name s
    | TerminatorKind.return_ ↦ handle_return c bb_idx name s
    | TerminatorKind.assert target ↦ handle_assert c bb_idx target name s
    | TerminatorKind.call func args destination target unwinds ↦
        handle_call c bb_idx func args destination target name term.span unwinds s
    | TerminatorKind.drop_ place target ↦ handle_drop c bb_idx place target name bb s
    | TerminatorKind.false_edge target ↦
        handle_fallthrough c bb_idx target name (codes "false_edge") s
    | TerminatorKind.false_unwind target ↦
        handle_fallthrough c bb_idx target name (codes "false_unwind") s
    | TerminatorKind.yield_ resume ↦ handle_fallthrough c bb_idx resume name (codes "yield") s
    | TerminatorKind.inline_asm [] ↦
        handle_terminal_block c bb_idx name (codes "inline_asm_noreturn") s
    | TerminatorKind.inline_asm (target ∷ _) ↦
        handle_fallthrough c bb_idx target name (codes "inline_asm") s
    | TerminatorKind.unreachable ↦ handle_terminal_block c bb_idx name (codes "unreachable") s
    | TerminatorKind.unwind_resume ↦ handle_terminal_block c bb_idx name (codes "unwind_resume") s
    | TerminatorKind.unwind_terminate ↦
        handle_terminal_block c bb_idx name (codes "unwind_terminate") s
    | TerminatorKind.coroutine_drop ↦ handle_terminal_block c bb_idx name (codes "coroutine_drop") s
    | TerminatorKind.tail_call ↦ handle_terminal_block c bb_idx name (codes "tail_call") s
  ]

  pub visit_statement_body : ℕ → Statement → BodyState → BodyState
  visit_statement_body bb_idx statement s = elim statement.kind [
    | StatementKind.other_statement ↦ s
    | StatementKind.assign dest rvalue ↦ process_place_writes c dest bb_idx statement.span (
        process_rvalue_reads c rvalue bb_idx statement.span
          (track_joinhandle_dataflow dest.local rvalue s))
  ]

  visit_statements : ℕ → List Statement → BodyState → BodyState
  unfolding visit_statement_body
  visit_statements bb_idx [] s = s
  visit_statements bb_idx (stmt ∷ stmts) s =
      visit_statements bb_idx stmts (visit_statement_body bb_idx stmt s)

  start_first : Text → ℕ → BodyState → Option BodyState
  start_first name bb_idx s =
      if bb_idx == 0 then handle_start_block c name bb_idx c.def_id s else some s

  visit_terminator : Option Terminator → ℕ → Text → BlockData → BodyState → Option BodyState
  unfolding handle_terminator
  visit_terminator none bb_idx name bb s = some s
  visit_terminator (some term) bb_idx name bb s = handle_terminator term bb_idx name bb s

  -- The statements before an assertion are not visited.
  pub visit_block : Text → ℕ → BlockData → BodyState → Option BodyState
  unfolding visit_statements start_first visit_terminator
  visit_block fn_name bb_idx bb s = if is_excluded bb then some s else do
    let s1 = if is_assert bb.terminator then s else visit_statements bb_idx bb.statements s
    s2 ← flush_unsafe_ops c bb_idx s1
    s3 ← start_first fn_name bb_idx s2
    visit_terminator bb.terminator bb_idx fn_name bb s3

  visit_blocks : Text → List BlockData → ℕ → BodyState → Option BodyState
  unfolding visit_block
  visit_blocks fn_name [] bb_idx s = some s
  visit_blocks fn_name (bb ∷ bbs) bb_idx s =
      visit_block fn_name bb_idx bb s >>= visit_blocks fn_name bbs (bb_idx + 1)

  pub visit_body : BodyState → Option BodyState
  unfolding is_skipped visit_blocks
  visit_body s =
      let fn_name = c.def_path_str c.def_id in
      if is_skipped fn_name
      then some s
      else visit_blocks fn_name c.body 0 (init_basic_block c fn_name s)

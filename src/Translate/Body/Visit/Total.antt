-- ===== src/Translate/Body/Visit/Total.antt =====
-- The translation of a body returns.
use conc_bug_dect_rust.Prelude.{
  Bool, Bool-cases, Every, List, Option, Text, [], ap, arith, false, get_elem?, if_intro, inl, inr,
  length, list_eq, list_ord, nat_eq, nat_ord, none, pair_eq, pair_ord, refl, some, suc, sym, true,
  ℕ, ◌+◌, ◌<◌, ◌==◌, ◌∙◌, ◌∷◌, ◌≡◌, ◌⊎◌,
}
use conc_bug_dect_rust.Translate.Body.{BodyState, Context, function_places}
use conc_bug_dect_rust.Translate.Body.Blocks.{is_excluded, init_basic_block}
use conc_bug_dect_rust.Translate.Body.Blocks.Init.{init_basic_block-Ready}
use conc_bug_dect_rust.Translate.Body.Blocks.Return.{SwitchKnown, handle_return-Done}
use conc_bug_dect_rust.Translate.Body.Blocks.Switch.{handle_switch-Done}
use conc_bug_dect_rust.Translate.Body.Blocks.Total.{
  handle_assert-Done, handle_fallthrough-Done, handle_goto-Done, handle_start_block-Done,
  handle_terminal_block-Done,
}
use conc_bug_dect_rust.Translate.Body.Calls.Dispatch.{CalleeFits, TargetFits, handle_call-Done}
use conc_bug_dect_rust.Translate.Body.Frame.{
  Done, Done-bind, Done-returns, Known, Open, Ready, done,
}
use conc_bug_dect_rust.Translate.Body.Locks.Total.{LocksPlaced, handle_drop-Done}
use conc_bug_dect_rust.Translate.Body.Threads.Total.{track_joinhandle_dataflow-Ready}
use conc_bug_dect_rust.Translate.Body.Unsafe.Total.{
  flush_unsafe_ops-Done, process_place_writes-Ready, process_rvalue_reads-Ready,
}
use conc_bug_dect_rust.Translate.Body.Visit.{
  handle_terminator, is_assert, is_skipped, start_first, visit_block, visit_blocks, visit_body,
  visit_statement_body, visit_statements, visit_terminator,
}
use conc_bug_dect_rust.Translate.Mir.{
  BlockData, Callee, Operand, Place, Statement, StatementKind, Terminator, TerminatorKind,
}

-- What the handler of a terminator expects: targets that are blocks of the body, translated ones
-- where the handler does not look whether they are, and fewer than 255 targets of a switch.
pub data Fits (c : Context) : TerminatorKind → Type 0 where
  goto_fits :
      {t : ℕ} (k : Known c t)
      → (k.block.is_cleanup ≡ false → Open c t)
      → Fits c (TerminatorKind.goto t)
  switch_fits :
      {ts : List ℕ} → Every (Known c) ts → length ts < 255 → Fits c (TerminatorKind.switch_int ts)
  return_fits : Fits c TerminatorKind.return_
  assert_fits : {t : ℕ} → Open c t → Fits c (TerminatorKind.assert t)
  call_fits :
      {func : Callee} {args : List Operand} {destination : Place} {target : Option ℕ}
      {unwinds : Bool}
      → CalleeFits c args func
      → TargetFits c target
      → Fits c (TerminatorKind.call func args destination target unwinds)
  drop_fits : {place : Place} {t : ℕ} → Open c t → Fits c (TerminatorKind.drop_ place t)
  false_edge_fits : {t : ℕ} → Known c t → Fits c (TerminatorKind.false_edge t)
  false_unwind_fits : {t : ℕ} → Known c t → Fits c (TerminatorKind.false_unwind t)
  yield_fits : {t : ℕ} → Known c t → Fits c (TerminatorKind.yield_ t)
  inline_asm_end : Fits c (TerminatorKind.inline_asm [])
  inline_asm_fits : {t : ℕ} {ts : List ℕ} → Known c t → Fits c (TerminatorKind.inline_asm (t ∷ ts))
  unreachable_fits : Fits c TerminatorKind.unreachable
  unwind_resume_fits : Fits c TerminatorKind.unwind_resume
  unwind_terminate_fits : Fits c TerminatorKind.unwind_terminate
  coroutine_drop_fits : Fits c TerminatorKind.coroutine_drop
  tail_call_fits : Fits c TerminatorKind.tail_call

pub data TerminatorFits (c : Context) : Option Terminator → Type 0 where
  no_terminator : TerminatorFits c none
  terminator_fits : {term : Terminator} → Fits c term.kind → TerminatorFits c (some term)

-- A body that can be translated: its function has its places, its locks have theirs, the targets
-- of switches are blocks of the body, and the terminators of its translated blocks fit.
pub record WellFormed (c : Context) : Type 0 where
  pub places : ℕ × ℕ
  pub registered : function_places c c.def_id ≡ some places
  pub locks : LocksPlaced c
  pub switches : Every (SwitchKnown c) c.body
  pub terminators : (t : ℕ) (o : Open c t) → TerminatorFits c o.block.terminator

module _ (c : Context) (wf : WellFormed c) where
  fits-Done :
      (term : Terminator) {kind : TerminatorKind} (bb : ℕ) (name : Text) (block : BlockData)
      (s : BodyState)
      → term.kind ≡ kind
      → Fits c kind
      → Ready c s
      → Open c bb
      → Done c (handle_terminator c term bb name block s)
  unfolding handle_terminator
  fits-Done term bb name block s e (goto_fits k opened) h here =
      rw (e, handle_terminator) (handle_goto-Done c bb _ name s h here k opened)
  fits-Done term bb name block s e (switch_fits {ts} known few) h here =
      rw (e, handle_terminator) (handle_switch-Done c bb name ts s h here known few)
  fits-Done term bb name block s e return_fits h here =
      rw (e, handle_terminator) (handle_return-Done c bb name s h here wf.switches wf.registered)
  fits-Done term bb name block s e (assert_fits {t} there) h here =
      rw (e, handle_terminator) (handle_assert-Done c bb t name s h here there)
  fits-Done term bb name block s e
        (call_fits {func} {args} {destination} {target} {unwinds} fits to) h here =
      rw (e, handle_terminator)
        (handle_call-Done c bb func args destination target name term.span unwinds s fits to h here)
  fits-Done term bb name block s e (drop_fits {place} {t} there) h here =
      rw (e, handle_terminator) (handle_drop-Done c bb place t name block s wf.locks h here there)
  fits-Done term bb name block s e (false_edge_fits {t} k) h here =
      rw (e, handle_terminator) (handle_fallthrough-Done c bb t name _ s h here k)
  fits-Done term bb name block s e (false_unwind_fits {t} k) h here =
      rw (e, handle_terminator) (handle_fallthrough-Done c bb t name _ s h here k)
  fits-Done term bb name block s e (yield_fits {t} k) h here =
      rw (e, handle_terminator) (handle_fallthrough-Done c bb t name _ s h here k)
  fits-Done term bb name block s e inline_asm_end h here =
      rw (e, handle_terminator) (handle_terminal_block-Done c bb name _ s h here)
  fits-Done term bb name block s e (inline_asm_fits {t} k) h here =
      rw (e, handle_terminator) (handle_fallthrough-Done c bb t name _ s h here k)
  fits-Done term bb name block s e unreachable_fits h here =
      rw (e, handle_terminator) (handle_terminal_block-Done c bb name _ s h here)
  fits-Done term bb name block s e unwind_resume_fits h here =
      rw (e, handle_terminator) (handle_terminal_block-Done c bb name _ s h here)
  fits-Done term bb name block s e unwind_terminate_fits h here =
      rw (e, handle_terminator) (handle_terminal_block-Done c bb name _ s h here)
  fits-Done term bb name block s e coroutine_drop_fits h here =
      rw (e, handle_terminator) (handle_terminal_block-Done c bb name _ s h here)
  fits-Done term bb name block s e tail_call_fits h here =
      rw (e, handle_terminator) (handle_terminal_block-Done c bb name _ s h here)

  visit_terminator-Done :
      (o : Option Terminator) (bb : ℕ) (name : Text) (block : BlockData) (s : BodyState)
      → TerminatorFits c o
      → Ready c s
      → Open c bb
      → Done c (visit_terminator c o bb name block s)
  unfolding visit_terminator
  visit_terminator-Done none bb name block s fits h here = done h
  visit_terminator-Done (some term) bb name block s (terminator_fits fits) h here =
      fits-Done term bb name block s refl fits h here

  visit_statement_body-Ready :
      (bb : ℕ) (stmt : Statement) (s : BodyState)
      → Ready c s
      → Ready c (visit_statement_body c bb stmt s)
  unfolding visit_statement_body
  visit_statement_body-Ready bb stmt s h = by_kind stmt.kind refl
    where
      by_kind : (k : StatementKind) → stmt.kind ≡ k → Ready c (visit_statement_body c bb stmt s)
      by_kind StatementKind.other_statement e = rw (e, visit_statement_body) h
      by_kind (StatementKind.assign dest rvalue) e =
          rw (e, visit_statement_body)
            (process_place_writes-Ready c dest bb stmt.span _ (
              process_rvalue_reads-Ready c rvalue bb stmt.span _
                (track_joinhandle_dataflow-Ready c dest.local rvalue s h)))

  visit_statements-Ready :
      (bb : ℕ) (stmts : List Statement) (s : BodyState)
      → Ready c s
      → Ready c (visit_statements c bb stmts s)
  unfolding visit_statements
  visit_statements-Ready bb [] s h = h
  visit_statements-Ready bb (stmt ∷ stmts) s h =
      visit_statements-Ready bb stmts _ (visit_statement_body-Ready bb stmt s h)

  start_first-Done :
      (name : Text) (bb : ℕ) (s : BodyState)
      → Ready c s
      → Open c bb
      → Done c (start_first c name bb s)
  unfolding start_first
  start_first-Done name bb s h here =
      if_intro (Done c) (bb == 0) (λ _. handle_start_block-Done c name bb c.def_id s h here)
        (λ _. done h)

  visit_block-Done :
      (name : Text) (bb : ℕ) (block : BlockData) (s : BodyState)
      → get_elem? c.body bb ≡ some block
      → Ready c s
      → Done c (visit_block c name bb block s)
  unfolding visit_block
  visit_block-Done name bb block s found h =
      if_intro (Done c) (is_excluded block) (λ _. done h)
        (λ e.
          let here : Open c bb = record { block = block; found = found; kept = e } in
          Done-bind
            (flush_unsafe_ops-Done c bb _
              (if_intro (Ready c) (is_assert block.terminator) (λ _. h)
                (λ _. visit_statements-Ready bb block.statements s h))
              here)
            (λ s2 h2. Done-bind (start_first-Done name bb s2 h2 here) (λ s3 h3.
              visit_terminator-Done block.terminator bb name block s3 (wf.terminators bb here) h3
                here)))

  visit_blocks-Done :
      (name : Text) (bbs : List BlockData) (bb : ℕ) (s : BodyState)
      → ((k : ℕ) (block : BlockData)
          → get_elem? bbs k ≡ some block
          → get_elem? c.body (bb + k) ≡ some block)
      → Ready c s
      → Done c (visit_blocks c name bbs bb s)
  unfolding visit_blocks
  visit_blocks-Done name [] bb s part h = done h
  visit_blocks-Done name (block ∷ bbs) bb s part h =
      let found = part 0 block refl in
      let zero_right : bb + 0 ≡ bb = omega arith in
      Done-bind
        (visit_block-Done name bb block s (ap (get_elem? c.body) (sym zero_right) ∙ found) h)
        (λ s' h'.
          visit_blocks-Done name bbs (bb + 1) s'
            (λ k b e.
              let shift : bb + 1 + k ≡ bb + suc k = omega arith in
              ap (get_elem? c.body) shift ∙ part (suc k) b e)
            h')

  -- The translation of a well-formed body does not panic: it returns a state, in which, unless the
  -- function is one of the skipped ones for serialization, every translated block still has its
  -- first and its last place and every other block is noted as excluded.
  pub visit_body_returns :
      (s : BodyState)
      → (s' : BodyState) × (visit_body c s ≡ some s')
        × ((is_skipped (c.def_path_str c.def_id) ≡ true) ⊎ Ready c s')
  unfolding visit_body
  visit_body_returns s =
      let fn_name = c.def_path_str c.def_id in
      elim (Bool-cases (is_skipped fn_name)) [
        | inl e ↦ (s, rw (e, visit_body) refl, inl e)
        | inr e ↦
            let (s', e', h) = Done-returns (
              visit_blocks-Done fn_name c.body 0 (init_basic_block c fn_name s)
                (λ k b found.
                  let same : k ≡ 0 + k = omega arith in ap (get_elem? c.body) (sym same) ∙ found)
                (init_basic_block-Ready c fn_name s)) in
            (s', rw (e, visit_body, e') refl, inr h)
      ]

-- ===== src/Tests/Bodies.antt =====
-- Concrete inputs for the theorems on src/translate/mir_to_pn.
use conc_bug_dect_rust.Prelude.{
  Bool, Bool-cases, Every, List, [], arith, codes, cons, eq_of_==, false, get_elem?, inl, inr,
  length, list_eq, list_ord, lookup, ltb, nat_eq, nat_ord, nil, none, pair_eq, pair_ord, refl, some,
  subst, suc, sym, true, zero, ℕ, ℕ_discrete, ◌++◌, ◌+◌, ◌<◌, ◌==◌, ◌>>=◌, ◌∙◌, ◌∷◌, ◌≡◌, ◌⊎◌,
}
use conc_bug_dect_rust.Memory.PointsTo.{
  AliasUnknownPolicy, ApproximateAliasKind, LockGuardId, from_lock_guard, first_field,
}
use conc_bug_dect_rust.Translate.Body.{
  BodyState, Context, last_of, function_places, last_element, add_transition, emit,
}
use conc_bug_dect_rust.Translate.Body.Blocks.{
  init_basic_block, is_excluded, ensure_return_transition, handle_switch, handle_return,
}
use conc_bug_dect_rust.Translate.Body.Blocks.Init.{init_basic_block-Ready}
use conc_bug_dect_rust.Translate.Body.Frame.{Known, Open, Ready}
use conc_bug_dect_rust.Translate.Body.Locks.{
  guarded_lock, lock_node_for_guard, lockguard_id_for_dest, arg_is_guard, release_dropped,
  release_by_call, drop_weight, is_guard, plain_guard,
}
use conc_bug_dect_rust.Translate.Body.Locks.Total.{LocksPlaced, opened_some}
use conc_bug_dect_rust.Translate.Body.Threads.Total.{FirstPlace}
use conc_bug_dect_rust.Translate.Body.Calls.{dispatch}
use conc_bug_dect_rust.Translate.Body.Calls.Acquisition.{dispatch-untyped}
use conc_bug_dect_rust.Translate.Body.Calls.Total.{CallFits}
use conc_bug_dect_rust.Translate.Body.Visit.{empty_state, is_skipped, visit_body}
use conc_bug_dect_rust.Translate.Body.Visit.Total.{
  WellFormed, visit_body_returns, TerminatorFits, terminator_fits, call_fits, switch_fits,
  drop_fits, return_fits, unwind_resume_fits,
}
use conc_bug_dect_rust.Translate.Mir.{
  BlockData, Callee, Operand, Place, TerminatorKind, operand_place,
}
use conc_bug_dect_rust.Translate.Body.Calls.Dispatch.{fn_def_fits, target_fits}
use conc_bug_dect_rust.Translate.Body.Blocks.Switch.{handle_switch_bounds, kept, returns}
use conc_bug_dect_rust.Translate.Body.Blocks.Return.{handle_return_joins}
use conc_bug_dect_rust.Translate.Body.Locks.Balance.{
  release_by_call-balance, Acquired, handle_lock_call-balance,
}
use conc_bug_dect_rust.Translate.Body.Ordering.{ordering_seg_arcs}
use conc_bug_dect_rust.Translate.Body.Ordering.Segments.{
  Passed, entry, exit, ordering_seg_arcs-Passed, ordering_seg_arcs_chain,
}
use conc_bug_dect_rust.Translate.Body.Threads.{
  handle_join, handle_spawn, local_of, resolve_closure_places_at,
}
use conc_bug_dect_rust.Translate.Body.Threads.Join.{handle_spawn-join}
use conc_bug_dect_rust.Translate.Net.{inputs, outputs, types_set}
use conc_bug_dect_rust.Translate.Primitives.{
  AtomicOrdering, LockGuardTy, guard_eq, alias_eq, LockGuardId-discrete, AliasId-discrete,
}

abbrev local : ℕ → Place
local n = record { local = n; projection = [] }

abbrev block : Bool → TerminatorKind → BlockData
block is_cleanup kind = record {
  is_cleanup = is_cleanup;
  is_empty_unreachable = false;
  statements = [];
  terminator = some (record { span = []; kind = kind });
}

-- A lock is acquired into the local 2, a branch drops it, and both branches return; the last block
-- is for cleanup.
abbrev blocks : List BlockData
blocks =
    block false
      (TerminatorKind.call (Callee.fn_def 7) (Operand.move (local 1) ∷ []) (local 2) (some 1) true)
    ∷ block false (TerminatorKind.switch_int (2 ∷ 3 ∷ []))
    ∷ block false (TerminatorKind.drop_ (local 2) 3)
    ∷ block false TerminatorKind.return_
    ∷ block true TerminatorKind.unwind_resume
    ∷ []

abbrev guard : LockGuardId
guard = record { instance_id = 0; local = 2; field = none }

-- The net counts its calls.
abbrev context : Context
context = record {
  instance_id = 0;
  def_id = 4;
  is_coroutine = false;
  body = blocks;
  ids = record { place_id = λ net. length net; transition_id = λ net. length net };
  alias = λ a b. ApproximateAliasKind.unlikely;
  alias_atomic = λ a b. ApproximateAliasKind.unlikely;
  alias_unknown_policy = AliasUnknownPolicy.conservative;
  lockguards = (guard, LockGuardTy.std_mutex) ∷ [];
  functions = record { counter = (4, (0, 1)) ∷ (6, (2, 3)) ∷ [] };
  resources = record {
    locks = (from_lock_guard guard, 9) ∷ [];
    condvars = [];
    atomic_places = [];
    atomic_orders = [];
    unsafe_groups = [];
    channel_places = [];
  };
  translate_atomic_ordering = true;
  entry_exit = (0, 1);
  spawn_calls = [];
  joinhandle_vec_locals = [];
  sets_poll_pending = λ bb. false;
  closure_def_id = λ arg. some 6;
  place_ty = λ p. [];
  format_name = λ id. codes "lock";
  def_path_str = λ id. codes "main";
  is_condvar_notify = λ id name. false;
  is_condvar_wait = λ id name. false;
  is_channel_send = λ id name. false;
  is_channel_recv = λ id name. false;
  thread_control = λ id name. none;
}

Open-block :
    (t : ℕ) (bb : BlockData)
    → get_elem? blocks t ≡ some bb
    → is_excluded bb ≡ false
    → Open context t
Open-block t bb found kept = record { block = bb; found = found; kept = kept }

Known-block : (t : ℕ) (bb : BlockData) → get_elem? blocks t ≡ some bb → Known context t
Known-block t bb found = record { block = bb; found = found }

targets-Known : Every (Known context) (2 ∷ 3 ∷ [])
targets-Known = cons (Known-block 2 _ refl) (cons (Known-block 3 _ refl) nil)

first_place : FirstPlace (Operand.move (local 1) ∷ [])
unfolding operand_place
first_place = record {
  arg = Operand.move (local 1);
  place = local 1;
  found = refl;
  is_place = refl;
}

CallFits-lock : CallFits context 7 (Operand.move (local 1) ∷ [])
CallFits-lock = record {
  notify = inl refl;
  wait = inl refl;
  drops = inr first_place;
  send = inl refl;
  recv = inl refl;
  threads = inr first_place;
  atomics = inr first_place;
}

locks_placed : LocksPlaced context
unfolding lookup lock_node_for_guard LockGuardId-discrete AliasId-discrete from_lock_guard
    ℕ_discrete
locks_placed id ty h = elim (Bool-cases (guard == id)) [
  | inl d ↦ (9, subst (λ k. lock_node_for_guard context k ≡ some 9) (eq_of_== guard id d) refl)
  | inr d ↦ absurd (cc (rw (d) at h))
]

fits_at :
    {t : ℕ} {bb : BlockData} (o : Open context t)
    → get_elem? blocks t ≡ some bb
    → TerminatorFits context bb.terminator
    → TerminatorFits context o.block.terminator
fits_at {t} {bb} o found fits =
    let same : some bb ≡ some o.block = sym found ∙ o.found in
    let at : bb ≡ o.block = cc in
    subst (λ (b : BlockData). TerminatorFits context b.terminator) at fits

body_fits : (t : ℕ) (o : Open context t) → TerminatorFits context o.block.terminator
unfolding is_excluded
body_fits zero o = fits_at o refl (
    terminator_fits (
      call_fits (fn_def_fits CallFits-lock)
        (target_fits (Known-block 1 _ refl) (λ e. Open-block 1 _ refl refl))))
body_fits (suc zero) o = fits_at o refl (terminator_fits (switch_fits targets-Known (omega arith)))
body_fits (suc (suc zero)) o =
    fits_at o refl (terminator_fits (drop_fits (Open-block 3 _ refl refl)))
body_fits (suc (suc (suc zero))) o = fits_at o refl (terminator_fits return_fits)
body_fits (suc (suc (suc (suc zero)))) o = fits_at o refl (terminator_fits unwind_resume_fits)
body_fits (suc (suc (suc (suc (suc t))))) o = let e = o.found in absurd cc

well_formed : WellFormed context
unfolding function_places lookup ℕ_discrete
well_formed = record {
  places = (0, 1);
  registered = refl;
  locks = locks_placed;
  switches = cons nil (cons targets-Known (cons nil (cons nil (cons nil nil))));
  terminators = body_fits;
}

visit_body_returns_example :
    (s' : BodyState) × (visit_body context (empty_state []) ≡ some s')
    × ((is_skipped (codes "main") ≡ true) ⊎ Ready context s')
visit_body_returns_example = visit_body_returns context well_formed (empty_state [])

-- The state when the blocks have their places.
start : BodyState
start = init_basic_block context [] (empty_state [])

start-Ready : Ready context start
unfolding start
start-Ready = init_basic_block-Ready context [] (empty_state [])

handle_switch_bounds_example :
    returns (handle_switch context 1 (2 ∷ 3 ∷ []) [] start)
    ≡ ltb (kept start.exclude_bb (2 ∷ 3 ∷ [])) 255
unfolding ℕ_discrete
handle_switch_bounds_example =
    handle_switch_bounds context 1 [] (2 ∷ 3 ∷ []) start start-Ready
      (unfold is_excluded in Open-block 1 _ refl refl) targets-Known refl

guard_known :
    guarded_lock context (lockguard_id_for_dest 0 (local 2)) ≡ some (LockGuardTy.std_mutex, 9)
unfolding guarded_lock lock_node_for_guard lookup lockguard_id_for_dest first_field
    LockGuardId-discrete AliasId-discrete from_lock_guard ℕ_discrete
guard_known = refl

handle_lock_call-balance_example :
    (w : ℕ) × (0 < w)
    × Acquired context [] (local 2) none 20 9 w start
    × ((r' : BodyState) × (release_dropped context (lockguard_id_for_dest 0 (local 2)) 21 start
          ≡ some r')
        × (outputs 9 21 r'.net ≡ w + outputs 9 21 start.net))
unfolding arg_is_guard
handle_lock_call-balance_example =
    handle_lock_call-balance context [] (local 2) none 20 21 start start start-Ready (λ u e. cc)
      refl guard_known

release_by_call-balance_example :
    (w : ℕ) × (0 < w)
    × Acquired context [] (local 2) none 20 9 w start
    × (outputs 9 21 (release_by_call context 2 21 start).net ≡ w + outputs 9 21 start.net)
unfolding arg_is_guard first_field
release_by_call-balance_example =
    release_by_call-balance context [] (local 2) none 20 21 start start start-Ready (λ u e. cc) refl
      guard_known refl

ordering_seg_arcs-Passed_example :
    Passed context 0 AtomicOrdering.seq_cst start
      (ordering_seg_arcs context 0 AtomicOrdering.seq_cst start)
ordering_seg_arcs-Passed_example = ordering_seg_arcs-Passed context 0 AtomicOrdering.seq_cst start

ordering_seg_arcs_chain_example :
    (p : ℕ) × (exit (ordering_seg_arcs context 0 AtomicOrdering.acquire start).1 ≡ some p)
    × (entry
          (ordering_seg_arcs context 0 AtomicOrdering.release
            (ordering_seg_arcs context 0 AtomicOrdering.acquire start).0).1
        ≡ some p)
ordering_seg_arcs_chain_example =
    ordering_seg_arcs_chain context 0 AtomicOrdering.acquire AtomicOrdering.release start

-- A body without blocks.
abbrev no_blocks : Context
no_blocks = record context { body = [] }

empty-Ready : Ready no_blocks (empty_state [])
empty-Ready = record {
  first = λ t o. let e = o.found in absurd cc;
  last = λ t o. let e = o.found in absurd cc;
  noted = λ t bb e e'. absurd cc;
}

handle_spawn-join_example :
    (s1 s2 : BodyState) × (handle_spawn no_blocks []
        (Operand.move (local 5) ∷ [])
        6
        none
        20
        (empty_state [])
      ≡ some s1)
    × (handle_join no_blocks [] (Operand.move (local 6) ∷ []) none 21 s1 ≡ some s2)
    × (inputs 3 21 s2.net ≡ 1 + inputs 3 21 s1.net)
    × (s2.ordered_spawn_ends ≡ [] ++ 3 ∷ [])
unfolding resolve_closure_places_at function_places lookup local_of operand_place empty_state
    ℕ_discrete
handle_spawn-join_example =
    handle_spawn-join no_blocks [] (Operand.move (local 5) ∷ []) none 6 20 []
      (Operand.move (local 6) ∷ []) none 21 (empty_state []) {closure_start = 2} {closure_end = 3}
      empty-Ready (λ u e. cc) (λ u e. cc) refl refl refl refl

-- The two last blocks with places of their own.
placed : BodyState
unfolding empty_state
placed = record (empty_state []) {
  bb_graph = record {
    start_places = (2, 12) ∷ (3, 13) ∷ [];
    sequences = (2, 12 ∷ []) ∷ (3, 13 ∷ []) ∷ [];
  };
  return_transition = 17;
}

handle_return_joins_example :
    (s' : BodyState) × ((handle_return context 2 [] placed >>= handle_return context 3 [])
      ≡ some s')
    × (0 < inputs 12 s'.return_transition s'.net)
    × (0 < inputs 13 s'.return_transition s'.net)
unfolding function_places lookup last_of last_element placed ensure_return_transition add_transition
    emit ℕ_discrete
handle_return_joins_example =
    handle_return_joins context 2 3 [] placed {places = (0, 1)} {l = 12} {m = 13} refl refl refl
      refl refl refl

fresh_receiver : arg_is_guard context (Operand.move (local 1) ∷ []) ≡ false
unfolding arg_is_guard is_guard plain_guard operand_place lookup LockGuardId-discrete ℕ_discrete
fresh_receiver = refl

dispatch-untyped_example :
    (s' : BodyState) × (dispatch context 7
        (Operand.move (local 1) ∷ [])
        (local 2)
        (some 1)
        (codes "main")
        0
        []
        20
        start
      ≡ some s')
    × (inputs 9 20 s'.net ≡ drop_weight LockGuardTy.std_mutex + inputs 9 20 start.net)
    × (types_set 20 s'.net ≡ types_set 20 start.net)
unfolding is_excluded
dispatch-untyped_example =
    dispatch-untyped context 7 (Operand.move (local 1) ∷ []) (local 2) (some 1) (codes "main") 0 []
      20 start start-Ready (opened_some context 1 (Open-block 1 _ refl refl)) fresh_receiver
      guard_known

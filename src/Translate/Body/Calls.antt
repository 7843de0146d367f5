-- ===== src/Translate/Body/Calls.antt =====
-- src/translate/mir_to_pn/calls.rs and handle_thread_call: the calls of a body. A handler gives
-- whether it dealt with the call.
pub mod Total
pub mod Dispatch
pub mod Acquisition
use conc_bug_dect_rust.Prelude.{
  Bool, List, Option, Text, [], codes, contains_text, false, get_elem?, if◌then◌else◌, list_eq,
  list_ord, nat_eq, nat_ord, none, pair_eq, pair_ord, some, true, ℕ, ◌>>=◌, ◌∷◌,
}
use conc_bug_dect_rust.Memory.PointsTo
use conc_bug_dect_rust.Memory.PointsTo.{AliasId}
use conc_bug_dect_rust.Translate.Body.{
  Context, BodyState, add_input_arc, add_output_arc, function_places, set_transition_type,
  transition_name,
}
use conc_bug_dect_rust.Translate.Body.Blocks.{
  add_wait_ret_subnet, connect_to_target, create_call_transition, handle_panic,
  handle_unwind_continue,
}
use conc_bug_dect_rust.Translate.Body.Locks.{
  handle_lock_call, lock_node_for_guard, plain_guard, release_by_call,
}
use conc_bug_dect_rust.Translate.Body.Ordering.{find_channel_place, handle_atomic_basic_op}
use conc_bug_dect_rust.Translate.Body.Threads.{
  local_of, resolve_closure_places_at, thread_call, thread_kind, track_joinhandle_container_call,
}
use conc_bug_dect_rust.Translate.Mir.{Callee, Operand, Place}
use conc_bug_dect_rust.Translate.Net.{TransitionType}
use conc_bug_dect_rust.Translate.Primitives.{AtomicApi, atomic_api_from_name}

-- The next handler runs when the one before it did not deal with the call.
pub or_next : BodyState × Bool → (BodyState → Option (BodyState × Bool)) → Option (BodyState × Bool)
or_next (s, true) next = some (s, true)
or_next (s, false) next = next s

-- A handler that always deals with the call.
pub handled : Option BodyState → Option (BodyState × Bool)
handled none = none
handled (some s) = some (s, true)

module _ (c : Context) where
  -- The call waits for the callee, and goes on from its end.
  call_function : Text → ℕ → Text → Option ℕ → ℕ → ℕ × ℕ → BodyState → Option BodyState
  call_function name bb_idx span none bb_end (callee_start, callee_end) s =
      let (s1, bb_ret) =
        add_wait_ret_subnet c name bb_idx (codes "wait") (codes "return") TransitionType.function
          span bb_end s in
      some (add_output_arc callee_start bb_end 1 s1)
  call_function name bb_idx span (some return_block) bb_end (callee_start, callee_end) s =
      let (s1, bb_ret) =
        add_wait_ret_subnet c name bb_idx (codes "wait") (codes "return") TransitionType.function
          span bb_end s in
      connect_to_target c bb_ret (some return_block)
        (add_input_arc callee_end bb_ret 1 (add_output_arc callee_start bb_end 1 s1))

  pub first_closure : List Operand → Option (ℕ × ℕ)
  first_closure [] = none
  first_closure (arg ∷ args) = elim (resolve_closure_places_at c (arg ∷ []) 0) [
    | some places ↦ some places
    | none ↦ first_closure args
  ]

  pub handle_normal_call :
      ℕ → Option ℕ → Text → ℕ → Text → ℕ → List Operand → BodyState → Option BodyState
  unfolding call_function first_closure
  handle_normal_call bb_end target name bb_idx span callee_id args s =
      elim (function_places c callee_id) [
        | some places ↦ call_function name bb_idx span target bb_end places s
        | none ↦ elim (first_closure args) [
          | some places ↦
              call_function (c.def_path_str callee_id) bb_idx span target bb_end places s
          | none ↦ connect_to_target c bb_end target s
        ]
      ]

  receiver : List Operand → Option AliasId
  receiver args = local_of (get_elem? args 0) >>= λ local. some (PointsTo.new c.instance_id local)

  pub handle_atomic_load :
      List Operand → ℕ → Option ℕ → ℕ → Text → BodyState → Option (BodyState × Bool)
  unfolding receiver
  handle_atomic_load args bb_end target bb_idx span s = do
    current_id ← receiver args
    handle_atomic_basic_op c (codes "load") current_id bb_end target bb_idx span
        (λ alias_id order at. TransitionType.atomic_load alias_id order at c.instance_id) s

  pub handle_atomic_store :
      List Operand → ℕ → Option ℕ → ℕ → Text → BodyState → Option (BodyState × Bool)
  unfolding receiver
  handle_atomic_store args bb_end target bb_idx span s = do
    current_id ← receiver args
    handle_atomic_basic_op c (codes "store") current_id bb_end target bb_idx span
        (λ alias_id order at. TransitionType.atomic_store alias_id order at c.instance_id) s

  -- Without an alias the call goes on to its target.
  or_connect : ℕ → Option ℕ → BodyState × Bool → Option BodyState
  or_connect bb_end target (s, true) = some s
  or_connect bb_end target (s, false) = connect_to_target c bb_end target s

  pub handle_atomic_call :
      Text → List Operand → ℕ → Option ℕ → ℕ → Text → BodyState → Option (BodyState × Bool)
  unfolding handle_atomic_load handle_atomic_store or_connect
  handle_atomic_call callee_func_name args bb_end target bb_idx span s =
      elim (atomic_api_from_name callee_func_name) [
        | some AtomicApi.read ↦
            handled
              (handle_atomic_load args bb_end target bb_idx span s >>= or_connect bb_end target)
        | some AtomicApi.write ↦
            handled
              (handle_atomic_store args bb_end target bb_idx span s >>= or_connect bb_end target)
        | _ ↦ some (s, false)
      ]

  same_condvar : AliasId → AliasId → Bool
  same_condvar a b = PointsTo.may_alias (c.alias_atomic a b) c.alias_unknown_policy

  notify_first : AliasId → List (AliasId × ℕ) → ℕ → BodyState → BodyState
  unfolding same_condvar
  notify_first condvar_alias [] bb_end s = s
  notify_first condvar_alias ((id, node) ∷ condvars) bb_end s =
      let rest = notify_first condvar_alias condvars bb_end s in
      if same_condvar condvar_alias id
      then set_transition_type bb_end (TransitionType.notify node) (add_output_arc node bb_end 1 s)
      else rest

  wait_for_all : AliasId → List (AliasId × ℕ) → ℕ → BodyState → BodyState
  unfolding same_condvar
  wait_for_all condvar_alias [] bb_ret s = s
  wait_for_all condvar_alias ((id, node) ∷ condvars) bb_ret s =
      wait_for_all condvar_alias condvars bb_ret
        (if same_condvar condvar_alias id then add_input_arc node bb_ret 1 s else s)

  -- The lock is free while the thread waits.
  wait_unlocked : Option ℕ → ℕ → ℕ → Option ℕ → BodyState → Option (BodyState × Bool)
  wait_unlocked none bb_end bb_ret target s = some (s, false)
  wait_unlocked (some lock_node) bb_end bb_ret target s = handled (
      connect_to_target c bb_ret target
        (add_input_arc lock_node bb_ret 1 (add_output_arc lock_node bb_end 1 s)))

  pub wait_condvar :
      List Operand → ℕ → Option ℕ → Text → ℕ → Text → BodyState → Option (BodyState × Bool)
  unfolding receiver wait_for_all wait_unlocked
  wait_condvar args bb_end target name bb_idx span s = do
    let (s1, bb_ret) =
        add_wait_ret_subnet c name bb_idx (codes "wait") (codes "ret") TransitionType.wait span
          bb_end s
    condvar_alias ← receiver args
    local ← local_of (get_elem? args 1)
    wait_unlocked (lock_node_for_guard c (plain_guard c.instance_id local)) bb_end bb_ret target
        (wait_for_all condvar_alias c.resources.condvars bb_ret s1)

  pub handle_condvar_call :
      ℕ
      → Text
      → List Operand
      → ℕ
      → Option ℕ
      → Text
      → ℕ
      → Text
      → BodyState
      → Option (BodyState × Bool)
  unfolding receiver notify_first wait_condvar
  handle_condvar_call callee_def_id callee_func_name args bb_end target name bb_idx span s =
      if c.is_condvar_notify callee_def_id callee_func_name
      then handled (
          receiver args >>= λ condvar_alias.
          connect_to_target c bb_end target
            (notify_first condvar_alias c.resources.condvars bb_end s))
      else if c.is_condvar_wait callee_def_id callee_func_name
      then wait_condvar args bb_end target name bb_idx span s
      else some (s, false)

  no_channels : List (AliasId × ℕ) → Bool
  no_channels [] = true
  no_channels (_ ∷ _) = false

  send_to : Option ℕ → ℕ → Option ℕ → BodyState → Option (BodyState × Bool)
  send_to none bb_end target s = some (s, false)
  send_to (some channel_node) bb_end target s =
      handled (connect_to_target c bb_end target (add_output_arc channel_node bb_end 1 s))

  receive_from : Option ℕ → ℕ → Option ℕ → BodyState → Option (BodyState × Bool)
  receive_from none bb_end target s = some (s, false)
  receive_from (some channel_node) bb_end target s =
      handled (connect_to_target c bb_end target (add_input_arc channel_node bb_end 1 s))

  pub handle_channel_call :
      ℕ → Text → List Operand → ℕ → Option ℕ → BodyState → Option (BodyState × Bool)
  unfolding receiver send_to receive_from no_channels
  handle_channel_call callee_def_id callee_func_name args bb_end target s =
      if no_channels c.resources.channel_places
      then some (s, false)
      else if c.is_channel_send callee_def_id callee_func_name
      then (receiver args >>= λ id. send_to (find_channel_place c id) bb_end target s)
      else if c.is_channel_recv callee_def_id callee_func_name
      then (receiver args >>= λ id. receive_from (find_channel_place c id) bb_end target s)
      else some (s, false)

  pub handle_drop_call : Text → List Operand → ℕ → Option ℕ → BodyState → Option (BodyState × Bool)
  handle_drop_call callee_func_name args bb_end target s =
      if contains_text callee_func_name (codes "::drop")
      then handled (
          local_of (get_elem? args 0) >>= λ local.
          connect_to_target c bb_end target (release_by_call c local bb_end s))
      else some (s, false)

  pub handle_thread_call :
      ℕ → Text → List Operand → ℕ → Option ℕ → ℕ → ℕ → Text → BodyState → Option (BodyState × Bool)
  handle_thread_call callee_def_id callee_func_name args destination target bb_end bb_idx span s =
      elim (thread_kind c callee_def_id callee_func_name args) [
        | some kind ↦
            handled
              (thread_call c kind callee_func_name args destination target bb_end bb_idx span s)
        | none ↦ some (s, false)
      ]

  finish_call :
      ℕ → Option ℕ → Text → ℕ → Text → ℕ → Text → List Operand → BodyState × Bool → Option BodyState
  unfolding handle_normal_call
  finish_call bb_end target name bb_idx span callee_id callee_func_name args (s, true) = some s
  finish_call bb_end target name bb_idx span callee_id callee_func_name args (s, false) =
      if contains_text callee_func_name (codes "core::panic")
      then some (add_output_arc c.entry_exit.1 bb_end 1 s)
      else handle_normal_call bb_end target name bb_idx span callee_id args s

  took_lock : BodyState × Option TransitionType → BodyState × Bool
  took_lock (s, none) = (s, false)
  took_lock (s, some _) = (s, true)

  -- The handlers in their order.
  pub dispatch :
      ℕ → List Operand → Place → Option ℕ → Text → ℕ → Text → ℕ → BodyState → Option BodyState
  unfolding took_lock handle_condvar_call handle_drop_call handle_channel_call handle_thread_call
      handle_atomic_call finish_call
  dispatch callee_def_id args destination target name bb_idx span bb_end s = do
    let callee_func_name = c.format_name callee_def_id
    let s0 = track_joinhandle_container_call c callee_func_name args destination.local s
    r1 ← handle_lock_call c args destination target bb_end s0
    r2 ←
        or_next (took_lock r1)
          (handle_condvar_call callee_def_id callee_func_name args bb_end target name bb_idx span)
    r3 ← or_next r2 (handle_drop_call callee_func_name args bb_end target)
    r4 ← or_next r3 (handle_channel_call callee_def_id callee_func_name args bb_end target)
    r5 ← or_next r4 (
        handle_thread_call callee_def_id callee_func_name args destination.local target bb_end
          bb_idx span)
    r6 ← or_next r5 (handle_atomic_call callee_func_name args bb_end target bb_idx span)
    finish_call bb_end target name bb_idx span callee_def_id callee_func_name args r6

  -- A callee that is neither a function nor a closure panics.
  call_callee :
      Callee → List Operand → Place → Option ℕ → Text → ℕ → Text → BodyState × ℕ → Option BodyState
  unfolding dispatch
  call_callee Callee.fn_ptr args destination target name bb_idx span (s, bb_end) =
      connect_to_target c bb_end target s
  call_callee (Callee.fn_def id) args destination target name bb_idx span (s, bb_end) =
      dispatch id args destination target name bb_idx span bb_end s
  call_callee (Callee.closure id) args destination target name bb_idx span (s, bb_end) =
      dispatch id args destination target name bb_idx span bb_end s
  call_callee Callee.other_callee args destination target name bb_idx span (s, bb_end) = none

  make_call :
      Callee → List Operand → Place → Option ℕ → Text → ℕ → Text → BodyState → Option BodyState
  unfolding call_callee
  make_call func args destination target name bb_idx span s =
      create_call_transition c bb_idx (transition_name name bb_idx (codes "call")) s
      >>= call_callee func args destination target name bb_idx span

  -- `unwinds` says that the unwind action is `Continue`.
  pub handle_call :
      ℕ
      → Callee
      → List Operand
      → Place
      → Option ℕ
      → Text
      → Text
      → Bool
      → BodyState
      → Option BodyState
  unfolding make_call
  handle_call bb_idx func args destination none name span true s =
      handle_unwind_continue c bb_idx name s
  handle_call bb_idx func args destination none name span false s =
      make_call func args destination none name bb_idx span s
  handle_call bb_idx func args destination (some t) name span unwinds s = do
    bb ← get_elem? c.body t
    if bb.is_cleanup
        then handle_panic c bb_idx name s
        else make_call func args destination (some t) name bb_idx span s

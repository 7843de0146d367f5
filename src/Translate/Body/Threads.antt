-- ===== src/Translate/Body/Threads.antt =====
-- src/translate/mir_to_pn/thread_control.rs, closure.rs and the tracking of join handles of mod.rs:
-- the spawning and joining of threads.
pub mod Tracking
pub mod Total
pub mod Join
use conc_bug_dect_rust.Prelude.{
  Bool, List, Option, Text, [], codes, contains, contains_text, false, get_elem?, if◌then◌else◌,
  list_eq, list_ord, lookup, map, nat_eq, nat_ord, none, pair_eq, pair_ord, put, some, true, ℕ,
  ◌&&◌, ◌++◌, ◌>>=◌, ◌||◌, ◌∷◌,
}
use conc_bug_dect_rust.Memory.PointsTo
use conc_bug_dect_rust.Memory.PointsTo.{AliasId, from_place}
use conc_bug_dect_rust.Translate.Body.{
  Context, BodyState, ThreadControlKind, add_input_arc, add_output_arc, function_places, or_empty,
  set_transition_type, transition_name,
}
use conc_bug_dect_rust.Translate.Body.Blocks.{
  add_wait_ret_subnet, connect_to_target, ensure_return_transition,
}
use conc_bug_dect_rust.Translate.Mir.{Operand, Rvalue, operand_place}
use conc_bug_dect_rust.Translate.Net.{TransitionType}

-- `unwrap_or(default)`
or_else {ℓ} : {A : Type ℓ} → A → Option A → A
or_else a none = a
or_else a (some b) = b

unfoldable pub local_of : Option Operand → Option ℕ
local_of none = none
local_of (some a) = operand_place a >>= λ p. some p.local

pub resolve_vec_local : ℕ → BodyState → ℕ
unfolding or_else
resolve_vec_local local s = or_else local (lookup local s.vec_alias_source)

-- What a copy of a local takes over.
carry : ℕ → ℕ → List (ℕ × ℕ) → List (ℕ × ℕ)
carry dest src m = elim (lookup src m) [ none ↦ m | some v ↦ put dest v m ]

pub has_key {ℓ} : {V : Type ℓ} → ℕ → List (ℕ × V) → Bool
has_key k m = elim (lookup k m) [ none ↦ false | some _ ↦ true ]

copy_handle : ℕ → ℕ → BodyState → BodyState
unfolding carry resolve_vec_local has_key
copy_handle dest src s =
    let src_vec = resolve_vec_local src s in
    record s {
      spawn_handle_end = carry dest src s.spawn_handle_end;
      iter_vec_source = carry dest src s.iter_vec_source;
      option_vec_source = carry dest src s.option_vec_source;
      handle_vec_source = carry dest src s.handle_vec_source;
      vec_alias_source =
          if has_key src_vec s.vec_spawn_ends
          then put dest src_vec s.vec_alias_source
          else s.vec_alias_source;
    }

pub track_joinhandle_dataflow : ℕ → Rvalue → BodyState → BodyState
unfolding copy_handle
track_joinhandle_dataflow dest (Rvalue.ref place) s = record s {
  local_ref_source = put dest place.local s.local_ref_source;
}
track_joinhandle_dataflow dest (Rvalue.use_ (Operand.move place)) s = copy_handle dest place.local s
track_joinhandle_dataflow dest (Rvalue.use_ (Operand.copy place)) s = copy_handle dest place.local s
track_joinhandle_dataflow dest _ s = s

pub through_ref : ℕ → BodyState → ℕ
unfolding or_else
through_ref local s = or_else local (lookup local s.local_ref_source)

-- `pop_front`
pub connect_join_from_recorded_order : ℕ → BodyState → BodyState × Bool
connect_join_from_recorded_order bb_end s = elim s.ordered_spawn_ends [
  | [] ↦ (s, false)
  | spawn_end ∷ rest ↦
      (add_input_arc spawn_end bb_end 1 (record s { ordered_spawn_ends = rest }), true)
]

pub add_inputs : List ℕ → ℕ → BodyState → BodyState
add_inputs [] bb_end s = s
add_inputs (spawn_end ∷ ends) bb_end s = add_inputs ends bb_end (add_input_arc spawn_end bb_end 1 s)

is_nonempty : List ℕ → Bool
is_nonempty [] = false
is_nonempty (x ∷ xs) = true

-- All the threads of a vector of handles: `drain(..)`.
pub join_vector : ℕ → ℕ → BodyState → BodyState × Bool
unfolding add_inputs is_nonempty
join_vector vec_local bb_end s =
    let all_ends = or_empty (lookup vec_local s.vec_spawn_ends) in
    (
      add_inputs all_ends bb_end (record s { vec_spawn_ends = put vec_local [] s.vec_spawn_ends }),
      is_nonempty all_ends,
    )

module _ (c : Context) where
  -- A push on a vector of join handles.
  push_handle : ℕ → ℕ → ℕ → BodyState → BodyState
  push_handle vec_local vec_root handle_local s =
      let s' = record s { vec_alias_source = put vec_local vec_root s.vec_alias_source } in
      elim (lookup handle_local s'.spawn_handle_end) [
        | none ↦ s'
        | some spawn_end ↦ record s' {
          vec_spawn_ends =
              put vec_root (or_empty (lookup vec_root s'.vec_spawn_ends) ++ spawn_end ∷ [])
                s'.vec_spawn_ends;
        }
      ]

  pub track_push : Option ℕ → Option ℕ → BodyState → BodyState
  unfolding push_handle resolve_vec_local through_ref
  track_push none handle s = s
  track_push (some vec_ref_local) handle s =
      let vec_local = through_ref vec_ref_local s in
      let vec_root = resolve_vec_local vec_local s in
      if contains c.joinhandle_vec_locals vec_root
      then elim handle [
        | none ↦ s
        | some handle_local ↦ push_handle vec_local vec_root handle_local s
      ]
      else s

  pub track_into_iter : Option ℕ → ℕ → BodyState → BodyState
  unfolding resolve_vec_local has_key
  track_into_iter none destination s = s
  track_into_iter (some src_local) destination s =
      let vec_local = resolve_vec_local src_local s in
      if contains c.joinhandle_vec_locals vec_local || has_key vec_local s.vec_spawn_ends
      then record s { iter_vec_source = put destination vec_local s.iter_vec_source }
      else s

  pub track_next : Option ℕ → ℕ → BodyState → BodyState
  unfolding through_ref
  track_next none destination s = s
  track_next (some iter_ref_local) destination s =
      elim (lookup (through_ref iter_ref_local s) s.iter_vec_source) [
        | none ↦ s
        | some vec_local ↦ record s {
          option_vec_source = put destination vec_local s.option_vec_source;
        }
      ]

  pub track_joinhandle_container_call : Text → List Operand → ℕ → BodyState → BodyState
  unfolding track_push track_into_iter track_next
  track_joinhandle_container_call callee_func_name args destination s =
      let first = local_of (get_elem? args 0) in
      if contains_text callee_func_name (codes "::push")
      then track_push first (local_of (get_elem? args 1)) s
      else if contains_text callee_func_name (codes "into_iter")
      then track_into_iter first destination s
      else if contains_text callee_func_name (codes "::next")
      then track_next first destination s
      else s

  unfoldable pub resolve_closure_places_at : List Operand → ℕ → Option (ℕ × ℕ)
  resolve_closure_places_at args i = do
    arg ← get_elem? args i
    def_id ← c.closure_def_id arg
    function_places c def_id

  -- The callees of the spawns whose handle may be the joined one.
  pub matching_callees : AliasId → List (AliasId × List ℕ) → List ℕ
  matching_callees join_id [] = []
  matching_callees join_id ((spawn_dest_id, callees) ∷ spawn_calls) =
      let rest = matching_callees join_id spawn_calls in
      if PointsTo.may_alias (c.alias join_id spawn_dest_id) c.alias_unknown_policy
      then callees ++ rest
      else rest

  pub get_matching_spawn_callees : AliasId → List ℕ
  unfolding matching_callees
  get_matching_spawn_callees join_id = matching_callees join_id c.spawn_calls

  pub join_callees : List ℕ → ℕ → BodyState → BodyState
  join_callees [] bb_end s = s
  join_callees (spawn_def_id ∷ callees) bb_end s =
      join_callees callees bb_end (elim (function_places c spawn_def_id) [
        | none ↦ s
        | some (_, spawn_end) ↦ add_input_arc spawn_end bb_end 1 s
      ])

  -- A first argument that is not a place panics.
  pub join_by_alias : List Operand → ℕ → BodyState → Option BodyState
  unfolding get_matching_spawn_callees join_callees
  join_by_alias args bb_end s = do
    arg ← get_elem? args 0
    place ← operand_place arg
    some (
        join_callees
          (get_matching_spawn_callees (from_place c.instance_id place.local place.projection))
          bb_end s)

  pub handle_scope_join : Text → List Operand → Option ℕ → ℕ → BodyState → Option BodyState
  unfolding join_by_alias
  handle_scope_join callee_func_name args target bb_end s = do
    s' ←
        join_by_alias args bb_end
          (set_transition_type bb_end (TransitionType.join callee_func_name) s)
    connect_to_target c bb_end target s'

  spawn_scoped : Option (ℕ × ℕ) → ℕ → BodyState → BodyState
  spawn_scoped none bb_end s = s
  spawn_scoped (some (closure_start, closure_end)) bb_end s =
      add_input_arc closure_end s.return_transition 1 (add_output_arc closure_start bb_end 1 s)

  pub handle_scope_spawn : Text → ℕ → List Operand → Option ℕ → ℕ → BodyState → Option BodyState
  unfolding resolve_closure_places_at spawn_scoped
  handle_scope_spawn callee_func_name bb_idx args target bb_end s =
      let s' =
        ensure_return_transition c (transition_name callee_func_name bb_idx (codes "return"))
          TransitionType.function s in
      connect_to_target c bb_end target (spawn_scoped (resolve_closure_places_at args 1) bb_end s')

  fork_join : List (Option (ℕ × ℕ)) → ℕ → ℕ → BodyState → BodyState
  fork_join [] bb_end bb_join s = s
  fork_join (none ∷ closures) bb_end bb_join s = fork_join closures bb_end bb_join s
  fork_join (some (closure_start, closure_end) ∷ closures) bb_end bb_join s =
      fork_join closures bb_end bb_join
        (add_input_arc closure_end bb_join 1 (add_output_arc closure_start bb_end 1 s))

  closure_places : Operand → Option (ℕ × ℕ)
  closure_places arg = c.closure_def_id arg >>= λ def_id. function_places c def_id

  pub handle_rayon_join :
      Text → ℕ → List Operand → Option ℕ → ℕ → Text → BodyState → Option BodyState
  unfolding fork_join closure_places
  handle_rayon_join callee_func_name bb_idx args target bb_end span s = do
    let (s1, bb_join) =
        add_wait_ret_subnet c callee_func_name bb_idx (codes "wait_closure") (codes "join")
          (TransitionType.join callee_func_name) span bb_end s
    s2 ← connect_to_target c bb_join target s1
    some (fork_join (map closure_places args) bb_end bb_join s2)

  record_spawn : Option (ℕ × ℕ) → ℕ → ℕ → BodyState → BodyState
  record_spawn none destination bb_end s = s
  record_spawn (some (closure_start, closure_end)) destination bb_end s =
      record (add_output_arc closure_start bb_end 1 s) {
        ordered_spawn_ends = s.ordered_spawn_ends ++ closure_end ∷ [];
        spawn_handle_end = put destination closure_end s.spawn_handle_end;
      }

  pub handle_spawn : Text → List Operand → ℕ → Option ℕ → ℕ → BodyState → Option BodyState
  unfolding resolve_closure_places_at record_spawn
  handle_spawn callee_func_name args destination target bb_end s =
      connect_to_target c bb_end target (
        set_transition_type bb_end (TransitionType.spawn callee_func_name)
          (record_spawn (resolve_closure_places_at args 0) destination bb_end s))

  -- The threads that the handle itself is known to stand for.
  pub join_known : Option ℕ → ℕ → BodyState → BodyState × Bool
  unfolding join_vector
  join_known none bb_end s = (s, false)
  join_known (some handle_local) bb_end s = elim (lookup handle_local s.handle_vec_source) [
    | some vec_local ↦ join_vector vec_local bb_end s
    | none ↦ elim (lookup handle_local s.option_vec_source) [
      | some vec_local ↦
          join_vector vec_local bb_end
            (record s { handle_vec_source = put handle_local vec_local s.handle_vec_source })
      | none ↦ elim (lookup handle_local s.spawn_handle_end) [
        | some spawn_end ↦ (add_input_arc spawn_end bb_end 1 s, true)
        | none ↦ (s, false)
      ]
    ]
  ]

  pub join_or_order : ℕ → BodyState × Bool → BodyState × Bool
  unfolding connect_join_from_recorded_order
  join_or_order bb_end (s, true) = (s, true)
  join_or_order bb_end (s, false) = connect_join_from_recorded_order bb_end s

  join_or_alias : List Operand → ℕ → BodyState × Bool → Option BodyState
  unfolding join_by_alias
  join_or_alias args bb_end (s, true) = some s
  join_or_alias args bb_end (s, false) = join_by_alias args bb_end s

  pub handle_join : Text → List Operand → Option ℕ → ℕ → BodyState → Option BodyState
  unfolding join_known join_or_order join_or_alias
  handle_join callee_func_name args target bb_end s = do
    let s1 = set_transition_type bb_end (TransitionType.join callee_func_name) s
    s2 ←
        join_or_alias args bb_end
          (join_or_order bb_end (join_known (local_of (get_elem? args 0)) bb_end s1))
    connect_to_target c bb_end target s2

  awaited : Option Operand → Text
  awaited none = []
  awaited (some a) = elim (operand_place a) [ none ↦ [] | some p ↦ c.place_ty p ]

  -- `classify_async_join_by_ty`
  pub classify_async_join_by_ty : Text → Text → Option ThreadControlKind
  classify_async_join_by_ty fn_path awaited_ty =
      if contains_text fn_path (codes "::poll") && contains_text awaited_ty (codes "JoinHandle")
      then some ThreadControlKind.async_join
      else none

  pub thread_kind : ℕ → Text → List Operand → Option ThreadControlKind
  unfolding awaited classify_async_join_by_ty
  thread_kind callee_def_id callee_func_name args =
      elim (c.thread_control callee_def_id callee_func_name) [
        | some kind ↦ some kind
        | none ↦ classify_async_join_by_ty callee_func_name (awaited (get_elem? args 0))
      ]

  pub thread_call :
      ThreadControlKind
      → Text
      → List Operand
      → ℕ
      → Option ℕ
      → ℕ
      → ℕ
      → Text
      → BodyState
      → Option BodyState
  unfolding handle_spawn handle_scope_spawn handle_join handle_scope_join handle_rayon_join
  thread_call ThreadControlKind.spawn name args destination target bb_end bb_idx span s =
      handle_spawn name args destination target bb_end s
  thread_call ThreadControlKind.scope_spawn name args destination target bb_end bb_idx span s =
      handle_scope_spawn name bb_idx args target bb_end s
  thread_call ThreadControlKind.join name args destination target bb_end bb_idx span s =
      handle_join name args target bb_end s
  thread_call ThreadControlKind.scope_join name args destination target bb_end bb_idx span s =
      handle_scope_join name args target bb_end s
  thread_call ThreadControlKind.rayon_join name args destination target bb_end bb_idx span s =
      handle_rayon_join name bb_idx args target bb_end span s
  thread_call ThreadControlKind.async_spawn name args destination target bb_end bb_idx span s =
      handle_spawn name args destination target bb_end s
  thread_call ThreadControlKind.async_join name args destination target bb_end bb_idx span s =
      handle_join name args target bb_end s

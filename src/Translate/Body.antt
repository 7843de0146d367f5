-- ===== src/Translate/Body.antt =====
-- The state of the translation of one function (src/translate/mir_to_pn/mod.rs), the graph of its
-- blocks (bb_graph.rs), the building of names and arcs (src/translate/macros.rs). A lookup that
-- panics in the source gives `none`.
pub mod Frame
pub mod Blocks
pub mod Ordering
pub mod Locks
pub mod Unsafe
pub mod Threads
pub mod Calls
pub mod Visit
use conc_bug_dect_rust.Prelude.{
  Bool, List, Option, Text, [], decimal, list_eq, list_ord, lookup, nat_eq, nat_ord, none, pair_eq,
  pair_ord, put, some, ℕ, ◌++◌, ◌+◌, ◌>>=◌, ◌∷◌,
}
use conc_bug_dect_rust.Detect.Graph.{UnsafeOp}
use conc_bug_dect_rust.Memory.PointsTo.{
  AliasId, ApproximateAliasKind, AliasUnknownPolicy, LockGuardId,
}
use conc_bug_dect_rust.Translate.Mir.{BlockData, Operand, Place}
use conc_bug_dect_rust.Translate.Net.{Call, Ids, PlaceType, PtPlace, TransitionType}
use conc_bug_dect_rust.Translate.Primitives.{LockGuardTy}
use conc_bug_dect_rust.Translate.Registry.{ResourceRegistry, FunctionRegistry}

pub data ThreadControlKind : Type 0 where
  spawn : ThreadControlKind
  join : ThreadControlKind
  scope_spawn : ThreadControlKind
  scope_join : ThreadControlKind
  rayon_join : ThreadControlKind
  async_spawn : ThreadControlKind
  async_join : ThreadControlKind

-- The fields that the translation reads only. The answers of the compiler, of the alias analysis
-- and of the regular expressions are functions; those on callees take the function's id and name.
pub record Context : Type 0 where
  pub instance_id : ℕ
  pub def_id : ℕ
  pub is_coroutine : Bool
  pub body : List BlockData
  pub ids : Ids
  pub alias : AliasId → AliasId → ApproximateAliasKind
  pub alias_atomic : AliasId → AliasId → ApproximateAliasKind
  pub alias_unknown_policy : AliasUnknownPolicy
  pub lockguards : List (LockGuardId × LockGuardTy)
  pub functions : FunctionRegistry ℕ
  pub resources : ResourceRegistry
  pub translate_atomic_ordering : Bool
  pub entry_exit : ℕ × ℕ
  pub spawn_calls : List (AliasId × List ℕ)
  pub joinhandle_vec_locals : List ℕ
  pub sets_poll_pending : ℕ → Bool
  pub closure_def_id : Operand → Option ℕ
  pub place_ty : Place → Text
  pub format_name : ℕ → Text
  pub def_path_str : ℕ → Text
  pub is_condvar_notify : ℕ → Text → Bool
  pub is_condvar_wait : ℕ → Text → Bool
  pub is_channel_send : ℕ → Text → Bool
  pub is_channel_recv : ℕ → Text → Bool
  pub thread_control : ℕ → Text → Option ThreadControlKind

pub record BasicBlockGraph : Type 0 where
  pub start_places : List (ℕ × ℕ)
  pub sequences : List (ℕ × List ℕ)

pub register : ℕ → ℕ → BasicBlockGraph → BasicBlockGraph
register bb start g = record {
  start_places = put bb start g.start_places;
  sequences = put bb (start ∷ []) g.sequences;
}

pub or_empty {ℓ} : {A : Type ℓ} → Option (List A) → List A
or_empty none = []
or_empty (some xs) = xs

pub push : ℕ → ℕ → BasicBlockGraph → BasicBlockGraph
unfolding or_empty
push bb place g = record g {
  sequences = put bb (or_empty (lookup bb g.sequences) ++ place ∷ []) g.sequences;
}

pub start_of : ℕ → BasicBlockGraph → Option ℕ
start_of bb g = lookup bb g.start_places

unfoldable pub last_element {ℓ} : {A : Type ℓ} → List A → Option A
last_element [] = none
last_element (x ∷ []) = some x
last_element (x ∷ y ∷ xs) = last_element (y ∷ xs)

unfoldable pub last_of : ℕ → BasicBlockGraph → Option ℕ
unfolding last_element
last_of bb g = lookup bb g.sequences >>= λ nodes. last_element nodes

pub record SegState : Type 0 where
  pub seg_index : List (ℕ × ℕ)
  pub seg_place_of : List ((ℕ × ℕ) × ℕ)
  pub seqcst_place : Option ℕ

pub or_zero : Option ℕ → ℕ
or_zero none = 0
or_zero (some n) = n

pub current_seg : ℕ → SegState → ℕ
unfolding or_zero
current_seg tid g = or_zero (lookup tid g.seg_index)

pub bump : ℕ → SegState → SegState × ℕ
unfolding current_seg
bump tid g =
    let next = current_seg tid g + 1 in (record g { seg_index = put tid next g.seg_index }, next)

-- The fields that the translation changes.
pub record BodyState : Type 0 where
  pub net : List Call
  pub bb_graph : BasicBlockGraph
  pub exclude_bb : List ℕ
  pub return_transition : ℕ
  pub ordered_spawn_ends : List ℕ
  pub spawn_handle_end : List (ℕ × ℕ)
  pub local_ref_source : List (ℕ × ℕ)
  pub vec_alias_source : List (ℕ × ℕ)
  pub vec_spawn_ends : List (ℕ × List ℕ)
  pub iter_vec_source : List (ℕ × ℕ)
  pub option_vec_source : List (ℕ × ℕ)
  pub handle_vec_source : List (ℕ × ℕ)
  pub seg : SegState
  pub pending_unsafe_ops : List UnsafeOp

-- The calls on the net.
unfoldable pub emit : Call → BodyState → BodyState
emit call s = record s { net = call ∷ s.net }

pub add_input_arc : ℕ → ℕ → ℕ → BodyState → BodyState
unfolding emit
add_input_arc p t w s = emit (Call.input_added p t w) s

pub add_output_arc : ℕ → ℕ → ℕ → BodyState → BodyState
unfolding emit
add_output_arc p t w s = emit (Call.output_added p t w) s

pub set_transition_type : ℕ → TransitionType → BodyState → BodyState
unfolding emit
set_transition_type t ty s = emit (Call.type_set t ty) s

module _ (c : Context) where
  pub add_place : PtPlace → BodyState → BodyState × ℕ
  unfolding emit
  add_place p s = (emit (Call.place_added p) s, c.ids.place_id s.net)

  unfoldable pub add_transition : Text → TransitionType → BodyState → BodyState × ℕ
  unfolding emit
  add_transition name ty s = (emit (Call.transition_added name ty) s, c.ids.transition_id s.net)

  pub bb_place : Text → Text → BodyState → BodyState × ℕ
  unfolding add_place
  bb_place name span s =
      add_place
        (record {
          name = name;
          tokens = 0;
          capacity = some 1;
          place_type = PlaceType.basic_block;
          span = span;
        })
        s

abbrev pub separator : Text
separator = 95 ∷ []

pub transition_name : Text → ℕ → Text → Text
transition_name name bb_idx kind = name ++ separator ++ decimal bb_idx ++ separator ++ kind

-- The context's functions as the source looks them up.
unfoldable pub function_places : Context → ℕ → Option (ℕ × ℕ)
function_places c def_id = lookup def_id c.functions.counter

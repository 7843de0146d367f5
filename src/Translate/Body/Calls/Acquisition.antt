-- ===== src/Translate/Body/Calls/Acquisition.antt =====
-- The calls that acquire a lock, through the whole of `handle_call`'s dispatch.
use conc_bug_dect_rust.Prelude.{
  List, Option, Text, ap, false, list_eq, list_ord, nat_eq, nat_ord, pair_eq, pair_ord, refl, some,
  ℕ, ◌+◌, ◌∙◌, ◌≡◌,
}
use conc_bug_dect_rust.Translate.Body.{BodyState, Context}
use conc_bug_dect_rust.Translate.Body.Calls.{dispatch, finish_call, or_next, took_lock}
use conc_bug_dect_rust.Translate.Body.Frame.{Open, Ready}
use conc_bug_dect_rust.Translate.Body.Locks.{
  arg_is_guard, drop_weight, guarded_lock, lockguard_id_for_dest,
}
use conc_bug_dect_rust.Translate.Body.Locks.Balance.{acquire-Acquired}
use conc_bug_dect_rust.Translate.Body.Threads.{track_joinhandle_container_call}
use conc_bug_dect_rust.Translate.Body.Threads.Total.{track_joinhandle_container_call-Ready}
use conc_bug_dect_rust.Translate.Body.Threads.Tracking.{track_joinhandle_container_call-net}
use conc_bug_dect_rust.Translate.Mir.{Operand, Place}
use conc_bug_dect_rust.Translate.Net.{inputs, types_set}
use conc_bug_dect_rust.Translate.Primitives.{LockGuardTy}

module _ (c : Context) where
  -- A call of a function, whatever its name, that acquires a lock, the call not passing a guard on
  -- and with a translated target if any, is translated; its transition takes the lock's tokens, and
  -- gets no type in place of the one that it was made with.
  pub dispatch-untyped :
      (id : ℕ) (args : List Operand) (destination : Place) (target : Option ℕ) (name : Text)
      (bb : ℕ) (span : Text) (bb_end : ℕ) (s : BodyState) {guard : LockGuardTy} {node : ℕ}
      → Ready c s
      → ((t : ℕ) → target ≡ some t → Open c t)
      → arg_is_guard c args ≡ false
      → guarded_lock c (lockguard_id_for_dest c.instance_id destination) ≡ some (guard, node)
      → (s' : BodyState) × (dispatch c id args destination target name bb span bb_end s ≡ some s')
        × (inputs node bb_end s'.net ≡ drop_weight guard + inputs node bb_end s.net)
        × (types_set bb_end s'.net ≡ types_set bb_end s.net)
  unfolding dispatch took_lock or_next finish_call
  dispatch-untyped id args destination target name bb span bb_end s {guard} {node} h opened fresh
        known =
      let s0 = track_joinhandle_container_call c (c.format_name id) args destination.local s in
      let same =
        track_joinhandle_container_call-net c (c.format_name id) args destination.local s in
      let a =
        acquire-Acquired c args destination target bb_end s0
          (track_joinhandle_container_call-Ready c (c.format_name id) args destination.local s h)
          opened fresh known in
      (
        a.after,
        rw (dispatch, a.returned) refl,
        a.taken ∙ ap (λ net. drop_weight guard + inputs node bb_end net) same,
        a.untyped ∙ ap (types_set bb_end) same,
      )

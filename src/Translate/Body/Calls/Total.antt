-- ===== src/Translate/Body/Calls/Total.antt =====
-- The translation of a call returns, when the call's arguments are as the handlers expect them.
use conc_bug_dect_rust.Prelude.{
  Bool, List, Option, Option-cases, Text, [], ap, codes, contains_text, false, get_elem?, if_intro,
  inl, inr, list_eq, list_ord, nat_eq, nat_ord, none, pair_eq, pair_ord, refl, some, true, ℕ, ◌>>=◌,
  ◌∷◌, ◌≡◌, ◌⊎◌,
}
use conc_bug_dect_rust.Memory.PointsTo
use conc_bug_dect_rust.Memory.PointsTo.{AliasId}
use conc_bug_dect_rust.Translate.Body.{
  Context, BodyState, add_input_arc, add_output_arc, emit, set_transition_type,
}
use conc_bug_dect_rust.Translate.Body.Blocks.Total.{
  add_wait_ret_subnet-Ready, connect_to_target-Done,
}
use conc_bug_dect_rust.Translate.Body.Calls.{
  handle_atomic_call, handle_atomic_load, handle_atomic_store, handle_channel_call,
  handle_condvar_call, handle_drop_call, handle_thread_call, handled, notify_first, or_connect,
  or_next, receive_from, receiver, same_condvar, send_to, wait_condvar, wait_for_all, wait_unlocked,
  no_channels,
}
use conc_bug_dect_rust.Translate.Body.Frame.{
  Done, DoneWith, DoneWith-bind, Open, Ready, done, done_with,
}
use conc_bug_dect_rust.Translate.Body.Locks.{lock_node_for_guard, plain_guard, release_by_call}
use conc_bug_dect_rust.Translate.Body.Locks.Total.{release_by_call-Ready}
use conc_bug_dect_rust.Translate.Body.Ordering.{find_channel_place}
use conc_bug_dect_rust.Translate.Body.Ordering.Total.{handle_atomic_basic_op-DoneWith}
use conc_bug_dect_rust.Translate.Body.Threads.{thread_kind}
use conc_bug_dect_rust.Translate.Body.Threads.Total.{
  FirstPlace, FirstPlace-local, HasLocal, thread_call-Done,
}
use conc_bug_dect_rust.Translate.Mir.{Operand}
use conc_bug_dect_rust.Translate.Net.{TransitionType}
use conc_bug_dect_rust.Translate.Primitives.{AtomicApi, atomic_api_from_name}

abbrev pub accesses : Option AtomicApi → Bool
accesses (some AtomicApi.read) = true
accesses (some AtomicApi.write) = true
accesses _ = false

abbrev pub is_some {ℓ} : {A : Type ℓ} → Option A → Bool
is_some none = false
is_some (some a) = true

-- A call of one of these functions has a place as its first argument, and a wait a second one.
pub record CallFits (c : Context) (id : ℕ) (args : List Operand) : Type 0 where
  pub notify : (c.is_condvar_notify id (c.format_name id) ≡ false) ⊎ FirstPlace args
  pub wait :
      (c.is_condvar_wait id (c.format_name id) ≡ false)
      ⊎ (FirstPlace args × HasLocal (get_elem? args 1))
  pub drops : (contains_text (c.format_name id) (codes "::drop") ≡ false) ⊎ FirstPlace args
  pub send : (c.is_channel_send id (c.format_name id) ≡ false) ⊎ FirstPlace args
  pub recv : (c.is_channel_recv id (c.format_name id) ≡ false) ⊎ FirstPlace args
  pub threads : (is_some (thread_kind c id (c.format_name id) args) ≡ false) ⊎ FirstPlace args
  pub atomics : (accesses (atomic_api_from_name (c.format_name id)) ≡ false) ⊎ FirstPlace args

module _ (c : Context) where
  pub handled-DoneWith : {o : Option BodyState} → Done c o → DoneWith c (handled o)
  unfolding handled
  handled-DoneWith (done h) = done_with h

  pub or_next-DoneWith :
      (r : BodyState × Bool) (k : BodyState → Option (BodyState × Bool))
      → Ready c r.0
      → ((s : BodyState) → Ready c s → DoneWith c (k s))
      → DoneWith c (or_next r k)
  unfolding or_next
  or_next-DoneWith (s, true) k h next = done_with h
  or_next-DoneWith (s, false) k h next = next s h

  receiver-some :
      {args : List Operand} → FirstPlace args → (id : AliasId) × (receiver c args ≡ some id)
  unfolding receiver
  receiver-some f =
      let (local, e) = FirstPlace-local f in
      (PointsTo.new c.instance_id local, rw (e, receiver) refl)

  notify_first-Ready :
      (id : AliasId) (condvars : List (AliasId × ℕ)) (bb_end : ℕ) (s : BodyState)
      → Ready c s
      → Ready c (notify_first c id condvars bb_end s)
  unfolding notify_first set_transition_type add_output_arc emit
  notify_first-Ready id [] bb_end s h = h
  notify_first-Ready id ((a, node) ∷ condvars) bb_end s h =
      if_intro (Ready c) (same_condvar c id a) (λ _. h)
        (λ _. notify_first-Ready id condvars bb_end s h)

  wait_for_all-Ready :
      (id : AliasId) (condvars : List (AliasId × ℕ)) (bb_ret : ℕ) (s : BodyState)
      → Ready c s
      → Ready c (wait_for_all c id condvars bb_ret s)
  unfolding wait_for_all add_input_arc emit
  wait_for_all-Ready id [] bb_ret s h = h
  wait_for_all-Ready id ((a, node) ∷ condvars) bb_ret s h =
      wait_for_all-Ready id condvars bb_ret _
        (if_intro (Ready c) (same_condvar c id a) (λ _. h) (λ _. h))

  module _ (args : List Operand) (target : Option ℕ)
      (opened : (t : ℕ) → target ≡ some t → Open c t) where
    wait_unlocked-DoneWith :
        (o : Option ℕ) (bb_end bb_ret : ℕ) (s : BodyState)
        → Ready c s
        → DoneWith c (wait_unlocked c o bb_end bb_ret target s)
    unfolding wait_unlocked add_input_arc add_output_arc emit
    wait_unlocked-DoneWith none bb_end bb_ret s h = done_with h
    wait_unlocked-DoneWith (some node) bb_end bb_ret s h =
        handled-DoneWith (connect_to_target-Done c bb_ret target _ h opened)

    wait_condvar-DoneWith :
        (bb_end : ℕ) (name : Text) (bb : ℕ) (span : Text) (s : BodyState)
        → Ready c s
        → FirstPlace args
        → HasLocal (get_elem? args 1)
        → DoneWith c (wait_condvar c args bb_end target name bb span s)
    unfolding wait_condvar
    wait_condvar-DoneWith bb_end name bb span s h f (local, e) =
        let (id, e') = receiver-some f in
        let h1 =
          add_wait_ret_subnet-Ready c name bb (codes "wait") (codes "ret") TransitionType.wait span
            bb_end s h in
        rw (e', wait_condvar, e)
          (wait_unlocked-DoneWith (lock_node_for_guard c (plain_guard c.instance_id local)) bb_end _
            _ (wait_for_all-Ready id c.resources.condvars _ _ h1))

    pub handle_condvar_call-DoneWith :
        (id bb_end : ℕ) (name : Text) (bb : ℕ) (span : Text) (s : BodyState)
        → CallFits c id args
        → Ready c s
        → DoneWith c (handle_condvar_call c id (c.format_name id) args bb_end target name bb span s)
    unfolding handle_condvar_call
    handle_condvar_call-DoneWith id bb_end name bb span s fits h =
        if_intro (DoneWith c) (c.is_condvar_notify id (c.format_name id))
          (λ e. elim fits.notify [
            | inl e' ↦ cc
            | inr f ↦
                let (a, e') = receiver-some f in
                rw (e') (
                  handled-DoneWith (
                    connect_to_target-Done c bb_end target _
                      (notify_first-Ready a c.resources.condvars bb_end s h) opened))
          ])
          (λ _.
            if_intro (DoneWith c) (c.is_condvar_wait id (c.format_name id))
              (λ e. elim fits.wait [
                | inl e' ↦ cc
                | inr (f, l) ↦ wait_condvar-DoneWith bb_end name bb span s h f l
              ])
              (λ _. done_with h))

    pub handle_drop_call-DoneWith :
        (id bb_end : ℕ) (s : BodyState)
        → CallFits c id args
        → Ready c s
        → DoneWith c (handle_drop_call c (c.format_name id) args bb_end target s)
    unfolding handle_drop_call
    handle_drop_call-DoneWith id bb_end s fits h =
        if_intro (DoneWith c) (contains_text (c.format_name id) (codes "::drop"))
          (λ e. elim fits.drops [
            | inl e' ↦ cc
            | inr f ↦
                let (local, e') = FirstPlace-local f in
                rw (e') (
                  handled-DoneWith (
                    connect_to_target-Done c bb_end target (release_by_call c local bb_end s)
                      (release_by_call-Ready c local bb_end s h) opened))
          ])
          (λ _. done_with h)

    send_to-DoneWith :
        (o : Option ℕ) (bb_end : ℕ) (s : BodyState)
        → Ready c s
        → DoneWith c (send_to c o bb_end target s)
    unfolding send_to add_output_arc emit
    send_to-DoneWith none bb_end s h = done_with h
    send_to-DoneWith (some node) bb_end s h =
        handled-DoneWith (connect_to_target-Done c bb_end target _ h opened)

    receive_from-DoneWith :
        (o : Option ℕ) (bb_end : ℕ) (s : BodyState)
        → Ready c s
        → DoneWith c (receive_from c o bb_end target s)
    unfolding receive_from add_input_arc emit
    receive_from-DoneWith none bb_end s h = done_with h
    receive_from-DoneWith (some node) bb_end s h =
        handled-DoneWith (connect_to_target-Done c bb_end target _ h opened)

    pub handle_channel_call-DoneWith :
        (id bb_end : ℕ) (s : BodyState)
        → CallFits c id args
        → Ready c s
        → DoneWith c (handle_channel_call c id (c.format_name id) args bb_end target s)
    unfolding handle_channel_call
    handle_channel_call-DoneWith id bb_end s fits h =
        if_intro (DoneWith c) (no_channels c c.resources.channel_places) (λ _. done_with h)
          (λ _.
            if_intro (DoneWith c) (c.is_channel_send id (c.format_name id))
              (λ e. elim fits.send [
                | inl e' ↦ cc
                | inr f ↦
                    let (a, e') = receiver-some f in
                    rw (e') (send_to-DoneWith (find_channel_place c a) bb_end s h)
              ])
              (λ _.
                if_intro (DoneWith c) (c.is_channel_recv id (c.format_name id))
                  (λ e. elim fits.recv [
                    | inl e' ↦ cc
                    | inr f ↦
                        let (a, e') = receiver-some f in
                        rw (e') (receive_from-DoneWith (find_channel_place c a) bb_end s h)
                  ])
                  (λ _. done_with h)))

    pub handle_thread_call-DoneWith :
        (id destination bb_end bb : ℕ) (span : Text) (s : BodyState)
        → CallFits c id args
        → Ready c s
        → DoneWith c
            (handle_thread_call c id (c.format_name id) args destination target bb_end bb span s)
    unfolding handle_thread_call
    handle_thread_call-DoneWith id destination bb_end bb span s fits h =
        elim (Option-cases (thread_kind c id (c.format_name id) args)) [
          | inl e ↦ rw (e, handle_thread_call) (done_with h)
          | inr (kind, e) ↦ elim fits.threads [
            | inl e' ↦ absurd (cc (ap is_some e))
            | inr f ↦
                rw (e, handle_thread_call)
                  (handled-DoneWith (
                    thread_call-Done c (c.format_name id) args target opened kind destination bb
                      bb_end span s h f))
          ]
        ]

    or_connect-Done :
        (bb_end : ℕ) (s : BodyState) (dealt : Bool)
        → Ready c s
        → Done c (or_connect c bb_end target (s, dealt))
    unfolding or_connect
    or_connect-Done bb_end s true h = done h
    or_connect-Done bb_end s false h = connect_to_target-Done c bb_end target s h opened

    handle_atomic_load-DoneWith :
        (bb_end bb : ℕ) (span : Text) (s : BodyState)
        → Ready c s
        → FirstPlace args
        → DoneWith c (handle_atomic_load c args bb_end target bb span s)
    unfolding handle_atomic_load
    handle_atomic_load-DoneWith bb_end bb span s h f =
        let (a, e) = receiver-some f in
        rw (e, handle_atomic_load)
          (handle_atomic_basic_op-DoneWith c (codes "load") a bb_end target bb span _ s h opened)

    handle_atomic_store-DoneWith :
        (bb_end bb : ℕ) (span : Text) (s : BodyState)
        → Ready c s
        → FirstPlace args
        → DoneWith c (handle_atomic_store c args bb_end target bb span s)
    unfolding handle_atomic_store
    handle_atomic_store-DoneWith bb_end bb span s h f =
        let (a, e) = receiver-some f in
        rw (e, handle_atomic_store)
          (handle_atomic_basic_op-DoneWith c (codes "store") a bb_end target bb span _ s h opened)

    accessed-DoneWith :
        (bb_end : ℕ) {o : Option (BodyState × Bool)}
        → DoneWith c o
        → DoneWith c (handled (o >>= or_connect c bb_end target))
    accessed-DoneWith bb_end d = handled-DoneWith (
        DoneWith-bind (or_connect c bb_end target) d
          (λ s dealt h. or_connect-Done bb_end s dealt h))

    pub handle_atomic_call-DoneWith :
        (id bb_end bb : ℕ) (span : Text) (s : BodyState)
        → CallFits c id args
        → Ready c s
        → DoneWith c (handle_atomic_call c (c.format_name id) args bb_end target bb span s)
    unfolding handle_atomic_call
    handle_atomic_call-DoneWith id bb_end bb span s fits h =
        by_api (atomic_api_from_name (c.format_name id)) refl
      where
        by_api :
            (o : Option AtomicApi)
            → atomic_api_from_name (c.format_name id) ≡ o
            → DoneWith c (handle_atomic_call c (c.format_name id) args bb_end target bb span s)
        by_api none e = rw (e, handle_atomic_call) (done_with h)
        by_api (some AtomicApi.read_write) e = rw (e, handle_atomic_call) (done_with h)
        by_api (some AtomicApi.read) e = elim fits.atomics [
          | inl e' ↦ absurd (cc (ap accesses e))
          | inr f ↦
              rw (e, handle_atomic_call)
                (accessed-DoneWith bb_end (handle_atomic_load-DoneWith bb_end bb span s h f))
        ]
        by_api (some AtomicApi.write) e = elim fits.atomics [
          | inl e' ↦ absurd (cc (ap accesses e))
          | inr f ↦
              rw (e, handle_atomic_call)
                (accessed-DoneWith bb_end (handle_atomic_store-DoneWith bb_end bb span s h f))
        ]

-- ===== src/Translate/Body/Blocks/Return.antt =====
-- handle_return of src/translate/mir_to_pn/terminator.rs returns, and joins the blocks of a
-- function that return in one transition.
use conc_bug_dect_rust.Prelude.{
  Every, List, Option, Text, [], ap, arith, codes, cons, contains, false, if_intro, list_eq,
  list_ord, nat_eq, nat_ord, none, pair_eq, pair_ord, refl, some, ℕ, ◌&&◌, ◌<◌, ◌==◌, ◌>>=◌, ◌∙◌,
  ◌∷◌, ◌≡◌,
}
use conc_bug_dect_rust.Translate.Body.{
  Context, BodyState, add_input_arc, add_output_arc, add_transition, emit, function_places, last_of,
  transition_name,
}
use conc_bug_dect_rust.Translate.Body.Blocks.{
  arcs_through, ensure_return_transition, find_continuation, find_suspend_continuation,
  handle_return, join_return, other_target, suspend_to, switch_of,
}
use conc_bug_dect_rust.Translate.Body.Blocks.Total.{
  arcs_through-Done, ensure_return_transition-Ready, handle_fallthrough-Done,
}
use conc_bug_dect_rust.Translate.Body.Frame.{Done, Known, Open, Ready, done}
use conc_bug_dect_rust.Translate.Mir.{BlockData}
use conc_bug_dect_rust.Translate.Net.{
  Call, TransitionType, inputs, inputs-input_added, inputs-le-cons,
}

-- The search ends, with a block that is known or with none.
data Found (c : Context) : Option (Option ℕ) → Type 0 where
  found_none : Found c (some none)
  found_some : {t : ℕ} → Known c t → Found c (some (some t))

-- The targets of the switches are blocks of the body.
abbrev pub SwitchKnown : Context → BlockData → Type 0
SwitchKnown c bb = Every (Known c) (switch_of c bb.terminator)

module _ (c : Context) where
  other_target-Found :
      (suspend_bb : ℕ) (ts : List ℕ) → Every (Known c) ts → Found c (other_target c suspend_bb ts)
  unfolding other_target
  other_target-Found suspend_bb [] known = found_none
  other_target-Found suspend_bb (t ∷ ts) (cons k known) =
      let rest = other_target-Found suspend_bb ts known in
      if_intro (Found c) (t == suspend_bb) (λ _. rest)
        (λ _. rw k.found (if_intro (Found c) k.block.is_cleanup (λ _. rest) (λ _. found_some k)))

  or_rest-Found :
      {o rest : Option (Option ℕ)}
      → Found c o
      → Found c rest
      → Found c (o >>= λ found. elim found [ some t ↦ some (some t) | none ↦ rest ])
  or_rest-Found found_none r = r
  or_rest-Found (found_some k) r = found_some k

  find_continuation-Found :
      (suspend_bb : ℕ) (bbs : List BlockData)
      → Every (SwitchKnown c) bbs
      → Found c (find_continuation c suspend_bb bbs)
  unfolding find_continuation
  find_continuation-Found suspend_bb [] known = found_none
  find_continuation-Found suspend_bb (bb ∷ bbs) (cons k known) =
      let rest = find_continuation-Found suspend_bb bbs known in
      if_intro (Found c) (contains (switch_of c bb.terminator) suspend_bb)
        (λ _. or_rest-Found (other_target-Found suspend_bb _ k) rest) (λ _. rest)

  suspend-Done :
      (bb : ℕ) (name : Text) (s : BodyState)
      → Ready c s
      → Open c bb
      → {o : Option (Option ℕ)} → Found c o
      → Done c (o >>= suspend_to c bb name s)
  unfolding suspend_to
  suspend-Done bb name s h here found_none = done h
  suspend-Done bb name s h here (found_some k) = handle_fallthrough-Done c bb _ name _ s h here k

  join_return-Done :
      (bb node : ℕ) (name : Text) (s : BodyState)
      → Ready c s
      → Open c bb
      → Done c (join_return c bb node name s)
  unfolding join_return
  join_return-Done bb node name s h here =
      arcs_through-Done c bb node _ _ (ensure_return_transition-Ready c _ _ s h) here

  pub handle_return-Done :
      (bb : ℕ) (name : Text) (s : BodyState) {places : ℕ × ℕ}
      → Ready c s
      → Open c bb
      → Every (SwitchKnown c) c.body
      → function_places c c.def_id ≡ some places
      → Done c (handle_return c bb name s)
  unfolding handle_return find_suspend_continuation
  handle_return-Done bb name s {places} h here known own =
      if_intro (Done c) (c.is_coroutine && c.sets_poll_pending bb)
        (λ _. suspend-Done bb name s h here (find_continuation-Found bb c.body known))
        (λ _. rw own (join_return-Done bb places.1 name s h here))

  -- The state after a return that is none of a suspended coroutine.
  joined : ℕ → ℕ → BodyState → BodyState
  joined l node s =
      add_output_arc node s.return_transition 1 (add_input_arc l s.return_transition 1 s)

  returned : ℕ → ℕ → Text → BodyState → BodyState
  unfolding joined
  returned l node name s =
      joined l node (ensure_return_transition c name (TransitionType.return_ c.instance_id) s)

  ensure_graph :
      (name : Text) (ty : TransitionType) (s : BodyState)
      → (ensure_return_transition c name ty s).bb_graph ≡ s.bb_graph
  unfolding ensure_return_transition add_transition emit
  ensure_graph name ty s =
      if_intro (λ (s' : BodyState). s'.bb_graph ≡ s.bb_graph) (s.return_transition == 0) (λ _. refl)
        (λ _. refl)

  handle_return_lem :
      (bb l : ℕ) (name : Text) (s : BodyState) (places : ℕ × ℕ)
      → (c.is_coroutine && c.sets_poll_pending bb) ≡ false
      → function_places c c.def_id ≡ some places
      → last_of bb s.bb_graph ≡ some l
      → handle_return c bb name s
        ≡ some (returned l places.1 (transition_name name bb (codes "return")) s)
  unfolding handle_return join_return returned joined
  handle_return_lem bb l name s places plain own e =
      rw (plain, handle_return, own, join_return, arcs_through, ensure_graph, e) refl

  -- The return transition, once it is made, stays.
  ensure_again :
      (name : Text) (ty : TransitionType) (s : BodyState)
      → (s.return_transition == 0) ≡ false
      → ensure_return_transition c name ty s ≡ s
  unfolding ensure_return_transition
  ensure_again name ty s e = rw (e, ensure_return_transition) refl

  inputs-joined :
      (l node : ℕ) (s : BodyState)
      → 0 < inputs l (joined l node s).return_transition (joined l node s).net
  unfolding joined add_input_arc add_output_arc emit
  inputs-joined l node s =
      let t = s.return_transition in
      let calls = Call.input_added l t 1 ∷ s.net in
      omega (
        arith,
        inputs-input_added l t 1 s.net,
        inputs-le-cons l t (Call.output_added node t 1) calls,
      )

  inputs-joined_again :
      (l m node : ℕ) (s : BodyState)
      → 0 < inputs l s.return_transition s.net
      → 0 < inputs l (joined m node s).return_transition (joined m node s).net
  unfolding joined add_input_arc add_output_arc emit
  inputs-joined_again l m node s old =
      let t = s.return_transition in
      let calls = Call.input_added m t 1 ∷ s.net in
      omega (
        arith,
        old,
        inputs-le-cons l t (Call.input_added m t 1) s.net,
        inputs-le-cons l t (Call.output_added node t 1) calls,
      )

  returned_again :
      (l m node : ℕ) (name : Text) (s : BodyState)
      → (s.return_transition == 0) ≡ false
      → 0 < inputs l s.return_transition s.net
      → 0 < inputs l (returned m node name s).return_transition (returned m node name s).net
  unfolding returned
  returned_again l m node name s set old =
      rw (ensure_again name (TransitionType.return_ c.instance_id) s set)
        (inputs-joined_again l m node s old)

  -- Two blocks that return, each translated and none of them the suspension of a coroutine, become
  -- inputs of one and the same transition, so that it needs a token in both of their last places.
  -- The first return transition has an id other than 0, which stands for none.
  pub handle_return_joins :
      (a b : ℕ) (name : Text) (s : BodyState) {places : ℕ × ℕ} {l m : ℕ}
      → (c.is_coroutine && c.sets_poll_pending a) ≡ false
      → (c.is_coroutine && c.sets_poll_pending b) ≡ false
      → function_places c c.def_id ≡ some places
      → last_of a s.bb_graph ≡ some l
      → last_of b s.bb_graph ≡ some m
      → ((ensure_return_transition c
            (transition_name name a (codes "return"))
            (TransitionType.return_ c.instance_id)
            s).return_transition
          == 0)
        ≡ false
      → (s' : BodyState) × ((handle_return c a name s >>= handle_return c b name) ≡ some s')
        × (0 < inputs l s'.return_transition s'.net)
        × (0 < inputs m s'.return_transition s'.net)
  unfolding returned joined add_input_arc add_output_arc emit
  handle_return_joins a b name s {places} {l} {m} plain plain' own la lb set =
      let s0 =
        ensure_return_transition c (transition_name name a (codes "return"))
          (TransitionType.return_ c.instance_id) s in
      let s1 = returned l places.1 (transition_name name a (codes "return")) s in
      let name' = transition_name name b (codes "return") in
      let graph =
        ensure_graph (transition_name name a (codes "return"))
          (TransitionType.return_ c.instance_id) s in
      let first = handle_return_lem a l name s places plain own la in
      let second = handle_return_lem b m name s1 places plain' own (ap (last_of b) graph ∙ lb) in
      (
        returned m places.1 name' s1,
        rw first second,
        returned_again l m places.1 name' s1 set (inputs-joined l places.1 s0),
        inputs-joined m places.1
            (ensure_return_transition c name' (TransitionType.return_ c.instance_id) s1),
      )

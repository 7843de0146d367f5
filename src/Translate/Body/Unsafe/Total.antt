-- ===== src/Translate/Body/Unsafe/Total.antt =====
-- The end of a block with its accesses to unsafe memory returns.
use conc_bug_dect_rust.Prelude.{
  Bool, Bool-cases, List, List-cases, Option, Text, [], false, if◌then◌else◌, inl, inr, list_eq,
  list_ord, lookup, lookup-put, nat_eq, nat_ord, pair_eq, pair_ord, refl, some, true, ℕ, ◌++◌, ◌==◌,
  ◌∷◌, ◌≡◌,
}
use conc_bug_dect_rust.Detect.Graph.{UnsafeOp}
use conc_bug_dect_rust.Translate.Body.{
  BasicBlockGraph, BodyState, Context, add_input_arc, add_output_arc, add_place, add_transition,
  bb_place, emit, last_element, last_of, or_empty, push, start_of,
}
use conc_bug_dect_rust.Translate.Body.Frame.{Done, Open, Placed, Ready, done}
use conc_bug_dect_rust.Translate.Body.Unsafe.{
  emit_merged, flush_unsafe_ops, process_place_writes, process_rvalue_reads,
}
use conc_bug_dect_rust.Translate.Mir.{Place, Rvalue}

-- What is pushed on a sequence is its last place.
pub last_element-append {ℓ} :
    {A : Type ℓ} (xs : List A) (x : A) → last_element (xs ++ x ∷ []) ≡ some x
unfolding last_element
last_element-append [] x = refl
last_element-append (y ∷ []) x = refl
last_element-append (y ∷ z ∷ xs) x = last_element-append (z ∷ xs) x

-- The last place of a block is the one pushed last, and the others stay.
pub last_of-push :
    (bb t place : ℕ) (g : BasicBlockGraph)
    → last_of t (push bb place g) ≡ (if bb == t then some place else last_of t g)
unfolding last_of push
last_of-push bb t place g =
    let seq = or_empty (lookup bb g.sequences) ++ place ∷ [] in
    rw (lookup-put bb t seq g.sequences) (elim (Bool-cases (bb == t)) [
      | inl e ↦ rw (e) (last_element-append (or_empty (lookup bb g.sequences)) place)
      | inr e ↦ rw (e) refl
    ])

module _ (c : Context) where
  some_of_if :
      (b : Bool) (place : ℕ) {o : Option ℕ}
      → (p : ℕ) × (o ≡ some p)
      → (p : ℕ) × ((if b then some place else o) ≡ some p)
  some_of_if true place old = (place, refl)
  some_of_if false place old = old

  push-Placed :
      (bb place : ℕ) (g : BasicBlockGraph) (excluded : List ℕ)
      → Placed c g excluded
      → Placed c (push bb place g) excluded
  unfolding push start_of
  push-Placed bb place g excluded h = record {
    first = h.first;
    last = λ t here. rw (last_of-push bb t place g) (some_of_if (bb == t) place (h.last t here));
    noted = h.noted;
  }

  pub process_rvalue_reads-Ready :
      (rvalue : Rvalue) (bb : ℕ) (span : Text) (s : BodyState)
      → Ready c s
      → Ready c (process_rvalue_reads c rvalue bb span s)
  unfolding process_rvalue_reads
  process_rvalue_reads-Ready rvalue bb span s h = h

  pub process_place_writes-Ready :
      (place : Place) (bb : ℕ) (span : Text) (s : BodyState)
      → Ready c s
      → Ready c (process_place_writes c place bb span s)
  unfolding process_place_writes
  process_place_writes-Ready place bb span s h = h

  emit_merged-Done :
      (bb : ℕ) (ops : List UnsafeOp) (s : BodyState)
      → Ready c s
      → Open c bb
      → Done c (emit_merged c bb ops s)
  unfolding emit_merged add_transition bb_place add_place add_input_arc add_output_arc emit
  emit_merged-Done bb ops s h here =
      let (l, e) = h.last bb here in
      rw (e, emit_merged) (done (push-Placed bb _ s.bb_graph s.exclude_bb h))

  pub flush_unsafe_ops-Done :
      (bb : ℕ) (s : BodyState) → Ready c s → Open c bb → Done c (flush_unsafe_ops c bb s)
  unfolding flush_unsafe_ops
  flush_unsafe_ops-Done bb s h here = elim (List-cases s.pending_unsafe_ops) [
    | inl e ↦ rw (e, flush_unsafe_ops) (done h)
    | inr (op, ops, e) ↦ rw (e, flush_unsafe_ops) (emit_merged-Done bb (op ∷ ops) _ h here)
  ]

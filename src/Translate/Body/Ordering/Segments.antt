-- ===== src/Translate/Body/Ordering/Segments.antt =====
-- The segments of a thread, through which its ordered atomic operations pass one after the other.
use conc_bug_dect_rust.Prelude.{
  ==_refl, Bool, Bool-cases, List, Option, Option-cases, [], ap, arith, false, if◌then◌else◌, inl,
  inr, list_eq, list_ord, lookup, lookup-put, lookup-put_same, nat_eq, nat_ord, none, pair_eq,
  pair_ord, refl, some, true, ℕ, ◌+◌, ◌==◌, ◌∙◌, ◌∷◌, ◌≡◌,
}
use conc_bug_dect_rust.Translate.Body.{
  BodyState, Context, SegState, add_place, bump, current_seg, emit, or_zero,
}
use conc_bug_dect_rust.Translate.Body.Ordering.{
  ensure_seg_place, ensure_seqcst_place, advance, ordering_seg_arcs,
}
use conc_bug_dect_rust.Translate.Primitives.{AtomicOrdering}

-- The place that an operation takes the thread's token from, and the one it puts it to.
pub entry : List (ℕ × Bool) → Option ℕ
entry [] = none
entry ((p, true) ∷ arcs) = some p
entry ((p, false) ∷ arcs) = entry arcs

pub exit : List (ℕ × Bool) → Option ℕ
exit [] = none
exit ((p, false) ∷ arcs) = some p
exit ((p, true) ∷ arcs) = exit arcs

-- How far an operation moves its thread on.
pub segments_passed : AtomicOrdering → ℕ
segments_passed AtomicOrdering.relaxed = 0
segments_passed _ = 1

current_seg-bump :
    (tid other : ℕ) (g : SegState)
    → current_seg other (bump tid g).0
      ≡ (if tid == other then current_seg tid g + 1 else current_seg other g)
unfolding current_seg bump or_zero
current_seg-bump tid other g =
    rw (lookup-put tid other (current_seg tid g + 1) g.seg_index)
      (elim (Bool-cases (tid == other)) [ inl e ↦ rw (e) refl | inr e ↦ rw (e) refl ])

module _ (c : Context) (tid : ℕ) where
  -- The place of the current segment is recorded.
  abbrev pub Recorded : BodyState → Option ℕ → Type 0
  Recorded s p = lookup (tid, current_seg tid s.seg) s.seg.seg_place_of ≡ p

  ensure_seg_place_recorded :
      (n : ℕ) (s : BodyState)
      → let r = ensure_seg_place c tid n s in
        (lookup (tid, n) r.0.seg.seg_place_of ≡ some r.1) × (r.0.seg.seg_index ≡ s.seg.seg_index)
  unfolding ensure_seg_place add_place emit
  ensure_seg_place_recorded n s = elim (Option-cases (lookup (tid, n) s.seg.seg_place_of)) [
    | inr (p, e) ↦ rw (e, ensure_seg_place) (e, refl)
    | inl e ↦
        rw (e, ensure_seg_place)
          (lookup-put_same (tid, n) (c.ids.place_id s.net) s.seg.seg_place_of, refl)
  ]

  ensure_seqcst_place_keeps :
      (s : BodyState)
      → ((ensure_seqcst_place c s).0.seg.seg_place_of ≡ s.seg.seg_place_of)
        × ((ensure_seqcst_place c s).0.seg.seg_index ≡ s.seg.seg_index)
  unfolding ensure_seqcst_place add_place emit
  ensure_seqcst_place_keeps s = elim (Option-cases s.seg.seqcst_place) [
    | inr (p, e) ↦ rw (e, ensure_seqcst_place) (refl, refl)
    | inl e ↦ rw (e, ensure_seqcst_place) (refl, refl)
  ]

  -- What an operation with the ordering `ord` does to the segments of `s`.
  pub record Passed (ord : AtomicOrdering) (s : BodyState) (r : BodyState × List (ℕ × Bool))
      : Type 0 where
    pub moved : current_seg tid r.0.seg ≡ segments_passed ord + current_seg tid s.seg
    pub others :
        (other : ℕ) → (tid == other) ≡ false → current_seg other r.0.seg ≡ current_seg other s.seg
    pub left : Recorded r.0 (exit r.1)
    pub entered : (p : ℕ) → Recorded s (some p) → entry r.1 ≡ some p

  -- The state and place of the current segment, of the next one, and of the global place.
  first_place : BodyState → BodyState × ℕ
  first_place s = ensure_seg_place c tid (current_seg tid s.seg) s

  first_index :
      (s : BodyState) (other : ℕ)
      → current_seg other (first_place s).0.seg ≡ current_seg other s.seg
  unfolding first_place current_seg
  first_index s other =
      ap (λ m. or_zero (lookup other m)) (ensure_seg_place_recorded (current_seg tid s.seg) s).1

  first_entered : (s : BodyState) (p : ℕ) → Recorded s (some p) → (first_place s).1 ≡ p
  unfolding first_place ensure_seg_place
  first_entered s p e = rw (e, ensure_seg_place) refl

  first_left : (s : BodyState) → Recorded (first_place s).0 (some (first_place s).1)
  first_left s =
      rw (first_index s tid)
        (unfold first_place in (ensure_seg_place_recorded (current_seg tid s.seg) s).0)

  next_index :
      (s : BodyState) (other : ℕ)
      → current_seg other (advance c tid s).0.seg
        ≡ (if tid == other then current_seg tid s.seg + 1 else current_seg other s.seg)
  unfolding advance current_seg
  next_index s other =
      let s' : BodyState = record s { seg = (bump tid s.seg).0 } in
      ap (λ m. or_zero (lookup other m)) (ensure_seg_place_recorded (bump tid s.seg).1 s').1
      ∙ current_seg-bump tid other s.seg

  next_left : (s : BodyState) → Recorded (advance c tid s).0 (some (advance c tid s).1)
  next_left s =
      let s' : BodyState = record s { seg = (bump tid s.seg).0 } in
      rw (next_index s tid, ==_refl tid)
        (unfold advance bump in (ensure_seg_place_recorded (current_seg tid s.seg + 1) s').0)

  global_left :
      (s : BodyState) {o : Option ℕ} → Recorded s o → Recorded (ensure_seqcst_place c s).0 o
  unfolding current_seg
  global_left s h = rw ((ensure_seqcst_place_keeps s).0, (ensure_seqcst_place_keeps s).1) h

  global_index :
      (s : BodyState) (other : ℕ)
      → current_seg other (ensure_seqcst_place c s).0.seg ≡ current_seg other s.seg
  unfolding current_seg
  global_index s other = ap (λ m. or_zero (lookup other m)) (ensure_seqcst_place_keeps s).1

  advanced :
      (s : BodyState)
      → current_seg tid (advance c tid (first_place s).0).0.seg ≡ 1 + current_seg tid s.seg
  advanced s = rw (next_index (first_place s).0 tid, ==_refl tid, first_index s tid) (omega arith)

  advanced_other :
      (s : BodyState) (other : ℕ)
      → (tid == other) ≡ false
      → current_seg other (advance c tid (first_place s).0).0.seg ≡ current_seg other s.seg
  advanced_other s other e = rw (next_index (first_place s).0 other, e, first_index s other) refl

  -- An atomic operation moves its own thread by one segment, or by none when it is relaxed, leaves
  -- the segments of the other threads, and has its arcs from the place of the segment it found, if
  -- that was recorded, to the place of the segment that it leaves.
  pub ordering_seg_arcs-Passed :
      (ord : AtomicOrdering) (s : BodyState) → Passed ord s (ordering_seg_arcs c tid ord s)
  unfolding ordering_seg_arcs segments_passed entry exit first_place
  ordering_seg_arcs-Passed AtomicOrdering.relaxed s = record {
    moved = omega (arith, first_index s tid);
    others = λ other e. first_index s other;
    left = first_left s;
    entered = λ p e. ap some (first_entered s p e);
  }
  ordering_seg_arcs-Passed AtomicOrdering.release s = record {
    moved = advanced s;
    others = advanced_other s;
    left = next_left (first_place s).0;
    entered = λ p e. ap some (first_entered s p e);
  }
  ordering_seg_arcs-Passed AtomicOrdering.acquire s = record {
    moved = advanced s;
    others = advanced_other s;
    left = next_left (first_place s).0;
    entered = λ p e. ap some (first_entered s p e);
  }
  ordering_seg_arcs-Passed AtomicOrdering.acq_rel s = record {
    moved = advanced s;
    others = advanced_other s;
    left = next_left (first_place s).0;
    entered = λ p e. ap some (first_entered s p e);
  }
  ordering_seg_arcs-Passed AtomicOrdering.seq_cst s =
      let s2 = (advance c tid (first_place s).0).0 in
      record {
        moved = global_index s2 tid ∙ advanced s;
        others = λ other e. global_index s2 other ∙ advanced_other s other e;
        left = global_left s2 (next_left (first_place s).0);
        entered = λ p e. ap some (first_entered s p e);
      }

  exit-some :
      (ord : AtomicOrdering) (s : BodyState)
      → (p : ℕ) × (exit (ordering_seg_arcs c tid ord s).1 ≡ some p)
  unfolding ordering_seg_arcs exit
  exit-some AtomicOrdering.relaxed s = (_, refl)
  exit-some AtomicOrdering.release s = (_, refl)
  exit-some AtomicOrdering.acquire s = (_, refl)
  exit-some AtomicOrdering.acq_rel s = (_, refl)
  exit-some AtomicOrdering.seq_cst s = (_, refl)

  -- Two atomic operations of one thread, whatever their orderings, follow each other: the second
  -- takes the thread's token from the place to which the first one puts it.
  pub ordering_seg_arcs_chain :
      (first second : AtomicOrdering) (s : BodyState)
      → (p : ℕ) × (exit (ordering_seg_arcs c tid first s).1 ≡ some p)
        × (entry (ordering_seg_arcs c tid second (ordering_seg_arcs c tid first s).0).1 ≡ some p)
  ordering_seg_arcs_chain first second s =
      let (p, e) = exit-some first s in
      (
        p,
        e,
        (ordering_seg_arcs-Passed second (ordering_seg_arcs c tid first s).0).entered p
            ((ordering_seg_arcs-Passed first s).left ∙ e),
      )

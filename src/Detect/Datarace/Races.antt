-- ===== src/Detect/Datarace/Races.antt =====
-- src/detect/datarace.rs: what is reported for a state is a race between two of its accesses.
use conc_bug_dect_rust.Prelude.{
  Apart, Bool, Every, Every-append, Every-get, Every-if, Holds, List, Option, [], apart_cons,
  apart_nil, cons, get_elem?, holds_none, holds_some, if_intro, length, list_eq, list_ord, ltb,
  nat_eq, nat_ord, nil, none, pair_eq, pair_ord, refl, some, sym, true, ℕ, ◌++◌, ◌||◌, ◌∙◌, ◌∷◌,
  ◌≡◌, ◌≢◌,
}
use conc_bug_dect_rust.Detect.Datarace.{
  StateAccess, AccessSiteKey, AccessSiteSummary, from_access, RaceCondition, present, with_right,
  with_left, candidate_pairs, Best, PairPriority, keep_best, less, best_of, best_right, best_left,
  select_best_race_pair, pair_priority, race_condition, check_location, check_groups,
  check_race_in_state, summarize_access_sites, group_accesses_by_location,
}
use conc_bug_dect_rust.Detect.Datarace.Groups.{
  Grouped, Stands, IsSite, group_by-Grouped, summarize-IsSite,
}

module _ (All : StateAccess → Type 0) where
  -- Two accesses of which one writes, at two different sites.
  record Conflict (p : StateAccess × StateAccess) : Type 0 where
    left : All p.0
    right : All p.1
    writes : p.0.is_write || p.1.is_write ≡ true
    apart : from_access p.1 ≢ from_access p.0

  At : AccessSiteKey → StateAccess → Type 0
  At site a = All a × (from_access a ≡ site)

  present-At :
      {site : AccessSiteKey} {kind : Bool} {o : Option StateAccess}
      → Holds (Stands All site kind) o
      → Every (At site) (present o)
  unfolding present At
  present-At holds_none = nil
  present-At (holds_some h) = cons (h.one_of, h.here) nil

  with_right-Conflict :
      {l r : AccessSiteKey} (left : StateAccess) {rights : List StateAccess}
      → r ≢ l
      → At l left
      → Every (At r) rights
      → Every Conflict (with_right left rights)
  unfolding with_right At
  with_right-Conflict left ne h nil = nil
  with_right-Conflict left ne h (cons {x} k ks) =
      Every-if (left.is_write || x.is_write)
        (λ w.
          cons (record { left = h.0; right = k.0; writes = w; apart = λ e. ne (sym k.1 ∙ e ∙ h.1) })
            (with_right-Conflict left ne h ks))
        (λ _. with_right-Conflict left ne h ks)

  with_left-Conflict :
      {l r : AccessSiteKey} {lefts rights : List StateAccess}
      → r ≢ l
      → Every (At l) lefts
      → Every (At r) rights
      → Every Conflict (with_left lefts rights)
  unfolding with_left
  with_left-Conflict ne nil k = nil
  with_left-Conflict ne (cons h hs) k =
      Every-append (with_right-Conflict _ ne h k) (with_left-Conflict ne hs k)

  candidate_pairs-Conflict :
      {l r : AccessSiteSummary}
      → r.site ≢ l.site
      → IsSite All l
      → IsSite All r
      → Every Conflict (candidate_pairs l r)
  unfolding candidate_pairs
  candidate_pairs-Conflict ne h k =
      with_left-Conflict ne (Every-append (present-At h.reads) (present-At h.writes))
        (Every-append (present-At k.reads) (present-At k.writes))

  abbrev BestOk : Best → Type 0
  BestOk = Holds (λ b. Conflict b.1)

  keep_best-BestOk :
      (score : PairPriority) (pair : StateAccess × StateAccess) (best : Best)
      → Conflict pair
      → BestOk best
      → BestOk (keep_best score pair best)
  unfolding keep_best
  keep_best-BestOk score pair none p h = holds_some p
  keep_best-BestOk score pair (some b) p h =
      if_intro BestOk (less b.0 score) (λ _. holds_some p) (λ _. h)

  best_of-BestOk :
      {pairs : List (StateAccess × StateAccess)} {best : Best}
      → Every Conflict pairs
      → BestOk best
      → BestOk (best_of pairs best)
  unfolding best_of
  best_of-BestOk nil h = h
  best_of-BestOk {best} (cons {x} p ps) h =
      best_of-BestOk ps (keep_best-BestOk (pair_priority x.0 x.1) x best p h)

  best_right-BestOk :
      {left : AccessSiteSummary} {rights : List AccessSiteSummary} {best : Best}
      → IsSite All left
      → Every (λ y. y.site ≢ left.site) rights
      → Every (IsSite All) rights
      → BestOk best
      → BestOk (best_right left rights best)
  unfolding best_right
  best_right-BestOk h nil nil ok = ok
  best_right-BestOk h (cons ne nes) (cons k ks) ok =
      best_right-BestOk h nes ks (best_of-BestOk (candidate_pairs-Conflict ne h k) ok)

  best_left-BestOk :
      {sites : List AccessSiteSummary} {best : Best}
      → Every (IsSite All) sites
      → Apart (λ s. s.site) sites
      → BestOk best
      → BestOk (best_left sites best)
  unfolding best_left
  best_left-BestOk nil apart_nil ok = ok
  best_left-BestOk (cons h hs) (apart_cons ne nes) ok =
      best_left-BestOk hs nes (best_right-BestOk h ne hs ok)

  select_best-Conflict :
      {sites : List AccessSiteSummary}
      → Every (IsSite All) sites
      → Apart (λ s. s.site) sites
      → Holds Conflict (select_best_race_pair sites)
  unfolding select_best_race_pair
  select_best-Conflict {sites} hs nes =
      go (best_left sites none) (best_left-BestOk hs nes holds_none)
    where
      go :
          (b : Best)
          → BestOk b
          → Holds Conflict (elim b [ none ↦ none | some (_, pair) ↦ some pair ])
      go none holds_none = holds_none
      go (some b) (holds_some h) = holds_some h

-- A race condition that is about two accesses of the state: on one location, at two different
-- sites, and one of them a write. Its operations are these two.
pub record IsRace (transitions : List StateAccess) (state_marks : List (ℕ × ℕ)) (c : RaceCondition)
    : Type 0 where
  pub left : StateAccess
  pub right : StateAccess
  pub location_id : ℕ
  pub left_here : (k : ℕ) × (get_elem? transitions k ≡ some left)
  pub right_here : (k : ℕ) × (get_elem? transitions k ≡ some right)
  pub left_location : left.location_id ≡ location_id
  pub right_location : right.location_id ≡ location_id
  pub writes : left.is_write || right.is_write ≡ true
  pub apart : from_access right ≢ from_access left
  pub condition : c ≡ race_condition location_id state_marks (left, right)

module _ (transitions : List StateAccess) (state_marks : List (ℕ × ℕ)) where
  In : StateAccess → Type 0
  In a = (k : ℕ) × (get_elem? transitions k ≡ some a)

  -- What the source pushes for the pair that it chose.
  pushed-IsRace :
      (location_id : ℕ) (pair : Option (StateAccess × StateAccess)) {infos : List RaceCondition}
      → Holds (Conflict (λ a. In a × (a.location_id ≡ location_id))) pair
      → Every (IsRace transitions state_marks) infos
      → Every (IsRace transitions state_marks) (elim pair [
        | none ↦ infos
        | some p ↦ infos ++ race_condition location_id state_marks p ∷ []
      ])
  unfolding In
  pushed-IsRace location_id none holds_none ok = ok
  pushed-IsRace location_id (some p) (holds_some c) ok = Every-append ok (
      cons
        (record {
          left = p.0;
          right = p.1;
          location_id = location_id;
          left_here = c.left.0;
          right_here = c.right.0;
          left_location = c.left.1;
          right_location = c.right.1;
          writes = c.writes;
          apart = c.apart;
          condition = refl;
        })
        nil)

  check_location-IsRace :
      (location_id : ℕ) (accesses : List StateAccess) {infos : List RaceCondition}
      → Every (λ a. In a × (a.location_id ≡ location_id)) accesses
      → Every (IsRace transitions state_marks) infos
      → Every
          (IsRace transitions state_marks)
          (check_location location_id accesses state_marks infos)
  unfolding check_location
  check_location-IsRace location_id accesses {infos} h ok =
      let Here : StateAccess → Type 0 = λ a. In a × (a.location_id ≡ location_id) in
      let (sites, apart) = summarize-IsSite Here h in
      Every-if (ltb (length (summarize_access_sites accesses)) 2) (λ _. ok)
        (λ _.
          pushed-IsRace location_id (select_best_race_pair (summarize_access_sites accesses))
            (select_best-Conflict Here sites apart) ok)

  check_groups-IsRace :
      (groups : List (ℕ × List StateAccess)) {infos : List RaceCondition}
      → Every (Grouped In (λ a. a.location_id)) groups
      → Every (IsRace transitions state_marks) infos
      → Every (IsRace transitions state_marks) (check_groups groups state_marks infos)
  unfolding check_groups
  check_groups-IsRace [] nil ok = ok
  check_groups-IsRace ((location_id, accesses) ∷ groups) (cons h hs) ok =
      check_groups-IsRace groups hs (check_location-IsRace location_id accesses h ok)

-- Every race condition that a state adds to the report is a race between two accesses of that
-- state: on one location, at two different sites (scope and basic block), at least one of them a
-- write; and its operations, sorted, are these two.
pub check_race_in_state-IsRace :
    (transitions : List StateAccess) (state_marks : List (ℕ × ℕ))
    → Every (IsRace transitions state_marks) (check_race_in_state transitions state_marks [])
unfolding check_race_in_state group_accesses_by_location In
check_race_in_state-IsRace transitions state_marks =
    let (groups, _) =
      group_by-Grouped (In transitions state_marks) (λ a. a.location_id)
        (Every-get transitions (λ k a h. (k, h))) nil apart_nil in
    check_groups-IsRace transitions state_marks _ groups nil

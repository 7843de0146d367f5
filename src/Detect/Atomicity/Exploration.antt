-- ===== src/Detect/Atomicity/Exploration.antt =====
-- src/detect/atomicity_violation.rs: the exploration ends, never panics, and finds only violations.
use conc_bug_dect_rust.Prelude.{
  Bool-cases, Every, Every-get, List, List-cases, Option, [], ap, arith, cons, contains, get_elem?,
  get_elem?-concat, inl, inr, insert, leb, length, length-append, length-insert, length-sort_by,
  list_eq, list_ord, nat_eq, nat_ord, nil, pair_eq, pair_ord, refl, some, sort_by, sort_by-Every,
  subst, suc, zero, ℕ, ◌*◌, ◌++◌, ◌+◌, ◌-◌, ◌<◌, ◌==◌, ◌||◌, ◌∙◌, ◌∷◌, ◌≡◌, ◌≤◌,
}
use conc_bug_dect_rust.Detect.Graph.{Edge, StateGraph}
use conc_bug_dect_rust.Detect.Atomicity
use conc_bug_dect_rust.Detect.Atomicity.{
  Ev, WitnessKind, Frame, Witness, Found, Search, parse_event, match_rules, next_frame, take_edge,
  take_edges, earlier, visit, from_frame, loop, detect_witnesses, done, no_pattern, new,
}
use conc_bug_dect_rust.Detect.Atomicity.Patterns.{
  EventAt, start, step, Runs-length, IsPattern-append,
}
use conc_bug_dect_rust.Detect.Atomicity.Reports.{Realised, AllRealised, IsFrame, match_rules_lem}

-- Every frame of the stack is a run, and everything found is a violation.
record IsSearch (g : StateGraph) (s : Search) : Type 0 where
  frames : Every (IsFrame g) s.stack
  found : AllRealised g s.found

next_frame-IsFrame :
    {g : StateGraph} (f : Frame) (e : Edge) (k : ℕ)
    → get_elem? (g.edges f.node) k ≡ some e
    → IsFrame g f
    → IsFrame g (next_frame f e)
unfolding next_frame
next_frame-IsFrame f e k h i = record {
  run = step e k i.run h;
  patterns = λ j. IsPattern-append (parse_event e.transition_type ∷ []) (i.patterns j);
}

next_frame-now :
    {g : StateGraph} (f : Frame) (e : Edge) (ev : Ev)
    → IsFrame g f
    → parse_event e.transition_type ≡ some ev
    → EventAt (next_frame f e).events (length (next_frame f e).trace - 1) ev
unfolding next_frame
next_frame-now f e ev i h =
    let last : length (f.trace ++ e.id ∷ []) - 1 ≡ length f.events =
      omega (arith, length-append f.trace (e.id ∷ []), Runs-length i.run) in
    rw (last, h) (get_elem?-concat f.events (some ev))

-- One edge: at most one more frame.
record Steps (g : StateGraph) (n : ℕ) (s : Search) (o : Option Search) : Type 0 where
  result : Search
  returns : o ≡ some result
  kept : IsSearch g result
  visited : result.visited ≡ s.visited
  pushed : length result.stack ≤ length s.stack + n

IsEdge : StateGraph → ℕ → Edge → Type 0
IsEdge g n e = (k : ℕ) × (get_elem? (g.edges n) k ≡ some e)

module _ (g : StateGraph) (max_states max_depth : ℕ) where
  take_edge-Steps :
      (f : Frame) (e : Edge) (s : Search)
      → IsEdge g f.node e
      → IsFrame g f
      → IsSearch g s
      → Steps g 1 s (take_edge max_states max_depth f e s)
  unfolding take_edge IsEdge
  take_edge-Steps f e s (k, h) i ok =
      elim (Bool-cases (leb max_depth (length f.trace) || leb max_states (length s.visited))) [
        | inl full ↦ record {
          result = s;
          returns = simp full;
          kept = ok;
          visited = refl;
          pushed = omega arith;
        }
        | inr room ↦
            let ((f', out), matched, i', ok') =
              match_rules_lem g (parse_event e.transition_type) (next_frame f e) s.found
                (λ ev p. next_frame-now f e ev i p) (next_frame-IsFrame f e k h i) ok.found in
            record {
              result = record s { stack = f' ∷ s.stack; found = out };
              returns = simp (room, matched);
              kept = record { frames = cons i' ok.frames; found = ok' };
              visited = refl;
              pushed = omega arith;
            }
      ]

  take_edges-Steps :
      (f : Frame) (es : List Edge) (s : Search)
      → Every (IsEdge g f.node) es
      → IsFrame g f
      → IsSearch g s
      → Steps g (length es) s (take_edges max_states max_depth f es s)
  unfolding take_edges
  take_edges-Steps f [] s nil i ok = record {
    result = s;
    returns = refl;
    kept = ok;
    visited = refl;
    pushed = omega arith;
  }
  take_edges-Steps f (e ∷ es) s (cons h hs) i ok =
      let one = take_edge-Steps f e s h i ok in
      let rest = take_edges-Steps f es one.result hs i one.kept in
      record {
        result = rest.result;
        returns = simp (one.returns, rest.returns);
        kept = rest.kept;
        visited = rest.visited ∙ one.visited;
        pushed = omega (arith, one.pushed, rest.pushed);
      }

  -- How many frames may still be popped, when no node has more than `degree` edges.
  measure : ℕ → Search → ℕ
  measure degree s = length s.stack + (max_states - length s.visited) * degree

  spent :
      (degree v : ℕ)
      → v < max_states
      → (max_states - (v + 1)) * degree + degree ≡ (max_states - v) * degree
  spent degree v h =
      let k : max_states - v ≡ suc (max_states - (v + 1)) = omega arith in rw k (omega arith)

  record Visits (degree : ℕ) (s : Search) (o : Option Search) : Type 0 where
    result : Search
    returns : o ≡ some result
    kept : IsSearch g result
    spends : measure degree result ≤ measure degree s

  visit-Visits :
      (degree : ℕ) (f : Frame) (s : Search)
      → ((n : ℕ) → length (g.edges n) ≤ degree)
      → IsFrame g f
      → IsSearch g s
      → Visits degree s (visit g max_states max_depth f s)
  unfolding visit measure IsEdge
  visit-Visits degree f s few i ok =
      elim (Bool-cases (leb max_states (length s.visited) || leb max_depth (length f.trace))) [
        | inl full ↦ record { result = s; returns = simp full; kept = ok; spends = omega arith }
        | inr room ↦ elim (Bool-cases (contains s.visited (from_frame f))) [
          | inl old ↦ record {
            result = s;
            returns = simp (room, old);
            kept = ok;
            spends = omega arith;
          }
          | inr fresh ↦
              let es = sort_by earlier (g.edges f.node) in
              let s' : Search = record s { visited = insert (from_frame f) s.visited } in
              let all =
                take_edges-Steps f es s'
                  (sort_by-Every earlier (Every-get (g.edges f.node) (λ k e h. (k, h)))) i
                  (record { frames = ok.frames; found = ok.found }) in
              let longer : length s'.visited ≡ length s.visited + 1 =
                length-insert (from_frame f) s.visited fresh in
              let same : length all.result.visited ≡ length s.visited + 1 =
                ap length all.visited ∙ longer in
              record {
                result = all.result;
                returns = simp (room, fresh, all.returns);
                kept = all.kept;
                spends = rw same (
                    omega (
                      arith,
                      all.pushed,
                      few f.node,
                      length-sort_by earlier (g.edges f.node),
                      spent degree (length s.visited) (ground arith),
                    ));
              }
        ]
      ]

  loop_returns :
      (degree fuel : ℕ) (s : Search)
      → ((n : ℕ) → length (g.edges n) ≤ degree)
      → IsSearch g s
      → measure degree s ≤ fuel
      → (ws : List Witness) × (loop fuel g max_states max_depth s ≡ done ws) × Every (Realised g) ws
  unfolding loop measure
  loop_returns degree zero s few ok le = elim (List-cases s.stack) [
    | inl e ↦ (s.found.witnesses, simp (e, loop), ok.found)
    | inr (f, rest, e) ↦ absurd (omega (arith, ap length e))
  ]
  loop_returns degree (suc fuel) s few ok le = elim (List-cases s.stack) [
    | inl e ↦ (s.found.witnesses, simp (e, loop), ok.found)
    | inr (f, rest, e) ↦ elim (subst (Every (IsFrame g)) e ok.frames) [
      | cons i frames ↦
          let v =
            visit-Visits degree f (record s { stack = rest }) few i
              (record { frames = frames; found = ok.found }) in
          let (ws, run, all) =
            loop_returns degree fuel v.result few v.kept (omega (arith, ap length e, v.spends)) in
          (ws, simp (e, loop) (rw v.returns run), all)
    ]
  ]

-- Let no node of the graph have more than `degree` outgoing edges, and let the fuel be at least
-- 1 + `max_states` · `degree`. Then the search returns a list of witnesses, without a panic, and
-- each of them lies on a run of the graph: a start, an intruding mid and an end event, in this order
-- and of the kinds of its rule, on aliases that agree in their instance and local, though not
-- always in their array index and field, the first and the last by one thread and the intruding one
-- by another.
pub detect_witnesses_total :
    (g : StateGraph) (max_states max_depth degree fuel : ℕ)
    → ((n : ℕ) → length (g.edges n) ≤ degree)
    → 1 + max_states * degree ≤ fuel
    → (ws : List Witness) × (detect_witnesses fuel g max_states max_depth ≡ done ws)
      × Every (Realised g) ws
unfolding detect_witnesses new measure
detect_witnesses_total g max_states max_depth degree fuel few le =
    let first : Search = record {
      stack = Atomicity.new g.initial ∷ [];
      visited = [];
      found = record { witnesses = []; seen = [] };
    } in
    elim (Bool-cases (max_states == 0)) [
      | inl zero_states ↦ ([], simp zero_states, nil)
      | inr some_states ↦
          let fresh : max_states - 0 ≡ max_states = omega arith in
          let (ws, run, all) =
            loop_returns g max_states max_depth degree fuel first few
              (record {
                frames =
                    cons
                      (record { run = start; patterns = λ k. record { starts = nil; saws = nil } })
                      nil;
                found = nil;
              })
              (rw fresh le) in
          (ws, simp (some_states, run), all)
    ]

-- ===== src/Detect/Atomicity/Reports.antt =====
-- src/detect/atomicity_violation.rs: matching an event against the rules never panics, and what it
-- reports is a violation along the frame's run.
use conc_bug_dect_rust.Prelude.{
  Bool-cases, Every, Every-append, List, Option, Option-cases, [], arith, cons, contains, get_elem?,
  get_elem?_total, inl, inr, insert, length, list_eq, list_ord, lookup, lookup-Every,
  lt-length_of_get_elem?, ltb, nat_eq, nat_ord, nil, none, pair_eq, pair_ord, refl, some, ℕ, ◌&&◌,
  ◌++◌, ◌-◌, ◌<◌, ◌==◌, ◌∷◌, ◌≡◌, ◌≢◌,
}
use conc_bug_dect_rust.Detect.Graph.{StateGraph}
use conc_bug_dect_rust.Detect.Atomicity.{
  Ev, WitnessKind, av1, av2, av3, AliasKey, key_of, PatternState, Frame, kind_of, Witness, Found,
  kind_eq, report, match_intruders, end_phase, remove_all, put_back, mid_phase, start_phase,
  set_pattern, try_match, match_rules,
}
use conc_bug_dect_rust.Detect.Atomicity.Patterns.{
  rule_of, EventAt, Runs, Runs-length, StartOk, MidOk, IsPattern, remove_all-Every, put_back-SawOk,
  mid_phase-IsPattern, start_phase-IsPattern, set_pattern-IsPattern,
}

-- The witness lies on a run of the graph from its initial node: a start event, an intruding mid
-- event and an end event, of the kinds of its rule and in this order, all on one instance and local; the first
-- and the last by one thread, the intruding one by another.
pub record Realised (g : StateGraph) (w : Witness) : Type 0 where
  pub node : ℕ
  pub trace : List ℕ
  pub events : List (Option Ev)
  pub run : Runs g node trace events
  pub start_idx : ℕ
  pub mid_idx : ℕ
  pub end_idx : ℕ
  pub start_at : EventAt events start_idx w.start
  pub mid_at : EventAt events mid_idx w.mid
  pub end_at : EventAt events end_idx w.end
  pub start_first : start_idx < mid_idx
  pub end_last : mid_idx < end_idx
  pub start_kind : w.start.kind ≡ (rule_of w.kind).start
  pub mid_kind : w.mid.kind ≡ (rule_of w.kind).mid
  pub end_kind : w.end.kind ≡ (rule_of w.kind).end
  pub start_alias : key_of w.start.alias ≡ key_of w.end.alias
  pub mid_alias : key_of w.mid.alias ≡ key_of w.end.alias
  pub same_thread : w.start.tid ≡ w.end.tid
  pub intruder : w.mid.tid ≢ w.end.tid

abbrev pub AllRealised : StateGraph → Found → Type 0
AllRealised g out = Every (Realised g) out.witnesses

kind_of-rule : (k : WitnessKind) → kind_of (rule_of k).id ≡ some k
unfolding kind_of
kind_of-rule av1 = refl
kind_of-rule av2 = refl
kind_of-rule av3 = refl

module _ (g : StateGraph) (f : Frame) (run : Runs g f.node f.trace f.events) (ev : Ev) where
  abbrev now : ℕ
  now = length f.trace - 1

  abbrev key : AliasKey × ℕ
  key = (key_of ev.alias, ev.tid)

  traced :
      (i : ℕ) {e : Option Ev}
      → get_elem? f.events i ≡ some e
      → (t : ℕ) × (get_elem? f.trace i ≡ some t)
  traced i h =
      get_elem?_total f.trace i
        (omega (arith, lt-length_of_get_elem? f.events i h, Runs-length run))

  report_lem :
      (k : WitnessKind) (i j : ℕ) (tid : ℕ) (out : Found)
      → EventAt f.events now ev
      → ev.kind ≡ (rule_of k).end
      → StartOk (rule_of k) f.events (key, i)
      → MidOk (rule_of k) f.events key (tid, j)
      → i < j
      → j < now
      → AllRealised g out
      → (out' : Found) × (report (rule_of k) ev f i j now out ≡ some out') × AllRealised g out'
  unfolding report
  report_lem k i j tid out h e s m ij jn ok =
      let (a, ga) = traced i s.here in
      let (b, gb) = traced j m.here in
      let (c, gc) = traced now h in
      elim (Bool-cases (contains out.seen ((rule_of k).id, (a, (b, c))))) [
        | inl old ↦ (out, simp (ga, gb, gc, old), ok)
        | inr new ↦ (
          record {
            witnesses =
                out.witnesses ++ record { kind = k; start = s.event; mid = m.event; end = ev } ∷ [];
            seen = insert ((rule_of k).id, (a, (b, c))) out.seen;
          },
          simp (ga, gb, gc, new, kind_of-rule k, s.here, m.here),
          Every-append ok (
              cons
                (record {
                  node = f.node;
                  trace = f.trace;
                  events = f.events;
                  run = run;
                  start_idx = i;
                  mid_idx = j;
                  end_idx = now;
                  start_at = s.here;
                  mid_at = m.here;
                  end_at = h;
                  start_first = ij;
                  end_last = jn;
                  start_kind = s.kind;
                  mid_kind = m.kind;
                  end_kind = e;
                  start_alias = s.alias;
                  mid_alias = m.alias;
                  same_thread = s.thread;
                  intruder = m.intruder;
                })
                nil),
        )
      ]

  match_intruders_lem :
      (k : WitnessKind) (i : ℕ) (ms : List (ℕ × ℕ)) (ts : List ℕ) (out : Found)
      → EventAt f.events now ev
      → ev.kind ≡ (rule_of k).end
      → StartOk (rule_of k) f.events (key, i)
      → Every (MidOk (rule_of k) f.events key) ms
      → AllRealised g out
      → (r : List ℕ × Found) × (match_intruders (rule_of k) ev f i now ms ts out ≡ some r)
        × AllRealised g r.1
  unfolding match_intruders
  match_intruders_lem k i [] ts out h e s nil ok = ((ts, out), refl, ok)
  match_intruders_lem k i ((tid, j) ∷ ms) ts out h e s (cons m more) ok =
      elim (Bool-cases (ltb i j && ltb j now)) [
        | inl test ↦
            let (out', done, ok') =
              report_lem k i j tid out h e s m (ground arith) (ground arith) ok in
            let (r, rest, ok'') = match_intruders_lem k i ms (ts ++ tid ∷ []) out' h e s more ok' in
            (r, simp (test, done, rest), ok'')
        | inr test ↦
            let (r, rest, ok') = match_intruders_lem k i ms ts out h e s more ok in
            (r, simp (test, rest), ok')
      ]

  end_phase_lem :
      (k : WitnessKind) (s : PatternState) (out : Found)
      → EventAt f.events now ev
      → IsPattern (rule_of k) f.events s
      → AllRealised g out
      → (r : PatternState × Found) × (end_phase (rule_of k) ev f (s, out) ≡ some r)
        × IsPattern (rule_of k) f.events r.0
        × AllRealised g r.1
  unfolding end_phase
  end_phase_lem k s out h p ok = elim (Bool-cases (ev.kind == (rule_of k).end)) [
    | inr other ↦ ((s, out), simp other, p, ok)
    | inl e ↦ elim (Option-cases (lookup key s.last_start)) [
      | inl none_yet ↦ ((s, out), simp (e, none_yet), p, ok)
      | inr (i, found) ↦ elim (Option-cases (lookup key s.saw_mid_after_start)) [
        | inl none_yet ↦ ((s, out), simp (e, found, none_yet), p, ok)
        | inr (ms, saw) ↦
            let mids = lookup-Every key p.saws saw in
            let ((ts, out'), run', ok') =
              match_intruders_lem k i ms [] out h (ground arith) (lookup-Every key p.starts found)
                mids ok in
            (
              (
                record s {
                  saw_mid_after_start = put_back key (remove_all ts ms) s.saw_mid_after_start;
                },
                out',
              ),
              simp (e, found, saw, run'),
              record {
                starts = p.starts;
                saws = put_back-SawOk key (remove_all ts ms) (remove_all-Every ts mids) p.saws;
              },
              ok',
            )
      ]
    ]
  ]

-- A frame whose node, trace and events are a run, and whose patterns record its events.
pub record IsFrame (g : StateGraph) (f : Frame) : Type 0 where
  pub run : Runs g f.node f.trace f.events
  pub patterns :
      (k : WitnessKind) → IsPattern (rule_of k) f.events (f.pattern_states (rule_of k).id)

try_match_lem :
    (g : StateGraph) (k : WitnessKind) (ev : Ev) (f : Frame) (out : Found)
    → EventAt f.events (length f.trace - 1) ev
    → IsFrame g f
    → AllRealised g out
    → (s : PatternState) × (out' : Found) × (try_match (rule_of k) ev (f, out)
        ≡ some (set_pattern (rule_of k).id s f, out'))
      × IsFrame g (set_pattern (rule_of k).id s f)
      × AllRealised g out'
unfolding try_match set_pattern
try_match_lem g k ev f out h i ok =
    let now = length f.trace - 1 in
    let ((s, out'), done, p, ok') =
      end_phase_lem g f i.run ev k (f.pattern_states (rule_of k).id) out h (i.patterns k) ok in
    (
      start_phase (rule_of k) ev now (mid_phase (rule_of k) ev now s),
      out',
      simp done,
      record {
        run = i.run;
        patterns =
            set_pattern-IsPattern k f
              (start_phase-IsPattern ev now h (mid_phase-IsPattern ev now h p)) i.patterns;
      },
      ok',
    )

pub match_rules_lem :
    (g : StateGraph) (o : Option Ev) (f : Frame) (out : Found)
    → ((ev : Ev) → o ≡ some ev → EventAt f.events (length f.trace - 1) ev)
    → IsFrame g f
    → AllRealised g out
    → (r : Frame × Found) × (match_rules o (f, out) ≡ some r) × IsFrame g r.0 × AllRealised g r.1
unfolding match_rules set_pattern
match_rules_lem g none f out h i ok = ((f, out), refl, i, ok)
match_rules_lem g (some ev) f out h i ok =
    let here = h ev refl in
    let (s1, out1, done1, i1, ok1) = try_match_lem g av1 ev f out here i ok in
    let f1 = set_pattern 0 s1 f in
    let (s2, out2, done2, i2, ok2) = try_match_lem g av2 ev f1 out1 here i1 ok1 in
    let f2 = set_pattern 1 s2 f1 in
    let (s3, out3, done3, i3, ok3) = try_match_lem g av3 ev f2 out2 here i2 ok2 in
    ((set_pattern 2 s3 f2, out3), simp (done1, done2, done3), i3, ok3)

-- ===== src/Detect/Atomicity/Patterns.antt =====
-- src/detect/atomicity_violation.rs: the pattern states of a frame record events of its own run.
use conc_bug_dect_rust.Prelude.{
  Every, Every-if, Every-map, List, Option, [], arith, eq_of_==, get_elem?, get_elem?-append,
  if_intro, length, length-append, list_eq, list_ord, lookup, lookup-Every, nat_eq, nat_ord, nil,
  none, not, pair_eq, pair_ord, put_sorted-Every, refl, remove_key-Every, some, subst, ℕ, ◌&&◌,
  ◌++◌, ◌==◌, ◌∷◌, ◌≡◌, ◌≢◌,
}
use conc_bug_dect_rust.Detect.Graph.{Edge, StateGraph}
use conc_bug_dect_rust.Detect.Atomicity.{
  Ev, Rule, rule_av1, rule_av2, rule_av3, WitnessKind, av1, av2, av3, AliasKey, key_of,
  PatternState, Frame, parse_event, kind_eq, remove_all, put_back, or_default, note_mid, mid_phase,
  start_phase, set_pattern,
}

abbrev pub rule_of : WitnessKind → Rule
rule_of av1 = rule_av1
rule_of av2 = rule_av2
rule_of av3 = rule_av3

abbrev pub EventAt : List (Option Ev) → ℕ → Ev → Type 0
EventAt evs i e = get_elem? evs i ≡ some (some e)

-- `g` leads from its initial node to this node along transitions with these ids and events.
pub data Runs (g : StateGraph) : ℕ → List ℕ → List (Option Ev) → Type 0 where
  start : Runs g g.initial [] []
  step :
      {n : ℕ} {trace : List ℕ} {evs : List (Option Ev)} (e : Edge) (k : ℕ)
      → Runs g n trace evs
      → get_elem? (g.edges n) k ≡ some e
      → Runs g e.target (trace ++ e.id ∷ []) (evs ++ parse_event e.transition_type ∷ [])

pub Runs-length :
    {g : StateGraph} {n : ℕ} {trace : List ℕ} {evs : List (Option Ev)}
    → Runs g n trace evs
    → length trace ≡ length evs
Runs-length start = refl
Runs-length (step {trace} {evs} e k r h) = omega (
  arith,
  Runs-length r,
  length-append trace (e.id ∷ []),
  length-append evs (parse_event e.transition_type ∷ []),
)

-- An entry of `last_start`: a start event of its thread on its instance and local.
pub record StartOk (r : Rule) (evs : List (Option Ev)) (x : (AliasKey × ℕ) × ℕ) : Type 0 where
  pub event : Ev
  pub here : EventAt evs x.1 event
  pub kind : event.kind ≡ r.start
  pub alias : key_of event.alias ≡ x.0.0
  pub thread : event.tid ≡ x.0.1

-- An intruder: a mid event of another thread on the same instance and local.
pub record MidOk (r : Rule) (evs : List (Option Ev)) (key : AliasKey × ℕ) (x : ℕ × ℕ) : Type 0 where
  pub event : Ev
  pub here : EventAt evs x.1 event
  pub kind : event.kind ≡ r.mid
  pub alias : key_of event.alias ≡ key.0
  pub thread : event.tid ≡ x.0
  pub intruder : event.tid ≢ key.1

abbrev pub SawOk : Rule → List (Option Ev) → (AliasKey × ℕ) × List (ℕ × ℕ) → Type 0
SawOk r evs x = Every (MidOk r evs x.0) x.1

pub record IsPattern (r : Rule) (evs : List (Option Ev)) (s : PatternState) : Type 0 where
  pub starts : Every (StartOk r evs) s.last_start
  pub saws : Every (SawOk r evs) s.saw_mid_after_start

-- More events leave the old ones where they are.
pub IsPattern-append :
    {r : Rule} {evs : List (Option Ev)} {s : PatternState} (more : List (Option Ev))
    → IsPattern r evs s
    → IsPattern r (evs ++ more) s
IsPattern-append {evs} more h = record {
  starts =
      Every-map
        (λ x o. record {
          event = o.event;
          here = get_elem?-append evs more _ o.here;
          kind = o.kind;
          alias = o.alias;
          thread = o.thread;
        })
        h.starts;
  saws =
      Every-map
        (λ x os.
          Every-map
            (λ y o. record {
              event = o.event;
              here = get_elem?-append evs more _ o.here;
              kind = o.kind;
              alias = o.alias;
              thread = o.thread;
              intruder = o.intruder;
            })
            os)
        h.saws;
}

pub remove_all-Every :
    {P : ℕ × ℕ → Type 0} (ts : List ℕ) {m : List (ℕ × ℕ)} → Every P m → Every P (remove_all ts m)
unfolding remove_all
remove_all-Every [] h = h
remove_all-Every (t ∷ ts) h = remove_all-Every ts (remove_key-Every t h)

pub put_back-SawOk :
    {r : Rule} {evs : List (Option Ev)} (key : AliasKey × ℕ) (ms : List (ℕ × ℕ))
    {saw : List ((AliasKey × ℕ) × List (ℕ × ℕ))}
    → SawOk r evs (key, ms)
    → Every (SawOk r evs) saw
    → Every (SawOk r evs) (put_back key ms saw)
unfolding put_back
put_back-SawOk key [] h k = remove_key-Every key k
put_back-SawOk key (m ∷ ms) h k = put_sorted-Every key (m ∷ ms) h k

or_default-SawOk :
    {r : Rule} {evs : List (Option Ev)} (key : AliasKey × ℕ)
    {saw : List ((AliasKey × ℕ) × List (ℕ × ℕ))} (o : Option (List (ℕ × ℕ)))
    → lookup key saw ≡ o
    → Every (SawOk r evs) saw
    → SawOk r evs (key, or_default o)
unfolding or_default
or_default-SawOk key none e h = nil
or_default-SawOk key (some m) e h = lookup-Every key h e

note_mid-SawOk :
    {r : Rule} {evs : List (Option Ev)} (ev : Ev) (idx : ℕ) (starts : List ((AliasKey × ℕ) × ℕ))
    {saw : List ((AliasKey × ℕ) × List (ℕ × ℕ))}
    → EventAt evs idx ev
    → ev.kind ≡ r.mid
    → Every (SawOk r evs) saw
    → Every (SawOk r evs) (note_mid ev idx starts saw)
unfolding note_mid
note_mid-SawOk ev idx [] now k h = h
note_mid-SawOk {r} {evs} ev idx (((key, tid), i) ∷ starts) {saw} now k h =
    let full : AliasKey × ℕ = (key, tid) in
    note_mid-SawOk ev idx starts now k (
      Every-if (key == key_of ev.alias && not (tid == ev.tid))
        (λ test.
          put_sorted-Every full _
            (put_sorted-Every ev.tid idx
              (record {
                event = ev;
                here = now;
                kind = k;
                alias = ground arith;
                thread = refl;
                intruder = ground arith;
              })
              (or_default-SawOk full (lookup full saw) refl h))
            h)
        (λ _. h))

pub mid_phase-IsPattern :
    {r : Rule} {evs : List (Option Ev)} (ev : Ev) (idx : ℕ) {s : PatternState}
    → EventAt evs idx ev
    → IsPattern r evs s
    → IsPattern r evs (mid_phase r ev idx s)
unfolding mid_phase
mid_phase-IsPattern {r} {evs} ev idx {s} now h =
    if_intro (IsPattern r evs) (ev.kind == r.mid)
      (λ k. record {
        starts = h.starts;
        saws = note_mid-SawOk ev idx s.last_start now (ground arith) h.saws;
      })
      (λ _. h)

pub start_phase-IsPattern :
    {r : Rule} {evs : List (Option Ev)} (ev : Ev) (idx : ℕ) {s : PatternState}
    → EventAt evs idx ev
    → IsPattern r evs s
    → IsPattern r evs (start_phase r ev idx s)
unfolding start_phase
start_phase-IsPattern {r} {evs} ev idx {s} now h =
    if_intro (IsPattern r evs) (ev.kind == r.start)
      (λ k. record {
        starts =
            put_sorted-Every _ idx
              (record { event = ev; here = now; kind = ground arith; alias = refl; thread = refl })
              h.starts;
        saws = remove_key-Every _ h.saws;
      })
      (λ _. h)

id-injective : (j k : WitnessKind) → (rule_of j).id ≡ (rule_of k).id → k ≡ j
id-injective av1 av1 h = refl
id-injective av1 av2 h = absurd (omega arith)
id-injective av1 av3 h = absurd (omega arith)
id-injective av2 av1 h = absurd (omega arith)
id-injective av2 av2 h = refl
id-injective av2 av3 h = absurd (omega arith)
id-injective av3 av1 h = absurd (omega arith)
id-injective av3 av2 h = absurd (omega arith)
id-injective av3 av3 h = refl

-- Writing one rule's state leaves those of the other two.
pub set_pattern-IsPattern :
    (k : WitnessKind) {s : PatternState} (f : Frame)
    → IsPattern (rule_of k) f.events s
    → ((j : WitnessKind) → IsPattern (rule_of j) f.events (f.pattern_states (rule_of j).id))
    → (j : WitnessKind)
    → IsPattern
        (rule_of j)
        f.events
        ((set_pattern (rule_of k).id s f).pattern_states (rule_of j).id)
unfolding set_pattern
set_pattern-IsPattern k {s} f new old j =
    if_intro (IsPattern (rule_of j) f.events) ((rule_of j).id == (rule_of k).id)
      (λ same.
        subst (λ i. IsPattern (rule_of i) f.events s)
          (id-injective j k (eq_of_== (rule_of j).id (rule_of k).id same)) new)
      (λ _. old j)

-- ===== src/Detect/Atomicity/Dedupe.antt =====
-- src/detect/atomicity_violation.rs: the patterns of a report, one for each group of equal ones.
pub mod Described
use conc_bug_dect_rust.Prelude.{
  Bool, Eq, List, Text, [], codes, contains, decimal, false, if◌then◌else◌, length, list_eq,
  list_ord, nat_eq, nat_ord, pair_eq, pair_ord, true, ℕ, ℕ_discrete, ◌++◌, ◌∷◌,
}
use conc_bug_dect_rust.Detect.Graph.{AliasId}
use conc_bug_dect_rust.Detect.Atomicity.{Ev, Witness, WitnessKind, av1, av2, av3}

pub record AtomicOperation : Type 0 where
  pub operation_type : Text
  pub ordering : Text
  pub variable : Text
  pub location : ℕ

unfoldable pub AtomicOperation-discrete : Discrete AtomicOperation
AtomicOperation-discrete = hlevel ℕ_discrete

pub record ViolationPattern : Type 0 where
  pub load_op : AtomicOperation
  pub store_ops : List AtomicOperation

unfoldable pub ViolationPattern-discrete : Discrete ViolationPattern
ViolationPattern-discrete = hlevel AtomicOperation-discrete

instance abbrev pub pattern_eq : Eq ViolationPattern
pattern_eq = record { dec = ViolationPattern-discrete }

pub record AtomicReport : Type 0 where
  pub has_violation : Bool
  pub violations : List ViolationPattern
  pub violation_count : ℕ

-- The `Debug` texts of an ordering and of an alias are another package's.
module _ (debug_ord : ℕ → Text) (debug_alias : AliasId → Text) where
  unfoldable pub atomic_op : Text → Ev → AtomicOperation
  atomic_op operation_type ev = record {
    operation_type = operation_type ++ decimal ev.tid;
    ordering = debug_ord ev.ord;
    variable = debug_alias ev.alias;
    location = ev.span;
  }

  unfoldable pub pattern_of : WitnessKind → Witness → ViolationPattern
  unfolding atomic_op
  pattern_of av1 w = record {
    load_op = atomic_op (codes "load@tid") w.start;
    store_ops = atomic_op (codes "store@tid") w.mid ∷ atomic_op (codes "store@tid") w.end ∷ [];
  }
  pattern_of av2 w = record {
    load_op = atomic_op (codes "load@tid") w.end;
    store_ops = atomic_op (codes "store@tid") w.start ∷ atomic_op (codes "store@tid") w.mid ∷ [];
  }
  pattern_of av3 w = record {
    load_op = atomic_op (codes "load@tid") w.start;
    store_ops = atomic_op (codes "store@tid") w.mid ∷ [];
  }

  pub dedupe_from : List Witness → List ViolationPattern → List ViolationPattern
  unfolding pattern_of
  dedupe_from [] patterns = patterns
  dedupe_from (w ∷ ws) patterns =
      let pattern_w = pattern_of w.kind w in
      dedupe_from ws (if contains patterns pattern_w then patterns else patterns ++ pattern_w ∷ [])

  unfoldable pub dedupe_patterns : List Witness → List ViolationPattern
  unfolding dedupe_from
  dedupe_patterns witnesses = dedupe_from witnesses []

  -- What `detect` reports of the witnesses found, without its clock.
  pub report_of : List Witness → AtomicReport
  unfolding dedupe_patterns
  report_of [] = record { has_violation = false; violations = []; violation_count = 0 }
  report_of (w ∷ ws) =
      let violations = dedupe_patterns (w ∷ ws) in
      record { has_violation = true; violations = violations; violation_count = length violations }

-- ===== src/Tests/Graphs.antt =====
-- Concrete inputs for the theorems on lock groups and back edges of src/translate.
use conc_bug_dect_rust.Prelude.{
  Bool, List, Text, [], codes, contains, false, length, list_eq, list_ord, lookup, ltb, nat_eq,
  nat_ord, none, pair_eq, pair_ord, refl, some, subst, suc, true, zero, ℕ, ◌+◌, ◌↔◌, ◌∷◌, ◌≡◌,
  ℕ_discrete, ap, arith, sym, ◌∙◌, ◌≤◌,
}
use conc_bug_dect_rust.Memory.PointsTo.{
  AliasUnknownPolicy, ApproximateAliasKind, LockGuardId, from_lock_guard, may_alias,
}
use conc_bug_dect_rust.Translate.BackEdges.{compute_back_edges, terminator_successors}
use conc_bug_dect_rust.Translate.BackEdges.Ranks.{Forward}
use conc_bug_dect_rust.Translate.BackEdges.Edges.{Kept, Targets}
use conc_bug_dect_rust.Translate.BackEdges.Ranked.{compute_back_edges_acyclic}
use conc_bug_dect_rust.Translate.Body.Blocks.{is_excluded}
use conc_bug_dect_rust.Translate.Construct.{
  CrateNameList, PetriNet, Setup, construct_lock_with_dfs, keys, locks_may_alias,
}
use conc_bug_dect_rust.Translate.Registry.{no_resources}
use conc_bug_dect_rust.Translate.Construct.Locks.Shared.{HasLockPlace, construct_lock_with_dfs_lem}
use conc_bug_dect_rust.Translate.Construct.Locks.Added.{Later, after, now}
use conc_bug_dect_rust.Translate.Construct.Locks.Distinct.{
  AreFresh, HavePlaces, construct_lock_with_dfs_apart,
}
use conc_bug_dect_rust.Translate.Net.{Call}
use conc_bug_dect_rust.Translate.Groups.{singletons, unite_all}
use conc_bug_dect_rust.Translate.Groups.Connected.{
  Linked, Together, first, flip, pair, same, unite_all-Linked, via,
}
use conc_bug_dect_rust.Translate.Mir.{BlockData, TerminatorKind}
use conc_bug_dect_rust.Translate.Primitives.{LockGuardId-discrete, LockGuardTy, alias_eq, guard_eq}

-- Neighbours may alias.
abbrev near : ℕ → ℕ → Bool
near a b = ltb b (a + 2)

unite_all-Linked_example :
    (m : List (ℕ × ℕ)) × (unite_all near (1 ∷ 2 ∷ 3 ∷ 7 ∷ []) (singletons (1 ∷ 2 ∷ 3 ∷ 7 ∷ []) [])
      ≡ some m)
    × ((a b : ℕ)
        → contains (1 ∷ 2 ∷ 3 ∷ 7 ∷ []) a ≡ true
        → contains (1 ∷ 2 ∷ 3 ∷ 7 ∷ []) b ≡ true
        → Together m a b ↔ Linked near (1 ∷ 2 ∷ 3 ∷ 7 ∷ []) a b)
unite_all-Linked_example = unite_all-Linked near (1 ∷ 2 ∷ 3 ∷ 7 ∷ [])

abbrev guard_of : ℕ → LockGuardId
guard_of n = record { instance_id = 0; local = n; field = none }

abbrev setup : Setup
setup = record {
  ids = record { place_id = λ net. length net; transition_id = λ net. length net };
  alias = λ a b. ApproximateAliasKind.possibly;
  alias_atomic = λ a b. ApproximateAliasKind.possibly;
  alias_unknown_policy = AliasUnknownPolicy.conservative;
  crate_name = codes "main";
  crate_filter = CrateNameList.white [];
}

abbrev empty_net : PetriNet
empty_net = record {
  builder = [];
  functions = record { counter = [] };
  resources = no_resources;
  entry_exit = (0, 0);
}

abbrev guards : List (LockGuardId × LockGuardTy)
guards = (guard_of 1, LockGuardTy.std_mutex) ∷ (guard_of 2, LockGuardTy.std_mutex) ∷ []

Linked-guards : Linked (locks_may_alias setup []) (keys setup guards) (guard_of 1) (guard_of 2)
unfolding locks_may_alias keys may_alias LockGuardId-discrete ℕ_discrete
Linked-guards = pair (first refl) refl

construct_lock_with_dfs_lem_example :
    (s' : PetriNet) × (construct_lock_with_dfs setup guards [] empty_net ≡ some s')
    × HasLockPlace setup guards
        (Linked (locks_may_alias setup []) (keys setup guards) (guard_of 1))
        (guard_of 1)
        s'
    × (lookup (from_lock_guard (guard_of 1)) s'.resources.locks
        ≡ lookup (from_lock_guard (guard_of 2)) s'.resources.locks)
unfolding lookup LockGuardId-discrete ℕ_discrete
construct_lock_with_dfs_lem_example =
    construct_lock_with_dfs_lem setup guards [] empty_net (guard_of 1) (guard_of 2) refl refl
      Linked-guards

-- The builder counts its calls.
longer : {old new : List Call} → Later old new → length old ≤ length new
longer now = omega arith
longer (after call l) = omega (arith, longer l)

counted : AreFresh setup.ids
counted p old new l e = absurd (omega (arith, longer l, e))

-- No two locks alias.
abbrev apart_setup : Setup
apart_setup = record setup { alias = λ a b. ApproximateAliasKind.unlikely }

alone :
    {a b : LockGuardId}
    → Linked (locks_may_alias apart_setup []) (keys apart_setup guards) a b
    → a ≡ b
unfolding locks_may_alias may_alias
alone (pair before alias) = cc
alone same = refl
alone (flip l) = sym (alone l)
alone (via l l') = alone l ∙ alone l'

Linked-never :
    ¬ Linked (locks_may_alias apart_setup []) (keys apart_setup guards) (guard_of 1) (guard_of 2)
Linked-never l =
    let e : 1 ≡ 2 = ap (λ (g : LockGuardId). g.local) (alone l) in absurd (omega (arith, e))

construct_lock_with_dfs_apart_example :
    (s' : PetriNet) × (construct_lock_with_dfs apart_setup guards [] empty_net ≡ some s')
    × HavePlaces (guard_of 1) (guard_of 2) s'
unfolding lookup LockGuardId-discrete ℕ_discrete
construct_lock_with_dfs_apart_example =
    construct_lock_with_dfs_apart apart_setup guards [] empty_net (guard_of 1) (guard_of 2) counted
      refl refl Linked-never

abbrev jump : TerminatorKind → BlockData
jump kind = record {
  is_cleanup = false;
  is_empty_unreachable = false;
  statements = [];
  terminator = some (record { span = []; kind = kind });
}

-- A loop of two blocks.
abbrev looping : List BlockData
looping = jump (TerminatorKind.goto 1) ∷ jump (TerminatorKind.goto 0) ∷ []

targets_at :
    {b bb : BlockData}
    → some b ≡ some bb
    → (succs : List ℕ) × (terminator_successors looping b.terminator ≡ some succs)
    → (succs : List ℕ) × (terminator_successors looping bb.terminator ≡ some succs)
targets_at {b} {bb} found t =
    let at : b ≡ bb = cc in
    subst
      (λ (x : BlockData).
        (succs : List ℕ) × (terminator_successors looping x.terminator ≡ some succs))
      at t

looping-Targets : Targets looping
unfolding terminator_successors is_excluded
looping-Targets zero bb found = targets_at found (1 ∷ [], refl)
looping-Targets (suc zero) bb found = targets_at found (0 ∷ [], refl)
looping-Targets (suc (suc u)) bb found = absurd cc

first-Kept : Kept looping 0
unfolding is_excluded
first-Kept = record { block = jump (TerminatorKind.goto 1); found = refl; kept = refl }

compute_back_edges_acyclic_example :
    (back : List (ℕ × ℕ)) × (compute_back_edges looping ≡ some back)
    × ((u : ℕ) → Forward looping back 0 u → ¬ Forward looping back u u)
compute_back_edges_acyclic_example = compute_back_edges_acyclic looping looping-Targets first-Kept

abbrev named : List (ℕ × Text)
named = (1, codes "main") ∷ (2, codes "std::fmt::write") ∷ []

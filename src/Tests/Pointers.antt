-- ===== src/Tests/Pointers.antt =====
-- Concrete inputs for the theorems on src/memory.
use conc_bug_dect_rust.Prelude.{
  Every, Every-contains, List, List-discrete, [], arith, cons, contains, get_elem?, length, list_eq,
  list_ord, lookup, min, nat_eq, nat_ord, nil, none, pair_eq, pair_ord, put, refl, some, true, ℕ,
  ℕ_discrete, ◌++◌, ◌+◌, ◌==◌, ◌↔◌, ◌∷◌, ◌≡◌, ◌≤◌,
}
use conc_bug_dect_rust.Pta.Intern
use conc_bug_dect_rust.Pta.Intern.Laws.{intern-IsValid, intern_lem, intern_again, empty-IsValid}
use conc_bug_dect_rust.Pta.Constraint.{
  Constraint, ConstraintSet, address_of, copy, load, store, offset, constraint_eq,
}
use conc_bug_dect_rust.Pta.Context.{Context, CallSite, KCallSite}
use conc_bug_dect_rust.Pta.Context
use conc_bug_dect_rust.Pta.Loc
use conc_bug_dect_rust.Pta.Loc.{
  ProjElem, ProjElem-discrete, AbstractLoc-discrete, AllocSite-discrete, AbstractLoc, LocArena,
  intern_path, intern_loc, extend_all, project, elem_eq, loc_eq, with_path,
}
use conc_bug_dect_rust.Pta.Loc.Access.{Fits, at}
use conc_bug_dect_rust.Pta.Loc.Laws.{Projected, project-Projected}
use conc_bug_dect_rust.Pta.Loc.Universe.{
  Access, IsInside, IsInside-Fits, IsUniverse, Walks, intern_path-Walked, intern_loc-IsInside,
  project_returns,
}
use conc_bug_dect_rust.Pta.Solver.{State, solve, done}
use conc_bug_dect_rust.Pta.Interproc.{bind_call_edges, bind_call_edges-Satisfies}
use conc_bug_dect_rust.Pta.Result.{may_alias, may_alias-Derives}
use conc_bug_dect_rust.Memory.PointsTo.{
  probably, possibly, unlikely, partial_cmp, rank, partial_cmp-rank,
}
use conc_bug_dect_rust.Memory.Alias.{Queries, alias, alias_refl}
use Prim.Native.Nat.{compare}
use conc_bug_dect_rust.Pta.Solver.Sound.{fact_of, Satisfies}
use conc_bug_dect_rust.Pta.Solver.Least.{Derives}
use conc_bug_dect_rust.Pta.Solver.Progress.{KnownFact}
use conc_bug_dect_rust.Pta.Solver.Total.{solve_total}

-- Three globals, each with a path of five fields at which projection stops.
abbrev five : List ProjElem
five = ProjElem.field 0 ∷ ProjElem.field 1 ∷ ProjElem.deref ∷ ProjElem.index ∷ ProjElem.field 2 ∷ []

abbrev walked : List (List ProjElem)
walked =
    []
    ∷ (ProjElem.field 0 ∷ [])
    ∷ (ProjElem.field 0 ∷ ProjElem.field 1 ∷ [])
    ∷ (ProjElem.field 0 ∷ ProjElem.field 1 ∷ ProjElem.deref ∷ [])
    ∷ (ProjElem.field 0 ∷ ProjElem.field 1 ∷ ProjElem.deref ∷ ProjElem.index ∷ [])
    ∷ five
    ∷ []

abbrev root : ℕ → AbstractLoc
root n = AbstractLoc.global n 0

abbrev accesses : List Access
accesses =
    (root 0, [])
    ∷ (root 1, [])
    ∷ (root 2, [])
    ∷ (root 0, five)
    ∷ (root 1, five)
    ∷ (root 2, five)
    ∷ []

abbrev suffixes : List (List ProjElem)
suffixes = five ∷ []

Closed : Access → Type 0
Closed x =
    length x.1 + length five ≤ 8
    → (contains accesses (x.0, x.1 ++ five) ≡ true) × Walks accesses walked x.1 five

root-Closed : (n : ℕ) → contains accesses (root n, five) ≡ true → Closed (root n, [])
unfolding Closed
root-Closed n h le =
    (h, (ground arith, (ground arith, (ground arith, (ground arith, (ground arith, tt))))))

five-Closed : (n : ℕ) → Closed (root n, five)
unfolding Closed
five-Closed n le = absurd (omega (arith, le))

accesses-Closed : Every Closed accesses
accesses-Closed = cons (root-Closed 0 (ground arith)) (
    cons (root-Closed 1 (ground arith)) (
      cons (root-Closed 2 (ground arith))
        (cons (five-Closed 0) (cons (five-Closed 1) (cons (five-Closed 2) nil)))))

universe : IsUniverse accesses walked suffixes
unfolding Closed
universe = record {
  longer = λ r c s h k.
      Every-contains
        {P = λ s.
          length c + length s ≤ 8
          → (contains accesses (r, c ++ s) ≡ true) × Walks accesses walked c s}
        s (cons (Every-contains {P = Closed} (r, c) accesses-Closed h) nil) k;
  few_accesses = omega arith;
  few_paths = omega arith;
}

-- The arena with the six paths and the three globals.
paths_of : List (List ProjElem) → LocArena → LocArena
paths_of [] a = a
paths_of (p ∷ ps) a = paths_of ps (intern_path p a).0

empty-IsInside : IsInside accesses walked Loc.empty
unfolding Intern.get
empty-IsInside = record {
  arena = record { paths = empty-IsValid; locs = empty-IsValid; pathed = λ id l h. cc };
  objects = λ id r c x. elim x [ at l h e g ↦ cc ];
  paths = λ id c h. cc;
}

paths_of-IsInside :
    {ps : List (List ProjElem)} {a : LocArena}
    → Every (λ p. contains walked p ≡ true) ps
    → IsInside accesses walked a
    → IsInside accesses walked (paths_of ps a)
unfolding paths_of
paths_of-IsInside nil v = v
paths_of-IsInside {a = a} (cons {x} h hs) v =
    paths_of-IsInside hs (intern_path-Walked accesses walked a x universe.few_paths v h).inside

with_paths : LocArena
unfolding paths_of
with_paths = paths_of walked Loc.empty

with_paths-IsInside : IsInside accesses walked with_paths
unfolding with_paths
with_paths-IsInside =
    paths_of-IsInside
      (cons (ground arith) (
        cons (ground arith) (
          cons (ground arith)
            (cons (ground arith) (cons (ground arith) (cons (ground arith) nil))))))
      empty-IsInside

with_paths-get :
    (Intern.get with_paths.paths 0 ≡ some []) × (Intern.get with_paths.paths 5 ≡ some five)
unfolding with_paths Intern.get Intern.intern lookup put ProjElem-discrete List-discrete ℕ_discrete
with_paths-get = (refl, refl)

-- The globals 0, 1 and 2, with the ids 0, 1 and 2.
one_global : LocArena
one_global = (intern_loc (root 0) with_paths).0

two_globals : LocArena
unfolding one_global
two_globals = (intern_loc (root 1) one_global).0

arena : LocArena
unfolding two_globals
arena = (intern_loc (root 2) two_globals).0

arena-IsInside : IsInside accesses walked arena
unfolding arena two_globals one_global Intern.intern
arena-IsInside =
    let one =
      intern_loc-IsInside accesses walked with_paths (root 0) [] universe with_paths-IsInside
        (with_paths-get.0) (ground arith) in
    let two =
      intern_loc-IsInside accesses walked one_global (root 1) [] universe one.0 (with_paths-get.0)
        (ground arith) in
    (intern_loc-IsInside accesses walked two_globals (root 2) [] universe two.0 (with_paths-get.0)
      (ground arith)).0

constraints : ConstraintSet
constraints = record { set = address_of 0 2 ∷ copy 1 0 ∷ offset 1 0 5 ∷ store 1 0 ∷ load 0 1 ∷ [] }

arena-get :
    (Intern.get arena.locs 0 ≡ some (root 0))
    × (Intern.get arena.locs 1 ≡ some (root 1))
    × (Intern.get arena.locs 2 ≡ some (root 2))
    × (Intern.get arena.paths 5 ≡ some five)
unfolding arena two_globals one_global with_paths Intern.get Intern.intern lookup put
    ProjElem-discrete AbstractLoc-discrete AllocSite-discrete List-discrete ℕ_discrete
arena-get = (refl, refl, refl, refl)

k0 : (l : AbstractLoc) × (Intern.get arena.locs 0 ≡ some l)
k0 = (root 0, arena-get.0)

k1 : (l : AbstractLoc) × (Intern.get arena.locs 1 ≡ some l)
k1 = (root 1, arena-get.1)

k2 : (l : AbstractLoc) × (Intern.get arena.locs 2 ≡ some l)
k2 = (root 2, arena-get.2)

arena-known : Every (λ c. KnownFact accesses walked suffixes arena (fact_of c)) constraints.set
unfolding constraints
arena-known =
    cons (k0, k2)
      (cons (k0, k1)
        (cons (k0, k1, (five, arena-get.3, ground arith)) (cons (k1, k0) (cons (k1, k0) nil))))

solve_total_example :
    (t : State) × (solve 100 constraints arena ≡ done t)
    × Fits t.arena
    × Satisfies t constraints.set
    × ((n o : ℕ) → (contains (t.pts n) o ≡ true) ↔ Derives constraints.set t.arena n o)
unfolding constraints
solve_total_example =
    solve_total 100 constraints arena accesses walked suffixes universe arena-IsInside
      (λ c h.
        Every-contains {P = λ d. KnownFact accesses walked suffixes arena (fact_of d)} c arena-known
          h)
      (omega arith)

-- The solved state of the example.
solved : State
solved = solve_total_example.0

may_alias-Derives_example :
    ((may_alias solved 0 1 ≡ true)
      → (o : ℕ) × Derives constraints.set solved.arena 0 o
        × Derives constraints.set solved.arena 1 o)
    × ((o : ℕ)
        → Derives constraints.set solved.arena 0 o
        → Derives constraints.set solved.arena 1 o
        → may_alias solved 0 1 ≡ true)
unfolding solved
may_alias-Derives_example =
    may_alias-Derives 100 constraints arena solved 0 1 arena-IsInside.arena solve_total_example.1
      solve_total_example.2

project_returns_example :
    (r : LocArena × ℕ) × (project 0 5 arena ≡ some r)
    × IsInside accesses walked r.0
    × (m : AbstractLoc) × (Intern.get r.0.locs r.1 ≡ some m)
project_returns_example =
    project_returns accesses walked arena 0 5 (root 0) five universe arena-IsInside arena-get.0
      arena-get.3 (ground arith)

projected : LocArena × ℕ
projected = project_returns_example.0

projected-Fits : Fits projected.0
unfolding projected
projected-Fits = IsInside-Fits accesses walked projected.0 universe project_returns_example.2

project-Projected_example : Projected arena 0 5 projected
unfolding projected
project-Projected_example =
    project-Projected arena 0 5 arena-IsInside.arena project_returns_example.1 projected-Fits

abbrev eight : ℕ
eight = 8

abbrev nine : ℕ
nine = 9

seven : Intern.Interner ℕ
seven = (Intern.intern 7 Intern.empty).0

seven-IsValid : Intern.IsValid seven
unfolding seven Intern.intern lookup
seven-IsValid = intern-IsValid 7 Intern.empty empty-IsValid (omega arith)

intern_lem_example :
    (Intern.get (Intern.intern eight seven).0 (Intern.intern eight seven).1 ≡ some eight)
    × Intern.Extends seven (Intern.intern eight seven).0
    × Intern.IsValid (Intern.intern eight seven).0
    × (Intern.get_id (Intern.intern eight seven).0 nine ≡ some (Intern.intern eight seven).1
        → nine ≡ eight)
unfolding seven Intern.intern lookup put ℕ_discrete
intern_lem_example = intern_lem seven eight nine seven-IsValid (omega arith)

intern_again_example : Intern.intern eight (Intern.intern eight seven).0 ≡ Intern.intern eight seven
intern_again_example = intern_again seven eight

-- A call with the arguments 0 and a constant, for the parameters 1 and 2.
call : List Constraint
call = bind_call_edges (1 ∷ 2 ∷ []) 1 (some 0 ∷ none ∷ []) 2

with_call : ConstraintSet
unfolding call
with_call = record { set = address_of 0 2 ∷ call }

with_call_solved :
    (t : State) × (solve 100 with_call arena ≡ done t)
    × Fits t.arena
    × Satisfies t with_call.set
    × ((n o : ℕ) → (contains (t.pts n) o ≡ true) ↔ Derives with_call.set t.arena n o)
unfolding with_call call bind_call_edges
with_call_solved =
    let known : Every (λ c. KnownFact accesses walked suffixes arena (fact_of c)) with_call.set =
      cons (k0, k2) (cons (k0, k1) (cons (k1, k2) nil)) in
    solve_total 100 with_call arena accesses walked suffixes universe arena-IsInside
      (λ c h.
        Every-contains {P = λ d. KnownFact accesses walked suffixes arena (fact_of d)} c known h)
      (omega arith)

call-Satisfies : Satisfies with_call_solved.0 call
unfolding with_call
call-Satisfies =
    let all = with_call_solved.3 in
    record {
      addressed = λ d o h. all.addressed d o (ground arith);
      copied = λ d s o h. all.copied d s o (ground arith);
      loaded = λ d s p o h. all.loaded d s p o (ground arith);
      stored = λ d s p o h. all.stored d s p o (ground arith);
      projected = λ d s u o h. all.projected d s u o (ground arith);
    }

bind_call_edges-Satisfies_example :
    ((i p a o : ℕ)
      → get_elem? (1 ∷ 2 ∷ []) i ≡ some p
      → get_elem? (some 0 ∷ none ∷ []) i ≡ some (some a)
      → contains (with_call_solved.0.pts a) o ≡ true
      → contains (with_call_solved.0.pts p) o ≡ true)
    × ((o : ℕ)
        → contains (with_call_solved.0.pts 1) o ≡ true
        → contains (with_call_solved.0.pts 2) o ≡ true)
unfolding call
bind_call_edges-Satisfies_example =
    bind_call_edges-Satisfies with_call_solved.0 (1 ∷ 2 ∷ []) 1 (some 0 ∷ none ∷ []) 2
      call-Satisfies

queries : Queries
queries = record {
  Instance = ℕ;
  instance_of = some;
  solved = true;
  receiver = λ a l f b m g. a == b;
  type_param = λ a l b m. l == m;
}

alias_refl_example :
    alias queries
      (record { instance_id = 3; local = 1; array_index = some 2; field = none })
      (record { instance_id = 3; local = 1; array_index = some 2; field = none })
    ≡ probably
alias_refl_example =
    alias_refl queries (record { instance_id = 3; local = 1; array_index = some 2; field = none })

partial_cmp-rank_example :
    partial_cmp possibly unlikely ≡ some (compare (rank possibly) (rank unlikely))
partial_cmp-rank_example = partial_cmp-rank possibly unlikely

abbrev caller : Context
caller = record { sites = record { func = 1; bb = 2 } ∷ record { func = 3; bb = 4 } ∷ [] }

abbrev site : CallSite
site = record { func = 5; bb = 6 }

abbrev two : KCallSite
two = record { k = 2 }

extend_lem_example :
    ((front : List CallSite) × (front ++ (Context.extend two caller site).sites
        ≡ caller.sites ++ site ∷ []))
    × (length (Context.extend two caller site).sites ≡ min two.k (length caller.sites + 1))
extend_lem_example = Context.extend_lem two caller site

-- ===== src/Pta/Solver.antt =====
-- src/memory/pta/solver.rs: the inclusion-based worklist solver. A `HashMap` from locations to sets
-- is a function, and a missing key is the empty set, as `or_default` and `points_to` make it.
-- The order in which the source iterates over a set is unspecified; here it is that of insertion.
pub mod Facts
pub mod Grow
pub mod Rounds
pub mod Offsets
pub mod Closed
pub mod Sound
pub mod Least
pub mod Exact
pub mod Measure
pub mod Progress
pub mod Ends
pub mod Total
use conc_bug_dect_rust.Prelude.{
  Bool, Eq, List, Option, [], contains, false, if◌then◌else◌, insert, list_eq, list_ord, nat_eq,
  nat_ord, none, not, pair_eq, pair_ord, remove, some, suc, zero, ℕ, ◌++◌, ◌==◌, ◌>>=◌, ◌||◌, ◌∷◌,
}
use conc_bug_dect_rust.Pta.Constraint.{
  Constraint, ConstraintSet, address_of, copy, load, store, offset,
}
use conc_bug_dect_rust.Pta.Loc.{LocArena, project}

-- `Solver::solve`'s local variables.
pub record State : Type 0 where
  pub pts : ℕ → List ℕ
  pub copy_succ : ℕ → List ℕ
  pub loads : ℕ → List ℕ
  pub stores : ℕ → List ℕ
  pub offsets : ℕ → List (ℕ × ℕ)
  pub worklist : List ℕ
  pub in_wl : List ℕ
  pub arena : LocArena

-- `map.entry(n).or_default().insert(a)`
unfoldable pub add_to {ℓ} : {A : Type ℓ} ⦃e : Eq A⦄ → (ℕ → List A) → ℕ → A → ℕ → List A
add_to m n a k = if k == n then insert a (m k) else m k

-- `if in_wl.insert(n) { worklist.push_back(n) }`
pub push : ℕ → State → State
push n s =
    if contains s.in_wl n
    then s
    else record s { in_wl = insert n s.in_wl; worklist = s.worklist ++ n ∷ [] }

pub push_if : Bool → ℕ → State → State
unfolding push
push_if b n s = if b then push n s else s

pub add_pts : ℕ → ℕ → State → State
unfolding add_to
add_pts n o s = record s { pts = add_to s.pts n o }

pub add_copy : ℕ → ℕ → State → State
unfolding add_to
add_copy src dst s = record s { copy_succ = add_to s.copy_succ src dst }

pub add_load : ℕ → ℕ → State → State
unfolding add_to
add_load src dst s = record s { loads = add_to s.loads src dst }

pub add_store : ℕ → ℕ → State → State
unfolding add_to
add_store dst src s = record s { stores = add_to s.stores dst src }

pub add_offset : ℕ → ℕ → ℕ → State → State
unfolding add_to
add_offset src dst suffix s = record s { offsets = add_to s.offsets src (dst, suffix) }

pub start : LocArena → State
start arena = record {
  pts = λ _. [];
  copy_succ = λ _. [];
  loads = λ _. [];
  stores = λ _. [];
  offsets = λ _. [];
  worklist = [];
  in_wl = [];
  arena = arena;
}

-- The body of the loop over the constraints.
pub init_one : Constraint → State → State
unfolding push_if push add_pts add_copy add_load add_store add_offset
init_one (address_of dst obj) s = push_if (not (contains (s.pts dst) obj)) dst (add_pts dst obj s)
init_one (copy dst src) s = push src (add_copy src dst s)
init_one (load dst src) s = push src (add_load src dst s)
init_one (store dst src) s = push dst (add_store dst src s)
init_one (offset dst src suffix) s = push src (add_offset src dst suffix s)

pub init : List Constraint → State → State
unfolding init_one
init [] s = s
init (c ∷ cs) s = init cs (init_one c s)

-- `for &o in &pointees { changed |= pts.insert(dst, o) }`
pub insert_all : ℕ → List ℕ → State → Bool → State × Bool
unfolding add_pts
insert_all dst [] s changed = (s, changed)
insert_all dst (o ∷ os) s changed =
    insert_all dst os (add_pts dst o s) (changed || not (contains (s.pts dst) o))

pub copy_to : List ℕ → ℕ → State → State
unfolding insert_all push_if
copy_to os dst s = let (t, changed) = insert_all dst os s false in push_if changed dst t

pub copy_loop : List ℕ → List ℕ → State → State
unfolding copy_to
copy_loop os [] s = s
copy_loop os (dst ∷ dsts) s = copy_loop os dsts (copy_to os dst s)

-- `if copy_succ.entry(src).or_default().insert(dst) && in_wl.insert(src) { … }`
pub add_edge : ℕ → ℕ → State → State
unfolding push_if add_copy
add_edge src dst s = push_if (not (contains (s.copy_succ src) dst)) src (add_copy src dst s)

pub load_to : ℕ → List ℕ → State → State
unfolding add_edge
load_to dst [] s = s
load_to dst (o ∷ os) s = load_to dst os (add_edge o dst s)

pub load_loop : List ℕ → List ℕ → State → State
unfolding load_to
load_loop os [] s = s
load_loop os (dst ∷ dsts) s = load_loop os dsts (load_to dst os s)

pub store_from : ℕ → List ℕ → State → State
unfolding add_edge
store_from src [] s = s
store_from src (o ∷ os) s = store_from src os (add_edge src o s)

pub store_loop : List ℕ → List ℕ → State → State
unfolding store_from
store_loop os [] s = s
store_loop os (src ∷ srcs) s = store_loop os srcs (store_from src os s)

-- `none` is the panic of a bad id inside `project`.
pub project_all : ℕ → ℕ → List ℕ → State → Bool → Option (State × Bool)
unfolding add_pts
project_all dst suffix [] s changed = some (s, changed)
project_all dst suffix (o ∷ os) s changed = project o suffix s.arena >>= λ (arena, p).
    project_all dst suffix os (add_pts dst p (record s { arena = arena }))
      (changed || not (contains (s.pts dst) p))

pub offset_to : List ℕ → ℕ × ℕ → State → Option State
unfolding project_all push_if
offset_to os (dst, suffix) s =
    project_all dst suffix os s false >>= λ (t, changed). some (push_if changed dst t)

pub offset_loop : List ℕ → List (ℕ × ℕ) → State → Option State
unfolding offset_to
offset_loop os [] s = some s
offset_loop os (target ∷ targets) s = offset_to os target s >>= offset_loop os targets

-- `worklist.pop_front()` and `in_wl.remove(&n)`
pub pop : ℕ → List ℕ → State → State
pop n rest s = record s { worklist = rest; in_wl = remove n s.in_wl }

-- One round of the `while` loop, after `n` was popped.
pub copy_phase : ℕ → List ℕ → State → State
unfolding copy_loop
copy_phase n os s = copy_loop os (s.copy_succ n) s

pub load_phase : ℕ → List ℕ → State → State
unfolding load_loop
load_phase n os s = load_loop os (s.loads n) s

pub store_phase : ℕ → List ℕ → State → State
unfolding store_loop
store_phase n os s = store_loop os (s.stores n) s

pub offset_phase : ℕ → List ℕ → State → Option State
unfolding offset_loop
offset_phase n os s = offset_loop os (s.offsets n) s

pub round : ℕ → State → Option State
unfolding copy_phase load_phase store_phase offset_phase
round n s =
    let os = s.pts n in offset_phase n os (store_phase n os (load_phase n os (copy_phase n os s)))

pub data Outcome : Type 0 where
  done : State → Outcome
  panicked : Outcome
  out_of_fuel : Outcome

pub loop : ℕ → State → Outcome
unfolding round pop
loop zero s = elim s.worklist [ [] ↦ done s | _ ∷ _ ↦ out_of_fuel ]
loop (suc fuel) s = elim s.worklist [
  | [] ↦ done s
  | n ∷ rest ↦ elim (round n (pop n rest s)) [ none ↦ panicked | some t ↦ loop fuel t ]
]

unfoldable pub solve : ℕ → ConstraintSet → LocArena → Outcome
unfolding loop init start
solve fuel constraints arena = loop fuel (init constraints.set (start arena))

-- `pts.points_to(n)`
pub points_to : State → ℕ → List ℕ
points_to s n = s.pts n

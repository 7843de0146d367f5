-- ===== src/Pta/Loc.antt =====
-- src/memory/pta/loc.rs: access paths, abstract locations and the arena that interns both. A read
-- of an id that was never handed out (a panic in the source) is `none`.
pub mod Access
pub mod Laws
pub mod Universe
use conc_bug_dect_rust.Prelude.{
  Eq, List, Option, [], if◌then◌else◌, length, list_eq, list_ord, ltb, nat_eq, nat_ord, pair_eq,
  pair_ord, some, ℕ, ℕ_discrete, ◌++◌, ◌+◌, ◌==◌, ◌>>=◌, ◌∷◌,
}
use conc_bug_dect_rust.Pta.Context.{Context, Context-discrete}
use conc_bug_dect_rust.Pta.Context
use conc_bug_dect_rust.Pta.Intern
use conc_bug_dect_rust.Pta.Intern.{Interner}

pub data ProjElem : Type 0 where
  field : ℕ → ProjElem
  deref : ProjElem
  index : ProjElem

unfoldable pub ProjElem-discrete : Discrete ProjElem
ProjElem-discrete = hlevel ℕ_discrete

instance abbrev pub elem_eq : Eq ProjElem
elem_eq = record { dec = ProjElem-discrete }

abbrev pub field_depth_cap : ℕ
field_depth_cap = 8

pub record AllocSite : Type 0 where
  pub func : ℕ
  pub bb : ℕ
  pub idx : ℕ

unfoldable pub AllocSite-discrete : Discrete AllocSite
AllocSite-discrete = hlevel ℕ_discrete

pub data AbstractLoc : Type 0 where
  var : Context → ℕ → ℕ → ℕ → AbstractLoc
  heap : Context → AllocSite → ℕ → AbstractLoc
  global : ℕ → ℕ → AbstractLoc

unfoldable pub AbstractLoc-discrete : Discrete AbstractLoc
AbstractLoc-discrete = hlevel (ℕ_discrete, Context-discrete, AllocSite-discrete)

instance abbrev pub loc_eq : Eq AbstractLoc
loc_eq = record { dec = AbstractLoc-discrete }

pub data CiKey : Type 0 where
  var : ℕ → ℕ → ℕ → CiKey
  heap : AllocSite → ℕ → CiKey
  global : ℕ → ℕ → CiKey

pub record LocArena : Type 0 where
  pub paths : Interner (List ProjElem)
  pub locs : Interner AbstractLoc

abbrev pub empty : LocArena
empty = record { paths = Intern.empty; locs = Intern.empty }

-- Interning through one of the two tables.
abbrev pub intern_path : List ProjElem → LocArena → LocArena × ℕ
intern_path v a = let (t, id) = Intern.intern v a.paths in (record a { paths = t }, id)

abbrev pub intern_loc : AbstractLoc → LocArena → LocArena × ℕ
intern_loc l a = let (t, id) = Intern.intern l a.locs in (record a { locs = t }, id)

pub empty_path : LocArena → LocArena × ℕ
empty_path = intern_path []

unfoldable pub extend_path : ℕ → ProjElem → LocArena → Option (LocArena × ℕ)
extend_path base elem a = do v ← Intern.get a.paths base; some (intern_path (v ++ elem ∷ []) a)

pub path : LocArena → ℕ → Option (List ProjElem)
path a id = Intern.get a.paths id

pub empty_path_id : LocArena → Option ℕ
empty_path_id a = Intern.get_id a.paths []

pub var_ctx : Context → ℕ → ℕ → ℕ → LocArena → LocArena × ℕ
var_ctx ctx func base p = intern_loc (AbstractLoc.var ctx func base p)

pub var_loc : ℕ → ℕ → ℕ → LocArena → LocArena × ℕ
var_loc func base p = intern_loc (AbstractLoc.var Context.empty func base p)

pub heap_loc : AllocSite → ℕ → LocArena → LocArena × ℕ
heap_loc site p = intern_loc (AbstractLoc.heap Context.empty site p)

pub global_loc : ℕ → ℕ → LocArena → LocArena × ℕ
global_loc def_index p = intern_loc (AbstractLoc.global def_index p)

-- The path that each of the three patterns of `project` binds, and the location with another one.
abbrev pub path_of : AbstractLoc → ℕ
path_of (AbstractLoc.var ctx func base p) = p
path_of (AbstractLoc.heap ctx site p) = p
path_of (AbstractLoc.global def_index p) = p

abbrev pub with_path : AbstractLoc → ℕ → AbstractLoc
with_path (AbstractLoc.var ctx func base p) q = AbstractLoc.var ctx func base q
with_path (AbstractLoc.heap ctx site p) q = AbstractLoc.heap ctx site q
with_path (AbstractLoc.global def_index p) q = AbstractLoc.global def_index q

-- The loop of `project` over the elements of the suffix.
unfoldable pub extend_all : ℕ → List ProjElem → LocArena → Option (LocArena × ℕ)
extend_all p [] a = some (a, p)
extend_all p (e ∷ es) a = extend_path p e a >>= λ (a', p'). extend_all p' es a'

-- The source's result is always `Some`; here `none` is the panic of a bad id.
unfoldable pub project : ℕ → ℕ → LocArena → Option (LocArena × ℕ)
project id suffix a = do
  suffix_elems ← Intern.get a.paths suffix
  if suffix_elems == [] then some (a, id) else do
    l ← Intern.get a.locs id
    base_elems ← Intern.get a.paths (path_of l)
    if ltb field_depth_cap (length base_elems + length suffix_elems) then some (a, id) else do
      (a', new_path) ← extend_all (path_of l) suffix_elems a
      some (intern_loc (with_path l new_path) a')

pub loc : LocArena → ℕ → Option AbstractLoc
loc a id = Intern.get a.locs id

pub loc_count : LocArena → ℕ
loc_count a = Intern.len a.locs

pub iter_locs : LocArena → List (ℕ × AbstractLoc)
iter_locs a = Intern.iter a.locs

abbrev pub key_of : AbstractLoc → CiKey
key_of (AbstractLoc.var ctx func base p) = CiKey.var func base p
key_of (AbstractLoc.heap ctx site p) = CiKey.heap site p
key_of (AbstractLoc.global def_index p) = CiKey.global def_index p

unfoldable pub ci_key : LocArena → ℕ → Option CiKey
ci_key a id = do l ← Intern.get a.locs id; some (key_of l)

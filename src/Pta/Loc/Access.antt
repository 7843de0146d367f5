-- ===== src/Pta/Loc/Access.antt =====
-- What the ids of the arena of src/memory/pta/loc.rs stand for.
use conc_bug_dect_rust.Prelude.{
  List, [], length, list_eq, list_ord, nat_eq, nat_ord, pair_eq, pair_ord, some, ℕ, ◌++◌, ◌+◌, ◌<◌,
  ◌≡◌, ◌≢◌, ◌≤◌,
}
use conc_bug_dect_rust.Pta.Intern
use conc_bug_dect_rust.Pta.Intern.{u32_mod}
use conc_bug_dect_rust.Pta.Loc.{
  ProjElem, AbstractLoc, LocArena, field_depth_cap, path_of, with_path, elem_eq, loc_eq,
}

-- The tables are valid and every location's path is one that was handed out.
pub record IsArena (a : LocArena) : Type 0 where
  pub paths : Intern.IsValid a.paths
  pub locs : Intern.IsValid a.locs
  pub pathed :
      (id : ℕ) (l : AbstractLoc)
      → Intern.get a.locs id ≡ some l
      → (c : List ProjElem) × (Intern.get a.paths (path_of l) ≡ some c)

-- Ids fit into 32 bits.
pub record Fits (a : LocArena) : Type 0 where
  pub paths : length a.paths.items ≤ u32_mod
  pub locs : length a.locs.items ≤ u32_mod

pub record Extends (a b : LocArena) : Type 0 where
  pub paths : Intern.Extends a.paths b.paths
  pub locs : Intern.Extends a.locs b.locs

pub Extends-refl : (a : LocArena) → Extends a a
Extends-refl a = record { paths = λ id v h. h; locs = λ id v h. h }

pub Extends-trans : {a b c : LocArena} → Extends a b → Extends b c → Extends a c
Extends-trans p q = record {
  paths = λ id v h. q.paths id v (p.paths id v h);
  locs = λ id v h. q.locs id v (p.locs id v h);
}

-- The id stands for the object `root` (a location with its path erased) under the path `c`.
pub data Denotes (a : LocArena) (id : ℕ) (root : AbstractLoc) (c : List ProjElem) : Type 0 where
  at :
      (l : AbstractLoc)
      → Intern.get a.locs id ≡ some l
      → with_path l 0 ≡ root
      → Intern.get a.paths (path_of l) ≡ some c
      → Denotes a id root c

-- What a projection should give: the object under the longer path, or the object itself if the
-- suffix is empty or the path would be deeper than the cap.
pub data Projects (a : LocArena) (id suffix p : ℕ) : Type 0 where
  whole : Intern.get a.paths suffix ≡ some [] → p ≡ id → Projects a id suffix p
  capped :
      (root : AbstractLoc) (c s : List ProjElem)
      → Denotes a id root c
      → Intern.get a.paths suffix ≡ some s
      → s ≢ []
      → field_depth_cap < length c + length s
      → p ≡ id
      → Projects a id suffix p
  below :
      (root : AbstractLoc) (c s : List ProjElem)
      → Denotes a id root c
      → Intern.get a.paths suffix ≡ some s
      → s ≢ []
      → length c + length s ≤ field_depth_cap
      → Denotes a p root (c ++ s)
      → Projects a id suffix p

pub Denotes-mono :
    {a b : LocArena} {id : ℕ} {root : AbstractLoc} {c : List ProjElem}
    → Extends a b
    → Denotes a id root c
    → Denotes b id root c
Denotes-mono x (at l h r p) = at l (x.locs _ l h) r (x.paths _ _ p)

pub Projects-mono :
    {a b : LocArena} {id suffix p : ℕ}
    → Extends a b
    → Projects a id suffix p
    → Projects b id suffix p
Projects-mono x (whole h e) = whole (x.paths _ _ h) e
Projects-mono x (capped root c s d h n deep e) =
    capped root c s (Denotes-mono x d) (x.paths _ _ h) n deep e
Projects-mono x (below root c s d h n fits d') =
    below root c s (Denotes-mono x d) (x.paths _ _ h) n fits (Denotes-mono x d')

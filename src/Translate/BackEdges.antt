-- ===== src/Translate/BackEdges.antt =====
-- src/translate/mir_to_pn/cfg_utils.rs: the back edges of a body's control flow, by a search in
-- depth.
pub mod Edges
pub mod Ranks
pub mod Depth
pub mod Ranked
use conc_bug_dect_rust.Prelude.{
  List, Option, [], contains, get_elem?, if◌then◌else◌, insert, length, list_eq, list_ord, nat_eq,
  nat_ord, none, pair_eq, pair_ord, remove, some, suc, zero, ℕ, ◌++◌, ◌>>=◌, ◌∷◌,
}
use conc_bug_dect_rust.Translate.Body.Blocks.{is_excluded}
use conc_bug_dect_rust.Translate.Mir.{BlockData, Terminator, TerminatorKind}

pub record Search : Type 0 where
  pub in_stack : List ℕ
  pub visited : List ℕ
  pub back_edges : List (ℕ × ℕ)

module _ (body : List BlockData) where
  -- A missing block panics.
  keep : ℕ → Option (List ℕ)
  keep t = get_elem? body t >>= λ bb. some (if is_excluded bb then [] else t ∷ [])

  keep_all : List ℕ → Option (List ℕ)
  unfolding keep
  keep_all [] = some []
  keep_all (t ∷ ts) = do first ← keep t; rest ← keep_all ts; some (first ++ rest)

  keep_option : Option ℕ → Option (List ℕ)
  unfolding keep
  keep_option none = some []
  keep_option (some t) = keep t

  successors_of : TerminatorKind → Option (List ℕ)
  unfolding keep keep_all keep_option
  successors_of (TerminatorKind.goto target) = keep target
  successors_of (TerminatorKind.switch_int targets) = keep_all targets
  successors_of (TerminatorKind.call func args destination target unwinds) = keep_option target
  successors_of (TerminatorKind.assert target) = keep target
  successors_of (TerminatorKind.drop_ place target) = keep target
  successors_of (TerminatorKind.false_edge target) = keep target
  successors_of (TerminatorKind.false_unwind target) = keep target
  successors_of (TerminatorKind.yield_ resume) = keep resume
  successors_of (TerminatorKind.inline_asm (target ∷ _)) = keep target
  successors_of _ = some []

  unfoldable pub terminator_successors : Option Terminator → Option (List ℕ)
  unfolding successors_of
  terminator_successors none = some []
  terminator_successors (some term) = successors_of term.kind

  -- The successors of `u`: `visit` is the search from one of them.
  pub dfs_all : (ℕ → Search → Option Search) → ℕ → List ℕ → Search → Option Search
  dfs_all visit u [] s = some s
  dfs_all visit u (v ∷ vs) s =
      if contains s.in_stack v
      then dfs_all visit u vs (record s { back_edges = insert (u, v) s.back_edges })
      else if contains s.visited v
      then dfs_all visit u vs s
      else (visit v s >>= dfs_all visit u vs)

  enter : ℕ → Search → Search
  enter u s = record s { in_stack = insert u s.in_stack }

  leave : ℕ → Search → Search
  leave u s = record s { in_stack = remove u s.in_stack; visited = insert u s.visited }

  -- On fuel: `none` too when it is used up.
  pub dfs : ℕ → ℕ → Search → Option Search
  unfolding dfs_all enter leave terminator_successors
  dfs zero u s = none
  dfs (suc fuel) u s = get_elem? body u >>= λ bb.
      if is_excluded bb
      then some s
      else if contains s.visited u
      then some s
      else (terminator_successors bb.terminator >>= λ succs.
          dfs_all (dfs fuel) u succs (enter u s) >>= λ s'. some (leave u s'))

  -- The depth is at most the number of blocks.
  pub compute_back_edges : Option (List (ℕ × ℕ))
  compute_back_edges =
      dfs (suc (suc (length body))) 0 (record { in_stack = []; visited = []; back_edges = [] })
      >>= λ s. some s.back_edges

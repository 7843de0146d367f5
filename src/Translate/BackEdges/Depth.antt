-- ===== src/Translate/BackEdges/Depth.antt =====
-- How deep the search of src/translate/mir_to_pn/cfg_utils.rs can go.
use conc_bug_dect_rust.Prelude.{
  Bool-cases, List, [], ap, arith, contains, contains-insert, eq_of_==, false, get_elem?,
  if◌then◌else◌, inl, inr, insert, length, list_eq, list_ord, nat_eq, nat_ord, pair_eq, pair_ord,
  refl, some, suc, true, zero, ℕ, ◌+◌, ◌<◌, ◌==◌, ◌||◌, ◌∙◌, ◌∷◌, ◌≡◌, ◌≤◌,
}
use conc_bug_dect_rust.Translate.Mir.{BlockData}

-- The blocks of a list that are not on the stack.
pub free : List ℕ → List ℕ → ℕ
free stack [] = 0
free stack (t ∷ ts) = let rest = free stack ts in if contains stack t then rest else suc rest

pub free-le :
    (stack stack' ts : List ℕ)
    → ((a : ℕ) → contains stack a ≡ true → contains stack' a ≡ true)
    → free stack' ts ≤ free stack ts
unfolding free
free-le stack stack' [] more = omega arith
free-le stack stack' (t ∷ ts) more = ground (arith, free-le stack stack' ts more, more t)

pub free-lt :
    (u : ℕ) (stack ts : List ℕ)
    → contains ts u ≡ true
    → contains stack u ≡ false
    → free (insert u stack) ts < free stack ts
unfolding free
free-lt u stack [] h new = cc
free-lt u stack (t ∷ ts) h new = elim (Bool-cases (t == u)) [
  | inl d ↦
      let at = eq_of_== t u d in
      let c = contains-insert u stack t in
      let le =
        free-le stack (insert u stack) ts
          (λ a m. contains-insert u stack a ∙ ap (λ b. b || u == a) m) in
      ground arith
  | inr d ↦
      let c = contains-insert u stack t in
      let lt = free-lt u stack ts (ground arith) new in ground arith
]

-- The ids of blocks, from `k` on.
pub ids : ℕ → List BlockData → List ℕ
ids k [] = []
ids k (bb ∷ bbs) = k ∷ ids (k + 1) bbs

pub ids-contains :
    (k i t : ℕ) (bbs : List BlockData) {bb : BlockData}
    → k + i ≡ t
    → get_elem? bbs i ≡ some bb
    → contains (ids k bbs) t ≡ true
unfolding ids
ids-contains k i t [] at h = cc
ids-contains k zero t (b ∷ bbs) at h = ground arith
ids-contains k (suc i) t (b ∷ bbs) at h =
    let rest = ids-contains (k + 1) i t bbs (omega arith) h in ground arith

pub free_empty : (k : ℕ) (bbs : List BlockData) → free [] (ids k bbs) ≡ length bbs
unfolding free ids
free_empty k [] = refl
free_empty k (bb ∷ bbs) = omega (arith, free_empty (k + 1) bbs)

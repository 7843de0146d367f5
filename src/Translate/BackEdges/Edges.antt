-- ===== src/Translate/BackEdges/Edges.antt =====
-- The edges that src/translate/mir_to_pn/cfg_utils.rs follows, and the blocks that they lead to.
use conc_bug_dect_rust.Prelude.{
  >>=-eq-some, Bool-cases, List, Option, Option-cases, [], ap, arith, contains, contains-append,
  false, get_elem?, inl, inr, list_eq, list_ord, nat_eq, nat_ord, none, pair_eq, pair_ord, some,
  subst, sym, true, ℕ, ◌++◌, ◌∙◌, ◌∷◌, ◌≡◌,
}
use conc_bug_dect_rust.Translate.BackEdges.{
  keep, keep_all, keep_option, successors_of, terminator_successors,
}
use conc_bug_dect_rust.Translate.Body.Blocks.{is_excluded}
use conc_bug_dect_rust.Translate.Mir.{BlockData, Terminator, TerminatorKind}

module _ (body : List BlockData) where
  pub record Kept (t : ℕ) : Type 0 where
    pub block : BlockData
    pub found : get_elem? body t ≡ some block
    pub kept : is_excluded block ≡ false

  -- An edge of the control flow.
  pub record Edge (u v : ℕ) : Type 0 where
    pub block : BlockData
    pub found : get_elem? body u ≡ some block
    pub succs : List ℕ
    pub listed : terminator_successors body block.terminator ≡ some succs
    pub member : contains succs v ≡ true

  pub some_injective : {xs ys : List ℕ} → some xs ≡ some ys → xs ≡ ys
  some_injective e = cc

  keep-Kept : (t : ℕ) {l : List ℕ} → keep body t ≡ some l → (v : ℕ) → contains l v ≡ true → Kept v
  unfolding keep
  keep-Kept t {l} e v h = elim (Option-cases (get_elem? body t)) [
    | inl e' ↦ cc
    | inr (bb, found) ↦ elim (Bool-cases (is_excluded bb)) [
      | inl x ↦ let none_left : [] ≡ l = cc in cc
      | inr x ↦
          let one : t ∷ [] ≡ l = cc in
          let at : t ≡ v = ground (arith, one) in
          subst Kept at (record { block = bb; found = found; kept = x })
    ]
  ]

  keep_all-Kept :
      (ts : List ℕ) {l : List ℕ}
      → keep_all body ts ≡ some l
      → (v : ℕ) → contains l v ≡ true
      → Kept v
  unfolding keep_all
  keep_all-Kept [] e v h = let none_left : [] ≡ _ = some_injective e in cc
  keep_all-Kept (t ∷ ts) {l} e v h =
      let (first, e1, r1) = >>=-eq-some (keep body t) _ e in
      let (rest, e2, r2) = >>=-eq-some (keep_all body ts) _ r1 in
      let whole : first ++ rest ≡ l = some_injective r2 in
      elim (Bool-cases (contains first v)) [
        | inl a ↦ keep-Kept t e1 v a
        | inr a ↦ keep_all-Kept ts e2 v (ground (arith, whole, contains-append first rest v))
      ]

  successors_of-Kept :
      (k : TerminatorKind) {l : List ℕ}
      → successors_of body k ≡ some l
      → (v : ℕ) → contains l v ≡ true
      → Kept v
  unfolding successors_of keep_option
  successors_of-Kept (TerminatorKind.goto t) e v h = keep-Kept t e v h
  successors_of-Kept (TerminatorKind.switch_int ts) e v h = keep_all-Kept ts e v h
  successors_of-Kept (TerminatorKind.call _ _ _ none _) e v h = cc
  successors_of-Kept (TerminatorKind.call _ _ _ (some t) _) e v h = keep-Kept t e v h
  successors_of-Kept (TerminatorKind.assert t) e v h = keep-Kept t e v h
  successors_of-Kept (TerminatorKind.drop_ _ t) e v h = keep-Kept t e v h
  successors_of-Kept (TerminatorKind.false_edge t) e v h = keep-Kept t e v h
  successors_of-Kept (TerminatorKind.false_unwind t) e v h = keep-Kept t e v h
  successors_of-Kept (TerminatorKind.yield_ t) e v h = keep-Kept t e v h
  successors_of-Kept (TerminatorKind.inline_asm (t ∷ _)) e v h = keep-Kept t e v h
  successors_of-Kept (TerminatorKind.inline_asm []) e v h = cc
  successors_of-Kept TerminatorKind.return_ e v h = cc
  successors_of-Kept TerminatorKind.unreachable e v h = cc
  successors_of-Kept TerminatorKind.unwind_resume e v h = cc
  successors_of-Kept TerminatorKind.unwind_terminate e v h = cc
  successors_of-Kept TerminatorKind.coroutine_drop e v h = cc
  successors_of-Kept TerminatorKind.tail_call e v h = cc

  pub terminator_successors-Kept :
      (o : Option Terminator) {l : List ℕ}
      → terminator_successors body o ≡ some l
      → (v : ℕ) → contains l v ≡ true
      → Kept v
  unfolding terminator_successors
  terminator_successors-Kept none e v h = cc
  terminator_successors-Kept (some term) e v h = successors_of-Kept term.kind e v h

  -- The targets of every block are blocks of the body.
  abbrev pub Targets : Type 0
  Targets =
      (u : ℕ) (bb : BlockData)
      → get_elem? body u ≡ some bb
      → (succs : List ℕ) × (terminator_successors body bb.terminator ≡ some succs)

  pub listed :
      {u v : ℕ} (k : Kept u) (edge : Edge u v) {succs : List ℕ}
      → terminator_successors body k.block.terminator ≡ some succs
      → contains succs v ≡ true
  listed {u} {v} k edge e =
      let same : some edge.block ≡ some k.block = sym edge.found ∙ k.found in
      let at : edge.block ≡ k.block = cc in
      let lists = some_injective (
        sym edge.listed ∙ ap (λ (b : BlockData). terminator_successors body b.terminator) at ∙ e) in
      ap (λ l. contains l v) (sym lists) ∙ edge.member

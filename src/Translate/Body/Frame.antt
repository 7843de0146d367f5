-- ===== src/Translate/Body/Frame.antt =====
-- That the translation of src/translate/mir_to_pn does not panic: what a body has to be, and what
-- the state keeps, so that the lookups of a block's places succeed.
use conc_bug_dect_rust.Prelude.{
  Bool-cases, List, Option, contains, false, get_elem?, inl, inr, list_eq, list_ord, nat_eq,
  nat_ord, pair_eq, pair_ord, refl, some, true, ℕ, ◌>>=◌, ◌≡◌, ◌⊎◌,
}
use conc_bug_dect_rust.Translate.Body.{Context, BasicBlockGraph, BodyState, last_of, start_of}
use conc_bug_dect_rust.Translate.Body.Blocks.{is_excluded}
use conc_bug_dect_rust.Translate.Mir.{BlockData}

-- A block that is translated.
pub record Open (c : Context) (t : ℕ) : Type 0 where
  pub block : BlockData
  pub found : get_elem? c.body t ≡ some block
  pub kept : is_excluded block ≡ false

pub record Known (c : Context) (t : ℕ) : Type 0 where
  pub block : BlockData
  pub found : get_elem? c.body t ≡ some block

-- The translated blocks have their places, and the other ones are noted.
pub record Placed (c : Context) (g : BasicBlockGraph) (excluded : List ℕ) : Type 0 where
  pub first : (t : ℕ) → Open c t → (p : ℕ) × (start_of t g ≡ some p)
  pub last : (t : ℕ) → Open c t → (p : ℕ) × (last_of t g ≡ some p)
  pub noted :
      (t : ℕ) (bb : BlockData)
      → get_elem? c.body t ≡ some bb
      → is_excluded bb ≡ true
      → contains excluded t ≡ true

abbrev pub Ready : Context → BodyState → Type 0
Ready c s = Placed c s.bb_graph s.exclude_bb

-- The handler returns, and the places are still there.
pub data Done (c : Context) : Option BodyState → Type 0 where
  done : {s : BodyState} → Ready c s → Done c (some s)

pub data DoneWith (c : Context) {A : Type 0} : Option (BodyState × A) → Type 0 where
  done_with : {s : BodyState} {a : A} → Ready c s → DoneWith c (some (s, a))

module _ {c : Context} where
  pub Done-bind :
      {o : Option BodyState} {f : BodyState → Option BodyState}
      → Done c o
      → ((s : BodyState) → Ready c s → Done c (f s))
      → Done c (o >>= f)
  Done-bind (done {s} h) k = k s h

  pub DoneWith-bind :
      {A : Type 0} {o : Option (BodyState × A)} (f : BodyState × A → Option BodyState)
      → DoneWith c o
      → ((s : BodyState) (a : A) → Ready c s → Done c (f (s, a)))
      → Done c (o >>= f)
  DoneWith-bind f (done_with {s} {a} h) k = k s a h

  pub DoneWith-chain :
      {A B : Type 0} {o : Option (BodyState × A)} (f : BodyState × A → Option (BodyState × B))
      → DoneWith c o
      → ((s : BodyState) (a : A) → Ready c s → DoneWith c (f (s, a)))
      → DoneWith c (o >>= f)
  DoneWith-chain f (done_with {s} {a} h) k = k s a h

  pub Done-returns : {o : Option BodyState} → Done c o → (s : BodyState) × (o ≡ some s) × Ready c s
  Done-returns (done {s} h) = (s, refl, h)

  -- A known block is noted as excluded, or open.
  pub Known-Open :
      {t : ℕ} (s : BodyState) → Ready c s → Known c t → (contains s.exclude_bb t ≡ true) ⊎ Open c t
  Known-Open {t} s h k = elim (Bool-cases (is_excluded k.block)) [
    | inl e ↦ inl (h.noted t k.block k.found e)
    | inr e ↦ inr (record { block = k.block; found = k.found; kept = e })
  ]

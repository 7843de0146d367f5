-- ===== src/Pta/Loc/Laws.antt =====
-- Projection of src/memory/pta/loc.rs against the access paths that the ids stand for.
use conc_bug_dect_rust.Prelude.{
  >>=-eq-some, Bool-cases, List, [], ap, append-nil, append_assoc, arith, if◌then◌else◌, inl, inr,
  length, list_eq, list_ord, ltb, nat_eq, nat_ord, pair_eq, pair_ord, refl, some, subst, sym, ℕ,
  ◌++◌, ◌+◌, ◌>>=◌, ◌∙◌, ◌∷◌, ◌≡◌, ◌≢◌, ◌≤◌,
}
use native.Mathlib.Nat.{le_trans}
use mathlib.Core.Option.{some-injective}
use conc_bug_dect_rust.Pta.Intern
use conc_bug_dect_rust.Pta.Intern.Laws.{
  intern-Extends, length-intern-le, intern-IsValid, get-intern, get-intern_cases,
}
use conc_bug_dect_rust.Pta.Intern.{u32_mod}
use conc_bug_dect_rust.Pta.Loc.{
  ProjElem, AbstractLoc, LocArena, field_depth_cap, path_of, with_path, intern_path, intern_loc,
  extend_path, extend_all, project, elem_eq, loc_eq,
}
use conc_bug_dect_rust.Pta.Loc.Access.{
  IsArena, Fits, Extends, Extends-refl, Denotes, at, Projects, whole, capped, below, Denotes-mono,
}

pub length-extend_all-le :
    (p : ℕ) (es : List ProjElem) (a : LocArena) {b : LocArena} {q : ℕ}
    → extend_all p es a ≡ some (b, q)
    → length a.paths.items ≤ length b.paths.items
unfolding extend_all extend_path
length-extend_all-le p [] a h = ground arith
length-extend_all-le p (e ∷ es) a {b} {q} h =
    let (v, read, rest) = >>=-eq-some (extend_path p e a) (λ (a', p'). extend_all p' es a') h in
    let (w, got, made) = >>=-eq-some (Intern.get a.paths p) _ read in
    let step = length-intern-le (w ++ e ∷ []) a.paths in
    let more = length-extend_all-le v.1 es v.0 rest in ground (arith, step, more, made)

-- What extending the path `c` gives: the new arena and the id of the longer path.
record PathExtended (a : LocArena) (c : List ProjElem) (r : LocArena × ℕ) : Type 0 where
  locs : r.0.locs ≡ a.locs
  extends : Intern.Extends a.paths r.0.paths
  valid : Intern.IsValid r.0.paths
  read : Intern.get r.0.paths r.1 ≡ some c

intern_path-PathExtended :
    (a : LocArena) (c : List ProjElem)
    → Intern.IsValid a.paths
    → length (intern_path c a).0.paths.items ≤ u32_mod
    → PathExtended a c (intern_path c a)
intern_path-PathExtended a c v fits = record {
  locs = refl;
  extends = intern-Extends c a.paths;
  valid = intern-IsValid c a.paths v fits;
  read = get-intern c a.paths v fits;
}

extend_all-PathExtended :
    (p : ℕ) (es : List ProjElem) (a : LocArena) (c : List ProjElem) {r : LocArena × ℕ}
    → Intern.IsValid a.paths
    → Intern.get a.paths p ≡ some c
    → extend_all p es a ≡ some r
    → length r.0.paths.items ≤ u32_mod
    → PathExtended a (c ++ es) r
unfolding extend_all extend_path
extend_all-PathExtended p [] a c {r} v g h fits =
    subst (PathExtended a (c ++ [])) (some-injective _ _ h)
      (record { locs = refl; extends = λ id w k. k; valid = v; read = rw append-nil g })
extend_all-PathExtended p (e ∷ es) a c {r} v g h fits =
    let (m, read, rest) = >>=-eq-some (extend_path p e a) (λ (a', p'). extend_all p' es a') h in
    let (w, got, made) = >>=-eq-some (Intern.get a.paths p) _ read in
    let same : w ≡ c = some-injective _ _ (sym got ∙ g) in
    let here : intern_path (c ++ e ∷ []) a ≡ m =
      ap (λ x. intern_path (x ++ e ∷ []) a) (sym same) ∙ some-injective _ _ made in
    let grows : length m.0.paths.items ≤ length r.0.paths.items =
      length-extend_all-le m.1 es m.0 rest in
    let one = subst (PathExtended a (c ++ e ∷ [])) here (
      intern_path-PathExtended a (c ++ e ∷ []) v
        (subst (λ x. length x.0.paths.items ≤ u32_mod) (sym here) (le_trans grows fits))) in
    let more = extend_all-PathExtended m.1 es m.0 (c ++ e ∷ []) one.valid one.read rest fits in
    record {
      locs = more.locs ∙ one.locs;
      extends = λ id x k. more.extends id x (one.extends id x k);
      valid = more.valid;
      read = more.read ∙ ap some (append_assoc c (e ∷ []) es);
    }

pub intern_loc-IsArena :
    (a : LocArena) (l : AbstractLoc) (c : List ProjElem)
    → IsArena a
    → Intern.get a.paths (path_of l) ≡ some c
    → length (intern_loc l a).0.locs.items ≤ u32_mod
    → IsArena (intern_loc l a).0
intern_loc-IsArena a l c v g fits = record {
  paths = v.paths;
  locs = intern-IsValid l a.locs v.locs fits;
  pathed = λ id m h. elim (get-intern_cases l a.locs id h) [
    | inl old ↦ v.pathed id m old
    | inr same ↦ (c, ap (λ x. Intern.get a.paths (path_of x)) same ∙ g)
  ];
}

pub path_of-with_path : (l : AbstractLoc) (p : ℕ) → path_of (with_path l p) ≡ p
path_of-with_path (AbstractLoc.var ctx func base q) p = refl
path_of-with_path (AbstractLoc.heap ctx site q) p = refl
path_of-with_path (AbstractLoc.global def_index q) p = refl

pub with_path-with_path : (l : AbstractLoc) (p q : ℕ) → with_path (with_path l p) q ≡ with_path l q
with_path-with_path (AbstractLoc.var ctx func base r) p q = refl
with_path-with_path (AbstractLoc.heap ctx site r) p q = refl
with_path-with_path (AbstractLoc.global def_index r) p q = refl

intern_loc-fits : (a : LocArena) (l : AbstractLoc) → Fits (intern_loc l a).0 → Fits a
intern_loc-fits a l f = record {
  paths = f.paths;
  locs = le_trans (length-intern-le l a.locs) f.locs;
}

locs-extend_all :
    (p : ℕ) (es : List ProjElem) (a : LocArena) {r : LocArena × ℕ}
    → extend_all p es a ≡ some r
    → r.0.locs ≡ a.locs
unfolding extend_all extend_path
locs-extend_all p [] a {r} h = ap (λ t. t.0.locs) (sym (some-injective _ _ h))
locs-extend_all p (e ∷ es) a {r} h =
    let (m, read, rest) = >>=-eq-some (extend_path p e a) (λ (a', p'). extend_all p' es a') h in
    let (w, got, made) = >>=-eq-some (Intern.get a.paths p) _ read in
    locs-extend_all m.1 es m.0 rest ∙ ap (λ t. t.0.locs) (sym (some-injective _ _ made))

extend_all-fits :
    (p : ℕ) (es : List ProjElem) (a : LocArena) {r : LocArena × ℕ}
    → extend_all p es a ≡ some r
    → Fits r.0
    → Fits a
extend_all-fits p es a h f = record {
  paths = le_trans (length-extend_all-le p es a h) f.paths;
  locs = subst (λ t. length t.items ≤ u32_mod) (locs-extend_all p es a h) f.locs;
}

-- What a projection gives: the new arena and the projected id.
pub record Projected (a : LocArena) (id suffix : ℕ) (r : LocArena × ℕ) : Type 0 where
  pub valid : IsArena r.0
  pub extends : Extends a r.0
  pub result : Projects r.0 id suffix r.1

-- The last branch of `project`.
project_below :
    (a : LocArena) (id suffix : ℕ) (l : AbstractLoc) (c s : List ProjElem) (m : LocArena × ℕ)
    → IsArena a
    → Intern.get a.paths suffix ≡ some s
    → s ≢ []
    → Intern.get a.locs id ≡ some l
    → Intern.get a.paths (path_of l) ≡ some c
    → length c + length s ≤ field_depth_cap
    → extend_all (path_of l) s a ≡ some m
    → Fits (intern_loc (with_path l m.1) m.0).0
    → Projected a id suffix (intern_loc (with_path l m.1) m.0)
project_below a id suffix l c s m v got ne at_id at_path shallow ext fits =
    let x = extend_all-PathExtended (path_of l) s a c v.paths at_path ext fits.paths in
    let new = with_path l m.1 in
    let b = m.0 in
    let read : Intern.get b.paths (path_of new) ≡ some (c ++ s) =
      ap (Intern.get b.paths) (path_of-with_path l m.1) ∙ x.read in
    let b_valid : IsArena b = record {
      paths = x.valid;
      locs = subst (λ t. Intern.IsValid t) (sym x.locs) v.locs;
      pathed = λ i k h.
          let (d, old) = v.pathed i k (subst (λ t. Intern.get t i ≡ some k) x.locs h) in
          (d, x.extends _ d old);
    } in
    let keep : Intern.Extends a.locs b.locs =
      subst (Intern.Extends a.locs) (sym x.locs) (λ i k h. h) in
    let ext_ab : Extends a (intern_loc new b).0 = record {
      paths = x.extends;
      locs = λ i k h. intern-Extends new b.locs i k (keep i k h);
    } in
    record {
      valid = intern_loc-IsArena b new (c ++ s) b_valid read fits.locs;
      extends = ext_ab;
      result =
          below (with_path l 0) c s (Denotes-mono ext_ab (at l at_id refl at_path))
            (x.extends _ s got) ne shallow
            (at new (get-intern new b.locs b_valid.locs fits.locs) (with_path-with_path l m.1 0)
              read);
    }

project_whole :
    (a : LocArena) (id suffix : ℕ)
    → IsArena a
    → Projects a id suffix id
    → Projected a id suffix (a, id)
project_whole a id suffix v p = record { valid = v; extends = Extends-refl a; result = p }

-- On a valid arena, a projection that returns gives the object under the longer path (or the
-- object itself, when the suffix is empty or the depth cap is passed), keeps the arena valid and
-- keeps the meaning of every id.
pub project-Projected :
    (a : LocArena) (id suffix : ℕ) {r : LocArena × ℕ}
    → IsArena a
    → project id suffix a ≡ some r
    → Fits r.0
    → Projected a id suffix r
unfolding project
project-Projected a id suffix {r} v h fits =
    let (s, got_s, h1) = >>=-eq-some (Intern.get a.paths suffix) _ h in
    elim (list_eq.dec s []) [
      | yes is_nil ↦
          let done : (a, id) ≡ r = ground arith in
          subst (Projected a id suffix) done
            (project_whole a id suffix v (whole (got_s ∙ ap some is_nil) refl))
      | no is_cons ↦
          let h2 : (Intern.get a.locs id >>= λ l. Intern.get a.paths (path_of l) >>= λ c.
          if ltb field_depth_cap (length c + length s)
          then some (a, id)
          else (extend_all (path_of l) s a >>= λ (a', p). some (intern_loc (with_path l p) a')))
              ≡ some r =
            ground arith in
          let (l, got_l, h3) = >>=-eq-some (Intern.get a.locs id) _ h2 in
          let (c, got_c, h4) = >>=-eq-some (Intern.get a.paths (path_of l)) _ h3 in
          elim (Bool-cases (ltb field_depth_cap (length c + length s))) [
            | inl deep ↦
                let done : (a, id) ≡ r = ground arith in
                subst (Projected a id suffix) done (
                  project_whole a id suffix v (
                    capped (with_path l 0) c s (at l got_l refl got_c) got_s is_cons (ground arith)
                      refl))
            | inr shallow ↦
                let (m, ext, h5) = >>=-eq-some (extend_all (path_of l) s a) _ (rw shallow at h4) in
                let done : intern_loc (with_path l m.1) m.0 ≡ r = some-injective _ _ h5 in
                subst (Projected a id suffix) done (
                  project_below a id suffix l c s m v got_s is_cons got_l got_c (ground arith) ext
                    (subst (λ t. Fits t.0) (sym done) fits))
          ]
    ]

-- Projection only adds to the tables, so ids that fit afterwards did so before.
pub project-fits :
    (a : LocArena) (id suffix : ℕ) {r : LocArena × ℕ}
    → project id suffix a ≡ some r
    → Fits r.0
    → Fits a
unfolding project
project-fits a id suffix {r} h fits =
    let (s, got_s, h1) = >>=-eq-some (Intern.get a.paths suffix) _ h in
    elim (list_eq.dec s []) [
      | yes is_nil ↦ let done : (a, id) ≡ r = ground arith in subst (λ t. Fits t.0) (sym done) fits
      | no is_cons ↦
          let h2 : (Intern.get a.locs id >>= λ l. Intern.get a.paths (path_of l) >>= λ c.
          if ltb field_depth_cap (length c + length s)
          then some (a, id)
          else (extend_all (path_of l) s a >>= λ (a', p). some (intern_loc (with_path l p) a')))
              ≡ some r =
            ground arith in
          let (l, got_l, h3) = >>=-eq-some (Intern.get a.locs id) _ h2 in
          let (c, got_c, h4) = >>=-eq-some (Intern.get a.paths (path_of l)) _ h3 in
          elim (Bool-cases (ltb field_depth_cap (length c + length s))) [
            | inl deep ↦
                let done : (a, id) ≡ r = ground arith in subst (λ t. Fits t.0) (sym done) fits
            | inr shallow ↦
                let (m, ext, h5) = >>=-eq-some (extend_all (path_of l) s a) _ (rw shallow at h4) in
                let done : intern_loc (with_path l m.1) m.0 ≡ r = some-injective _ _ h5 in
                let after = subst (λ t. Fits t.0) (sym done) fits in
                extend_all-fits (path_of l) s a ext (intern_loc-fits m.0 (with_path l m.1) after)
          ]
    ]

with_path-path_of : (l : AbstractLoc) → with_path (with_path l 0) (path_of l) ≡ l
with_path-path_of (AbstractLoc.var ctx func base p) = refl
with_path-path_of (AbstractLoc.heap ctx site p) = refl
with_path-path_of (AbstractLoc.global def_index p) = refl

-- An id stands for one object and one path.
pub Denotes-unique :
    {a : LocArena} {id : ℕ} {r r' : AbstractLoc} {c c' : List ProjElem}
    → Denotes a id r c
    → Denotes a id r' c'
    → (r ≡ r') × (c ≡ c')
Denotes-unique {a} (at l h e p) (at l' h' e' p') =
    let same : l ≡ l' = some-injective _ _ (sym h ∙ h') in
    (
      sym e ∙ ap (λ x. with_path x 0) same ∙ e',
      some-injective _ _ (sym p ∙ ap (λ x. Intern.get a.paths (path_of x)) same ∙ p'),
    )

-- On a valid arena a location whose access has an id is interned under that id.
pub Denotes-known :
    {a : LocArena} {q : ℕ} {c : List ProjElem} (l : AbstractLoc)
    → IsArena a
    → Intern.get a.paths (path_of l) ≡ some c
    → Denotes a q (with_path l 0) c
    → Intern.get_id a.locs l ≡ some q
Denotes-known {a} l v x (at l' h e x') =
    let paths : path_of l' ≡ path_of l =
      some-injective _ _ (sym (v.paths.known _ _ x') ∙ v.paths.known _ _ x) in
    let same : l' ≡ l =
      sym (with_path-path_of l')
      ∙ ap (λ y. with_path y (path_of l')) e
      ∙ ap (with_path (with_path l 0)) paths
      ∙ with_path-path_of l in
    ap (Intern.get_id a.locs) (sym same) ∙ v.locs.known _ _ h

-- On a valid arena two ids that stand for the same access are one.
pub Denotes-injective :
    {a : LocArena} {p q : ℕ} {r : AbstractLoc} {c : List ProjElem}
    → IsArena a
    → Denotes a p r c
    → Denotes a q r c
    → p ≡ q
Denotes-injective {a} {q = q} {c = c} v (at l h e x) d =
    some-injective _ _
      (sym (v.locs.known _ _ h) ∙ Denotes-known l v x (subst (λ y. Denotes a q y c) (sym e) d))

-- Projection is a function of the id and the suffix.
pub Projects-unique :
    {a : LocArena} {id suffix p q : ℕ}
    → IsArena a
    → Projects a id suffix p
    → Projects a id suffix q
    → p ≡ q
Projects-unique v (whole h e) (whole h' e') = e ∙ sym e'
Projects-unique v (whole h e) (capped r c s d h' n deep e') = e ∙ sym e'
Projects-unique v (whole h e) (below r c s d h' n fits d') =
    absurd (n (some-injective _ _ (sym h' ∙ h)))
Projects-unique v (capped r c s d h n deep e) (whole h' e') = e ∙ sym e'
Projects-unique v (capped r c s d h n deep e) (capped r' c' s' d' h' n' deep' e') = e ∙ sym e'
Projects-unique v (capped r c s d h n deep e) (below r' c' s' d' h' n' fits x) =
    let same : s ≡ s' = some-injective _ _ (sym h ∙ h') in
    let (_, path) = Denotes-unique d d' in absurd (omega (arith, ap length same, ap length path))
Projects-unique v (below r c s d h n fits x) (whole h' e') =
    absurd (n (some-injective _ _ (sym h ∙ h')))
Projects-unique v (below r c s d h n fits x) (capped r' c' s' d' h' n' deep' e') =
    let same : s ≡ s' = some-injective _ _ (sym h ∙ h') in
    let (_, path) = Denotes-unique d d' in absurd (omega (arith, ap length same, ap length path))
Projects-unique {a} {p = p} {q = q} v (below r c s d h n fits x)
      (below r' c' s' d' h' n' fits' x') =
    let same : s ≡ s' = some-injective _ _ (sym h ∙ h') in
    let (root, path) = Denotes-unique d d' in
    Denotes-injective v (subst (λ y. Denotes a p y (c ++ s)) root x)
      (subst (λ y. Denotes a q r' y) (ap (λ z. z ++ s') (sym path) ∙ ap (◌++◌ c) (sym same)) x')

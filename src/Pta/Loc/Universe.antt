-- ===== src/Pta/Loc/Universe.antt =====
-- A bound on the arena of src/memory/pta/loc.rs: projection stays inside a finite set of accesses
-- that is closed under the suffixes in use, so that it always returns.
use conc_bug_dect_rust.Prelude.{
  Bool-cases, Eq, List, Option-cases, [], ap, append-nil, append_assoc, arith, contains,
  contains-remove, eq_of_==, get_elem?_total, inl, inr, length, length-append, length-remove-lt,
  list_eq, list_ord, ltb, nat_eq, nat_ord, pair_eq, pair_ord, pigeonhole, refl, remove, some, subst,
  sym, true, ℕ, ◌++◌, ◌+◌, ◌<◌, ◌==◌, ◌∙◌, ◌∷◌, ◌≡◌, ◌≤◌,
}
use native.Mathlib.Nat.{le_trans}
use mathlib.Core.Option.{some-injective}
use conc_bug_dect_rust.Pta.Intern
use conc_bug_dect_rust.Pta.Intern.{u32_mod}
use conc_bug_dect_rust.Pta.Intern.Laws.{
  intern-Extends, intern-IsValid, get-intern, get-intern_cases, intern_new, intern_old,
}
use conc_bug_dect_rust.Pta.Loc.{
  ProjElem, AbstractLoc, LocArena, field_depth_cap, path_of, with_path, intern_path, intern_loc,
  extend_path, extend_all, project, elem_eq, loc_eq,
}
use conc_bug_dect_rust.Pta.Loc.Access.{IsArena, Fits, Denotes, at}
use conc_bug_dect_rust.Pta.Loc.Laws.{
  Denotes-injective, Denotes-known, intern_loc-IsArena, path_of-with_path, with_path-with_path,
}

-- Interned values that all lie in a list are no more than it has members, and a new one that lies
-- there too is one less.
pub length-le_of_inside {ℓ} :
    {A : Type ℓ} ⦃e : Eq A⦄ (i : Intern.Interner A) (xs : List A)
    → Intern.IsValid i
    → ((id : ℕ) (v : A) → Intern.get i id ≡ some v → contains xs v ≡ true)
    → length i.items ≤ length xs
length-le_of_inside i xs v inside =
    pigeonhole (length i.items) xs (λ k h. (get_elem?_total i.items k h).0)
      (λ k h. inside k _ (read k h))
      (λ j k h h' e.
        some-injective _ _
          (sym (v.known _ j (read j h)) ∙ ap (Intern.get_id i) e ∙ v.known _ k (read k h')))
  where
    read : (k : ℕ) (h : k < length i.items) → Intern.get i k ≡ some (get_elem?_total i.items k h).0
    read k h = unfold Intern.get in (get_elem?_total i.items k h).1

pub intern-fits {ℓ} :
    {A : Type ℓ} ⦃e : Eq A⦄ (i : Intern.Interner A) (xs : List A) (a : A)
    → Intern.IsValid i
    → ((id : ℕ) (v : A) → Intern.get i id ≡ some v → contains xs v ≡ true)
    → contains xs a ≡ true
    → length (Intern.intern a i).0.items ≤ length xs
intern-fits i xs a v inside here = elim (Option-cases (Intern.get_id i a)) [
  | inl new ↦
      let room : length i.items ≤ length (remove a xs) =
        length-le_of_inside i (remove a xs) v (λ id w g. ground (
          arith,
          contains-remove a xs w,
          inside id w g,
          v.known w id g,
          λ (q : a ≡ w). ap (Intern.get_id i) q,
        )) in
      rw (intern_new a i new)
        (omega (arith, length-append i.items (a ∷ []), length-remove-lt a xs here))
  | inr (id, old) ↦ rw (intern_old a i old) (length-le_of_inside i xs v inside)
]

-- An object under a path.
abbrev pub Access : Type 0
Access = AbstractLoc × List ProjElem

-- The accesses that the ids of an arena stand for are different, so they are no more than any list
-- that holds them all.
access : (a : LocArena) → IsArena a → (id : ℕ) → id < length a.locs.items → Access
unfolding Intern.get
access a v id h =
    let (l, g) = get_elem?_total a.locs.items id h in (with_path l 0, (v.pathed id l g).0)

access-Denotes :
    (a : LocArena) (v : IsArena a) (id : ℕ) (h : id < length a.locs.items)
    → Denotes a id (access a v id h).0 (access a v id h).1
unfolding access Intern.get
access-Denotes a v id h =
    let (l, g) = get_elem?_total a.locs.items id h in at l g refl (v.pathed id l g).1

pub length-locs-le :
    (a : LocArena) (xs : List Access)
    → IsArena a
    → ((id : ℕ) (r : AbstractLoc) (c : List ProjElem)
        → Denotes a id r c
        → contains xs (r, c) ≡ true)
    → length a.locs.items ≤ length xs
length-locs-le a xs v inside =
    pigeonhole (length a.locs.items) xs (access a v)
      (λ i h. inside i (access a v i h).0 (access a v i h).1 (access-Denotes a v i h))
      (λ i j h h' e.
        Denotes-injective v (access-Denotes a v i h)
          (subst (λ x. Denotes a j x.0 x.1) (sym e) (access-Denotes a v j h')))

module _ (accesses : List Access) (walked : List (List ProjElem)) where
  -- Every id stands for a listed access, and every path is listed.
  pub record IsInside (a : LocArena) : Type 0 where
    pub arena : IsArena a
    pub objects :
        (id : ℕ) (r : AbstractLoc) (c : List ProjElem)
        → Denotes a id r c
        → contains accesses (r, c) ≡ true
    pub paths :
        (id : ℕ) (c : List ProjElem) → Intern.get a.paths id ≡ some c → contains walked c ≡ true

  -- The paths on the way from `c` along `es` are listed.
  abbrev pub Walks : List ProjElem → List ProjElem → Type 0
  Walks c [] = Unit {0}
  Walks c (e ∷ es) = (contains walked (c ++ e ∷ []) ≡ true) × Walks (c ++ e ∷ []) es

  -- The lists are closed under the suffixes, up to the depth cap, and short enough for 32-bit ids.
  pub record IsUniverse (suffixes : List (List ProjElem)) : Type 0 where
    pub longer :
        (r : AbstractLoc) (c s : List ProjElem)
        → contains accesses (r, c) ≡ true
        → contains suffixes s ≡ true
        → length c + length s ≤ field_depth_cap
        → (contains accesses (r, c ++ s) ≡ true) × Walks c s
    pub few_accesses : length accesses ≤ u32_mod
    pub few_paths : length walked ≤ u32_mod

  pub IsInside-Fits :
      {suffixes : List (List ProjElem)} (a : LocArena) → IsUniverse suffixes → IsInside a → Fits a
  IsInside-Fits a u v = record {
    paths = le_trans (length-le_of_inside a.paths walked v.arena.paths v.paths) u.few_paths;
    locs = le_trans (length-locs-le a accesses v.arena v.objects) u.few_accesses;
  }

  -- Interning a listed path keeps the arena inside.
  pub record Walked (a : LocArena) (c : List ProjElem) (r : LocArena × ℕ) : Type 0 where
    pub inside : IsInside r.0
    pub read : Intern.get r.0.paths r.1 ≡ some c
    pub locs : r.0.locs ≡ a.locs

  pub intern_path-Walked :
      (a : LocArena) (c : List ProjElem)
      → length walked ≤ u32_mod
      → IsInside a
      → contains walked c ≡ true
      → Walked a c (intern_path c a)
  intern_path-Walked a c few v here =
      let fits = le_trans (intern-fits a.paths walked c v.arena.paths v.paths here) few in
      let valid = intern-IsValid c a.paths v.arena.paths fits in
      let kept = intern-Extends c a.paths in
      record {
        inside = record {
          arena = record {
            paths = valid;
            locs = v.arena.locs;
            pathed = λ id l h. let (d, g) = v.arena.pathed id l h in (d, kept _ d g);
          };
          objects = λ id r d x. elim x [
            | at l h e g ↦
                let (d', g') = v.arena.pathed id l h in
                let same : d' ≡ d = some-injective _ _ (sym (kept _ d' g') ∙ g) in
                v.objects id r d (at l h e (g' ∙ ap some same))
          ];
          paths = λ id d g. elim (get-intern_cases c a.paths id g) [
            | inl old ↦ v.paths id d old
            | inr new ↦ subst (λ y. contains walked y ≡ true) (sym new) here
          ];
        };
        read = get-intern c a.paths v.arena.paths fits;
        locs = refl;
      }

  extend_all-Walked :
      (p : ℕ) (es : List ProjElem) (a : LocArena) (c : List ProjElem)
      → length walked ≤ u32_mod
      → IsInside a
      → Intern.get a.paths p ≡ some c
      → Walks c es
      → (r : LocArena × ℕ) × (extend_all p es a ≡ some r) × Walked a (c ++ es) r
  unfolding extend_all extend_path
  extend_all-Walked p [] a c few v g w =
      ((a, p), refl, record { inside = v; read = rw append-nil g; locs = refl })
  extend_all-Walked p (e ∷ es) a c few v g (here, w) =
      let one = intern_path-Walked a (c ++ e ∷ []) few v here in
      let m = intern_path (c ++ e ∷ []) a in
      let (r, run, end) = extend_all-Walked m.1 es m.0 (c ++ e ∷ []) few one.inside one.read w in
      (
        r,
        rw g run,
        record {
          inside = end.inside;
          read = end.read ∙ ap some (append_assoc c (e ∷ []) es);
          locs = end.locs ∙ one.locs;
        },
      )

  -- So does interning a location whose access is listed.
  intern_loc-fits :
      (a : LocArena) (l : AbstractLoc) (c : List ProjElem)
      → IsInside a
      → Intern.get a.paths (path_of l) ≡ some c
      → contains accesses (with_path l 0, c) ≡ true
      → length (intern_loc l a).0.locs.items ≤ length accesses
  intern_loc-fits a l c v g here = elim (Option-cases (Intern.get_id a.locs l)) [
    | inl new ↦
        let x : Access = (with_path l 0, c) in
        let room : length a.locs.items ≤ length (remove x accesses) =
          length-locs-le a (remove x accesses) v.arena (λ id r d k.
            elim (Bool-cases (x == (r, d))) [
              | inl same ↦
                  let e : x ≡ (r, d) = eq_of_== x (r, d) same in
                  absurd (
                    ground (
                      arith,
                      Denotes-known l v.arena g (subst (λ y. Denotes a id y.0 y.1) (sym e) k),
                    ))
              | inr ne ↦ ground (arith, contains-remove x accesses (r, d), v.objects id r d k)
            ]) in
        rw (intern_new l a.locs new)
          (omega (arith, length-append a.locs.items (l ∷ []), length-remove-lt x accesses here))
    | inr (id, old) ↦ rw (intern_old l a.locs old) (length-locs-le a accesses v.arena v.objects)
  ]

  pub intern_loc-IsInside :
      {suffixes : List (List ProjElem)} (a : LocArena) (l : AbstractLoc) (c : List ProjElem)
      → IsUniverse suffixes
      → IsInside a
      → Intern.get a.paths (path_of l) ≡ some c
      → contains accesses (with_path l 0, c) ≡ true
      → IsInside (intern_loc l a).0
        × (Intern.get (intern_loc l a).0.locs (intern_loc l a).1 ≡ some l)
  intern_loc-IsInside a l c u v g here =
      let fits = le_trans (intern_loc-fits a l c v g here) u.few_accesses in
      (
        record {
          arena = intern_loc-IsArena a l c v.arena g fits;
          objects = λ id r d x. elim x [
            | at l' h e p ↦ elim (get-intern_cases l a.locs id h) [
              | inl old ↦ v.objects id r d (at l' old e p)
              | inr same ↦
                  let root : with_path l 0 ≡ r = ap (λ y. with_path y 0) (sym same) ∙ e in
                  let path : c ≡ d =
                    some-injective _ _
                      (sym g ∙ ap (λ y. Intern.get a.paths (path_of y)) (sym same) ∙ p) in
                  subst (λ y. contains accesses (r, y) ≡ true) path
                    (subst (λ y. contains accesses (y, c) ≡ true) root here)
            ]
          ];
          paths = v.paths;
        },
        get-intern l a.locs v.arena.locs fits,
      )

  -- On an arena inside the universe, projecting a known location by one of its suffixes returns,
  -- stays inside, and gives a known location.
  pub project_returns :
      {suffixes : List (List ProjElem)} (a : LocArena) (id suffix : ℕ) (l : AbstractLoc)
      (s : List ProjElem)
      → IsUniverse suffixes
      → IsInside a
      → Intern.get a.locs id ≡ some l
      → Intern.get a.paths suffix ≡ some s
      → contains suffixes s ≡ true
      → (r : LocArena × ℕ) × (project id suffix a ≡ some r)
        × IsInside r.0
        × (m : AbstractLoc) × (Intern.get r.0.locs r.1 ≡ some m)
  unfolding project
  project_returns a id suffix l s u v h g k =
      let (c, p) = v.arena.pathed id l h in
      elim (list_eq.dec s []) [
        | yes is_nil ↦ ((a, id), ground arith, v, l, h)
        | no is_cons ↦ elim (Bool-cases (ltb field_depth_cap (length c + length s))) [
          | inl deep ↦ ((a, id), ground arith, v, l, h)
          | inr shallow ↦
              let (here, walk) =
                u.longer (with_path l 0) c s (v.objects id (with_path l 0) c (at l h refl p)) k
                  (ground arith) in
              let (r, run, end) = extend_all-Walked (path_of l) s a c u.few_paths v p walk in
              let new = with_path l r.1 in
              let read : Intern.get r.0.paths (path_of new) ≡ some (c ++ s) =
                ap (Intern.get r.0.paths) (path_of-with_path l r.1) ∙ end.read in
              let root : with_path new 0 ≡ with_path l 0 = with_path-with_path l r.1 0 in
              let (inside, known) =
                intern_loc-IsInside r.0 new (c ++ s) u end.inside read
                  (subst (λ y. contains accesses (y, c ++ s) ≡ true) (sym root) here) in
              (intern_loc new r.0, ground (arith, run), inside, new, known)
        ]
      ]

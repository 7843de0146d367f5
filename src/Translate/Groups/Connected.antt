-- ===== src/Translate/Groups/Connected.antt =====
-- The groups of the keys: what the union and find of src/translate/petri_net.rs computes.
use conc_bug_dect_rust.Prelude.{
  ==_refl, Bool, Bool-cases, Eq, List, [], ap, arith, contains, eq_of_==, inl, inr, list_eq,
  list_ord, lookup, lookup-put, nat_eq, nat_ord, pair_eq, pair_ord, put, refl, some, subst, sym,
  true, ◌==◌, ◌↔◌, ◌∙◌, ◌∷◌, ◌≡◌, ◌⊎◌,
}
use conc_bug_dect_rust.Translate.Groups.{find_of, unite_with, unite_all, singletons}
use conc_bug_dect_rust.Translate.Groups.Forest.{
  Forest, Forest-find, United, some_inj, find_of-key, unite-United, own-Forest, own-find,
}

module _ {K : Type 0} ⦃e : Eq K⦄ where
  -- `a` stands before `b`.
  pub data Before : List K → K → K → Type 0 where
    first : {x y : K} {xs : List K} → contains xs y ≡ true → Before (x ∷ xs) x y
    later : {x a b : K} {xs : List K} → Before xs a b → Before (x ∷ xs) a b

  -- The keys that are connected by pairs which may alias, one key before the other.
  pub data Linked (may_alias : K → K → Bool) (xs : List K) : K → K → Type 0 where
    pair : {a b : K} → Before xs a b → may_alias a b ≡ true → Linked may_alias xs a b
    same : {a : K} → Linked may_alias xs a a
    flip : {a b : K} → Linked may_alias xs a b → Linked may_alias xs b a
    via : {a b d : K} → Linked may_alias xs a b → Linked may_alias xs b d → Linked may_alias xs a d

  -- The two keys have one root.
  abbrev pub Together : List (K × K) → K → K → Type 0
  Together m a b = (r : K) × (find_of m a ≡ some r) × (find_of m b ≡ some r)

  Before-contains :
      {xs : List K} {a b : K} → Before xs a b → (contains xs a ≡ true) × (contains xs b ≡ true)
  Before-contains (first {x} {y} {xs} h) = (ground (arith, ==_refl x), ground arith)
  Before-contains (later {x} {a} {b} {xs} h) =
      let (ha, hb) = Before-contains h in (ground arith, ground arith)

  module _ (may_alias : K → K → Bool) (xs : List K) where
    record Grouped (m : List (K × K)) : Type 0 where
      forest : Forest m
      keys : (z : K) → contains xs z ≡ true → (v : K) × (lookup z m ≡ some v)
      sound : (z r : K) → find_of m z ≡ some r → Linked may_alias xs z r

    -- What is reached from `m`: nothing is taken apart.
    record After (m m' : List (K × K)) : Type 0 where
      grouped : Grouped m'
      kept : (a b : K) → Together m a b → Together m' a b

    United-After :
        (x y : K) {m m' : List (K × K)}
        → Before xs x y
        → may_alias x y ≡ true
        → Grouped m
        → United x y m m'
        → After m m' × Together m' x y
    United-After x y {m} {m'} before alias g u =
        let (hx, hy) = Before-contains before in
        let (v, kx) = g.keys x hx in
        let (w, ky) = g.keys y hy in
        let (rx, _, _, ex) = Forest-find g.forest x kx in
        let (ry, _, _, ey) = Forest-find g.forest y ky in
        (
          record {
            grouped = record {
              forest = u.forest;
              keys = λ z h. u.keys z (g.keys z h).1;
              sound = λ z r h. linked_after z r h;
            };
            kept = λ a b t. (u.move t.0, u.moves a t.0 t.1, u.moves b t.0 t.2);
          },
          (u.move rx, u.moves x rx ex, u.moves y ry ey ∙ ap some (sym (u.together rx ry ex ey))),
        )
      where
        -- A root that moves is that of `y`, and moves to that of `x`.
        moved_linked : (t : K) → Linked may_alias xs t (u.move t)
        moved_linked t = elim (u.near t) [
          | inl same_root ↦ rw same_root same
          | inr (ey, ex) ↦
              via (flip (g.sound y t ey)) (via (flip (pair before alias)) (g.sound x (u.move t) ex))
        ]

        linked_after : (z r : K) → find_of m' z ≡ some r → Linked may_alias xs z r
        linked_after z r h =
            let (v, k') = find_of-key m' z h in
            let (v0, k0) = u.old z k' in
            let (r0, _, _, e0) = Forest-find g.forest z k0 in
            let at : u.move r0 ≡ r = some_inj (sym (u.moves z r0 e0) ∙ h) in
            via (g.sound z r0 e0) (rw (← at) (moved_linked r0))

    -- The pairs of `x` with the keys of `ys` that may alias are joined.
    unite_with-After :
        (x : K) (ys : List K) (m : List (K × K))
        → ((y : K) → contains ys y ≡ true → Before xs x y)
        → Grouped m
        → (m' : List (K × K)) × (unite_with may_alias x ys m ≡ some m')
          × After m m'
          × ((y : K) → contains ys y ≡ true → may_alias x y ≡ true → Together m' x y)
    unfolding unite_with
    unite_with-After x [] m before g =
        (m, refl, record { grouped = g; kept = λ a b t. t }, λ y h alias. cc)
    unite_with-After x (y ∷ ys) m before g = elim (Bool-cases (may_alias x y)) [
      | inr no_alias ↦
          let (m', eq, after, joined) =
            unite_with-After x ys m (λ z h. before z (ground arith)) g in
          (
            m',
            rw (no_alias, unite_with) eq,
            after,
            λ z h alias. elim (Bool-cases (y == z)) [
              | inl same_key ↦ let e' = eq_of_== y z same_key in absurd (cc)
              | inr apart ↦ joined z (ground arith) alias
            ],
          )
      | inl alias ↦
          let here = before y (ground (arith, ==_refl y)) in
          let (hx, hy) = Before-contains here in
          let (m1, e1, u) = unite-United x y m g.forest (g.keys x hx).1 (g.keys y hy).1 in
          let (after1, together1) = United-After x y here alias g u in
          let (m', eq, after, joined) =
            unite_with-After x ys m1 (λ z h. before z (ground arith)) after1.grouped in
          (
            m',
            rw (alias, unite_with, e1) eq,
            record { grouped = after.grouped; kept = λ a b t. after.kept a b (after1.kept a b t) },
            λ z h alias'. elim (Bool-cases (y == z)) [
              | inl same_key ↦
                  subst (Together m' x) (eq_of_== y z same_key) (after.kept x y together1)
              | inr apart ↦ joined z (ground arith) alias'
            ],
          )
    ]

    unite_all-After :
        (zs : List K) (m : List (K × K))
        → ((a b : K) → Before zs a b → Before xs a b)
        → Grouped m
        → (m' : List (K × K)) × (unite_all may_alias zs m ≡ some m')
          × After m m'
          × ((a b : K) → Before zs a b → may_alias a b ≡ true → Together m' a b)
    unfolding unite_all
    unite_all-After [] m before g =
        (m, refl, record { grouped = g; kept = λ a b t. t }, λ a b h alias. elim h [ ])
    unite_all-After (z ∷ zs) m before g =
        let (m1, e1, after1, joined1) = unite_with-After z zs m (λ y h. before z y (first h)) g in
        let (m', eq, after, joined) =
          unite_all-After zs m1 (λ a b h. before a b (later h)) after1.grouped in
        (
          m',
          rw (e1, unite_all) eq,
          record { grouped = after.grouped; kept = λ a b t. after.kept a b (after1.kept a b t) },
          λ a b h alias.
              joined_before m' a b h alias (λ y hy al. after.kept z y (joined1 y hy al)) joined,
        )
      where
        joined_before :
            {z : K} {zs : List K} (m' : List (K × K)) (a b : K)
            → Before (z ∷ zs) a b
            → may_alias a b ≡ true
            → ((y : K) → contains zs y ≡ true → may_alias z y ≡ true → Together m' z y)
            → ((a b : K) → Before zs a b → may_alias a b ≡ true → Together m' a b)
            → Together m' a b
        joined_before m' a b (first h) alias now later_on = now b h alias
        joined_before m' a b (later h) alias now later_on = later_on a b h alias

  -- At the start every key is its own root.
  singletons-own :
      (xs : List K) (m : List (K × K))
      → ((z v : K) → lookup z m ≡ some v → v ≡ z)
      → (z v : K) → lookup z (singletons xs m) ≡ some v
      → v ≡ z
  unfolding singletons
  singletons-own [] m own z v h = own z v h
  singletons-own (x ∷ xs) m own z v h =
      singletons-own xs (put x x m) (λ z v h. put_own x m own z v h) z v h
    where
      put_own :
          (x : K) (m : List (K × K))
          → ((z v : K) → lookup z m ≡ some v → v ≡ z)
          → (z v : K) → lookup z (put x x m) ≡ some v
          → v ≡ z
      put_own x m own z v h = elim (Bool-cases (x == z)) [
        | inl d ↦
            let e' = lookup-put x z x m in
            let same_key = eq_of_== x z d in ground (arith, e', own z v)
        | inr d ↦ let e' = lookup-put x z x m in own z v (ground (arith, e'))
      ]

  singletons-keys :
      (xs : List K) (m : List (K × K)) (z : K)
      → (contains xs z ≡ true) ⊎ ((v : K) × (lookup z m ≡ some v))
      → (v : K) × (lookup z (singletons xs m) ≡ some v)
  unfolding singletons
  singletons-keys [] m z (inl h) = cc
  singletons-keys [] m z (inr k) = k
  singletons-keys (x ∷ xs) m z h = singletons-keys xs (put x x m) z (key_now x xs m z h)
    where
      key_now :
          (x : K) (xs : List K) (m : List (K × K)) (z : K)
          → (contains (x ∷ xs) z ≡ true) ⊎ ((v : K) × (lookup z m ≡ some v))
          → (contains xs z ≡ true) ⊎ ((v : K) × (lookup z (put x x m) ≡ some v))
      key_now x xs m z h = elim (Bool-cases (x == z)) [
        | inl d ↦ inr (x, rw (lookup-put x z x m, d) refl)
        | inr d ↦ elim h [
          | inl h' ↦ inl (ground arith)
          | inr (v, k) ↦ inr (v, rw (lookup-put x z x m, d) k)
        ]
      ]

  lookup-nil : (z v : K) → lookup {V = K} z [] ≡ some v → v ≡ z
  unfolding lookup
  lookup-nil z v h = cc

  start-Grouped : (may_alias : K → K → Bool) (xs : List K) → Grouped may_alias xs (singletons xs [])
  start-Grouped may_alias xs =
      let own = singletons-own xs [] lookup-nil in
      let f = own-Forest (singletons xs []) own in
      record {
        forest = f;
        keys = λ z h. singletons-keys xs [] z (inl h);
        sound = λ z r h. rw (own-find (singletons xs []) z own h) same;
      }

  Together-via : (m : List (K × K)) (a b d : K) → Together m a b → Together m b d → Together m a d
  Together-via m a b d (r, ha, hb) (r', hb', hd) =
      let same_root : r ≡ r' = some_inj (sym hb ∙ hb') in (r', ha ∙ ap some same_root, hd)

  Linked-Together :
      {may_alias : K → K → Bool} {xs : List K} (m : List (K × K)) {a b : K}
      → ((a b : K) → Before xs a b → may_alias a b ≡ true → Together m a b)
      → Linked may_alias xs a b
      → Together m a b ⊎ (a ≡ b)
  Linked-Together m joined (pair {a} {b} before alias) = inl (joined a b before alias)
  Linked-Together m joined same = inr refl
  Linked-Together m joined (flip l) = elim (Linked-Together m joined l) [
    | inl (r, ha, hb) ↦ inl (r, hb, ha)
    | inr e ↦ inr (sym e)
  ]
  Linked-Together m joined (via {a} {b} {d} l l') = elim (Linked-Together m joined l) [
    | inr e ↦ rw e (Linked-Together m joined l')
    | inl t ↦ elim (Linked-Together m joined l') [
      | inl t' ↦ inl (Together-via m a b d t t')
      | inr e ↦ inl (subst (Together m a) e t)
    ]
  ]

  -- Uniting all pairs of keys that may alias returns, and two of the keys have one root then exactly
  -- when they are connected by such pairs.
  pub unite_all-Linked :
      (may_alias : K → K → Bool) (xs : List K)
      → (m : List (K × K)) × (unite_all may_alias xs (singletons xs []) ≡ some m)
        × ((a b : K)
            → contains xs a ≡ true
            → contains xs b ≡ true
            → Together m a b ↔ Linked may_alias xs a b)
  unite_all-Linked may_alias xs =
      let (m, eq, after, joined) =
        unite_all-After may_alias xs xs (singletons xs []) (λ a b h. h)
          (start-Grouped may_alias xs) in
      let g = after.grouped in
      (
        m,
        eq,
        λ a b ha hb. (
          λ t. via (g.sound a t.0 t.1) (flip (g.sound b t.0 t.2)),
          λ l. elim (Linked-Together m joined l) [
            | inl t ↦ t
            | inr e ↦
                let (v, k) = g.keys a ha in
                let (r, _, _, found) = Forest-find g.forest a k in
                (r, found, ap (find_of m) (sym e) ∙ found)
          ],
        ),
      )

-- ===== src/Translate/Groups/Forest.antt =====
-- The parents form a forest, so that finding a root ends; uniting two trees keeps the other roots.
use conc_bug_dect_rust.Prelude.{
  ==_refl, Bool-cases, Eq, List, Option-cases, [], ap, arith, eq_of_==, false, if◌then◌else◌, inl,
  inr, length, list_eq, list_ord, lookup, lookup-put, lookup-put_same, nat_eq, nat_ord, pair_eq,
  pair_ord, put, refl, some, suc, sym, zero, ℕ, ◌+◌, ◌<◌, ◌==◌, ◌∙◌, ◌∷◌, ◌≡◌, ◌≤◌, ◌⊎◌,
}
use conc_bug_dect_rust.Translate.Groups.{find_of, find_root, unite}

-- From `x` the root `r` is reached in `n` steps.
pub data Leads {K : Type 0} ⦃e : Eq K⦄ (m : List (K × K)) : ℕ → K → K → Type 0 where
  at_root : {x : K} → lookup x m ≡ some x → Leads m 0 x x
  up :
      {n : ℕ} {x p r : K}
      → lookup x m ≡ some p
      → (p == x) ≡ false
      → Leads m n p r
      → Leads m (suc n) x r

module _ {K : Type 0} ⦃e : Eq K⦄ where
  pub roots : List (K × K) → ℕ
  roots [] = 0
  roots ((k, v) ∷ m) = let rest = roots m in if v == k then suc rest else rest

  -- Every key leads to a root, in fewer steps than there are keys.
  pub record Forest (m : List (K × K)) : Type 0 where
    pub rooted :
        (x : K) {v : K}
        → lookup x m ≡ some v
        → (r : K) × (n : ℕ) × Leads m n x r × (n + roots m ≤ length m)

  pub Leads-root : {m : List (K × K)} {n : ℕ} {x r : K} → Leads m n x r → lookup r m ≡ some r
  Leads-root (at_root h) = h
  Leads-root (up h ne l) = Leads-root l

  roots-pos : (x : K) (m : List (K × K)) → lookup x m ≡ some x → 0 < roots m
  unfolding roots lookup
  roots-pos x [] h = cc
  roots-pos x ((k, v) ∷ m) h = ground (arith, roots-pos x m)

  find_root-Leads :
      (fuel : ℕ) {m : List (K × K)} {n : ℕ} {x r : K}
      → Leads m n x r
      → n < fuel
      → find_root fuel m x ≡ some r
  unfolding find_root
  find_root-Leads zero l h = absurd (omega arith)
  find_root-Leads (suc fuel) (at_root {x} e) h = rw (e, find_root, ==_refl x) refl
  find_root-Leads (suc fuel) (up e ne l) h =
      rw (e, find_root, ne) (find_root-Leads fuel l (omega arith))

  pub find_root-key :
      (fuel : ℕ) (m : List (K × K)) (x : K) {r : K}
      → find_root fuel m x ≡ some r
      → (v : K) × (lookup x m ≡ some v)
  unfolding find_root
  find_root-key zero m x h = cc
  find_root-key (suc fuel) m x h = elim (Option-cases (lookup x m)) [
    | inl e ↦ cc
    | inr (v, e) ↦ (v, e)
  ]

  pub some_inj : {a b : K} → some a ≡ some b → a ≡ b
  some_inj e = cc

  roots-put :
      (k v : K) (m : List (K × K))
      → lookup k m ≡ some k
      → (v == k) ≡ false
      → suc (roots (put k v m)) ≡ roots m
  unfolding roots lookup put
  roots-put k v [] h ne = cc
  roots-put k v ((j, w) ∷ m) h ne = ground (arith, roots-put k v m)

  length-put : (k v w : K) (m : List (K × K)) → lookup k m ≡ some w → length (put k v m) ≡ length m
  unfolding lookup put
  length-put k v w [] h = cc
  length-put k v w ((j, u) ∷ m) h = ground (arith, length-put k v w m)

  -- The root of a key is reached in fewer steps than there are keys.
  pub Forest-find :
      {m : List (K × K)}
      → Forest m
      → (x : K) {v : K} → lookup x m ≡ some v
      → (r : K) × (n : ℕ) × Leads m n x r × (find_of m x ≡ some r)
  unfolding find_of
  Forest-find {m} f x h =
      let (r, n, l, small) = f.rooted x h in
      let some_root = roots-pos r m (Leads-root l) in
      (r, n, l, find_root-Leads (length m) l (omega arith))

  Leads-key : {m : List (K × K)} {n : ℕ} {x r : K} → Leads m n x r → (v : K) × (lookup x m ≡ some v)
  Leads-key (at_root {x} h) = (x, h)
  Leads-key (up {p = p} h ne l) = (p, h)

  module _ (m : List (K × K)) (rx ry : K) (hx : lookup rx m ≡ some rx) (hy : lookup ry m ≡ some ry)
      (ne : (rx == ry) ≡ false) where
    moved : K → K
    moved r = if r == ry then rx else r

    still : (z : K) → (ry == z) ≡ false → lookup z (put ry rx m) ≡ lookup z m
    still z d = rw (lookup-put ry z rx m, d) refl

    Leads-put :
        {n : ℕ} {z r : K}
        → Leads m n z r
        → (n' : ℕ) × Leads (put ry rx m) n' z (moved r) × (n' ≤ suc n)
    unfolding moved
    Leads-put (at_root {x = z} h) = elim (Bool-cases (z == ry)) [
      | inr d ↦
          let d' : (ry == z) ≡ false = ground arith in
          rw (d) (0, at_root (still z d' ∙ h), omega arith)
      | inl d ↦
          let same = eq_of_== z ry d in
          rw (d, same)
            (
              1,
              up (lookup-put_same ry rx m) ne (at_root (still rx (ground arith) ∙ hx)),
              omega arith,
            )
    ]
    Leads-put (up {x = z} {p = p} h d l) =
        let (n', l', small) = Leads-put l in
        let apart : (ry == z) ≡ false = ground arith in
        (suc n', up (still z apart ∙ h) d l', omega arith)

    key-put : (z : K) {v : K} → lookup z (put ry rx m) ≡ some v → (w : K) × (lookup z m ≡ some w)
    key-put z {v} h = elim (Bool-cases (ry == z)) [
      | inl d ↦ (ry, ap (λ k. lookup k m) (sym (eq_of_== ry z d)) ∙ hy)
      | inr d ↦ (v, sym (still z d) ∙ h)
    ]

    put-key : (z : K) {v : K} → lookup z m ≡ some v → (w : K) × (lookup z (put ry rx m) ≡ some w)
    put-key z {v} h = elim (Bool-cases (ry == z)) [
      | inl d ↦ (rx, rw (lookup-put ry z rx m, d) refl)
      | inr d ↦ (v, still z d ∙ h)
    ]

    put-Forest : Forest m → Forest (put ry rx m)
    put-Forest f = record {
      rooted = λ z {v} h.
          let (w, h') = key-put z h in
          let (r, n, l, small) = f.rooted z h' in
          let (n', l', small') = Leads-put l in
          let fewer = roots-put ry rx m hy ne in
          let same = length-put ry rx ry m hy in
          (moved r, n', l', omega (arith, small, small', fewer, same));
    }

    put-find :
        Forest m → (z r : K) → find_of m z ≡ some r → find_of (put ry rx m) z ≡ some (moved r)
    unfolding find_of moved
    put-find f z r e =
        let (v, h) = find_root-key (length m) m z e in
        let (r0, n, l, small) = f.rooted z h in
        let (n', l', small') = Leads-put l in
        let fewer = roots-put ry rx m hy ne in
        let same = length-put ry rx ry m hy in
        let left = roots-pos _ (put ry rx m) (Leads-root l') in
        let old = roots-pos _ m (Leads-root l) in
        let same_root : some r0 ≡ some r = sym (find_root-Leads (length m) l (omega arith)) ∙ e in
        find_root-Leads (length (put ry rx m)) l' (omega (arith, small, small', fewer, same, left))
        ∙ ap (λ t. some (moved t)) (some_inj same_root)

  -- What uniting `x` and `y` does to a forest.
  pub record United (x y : K) (m m' : List (K × K)) : Type 0 where
    pub forest : Forest m'
    pub keys : (z : K) {v : K} → lookup z m ≡ some v → (w : K) × (lookup z m' ≡ some w)
    pub old : (z : K) {v : K} → lookup z m' ≡ some v → (w : K) × (lookup z m ≡ some w)
    pub move : K → K
    pub moves : (z r : K) → find_of m z ≡ some r → find_of m' z ≡ some (move r)
    pub together : (r s : K) → find_of m x ≡ some r → find_of m y ≡ some s → move r ≡ move s
    pub near : (t : K) → (move t ≡ t) ⊎ ((find_of m y ≡ some t) × (find_of m x ≡ some (move t)))

  unchanged-United :
      (x y : K) (m : List (K × K)) (r : K)
      → Forest m
      → find_of m x ≡ some r
      → find_of m y ≡ some r
      → United x y m m
  unchanged-United x y m r f ex ey = record {
    forest = f;
    keys = λ z {v} h. (v, h);
    old = λ z {v} h. (v, h);
    move = λ t. t;
    moves = λ z t e. e;
    together = λ s t e e'. cc;
    near = λ t. inl refl;
  }

  joined-United :
      (x y : K) (m : List (K × K)) (rx ry : K)
      → Forest m
      → lookup rx m ≡ some rx
      → lookup ry m ≡ some ry
      → (rx == ry) ≡ false
      → find_of m x ≡ some rx
      → find_of m y ≡ some ry
      → United x y m (put ry rx m)
  unfolding moved
  joined-United x y m rx ry f hx hy ne ex ey = record {
    forest = put-Forest m rx ry hx hy ne f;
    keys = λ z {v} h. put-key m rx ry hx hy ne z h;
    old = λ z {v} h. key-put m rx ry hx hy ne z h;
    move = moved m rx ry hx hy ne;
    moves = λ z r e. put-find m rx ry hx hy ne f z r e;
    together = λ r s e e'. ground (arith, ==_refl ry);
    near = λ t. ground arith;
  }

  pub unite-United :
      (x y : K) (m : List (K × K)) {v w : K}
      → Forest m
      → lookup x m ≡ some v
      → lookup y m ≡ some w
      → (m' : List (K × K)) × (unite x y m ≡ some m') × United x y m m'
  unfolding unite
  unite-United x y m f hx hy =
      let (rx, n, l, ex) = Forest-find f x hx in
      let (ry, n', l', ey) = Forest-find f y hy in
      elim (Bool-cases (rx == ry)) [
        | inl d ↦
            let same = eq_of_== rx ry d in
            (
              m,
              rw (ex, unite, ey, d) refl,
              unchanged-United x y m rx f ex (ey ∙ ap some (sym same)),
            )
        | inr d ↦ (
          put ry rx m,
          rw (ex, unite, ey, d) refl,
          joined-United x y m rx ry f (Leads-root l) (Leads-root l') d ex ey,
        )
      ]

  roots-le-length : (m : List (K × K)) → roots m ≤ length m
  unfolding roots
  roots-le-length [] = omega arith
  roots-le-length ((k, v) ∷ m) = ground (arith, roots-le-length m)

  -- Keys that are their own parents.
  pub own-Forest : (m : List (K × K)) → ((z v : K) → lookup z m ≡ some v → v ≡ z) → Forest m
  own-Forest m own = record {
    rooted = λ z {v} h. (z, 0, at_root (h ∙ ap some (own z v h)), omega (arith, roots-le-length m));
  }

  pub find_of-key :
      (m : List (K × K)) (x : K) {r : K} → find_of m x ≡ some r → (v : K) × (lookup x m ≡ some v)
  unfolding find_of
  find_of-key m x h = find_root-key (length m) m x h

  own-Leads :
      {m : List (K × K)} {n : ℕ} {x r : K}
      → ((z v : K) → lookup z m ≡ some v → v ≡ z)
      → Leads m n x r
      → r ≡ x
  own-Leads own (at_root h) = refl
  own-Leads own (up {x = x} {p = p} h ne l) = let same = own x p h in absurd (ground arith)

  pub own-find :
      (m : List (K × K)) (x : K) {r : K}
      → ((z v : K) → lookup z m ≡ some v → v ≡ z)
      → find_of m x ≡ some r
      → r ≡ x
  own-find m x {r} own h =
      let (v, k) = find_of-key m x h in
      let (r0, n, l, e0) = Forest-find (own-Forest m own) x k in
      some_inj (sym h ∙ e0) ∙ own-Leads own l

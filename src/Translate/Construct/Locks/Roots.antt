-- ===== src/Translate/Construct/Locks/Roots.antt =====
-- by_root of src/translate/petri_net.rs: the groups of guards by their roots.
use conc_bug_dect_rust.Prelude.{
  >>=-eq-some, Apart, Bool-cases, Every, Every-if, List, [], ap, apart_cons, apart_nil, arith, cons,
  contains, contains-append, eq_of_==, false, if_intro, inl, inr, list_eq, list_ord, nat_eq,
  nat_ord, nil, pair_eq, pair_ord, some, subst, sym, true, ◌==◌, ◌∙◌, ◌∷◌, ◌≡◌, ◌≢◌,
}
use mathlib.Core.Option.{some-injective}
use conc_bug_dect_rust.Memory.PointsTo.{LockGuardId}
use conc_bug_dect_rust.Detect.Datarace.Groups.{first}
use conc_bug_dect_rust.Translate.Construct.{Setup, by_root, push_group}
use conc_bug_dect_rust.Translate.Construct.Locks.{InGroups, in_first, in_rest}
use conc_bug_dect_rust.Translate.Groups.{find_of}
use conc_bug_dect_rust.Translate.Primitives.{LockGuardTy, alias_eq, guard_eq}

abbrev pub Groups : Type 0
Groups = List (LockGuardId × List LockGuardId)

module _ (o : Setup) (info : List (LockGuardId × LockGuardTy)) where
  -- The members of a group have its root.
  abbrev pub Sound : List (LockGuardId × LockGuardId) → LockGuardId × List LockGuardId → Type 0
  Sound m g = (x : LockGuardId) → contains g.1 x ≡ true → find_of m x ≡ some g.0

  module _ (m : List (LockGuardId × LockGuardId)) where
    push_group-Sound :
        (root lock : LockGuardId) {groups : Groups}
        → find_of m lock ≡ some root
        → Every (Sound m) groups
        → Every (Sound m) (push_group o root lock groups)
    unfolding push_group
    push_group-Sound root lock found nil =
        let one : Sound m (root, lock ∷ []) =
          λ x h. let at = eq_of_== lock x (ground arith) in ap (find_of m) (sym at) ∙ found in
        cons one nil
    push_group-Sound root lock found (cons {x = g} {xs = gs} k ks) =
        Every-if (g.0 == root)
          (λ e.
            cons
              (λ x h. elim (Bool-cases (contains g.1 x)) [
                | inl old ↦ k x old
                | inr new ↦
                    let at = eq_of_== lock x (ground (arith, contains-append g.1 (lock ∷ []) x)) in
                    ap (find_of m) (sym at) ∙ found ∙ ap some (sym (eq_of_== g.0 root e))
              ])
              ks)
          (λ _. cons k (push_group-Sound root lock found ks))

    push_group-fresh :
        (root lock key : LockGuardId) {groups : Groups}
        → root ≢ key
        → Every (λ g. g.0 ≢ key) groups
        → Every (λ g. g.0 ≢ key) (push_group o root lock groups)
    unfolding push_group
    push_group-fresh root lock key ne nil = cons ne nil
    push_group-fresh root lock key ne (cons {x = g} {xs = gs} k ks) =
        Every-if (g.0 == root) (λ _. cons k ks) (λ _. cons k (push_group-fresh root lock key ne ks))

    push_group-Apart :
        (root lock : LockGuardId) {groups : Groups}
        → Apart first groups
        → Apart first (push_group o root lock groups)
    unfolding push_group
    push_group-Apart root lock apart_nil = apart_cons nil apart_nil
    push_group-Apart root lock (apart_cons {x = g} {xs = gs} k ks) =
        if_intro (Apart first) (g.0 == root) (λ _. apart_cons k ks)
          (λ ne.
            apart_cons (push_group-fresh root lock g.0 (λ e. absurd (ground (arith, ne, e))) k)
              (push_group-Apart root lock ks))

    pub by_root-Sound :
        (locks : List LockGuardId) {groups groups' : Groups}
        → by_root o m locks groups ≡ some groups'
        → Every (Sound m) groups
        → Apart first groups
        → Every (Sound m) groups' × Apart first groups'
    unfolding by_root
    by_root-Sound [] e sound apart =
        let at = some-injective _ _ e in
        (subst (Every (Sound m)) at sound, subst (Apart first) at apart)
    by_root-Sound (lock ∷ locks) {groups} e sound apart =
        let (root, found, rest) = >>=-eq-some (find_of m lock) _ e in
        by_root-Sound locks rest (push_group-Sound root lock found sound)
          (push_group-Apart root lock apart)

    -- The root of a group is found in no group with another root.
    pub elsewhere :
        (root x : LockGuardId) {groups : Groups}
        → Every (λ g. g.0 ≢ root) groups
        → Every (Sound m) groups
        → find_of m x ≡ some root
        → Every (λ g. contains g.1 x ≡ false) groups
    elsewhere root x nil nil found = nil
    elsewhere root x (cons {x = g} ne nes) (cons k ks) found =
        cons
          (elim (Bool-cases (contains g.1 x)) [
            | inr out ↦ out
            | inl inside ↦ absurd (ne (some-injective _ _ (sym (k x inside) ∙ found)))
          ])
          (elsewhere root x nes ks found)

    pub nowhere :
        (x : LockGuardId) {groups : Groups}
        → Every (λ g. contains g.1 x ≡ false) groups
        → ¬ InGroups x groups
    nowhere x nil h = elim h [ ]
    nowhere x (cons out outs) (in_first h) = absurd (ground (arith, out, h))
    nowhere x (cons out outs) (in_rest h) = nowhere x outs h

-- ===== src/Translate/Construct/Locks/Distinct.antt =====
-- construct_lock_with_dfs of src/translate/petri_net.rs: guards that are not linked have two places.
use conc_bug_dect_rust.Prelude.{
  >>=-eq-some, Apart, Every, List, [], ap, apart_cons, apart_nil, cons, contains, list_eq, list_ord,
  lookup, nat_eq, nat_ord, nil, pair_eq, pair_ord, refl, some, sym, true, ℕ, ◌+◌, ◌∙◌, ◌∷◌, ◌≡◌,
  ◌≢◌,
}
use mathlib.Core.Option.{some-injective}
use conc_bug_dect_rust.Memory.PointsTo.{AliasId, LockGuardId, from_lock_guard}
use conc_bug_dect_rust.Detect.Datarace.Groups.{first}
use conc_bug_dect_rust.Translate.Construct.{
  PetriNet, Setup, construct_lock_with_dfs, first_kind, keys, locks_may_alias, place_group,
  place_groups,
}
use conc_bug_dect_rust.Translate.Construct.Locks.{
  InGroups, in_first, in_rest, no_groups, by_root_lem, place_groups_lem, keys-lookup, lookup-keys,
}
use conc_bug_dect_rust.Translate.Construct.Locks.Roots.{Groups, Sound, by_root-Sound, elsewhere}
use conc_bug_dect_rust.Translate.Construct.Locks.Added.{
  Later, Later-trans, after, new_place, now, place_group-Later, place_group_inserted,
  place_groups_untouched,
}
use conc_bug_dect_rust.Translate.Groups.{find_of}
use conc_bug_dect_rust.Translate.Groups.Connected.{Linked, same, unite_all-Linked}
use conc_bug_dect_rust.Translate.Net.{Call, Ids, PtPlace, place_added}
use conc_bug_dect_rust.Translate.Primitives.{LockGuardTy, alias_eq, guard_eq}

-- The id of a place is not given out again after the place was added.
abbrev pub AreFresh : Ids → Type 0
AreFresh ids =
    (p : PtPlace) (old new : List Call)
    → Later (place_added p ∷ old) new
    → ids.place_id old ≢ ids.place_id new

module _ (o : Setup) (info : List (LockGuardId × LockGuardTy))
    (m : List (LockGuardId × LockGuardId)) where
  -- The guard has a place whose id was given out after some calls of the builder.
  Made : List Call → LockGuardId → PetriNet → Type 0
  Made old id s' =
      (node : ℕ) × (calls : List Call) × (lookup (from_lock_guard id) s'.resources.locks
        ≡ some node)
      × (node ≡ o.ids.place_id calls)
      × Later old calls

  head_node :
      (r : LockGuardId) (group : List LockGuardId) (groups : Groups) (ty : LockGuardTy) (n : ℕ)
      (s : PetriNet) {s' : PetriNet} (x : LockGuardId)
      → Every (λ g. g.0 ≢ r) groups
      → Every (Sound o info m) groups
      → Sound o info m (r, group)
      → contains group x ≡ true
      → place_groups o info groups (n + 1) (place_group o ty n group s) ≡ some s'
      → lookup (from_lock_guard x) s'.resources.locks ≡ some (o.ids.place_id s.builder)
  head_node r group groups ty n s x ne ks k h rest =
      place_groups_untouched o info m groups (n + 1) (place_group o ty n group s) x
        (elsewhere o info m r x ne ks (k x h)) rest
      ∙ place_group_inserted o info m ty n group s x h
      ∙ ap some (new_place o info m ty n s).node

  grown :
      (ty : LockGuardTy) (n : ℕ) (group : List LockGuardId) (s : PetriNet)
      → Later s.builder (place_group o ty n group s).builder
  grown ty n group s = Later-trans (after _ now) (place_group-Later o info m ty n group s)

  place_groups-Made :
      (groups : Groups) (n : ℕ) (s : PetriNet) {s' : PetriNet} (id : LockGuardId)
      → Every (Sound o info m) groups
      → Apart first groups
      → InGroups id groups
      → place_groups o info groups n s ≡ some s'
      → Made s.builder id s'
  unfolding place_groups Made
  place_groups-Made [] n s id sound apart h e = elim h [ ]
  place_groups-Made ((r, group) ∷ groups) n s id (cons k ks) (apart_cons ne nes) (in_first h) e =
      let (ty, kind, rest) = >>=-eq-some (first_kind o info group) _ e in
      (
        o.ids.place_id s.builder,
        s.builder,
        head_node r group groups ty n s id ne ks k h rest,
        refl,
        now,
      )
  place_groups-Made ((r, group) ∷ groups) n s id (cons k ks) (apart_cons ne nes) (in_rest h) e =
      let (ty, kind, rest) = >>=-eq-some (first_kind o info group) _ e in
      let (node, calls, found, made, since) =
        place_groups-Made groups (n + 1) (place_group o ty n group s) id ks nes h rest in
      (node, calls, found, made, Later-trans (grown ty n group s) since)

  Differ : LockGuardId → LockGuardId → PetriNet → Type 0
  Differ a b s' =
      lookup (from_lock_guard a) s'.resources.locks ≢ lookup (from_lock_guard b) s'.resources.locks

  -- One guard in the first group, another in a later one.
  head_differs :
      (r : LockGuardId) (group : List LockGuardId) (groups : Groups) (ty : LockGuardTy) (n : ℕ)
      (s : PetriNet) {s' : PetriNet} (a b : LockGuardId)
      → AreFresh o.ids
      → Every (λ g. g.0 ≢ r) groups
      → Every (Sound o info m) groups
      → Sound o info m (r, group)
      → Apart first groups
      → contains group a ≡ true
      → InGroups b groups
      → place_groups o info groups (n + 1) (place_group o ty n group s) ≡ some s'
      → Differ a b s'
  unfolding Made Differ
  head_differs r group groups ty n s a b fresh ne ks k nes ha hb rest equal =
      let (node, calls, found, made, since) =
        place_groups-Made groups (n + 1) (place_group o ty n group s) b ks nes hb rest in
      let ids : some (o.ids.place_id s.builder) ≡ some node =
        sym (head_node r group groups ty n s a ne ks k ha rest) ∙ equal ∙ found in
      fresh (new_place o info m ty n s).place s.builder calls
        (Later-trans (place_group-Later o info m ty n group s) since)
        (some-injective _ _ ids ∙ made)

  place_groups-Differ :
      (groups : Groups) (n : ℕ) (s : PetriNet) {s' : PetriNet} (a b : LockGuardId)
      → AreFresh o.ids
      → Every (Sound o info m) groups
      → Apart first groups
      → find_of m a ≢ find_of m b
      → InGroups a groups
      → InGroups b groups
      → place_groups o info groups n s ≡ some s'
      → Differ a b s'
  unfolding place_groups Differ
  place_groups-Differ [] n s a b fresh sound apart roots ha hb e = elim ha [ ]
  place_groups-Differ ((r, group) ∷ groups) n s a b fresh (cons k ks) (apart_cons ne nes) roots
        (in_first ha) (in_first hb) e =
      absurd (roots (k a ha ∙ sym (k b hb)))
  place_groups-Differ ((r, group) ∷ groups) n s a b fresh (cons k ks) (apart_cons ne nes) roots
        (in_first ha) (in_rest hb) e =
      let (ty, kind, rest) = >>=-eq-some (first_kind o info group) _ e in
      head_differs r group groups ty n s a b fresh ne ks k nes ha hb rest
  place_groups-Differ ((r, group) ∷ groups) n s a b fresh (cons k ks) (apart_cons ne nes) roots
        (in_rest ha) (in_first hb) e =
      let (ty, kind, rest) = >>=-eq-some (first_kind o info group) _ e in
      λ equal. head_differs r group groups ty n s b a fresh ne ks k nes hb ha rest (sym equal)
  place_groups-Differ ((r, group) ∷ groups) n s a b fresh (cons k ks) (apart_cons ne nes) roots
        (in_rest ha) (in_rest hb) e =
      let (ty, kind, rest) = >>=-eq-some (first_kind o info group) _ e in
      place_groups-Differ groups (n + 1) (place_group o ty n group s) a b fresh ks nes roots ha hb
        rest

-- The two guards have places, and these differ.
abbrev pub HavePlaces : LockGuardId → LockGuardId → PetriNet → Type 0
HavePlaces a b s =
    (n : ℕ) × (n' : ℕ) × (lookup (from_lock_guard a) s.resources.locks ≡ some n)
    × (lookup (from_lock_guard b) s.resources.locks ≡ some n')
    × (n ≢ n')

-- When the builder never gives out the id of a place again, two known guards that are not linked by
-- pairs that may alias have two different places after the construction of the locks, which returns.
pub construct_lock_with_dfs_apart :
    (o : Setup) (info : List (LockGuardId × LockGuardTy))
    (lock_objects : List (LockGuardId × AliasId)) (s : PetriNet) (a b : LockGuardId)
    {ty ty' : LockGuardTy}
    → AreFresh o.ids
    → lookup a info ≡ some ty
    → lookup b info ≡ some ty'
    → ¬ Linked (locks_may_alias o lock_objects) (keys o info) a b
    → (s' : PetriNet) × (construct_lock_with_dfs o info lock_objects s ≡ some s')
      × HavePlaces a b s'
unfolding construct_lock_with_dfs Differ Made
construct_lock_with_dfs_apart o info lock_objects s a b fresh ka kb unlinked =
    let locks = keys o info in
    let ha = lookup-keys o info a ka in
    let hb = lookup-keys o info b kb in
    let (m, united, grouped) = unite_all-Linked (locks_may_alias o lock_objects) locks in
    let (groups, eq, ks, kept, new) =
      by_root_lem o info m locks []
        (λ id h. let t = (grouped id id h h).1 same in ((t.0, t.1), keys-lookup o info id h))
        no_groups in
    let (s', eq', present) = place_groups_lem o info groups 0 s ks in
    let (ra, fa, _) = (grouped a a ha ha).1 same in
    let (sound, apart) = by_root-Sound o info m locks eq nil apart_nil in
    let (node, _, found, _, _) =
      place_groups-Made o info m groups 0 s a sound apart (new a ha) eq' in
    let (node', _, found', _, _) =
      place_groups-Made o info m groups 0 s b sound apart (new b hb) eq' in
    let differ : Differ o info m a b s' =
      place_groups-Differ o info m groups 0 s a b fresh sound apart
        (λ e. unlinked ((grouped a b ha hb).0 (ra, fa, sym e ∙ fa))) (new a ha) (new b hb) eq' in
    (
      s',
      rw (united, construct_lock_with_dfs, eq) eq',
      (node, node', found, found', λ e. differ (found ∙ ap some e ∙ sym found')),
    )

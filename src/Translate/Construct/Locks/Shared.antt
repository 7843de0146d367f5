-- ===== src/Translate/Construct/Locks/Shared.antt =====
-- construct_lock_with_dfs of src/translate/petri_net.rs: linked guards share one place of their own.
use conc_bug_dect_rust.Prelude.{
  ==_refl, >>=-eq-some, Apart, Every, List, [], ap, apart_cons, apart_nil, arith, cons, contains,
  list_eq, list_ord, lookup, nat_eq, nat_ord, nil, pair_eq, pair_ord, some, sym, true, ℕ, ◌+◌, ◌∙◌,
  ◌∷◌, ◌≡◌,
}
use mathlib.Core.Option.{some-injective}
use conc_bug_dect_rust.Memory.PointsTo.{AliasId, LockGuardId, from_lock_guard}
use conc_bug_dect_rust.Detect.Datarace.Groups.{first}
use conc_bug_dect_rust.Translate.Construct.{
  PetriNet, Setup, construct_lock_with_dfs, first_kind, keys, lock_place, locks_may_alias,
  place_group, place_groups,
}
use conc_bug_dect_rust.Translate.Construct.Locks.{
  InGroups, in_first, in_rest, no_groups, by_root_lem, place_groups_lem, keys-lookup, lookup-keys,
}
use conc_bug_dect_rust.Translate.Groups.{find_of}
use conc_bug_dect_rust.Translate.Groups.Connected.{Linked, same, unite_all-Linked}
use conc_bug_dect_rust.Translate.Net.{Call, PtPlace, place_added}
use conc_bug_dect_rust.Translate.Primitives.{LockGuardTy, alias_eq, guard_eq}
use conc_bug_dect_rust.Translate.Construct.Locks.Roots.{
  Groups, Sound, by_root-Sound, elsewhere, nowhere,
}
use conc_bug_dect_rust.Translate.Construct.Locks.Added.{
  Later, Later-trans, capacity_of, new_place, place_group-Later, place_group_inserted,
  place_groups-Later, place_groups_untouched,
}

-- The guard's place is one that was added for it: a resource as full as the kind of some guard that
-- is linked with it says, with no more room.
pub record HasLockPlace (o : Setup) (info : List (LockGuardId × LockGuardTy))
    (IsLinked : LockGuardId → Type 0) (id : LockGuardId) (s : PetriNet) : Type 0 where
  pub node : ℕ
  pub found : lookup (from_lock_guard id) s.resources.locks ≡ some node
  pub guard : LockGuardId
  pub ty : LockGuardTy
  pub kind : lookup guard info ≡ some ty
  pub linked : IsLinked guard
  pub place : PtPlace
  pub full : place.tokens ≡ capacity_of ty
  pub room : place.capacity ≡ some (capacity_of ty)
  pub calls : List Call
  pub made : node ≡ o.ids.place_id calls
  pub added : Later (place_added place ∷ calls) s.builder

module _ (o : Setup) (info : List (LockGuardId × LockGuardTy)) where
  module _ (m : List (LockGuardId × LockGuardId)) where
    -- The first guard of a group, whose kind decides.
    pub leader :
        (group : List LockGuardId) {ty : LockGuardTy}
        → first_kind o info group ≡ some ty
        → (x : LockGuardId) × (contains group x ≡ true) × (lookup x info ≡ some ty)
    unfolding first_kind
    leader [] e = cc
    leader (x ∷ group) e = (x, ground (arith, ==_refl x), e)

    unfoldable pub Shares : LockGuardId → LockGuardId → LockGuardId → PetriNet → Type 0
    Shares root a b s' =
        HasLockPlace o info (λ x. find_of m x ≡ some root) a s'
        × (lookup (from_lock_guard a) s'.resources.locks
            ≡ lookup (from_lock_guard b) s'.resources.locks)

    pub place_groups-Shares :
        (groups : Groups) (n : ℕ) (s : PetriNet) {s' : PetriNet} (root a b : LockGuardId)
        → Every (Sound o info m) groups
        → Apart first groups
        → find_of m a ≡ some root
        → find_of m b ≡ some root
        → InGroups a groups
        → InGroups b groups
        → place_groups o info groups n s ≡ some s'
        → Shares root a b s'
    unfolding place_groups Shares
    place_groups-Shares [] n s root a b sound apart ra rb ha hb e = elim ha [ ]
    place_groups-Shares ((r, group) ∷ groups) n s root a b (cons k ks) (apart_cons ne nes) ra rb
          (in_first ha) (in_first hb) e =
        let (ty, kind, rest) = >>=-eq-some (first_kind o info group) _ e in
        let (x, inside, known) = leader group kind in
        let s1 = place_group o ty n group s in
        let p = new_place o info m ty n s in
        let same_root : r ≡ root = some-injective _ _ (sym (k a ha) ∙ ra) in
        let found = λ (y : LockGuardId) (h : contains group y ≡ true).
          place_groups_untouched o info m groups (n + 1) s1 y (elsewhere o info m r y ne ks (k y h))
            rest
          ∙ place_group_inserted o info m ty n group s y h in
        (
          record {
            node = (lock_place o ty n s).1;
            found = found a ha;
            guard = x;
            ty = ty;
            kind = known;
            linked = k x inside ∙ ap some same_root;
            place = p.place;
            full = p.full;
            room = p.room;
            calls = s.builder;
            made = p.node;
            added =
                Later-trans (place_group-Later o info m ty n group s)
                  (place_groups-Later o info m groups (n + 1) s1 rest);
          },
          found a ha ∙ sym (found b hb),
        )
    place_groups-Shares ((r, group) ∷ groups) n s root a b (cons k ks) (apart_cons ne nes) ra rb
          (in_first ha) (in_rest hb) e =
        let same_root : r ≡ root = some-injective _ _ (sym (k a ha) ∙ ra) in
        absurd (nowhere o info m b (elsewhere o info m r b ne ks (rb ∙ ap some (sym same_root))) hb)
    place_groups-Shares ((r, group) ∷ groups) n s root a b (cons k ks) (apart_cons ne nes) ra rb
          (in_rest ha) (in_first hb) e =
        let same_root : r ≡ root = some-injective _ _ (sym (k b hb) ∙ rb) in
        absurd (nowhere o info m a (elsewhere o info m r a ne ks (ra ∙ ap some (sym same_root))) ha)
    place_groups-Shares ((r, group) ∷ groups) n s root a b (cons k ks) (apart_cons ne nes) ra rb
          (in_rest ha) (in_rest hb) e =
        let (ty, kind, rest) = >>=-eq-some (first_kind o info group) _ e in
        place_groups-Shares groups (n + 1) (place_group o ty n group s) root a b ks nes ra rb ha hb
          rest

HasLockPlace-map :
    (o : Setup) (info : List (LockGuardId × LockGuardTy)) (P Q : LockGuardId → Type 0)
    (id : LockGuardId) (s : PetriNet)
    → ((x : LockGuardId) (ty : LockGuardTy) → lookup x info ≡ some ty → P x → Q x)
    → HasLockPlace o info P id s
    → HasLockPlace o info Q id s
HasLockPlace-map o info P Q id s f h = record {
  node = h.node;
  found = h.found;
  guard = h.guard;
  ty = h.ty;
  kind = h.kind;
  linked = f h.guard h.ty h.kind h.linked;
  place = h.place;
  full = h.full;
  room = h.room;
  calls = h.calls;
  made = h.made;
  added = h.added;
}

-- The construction of the locks returns. Two known guards that are linked by pairs that may alias
-- then have one and the same place: one that was added to the net, with one token and room for one
-- or with ten and room for ten, as the kind of some guard that is linked with them says.
pub construct_lock_with_dfs_lem :
    (o : Setup) (info : List (LockGuardId × LockGuardTy))
    (lock_objects : List (LockGuardId × AliasId)) (s : PetriNet) (a b : LockGuardId)
    {ty ty' : LockGuardTy}
    → lookup a info ≡ some ty
    → lookup b info ≡ some ty'
    → Linked (locks_may_alias o lock_objects) (keys o info) a b
    → (s' : PetriNet) × (construct_lock_with_dfs o info lock_objects s ≡ some s')
      × HasLockPlace o info (Linked (locks_may_alias o lock_objects) (keys o info) a) a s'
      × (lookup (from_lock_guard a) s'.resources.locks
          ≡ lookup (from_lock_guard b) s'.resources.locks)
unfolding construct_lock_with_dfs Shares
construct_lock_with_dfs_lem o info lock_objects s a b ka kb linked =
    let locks = keys o info in
    let may_alias = locks_may_alias o lock_objects in
    let ha = lookup-keys o info a ka in
    let hb = lookup-keys o info b kb in
    let (m, united, grouped) = unite_all-Linked may_alias locks in
    let (groups, eq, ks, kept, new) =
      by_root_lem o info m locks []
        (λ id h. let t = (grouped id id h h).1 same in ((t.0, t.1), keys-lookup o info id h))
        no_groups in
    let (s', eq', present) = place_groups_lem o info groups 0 s ks in
    let (root, ra, rb) = (grouped a b ha hb).1 linked in
    let (sound, apart) = by_root-Sound o info m locks eq nil apart_nil in
    let (place, shared) =
      place_groups-Shares o info m groups 0 s root a b sound apart ra rb (new a ha) (new b hb)
        eq' in
    (
      s',
      rw (united, construct_lock_with_dfs, eq) eq',
      HasLockPlace-map o info (λ x. find_of m x ≡ some root) (Linked may_alias locks a) a s'
          (λ x tx kx rx. (grouped a x ha (lookup-keys o info x kx)).0 (root, ra, rx)) place,
      shared,
    )

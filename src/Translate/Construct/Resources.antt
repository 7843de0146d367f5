-- ===== src/Translate/Construct/Resources.antt =====
-- src/translate/petri_net.rs: the places of channels and atomics, the groups of unsafe places, and
-- the translation of all functions. Hash maps are gone through in the order of insertion.
use conc_bug_dect_rust.Prelude.{
  Bool, List, Option, Text, [], codes, contains, decimal, false, if◌then◌else◌, insert, list_eq,
  list_ord, nat_eq, nat_ord, none, not, pair_eq, pair_ord, put, some, split_first, split_second,
  true, ℕ, ◌%◌, ◌&&◌, ◌++◌, ◌+◌, ◌==◌, ◌>>=◌, ◌^◌, ◌||◌, ◌∷◌,
}
use conc_bug_dect_rust.Memory.PointsTo
use conc_bug_dect_rust.Memory.PointsTo.{AliasId, LockGuardId}
use conc_bug_dect_rust.Translate.Body.{Context}
use conc_bug_dect_rust.Translate.Body.Visit
use conc_bug_dect_rust.Translate.Body.Visit.{visit_body}
use conc_bug_dect_rust.Translate.Construct.{
  PetriNet, Setup, create_resource_place, crate_filter_match, construct_lock_with_dfs, LockGuardTy,
  condvar_places, construct_func,
}
use conc_bug_dect_rust.Translate.Primitives.{AtomicOrdering, alias_eq}

pub data EndpointType : Type 0 where
  sender : EndpointType
  receiver : EndpointType

pub record ChannelInfo : Type 0 where
  pub endpoint_type : EndpointType
  pub span : Text

abbrev colon : Text
colon = 58 ∷ []

or_nothing : Option Text → Text
or_nothing none = []
or_nothing (some t) = t

-- The first two pieces of the span between colons.
pub key_string : Text → Text
unfolding or_nothing
key_string span = split_first span colon ++ or_nothing (split_second span colon)

-- `entry(key).or_default().push(x)`
pub push_entry : {A : Type 0} → Text → A → List (Text × List A) → List (Text × List A)
push_entry key x [] = (key, x ∷ []) ∷ []
push_entry key x ((k, xs) ∷ groups) =
    let rest = push_entry key x groups in
    if k == key then (k, xs ++ x ∷ []) ∷ groups else (k, xs) ∷ rest

pub span_groups :
    List (AliasId × ChannelInfo)
    → List (Text × List (AliasId × ChannelInfo))
    → List (Text × List (AliasId × ChannelInfo))
unfolding push_entry key_string
span_groups [] groups = groups
span_groups ((id, info) ∷ channels) groups =
    span_groups channels (push_entry (key_string info.span) (id, info) groups)

is_pair : EndpointType → EndpointType → Bool
is_pair EndpointType.sender EndpointType.receiver = true
is_pair EndpointType.receiver EndpointType.sender = true
is_pair _ _ = false

-- Two endpoints, one a sender and one a receiver.
pub has_pair : List (AliasId × ChannelInfo) → Bool
unfolding is_pair
has_pair ((_, a) ∷ (_, b) ∷ []) = is_pair a.endpoint_type b.endpoint_type
has_pair _ = false

pub insert_all : ℕ → List (AliasId × ChannelInfo) → List (AliasId × ℕ) → List (AliasId × ℕ)
insert_all node [] places = places
insert_all node ((id, _) ∷ endpoints) places = insert_all node endpoints (put id node places)

pub record AtomicVarInfo : Type 0 where
  pub alias_id : AliasId
  pub operations : List AtomicOrdering
  pub span : Text

-- The ordering of the first operation.
pub first_ordering : List AtomicOrdering → AtomicOrdering
first_ordering [] = AtomicOrdering.relaxed
first_ordering (ordering ∷ operations) = ordering

pub distinct : List ℕ → List ℕ → List ℕ
distinct [] seen = seen
distinct (x ∷ xs) seen = distinct xs (insert x seen)

pub in_group : AliasId → List (AliasId × Text) → Bool
in_group local [] = false
in_group local ((l, _) ∷ group) = l == local || in_group local group

pub in_groups : AliasId → List (ℕ × List (AliasId × Text)) → Bool
unfolding in_group
in_groups local [] = false
in_groups local ((_, group) ∷ groups) = in_group local group || in_groups local groups

insert_group : ℕ → List (AliasId × Text) → List (AliasId × ℕ) → List (AliasId × ℕ)
insert_group group_id [] m = m
insert_group group_id ((local, _) ∷ group) m = insert_group group_id group (put local group_id m)

insert_groups : List (ℕ × List (AliasId × Text)) → List (AliasId × ℕ) → List (AliasId × ℕ)
unfolding insert_group
insert_groups [] m = m
insert_groups ((group_id, group) ∷ groups) m = insert_groups groups (insert_group group_id group m)

module _ (o : Setup) where
  place_channel : ℕ → Text → List (AliasId × ChannelInfo) → PetriNet → PetriNet
  unfolding insert_all
  place_channel i span endpoints s =
      let (s', node) = create_resource_place o (codes "channel_" ++ decimal i) 0 100 span s in
      record s' {
        resources = record s'.resources {
          channel_places = insert_all node endpoints s'.resources.channel_places;
        };
      }

  place_channels : List (Text × List (AliasId × ChannelInfo)) → ℕ → PetriNet → PetriNet
  unfolding has_pair place_channel
  place_channels [] i s = s
  place_channels ((span, endpoints) ∷ groups) i s =
      place_channels groups (i + 1)
        (if has_pair endpoints then place_channel i span endpoints s else s)

  pub construct_channel_resources : List (AliasId × ChannelInfo) → PetriNet → PetriNet
  unfolding place_channels
  construct_channel_resources channels s = place_channels (span_groups channels []) 0 s

  -- The places of the atomics before that may alias.
  pub aliased_places : AliasId → List (AliasId × List ℕ) → List ℕ
  aliased_places alias_id [] = []
  aliased_places alias_id ((existing, places) ∷ atomics) =
      let rest = aliased_places alias_id atomics in
      if PointsTo.may_alias (o.alias_atomic alias_id existing) o.alias_unknown_policy
      then places ++ rest
      else rest

  places_of_atomic : List ℕ → AtomicVarInfo → PetriNet → PetriNet × List ℕ
  places_of_atomic [] info s =
      let name =
        codes "Atomic("
        ++ decimal info.alias_id.instance_id
        ++ codes ","
        ++ decimal info.alias_id.local
        ++ codes ")" in
      let (s', pid) = create_resource_place o name 1 1 info.span s in (s', pid ∷ [])
  places_of_atomic (p ∷ ps) info s = (s, distinct (p ∷ ps) [])

  pub construct_atomic : AtomicVarInfo → PetriNet → PetriNet
  unfolding aliased_places places_of_atomic
  construct_atomic info s =
      let places = aliased_places info.alias_id s.resources.atomic_places in
      let (s', place_ids) = places_of_atomic places info s in
      record s' {
        resources = record s'.resources {
          atomic_orders =
              put info.alias_id (first_ordering info.operations) s'.resources.atomic_orders;
          atomic_places = put info.alias_id place_ids s'.resources.atomic_places;
        };
      }

  pub construct_atomic_resources : List AtomicVarInfo → PetriNet → PetriNet
  unfolding construct_atomic
  construct_atomic_resources [] s = s
  construct_atomic_resources (info ∷ vars) s =
      construct_atomic_resources vars (construct_atomic info s)

  pub aliased_with : AliasId → List (AliasId × Text) → List (AliasId × Text)
  aliased_with local [] = []
  aliased_with local ((l, info) ∷ places) =
      let rest = aliased_with local places in
      if PointsTo.may_alias (o.alias local l) o.alias_unknown_policy then (l, info) ∷ rest else rest

  -- A place that is in a group already starts none; the ids have 32 bits.
  pub alias_groups :
      List (AliasId × Text)
      → ℕ
      → List (ℕ × List (AliasId × Text))
      → List (ℕ × List (AliasId × Text))
  unfolding in_groups aliased_with
  alias_groups [] next_alias_id groups = groups
  alias_groups ((local, info) ∷ places) next_alias_id groups =
      let skip = alias_groups places next_alias_id groups in
      let group = (local, info) ∷ aliased_with local places in
      let rest =
        alias_groups places ((next_alias_id + 1) % 2 ^ 32) (put next_alias_id group groups) in
      if in_groups local groups then skip else rest

  pub construct_unsafe_blocks : List (AliasId × Text) → PetriNet → PetriNet
  unfolding alias_groups insert_groups
  construct_unsafe_blocks places_data s = record s {
    resources = record s.resources {
      unsafe_groups = insert_groups (alias_groups places_data 0 []) s.resources.unsafe_groups;
    };
  }

  -- What the translation of all functions reads of a node of the call graph. The context holds the
  -- node's body and the registries as they are then.
  pub record CallGraphNode : Type 0 where
    pub def_id : ℕ
    pub name : Text
    pub is_mir_available : Bool
    pub is_promoted : Bool
    pub context : PetriNet → Context

  pub visitor_function_body : CallGraphNode → PetriNet → Option PetriNet
  visitor_function_body node s =
      if node.is_promoted
      then some s
      else (visit_body (node.context s) (Visit.new (node.context s) s.builder) >>= λ b.
          some (record s { builder = b.net }))

  pub translate_all_functions : List CallGraphNode → List ℕ → PetriNet → Option PetriNet
  unfolding visitor_function_body
  translate_all_functions [] visited s = some s
  translate_all_functions (node ∷ nodes) visited s =
      let skip = translate_all_functions nodes visited s in
      if node.is_mir_available
        && crate_filter_match o node.name
        && not (contains visited node.def_id)
      then (visitor_function_body node s
          >>= translate_all_functions nodes (insert node.def_id visited))
      else skip

  -- What the collectors find, over all the bodies.
  pub record Collected : Type 0 where
    pub main_func : Option ℕ
    pub functions : List (ℕ × Text)
    pub condvars : List (AliasId × Text)
    pub lockguards : List (LockGuardId × LockGuardTy)
    pub lock_objects : List (LockGuardId × AliasId)
    pub channels : List (AliasId × ChannelInfo)
    pub atomic_vars : List AtomicVarInfo
    pub unsafe_places : List (AliasId × Text)
    pub callgraph : List CallGraphNode

  pub construct : Collected → PetriNet → Option PetriNet
  unfolding translate_all_functions
  construct found s =
      construct_lock_with_dfs o found.lockguards found.lock_objects
        (condvar_places o found.condvars (construct_func o found.main_func found.functions s))
      >>= λ locked. translate_all_functions found.callgraph [] (
          construct_unsafe_blocks found.unsafe_places (
            construct_atomic_resources found.atomic_vars
              (construct_channel_resources found.channels locked)))

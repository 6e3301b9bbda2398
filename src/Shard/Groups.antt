-- ===== src/Shard/Groups.antt =====
-- apps/shard_01/src/groups.rs: groups of characters and the store that a log of entries builds. A
-- `HashSet` of capabilities is a list that is asked for its members only.
pub mod Roles
pub mod Admin
mod Tests
use slopmud.Prelude.{
  ℕ, zero, suc, ◌+◌, ◌-◌, ◌*◌, ◌/◌, ◌%◌, ◌^◌, ◌≤◌, ◌<◌, min, max, ◌≡◌, refl, sym, ap, ap₂, ◌∙◌,
  subst, ◌≢◌, ◌↔◌, ◌⊎◌, inl, inr, Bool, true, false, not, ◌&&◌, ◌||◌, Option, none, some, List, [],
  ◌∷◌, ◌++◌, map, append-nil, append_assoc, arith, ltb, leb, ◌==◌, if◌then◌else◌, ==_iff,
  Bool-cases, Option-cases, Eq, ◌=?◌, =?_iff, =?_refl, nat_eq, list_eq, list_beq, list_beq_iff,
  length, get_elem?, take, drop, is_empty, any, all, concat, All, length-append, take-append-drop,
  length-take, length-drop, take_front, drop_front, take_all, take_front_of, drop_front_of,
  take-append_left, take_past, drop_past, get_elem?-front, get_elem?-append_left, All-append,
  All-left, reverse, reverse-append, reverse-reverse, filter, length-reverse, drop-append,
  drop-drop, drop_all, reverse-take, take_one, take_over, take_least, All-right,
}
use slopmud.Prelude.Text.{Text, name_key, to_ascii_lowercase}
use slopmud.Shard.Authority.{
  Capability, all_capabilities, as_str, capability_arms, parse, GroupRole, role_as_str, role_arms,
  role_parse, same_role, same_capability, GroupKind, kind_as_str, class_parse, kind_parse,
  manager_caps, default_role_caps, implied_role_for_class, admin_all, raft_tail, raft_watch,
  world_warp, world_proto_load, group_create, group_member_add, group_member_remove, group_role_set,
  group_policy_set, group_role_caps_set, owner, officer, member, guest, admin_kind, guild_kind,
  class_kind, custom_kind,
}
use slopmud.Prelude.Map.{get, insert, remove, values}

-- `role_caps` has an entry for each role from `Group::new` on, so it is a function of the role.
pub record Group : Type 0 where
  pub id : ℕ
  pub kind : GroupKind
  pub name : Text
  pub members : List (Text × GroupRole)
  pub policies : List (Text × Text)
  pub role_caps : GroupRole → List Capability

unfoldable pub new : ℕ → GroupKind → Text → Group
new id kind name = record {
  id = id;
  kind = kind;
  name = name;
  members = [];
  policies = [];
  role_caps = default_role_caps kind;
}

unfoldable pub caps_for_role : Group → GroupRole → List Capability
caps_for_role g role = g.role_caps role

pub data GroupLogEntry : Type 0 where
  log_group_create : ℕ → GroupKind → Text → GroupLogEntry
  log_member_set : ℕ → Text → Option GroupRole → GroupLogEntry
  log_policy_set : ℕ → Text → Option Text → GroupLogEntry
  log_role_caps_set : ℕ → GroupRole → List Capability → GroupLogEntry

pub record GroupStore : Type 0 where
  pub groups : List (ℕ × Group)
  pub group_ids_by_name : List (Text × ℕ)

unfoldable pub empty_store : GroupStore
empty_store = record { groups = []; group_ids_by_name = [] }

-- `Some(v)` inserts, `None` removes.
unfoldable pub set_or_remove {ℓ} :
    {V : Type ℓ} → Text → Option V → List (Text × V) → List (Text × V)
set_or_remove k none m = remove k m
set_or_remove k (some v) m = insert k v m

-- What an entry does to its group, where it has one.
unfoldable pub set_member : Text → Option GroupRole → Group → Group
unfolding set_or_remove
set_member who role g =
    let key = name_key who in
    if is_empty key then g else record g { members = set_or_remove key role g.members }

unfoldable pub set_policy : Text → Option Text → Group → Group
unfolding set_or_remove
set_policy key value g =
    let k = name_key key in
    if is_empty k then g else record g { policies = set_or_remove k value g.policies }

unfoldable pub set_role_caps : GroupRole → List Capability → Group → Group
unfolding same_role
set_role_caps role caps g = record g {
  role_caps = λ r. if same_role r role then caps else g.role_caps r;
}

-- `get_mut`: the group is changed in place, or the entry is dropped.
unfoldable pub update : ℕ → (Group → Group) → List (ℕ × Group) → List (ℕ × Group)
update id f groups = elim (get id groups) [ none ↦ groups | some g ↦ insert id (f g) groups ]

unfoldable pub apply : GroupStore → GroupLogEntry → GroupStore
unfolding new update set_member set_policy set_role_caps
apply s (log_group_create id kind name) = record {
  groups = insert id (new id kind name) s.groups;
  group_ids_by_name = insert (to_ascii_lowercase name) id s.group_ids_by_name;
}
apply s (log_member_set id who role) = record s {
  groups = update id (set_member who role) s.groups;
}
apply s (log_policy_set id key value) = record s {
  groups = update id (set_policy key value) s.groups;
}
apply s (log_role_caps_set id role caps) = record s {
  groups = update id (set_role_caps role caps) s.groups;
}

unfoldable pub group_by_name : GroupStore → Text → Option Group
group_by_name s name = elim (get (name_key name) s.group_ids_by_name) [
  | none ↦ none
  | some id ↦ get id s.groups
]

-- The member's own role, or the one that the class implies.
unfoldable pub role_in : Group → Text → Text → Option GroupRole
unfolding implied_role_for_class
role_in g principal class = elim (get (name_key principal) g.members) [
  | some role ↦ some role
  | none ↦ implied_role_for_class g.kind class
]

unfoldable pub caps_in : Group → Text → Text → List Capability
unfolding role_in caps_for_role
caps_in g principal class = elim (role_in g principal class) [
  | none ↦ []
  | some role ↦ caps_for_role g role
]

unfoldable pub effective_caps : List Group → Text → Text → List Capability
unfolding caps_in
effective_caps [] principal class = []
effective_caps (g ∷ groups) principal class =
    caps_in g principal class ++ effective_caps groups principal class

unfoldable pub effective_caps_for_principal : GroupStore → Text → Text → List Capability
unfolding effective_caps
effective_caps_for_principal s principal class = effective_caps (values s.groups) principal class

unfoldable pub role_for_principal_in_group : GroupStore → ℕ → Text → Text → Option GroupRole
unfolding role_in
role_for_principal_in_group s id principal class = elim (get id s.groups) [
  | none ↦ none
  | some g ↦ role_in g principal class
]

unfoldable pub caps_for_principal_in_group : GroupStore → ℕ → Text → Text → List Capability
unfolding role_for_principal_in_group caps_for_role
caps_for_principal_in_group s id principal class =
    elim (role_for_principal_in_group s id principal class) [
      | none ↦ []
      | some role ↦ elim (get id s.groups) [ none ↦ [] | some g ↦ caps_for_role g role ]
    ]

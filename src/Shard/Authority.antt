-- ===== src/Shard/Authority.antt =====
-- apps/shard_01/src/groups.rs: capabilities, roles and kinds of groups, how they are shown and
-- parsed, and what a role may do by default.
pub mod Names
use slopmud.Prelude.{
  ℕ, zero, suc, ◌+◌, ◌-◌, ◌*◌, ◌/◌, ◌%◌, ◌^◌, ◌≤◌, ◌<◌, min, max, ◌≡◌, refl, sym, ap, ap₂, ◌∙◌,
  subst, ◌≢◌, ◌↔◌, ◌⊎◌, inl, inr, Bool, true, false, not, ◌&&◌, ◌||◌, Option, none, some, List, [],
  ◌∷◌, ◌++◌, map, append-nil, append_assoc, arith, ltb, leb, ◌==◌, if◌then◌else◌, ==_iff,
  Bool-cases, Option-cases, Eq, ◌=?◌, =?_iff, =?_refl, nat_eq, list_eq, list_beq, list_beq_iff,
  length, get_elem?, take, drop, is_empty, any, all, concat, All, length-append, take-append-drop,
  length-take, length-drop, take_front, drop_front, take_all, take_front_of, drop_front_of,
  take-append_left, take_past, drop_past, get_elem?-front, get_elem?-append_left, All-append,
  All-left, reverse, reverse-append, reverse-reverse, filter, length-reverse, drop-append,
  drop-drop, drop_all, reverse-take, take_one, take_over, take_least, All-right,
}
use slopmud.Prelude.Text.{Text, text, name_key, trim, strip_prefix, to_ascii_lowercase}
use slopmud.Prelude.Map.{get}

pub data Capability : Type 0 where
  admin_all : Capability
  raft_tail : Capability
  raft_watch : Capability
  world_warp : Capability
  world_proto_load : Capability
  group_create : Capability
  group_member_add : Capability
  group_member_remove : Capability
  group_role_set : Capability
  group_policy_set : Capability
  group_role_caps_set : Capability

-- `Capability::ALL`.
abbrev pub all_capabilities : List Capability
all_capabilities =
    admin_all ∷ raft_tail ∷ raft_watch ∷ world_warp ∷ world_proto_load ∷ group_create
    ∷ group_member_add ∷ group_member_remove ∷ group_role_set ∷ group_policy_set
    ∷ group_role_caps_set ∷ []

unfoldable pub as_str : Capability → Text
as_str admin_all = text "admin.all"
as_str raft_tail = text "raft.tail"
as_str raft_watch = text "raft.watch"
as_str world_warp = text "world.warp"
as_str world_proto_load = text "world.proto.load"
as_str group_create = text "group.create"
as_str group_member_add = text "group.member.add"
as_str group_member_remove = text "group.member.remove"
as_str group_role_set = text "group.role.set"
as_str group_policy_set = text "group.policy.set"
as_str group_role_caps_set = text "group.rolecaps.set"

-- The arms of `Capability::parse`.
abbrev pub capability_arms : List (Text × Capability)
capability_arms =
    (text "admin", admin_all)
    ∷ (text "admin.all", admin_all)
    ∷ (text "raft.tail", raft_tail)
    ∷ (text "raft.watch", raft_watch)
    ∷ (text "world.warp", world_warp)
    ∷ (text "world.proto.load", world_proto_load)
    ∷ (text "world.proto", world_proto_load)
    ∷ (text "proto.load", world_proto_load)
    ∷ (text "group.create", group_create)
    ∷ (text "group.member.add", group_member_add)
    ∷ (text "group.add", group_member_add)
    ∷ (text "group.member.remove", group_member_remove)
    ∷ (text "group.remove", group_member_remove)
    ∷ (text "group.role.set", group_role_set)
    ∷ (text "group.role", group_role_set)
    ∷ (text "group.policy.set", group_policy_set)
    ∷ (text "group.policy", group_policy_set)
    ∷ (text "group.rolecaps.set", group_role_caps_set)
    ∷ (text "group.rolecaps", group_role_caps_set)
    ∷ []

unfoldable pub parse : Text → Option Capability
parse s = get (name_key s) capability_arms

pub data GroupRole : Type 0 where
  owner : GroupRole
  officer : GroupRole
  member : GroupRole
  guest : GroupRole

unfoldable pub role_as_str : GroupRole → Text
role_as_str owner = text "owner"
role_as_str officer = text "officer"
role_as_str member = text "member"
role_as_str guest = text "guest"

-- The arms of `GroupRole::parse`.
abbrev pub role_arms : List (Text × GroupRole)
role_arms =
    (text "owner", owner)
    ∷ (text "leader", owner)
    ∷ (text "officer", officer)
    ∷ (text "mod", officer)
    ∷ (text "member", member)
    ∷ (text "guest", guest)
    ∷ []

unfoldable pub role_parse : Text → Option GroupRole
role_parse s = get (name_key s) role_arms

-- Equality of roles and of capabilities: they are equal if their names are.
unfoldable pub same_role : GroupRole → GroupRole → Bool
unfolding role_as_str
same_role a b = role_as_str a =? role_as_str b

unfoldable pub same_capability : Capability → Capability → Bool
unfolding as_str
same_capability a b = as_str a =? as_str b

pub data GroupKind : Type 0 where
  admin_kind : GroupKind
  guild_kind : GroupKind
  class_kind : Text → GroupKind
  custom_kind : GroupKind

unfoldable pub kind_as_str : GroupKind → Text
kind_as_str admin_kind = text "admin"
kind_as_str guild_kind = text "guild"
kind_as_str custom_kind = text "custom"
kind_as_str (class_kind c) = text "class:" ++ c

unfoldable pub class_parse : Text → Option GroupKind
unfolding trim
class_parse rest = let class = trim rest in if is_empty class then none else some (class_kind class)

unfoldable pub kind_parse : Text → Option GroupKind
unfolding class_parse strip_prefix name_key
kind_parse s =
    let t = name_key s in
    if t =? text "admin"
    then some admin_kind
    else if t =? text "guild"
    then some guild_kind
    else if t =? text "custom"
    then some custom_kind
    else elim (strip_prefix t (text "class:")) [ none ↦ none | some rest ↦ class_parse rest ]

-- What `apply_default_role_caps` gives a role, by the kind of the group.
abbrev pub manager_caps : List Capability
manager_caps =
    group_member_add ∷ group_member_remove ∷ group_role_set ∷ group_policy_set ∷ group_role_caps_set
    ∷ []

unfoldable pub default_role_caps : GroupKind → GroupRole → List Capability
default_role_caps admin_kind owner = all_capabilities
default_role_caps admin_kind officer = all_capabilities
default_role_caps admin_kind member = all_capabilities
default_role_caps admin_kind guest = []
default_role_caps guild_kind owner = manager_caps
default_role_caps guild_kind officer = manager_caps
default_role_caps guild_kind member = []
default_role_caps guild_kind guest = []
default_role_caps custom_kind owner = manager_caps
default_role_caps custom_kind officer = manager_caps
default_role_caps custom_kind member = []
default_role_caps custom_kind guest = []
default_role_caps (class_kind c) owner = manager_caps
default_role_caps (class_kind c) officer = manager_caps
default_role_caps (class_kind c) member = []
default_role_caps (class_kind c) guest = []

unfoldable pub implied_role_for_class : GroupKind → Text → Option GroupRole
implied_role_for_class (class_kind want) class =
    if to_ascii_lowercase want =? to_ascii_lowercase class then some member else none
implied_role_for_class admin_kind class = none
implied_role_for_class guild_kind class = none
implied_role_for_class custom_kind class = none

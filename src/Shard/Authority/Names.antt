-- ===== src/Shard/Authority/Names.antt =====
-- What is shown is read back, for capabilities and roles.
use slopmud.Prelude.{◌≡◌, refl, sym, ap, ◌∙◌, ◌↔◌, true, some, =?_iff, nat_eq, list_eq}
use slopmud.Prelude.Text.{Text, name_key}
use slopmud.Prelude.Map.{get}
use slopmud.Shard.Authority.{
  Capability, admin_all, raft_tail, raft_watch, world_warp, world_proto_load, group_create,
  group_member_add, group_member_remove, group_role_set, group_policy_set, group_role_caps_set,
  as_str, capability_arms, parse, GroupRole, owner, officer, member, guest, role_as_str, role_arms,
  role_parse, same_role,
}

arm_of : (c : Capability) → get (as_str c) capability_arms ≡ some c
unfolding as_str
arm_of admin_all = refl
arm_of raft_tail = refl
arm_of raft_watch = refl
arm_of world_warp = refl
arm_of world_proto_load = refl
arm_of group_create = refl
arm_of group_member_add = refl
arm_of group_member_remove = refl
arm_of group_role_set = refl
arm_of group_policy_set = refl
arm_of group_role_caps_set = refl

role_arm_of : (r : GroupRole) → get (role_as_str r) role_arms ≡ some r
unfolding role_as_str
role_arm_of owner = refl
role_arm_of officer = refl
role_arm_of member = refl
role_arm_of guest = refl

-- The name of a capability, in any ASCII case and with spaces around it, parses to it, and the name
-- of a role to the role.
pub parse-as_str :
    (c : Capability) (r : GroupRole) (s t : Text)
    → name_key s ≡ as_str c
    → name_key t ≡ role_as_str r
    → (parse s ≡ some c) × (role_parse t ≡ some r)
unfolding parse role_parse
parse-as_str c r s t hs ht =
    (ap (λ k. get k capability_arms) hs ∙ arm_of c, ap (λ k. get k role_arms) ht ∙ role_arm_of r)

same_role_iff : (a b : GroupRole) → (same_role a b ≡ true) ↔ (a ≡ b)
unfolding same_role
same_role_iff a b = (
  (λ h. some_injective (
      sym (role_arm_of a)
      ∙ ap (λ k. get k role_arms) ((=?_iff (role_as_str a) (role_as_str b)).0 h)
      ∙ role_arm_of b)),
  λ e. (=?_iff (role_as_str a) (role_as_str b)).1 (ap role_as_str e),
)
  where
    some_injective : {x y : GroupRole} → some x ≡ some y → x ≡ y
    some_injective {x} {y} h = cc

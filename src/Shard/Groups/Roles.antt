-- ===== src/Shard/Groups/Roles.antt =====
-- A member's role after the log sets it.
use slopmud.Prelude.{
  ℕ, ◌≡◌, ap, not, ◌&&◌, Option, none, some, List, arith, if◌then◌else◌, Bool-cases, Option-cases,
  ◌=?◌, nat_eq, list_eq, is_empty,
}
use slopmud.Prelude.Text.{Text, name_key}
use slopmud.Prelude.Map.{get, get-insert, get-remove}
use slopmud.Shard.Authority.{GroupRole, implied_role_for_class}
use slopmud.Shard.Groups.{
  Group, GroupStore, log_member_set, apply, update, set_member, set_or_remove, role_in,
  role_for_principal_in_group,
}

get-set_or_remove :
    (k j : Text) (o : Option GroupRole) (m : List (Text × GroupRole))
    → get k (set_or_remove j o m) ≡ (if k =? j then o else get k m)
unfolding set_or_remove
get-set_or_remove k j none m = get-remove k j m
get-set_or_remove k j (some v) m = get-insert k j v m

get-update :
    (i id : ℕ) (f : Group → Group) (g : Group) (groups : List (ℕ × Group))
    → get id groups ≡ some g
    → get i (update id f groups) ≡ (if i =? id then some (f g) else get i groups)
unfolding update
get-update i id f g groups h = ground (arith, h, get-insert i id (f g) groups)

role_in-set_member :
    (who principal class : Text) (role : Option GroupRole) (g : Group)
    → role_in (set_member who role g) principal class ≡ (
        if not (is_empty (name_key who)) && (name_key principal =? name_key who)
        then elim role [ some r ↦ some r | none ↦ implied_role_for_class g.kind class ]
        else role_in g principal class)
unfolding role_in set_member
role_in-set_member who principal class role g = ground (
  arith,
  Bool-cases (is_empty (name_key who)),
  get-set_or_remove (name_key principal) (name_key who) role g.members,
  Bool-cases (name_key principal =? name_key who),
  Option-cases role,
)

-- Setting a member's role in a group that is there changes the role of that member in that group, to
-- the one set, or to the one that the class implies if it is removed; it changes no other role, and
-- none at all if the member's name is blank.
pub role_for_principal_in_group-apply :
    (s : GroupStore) (id i : ℕ) (g : Group) (who principal class : Text) (role : Option GroupRole)
    → get id s.groups ≡ some g
    → role_for_principal_in_group (apply s (log_member_set id who role)) i principal class ≡ (
        if (i =? id) && not (is_empty (name_key who)) && (name_key principal =? name_key who)
        then elim role [ some r ↦ some r | none ↦ implied_role_for_class g.kind class ]
        else role_for_principal_in_group s i principal class)
unfolding apply role_for_principal_in_group
role_for_principal_in_group-apply s id i g who principal class role h = ground (
  arith,
  h,
  get-update i id (set_member who role) g s.groups h,
  role_in-set_member who principal class role g,
  same,
  Bool-cases (name_key principal =? name_key who),
  Bool-cases (i =? id),
)
  where
    same : i ≡ id → get i s.groups ≡ get id s.groups
    same e = ap (λ k. get k s.groups) e

-- ===== src/Shard/Groups/Tests.antt =====
-- The theorems at a small store of groups.
use slopmud.Prelude.{
  ◌≡◌, refl, true, ◌&&◌, some, List, [], ◌∷◌, ◌==◌, if◌then◌else◌, ◌=?◌, nat_eq, list_eq, any,
}
use slopmud.Prelude.Text.{
  text, name_key, trim, trim_start_matches, trim_end_matches, is_whitespace, to_ascii_lowercase,
  lower,
}
use slopmud.Prelude.Map.{values}
use slopmud.Shard.Authority.{
  admin_all, group_member_add, as_str, parse, owner, officer, member, guest, role_as_str,
  role_parse, admin_kind, class_kind,
}
use slopmud.Shard.Groups.{
  Group, GroupStore, empty_store, new, GroupLogEntry, log_group_create, log_member_set, apply,
  update, set_member, set_or_remove, effective_caps_for_principal, role_for_principal_in_group,
}
use slopmud.Shard.Authority.Names.{parse-as_str}
use slopmud.Shard.Groups.Roles.{role_for_principal_in_group-apply}
use slopmud.Shard.Groups.Admin.{has, is_admin_of, replay, replay-is_admin_of}

parse-as_str_example :
    (parse (text " Group.Member.Add") ≡ some group_member_add)
    × (role_parse (text "OFFICER") ≡ some officer)
unfolding name_key trim trim_start_matches trim_end_matches is_whitespace to_ascii_lowercase lower
    as_str role_as_str
parse-as_str_example =
    parse-as_str group_member_add officer (text " Group.Member.Add") (text "OFFICER") refl refl

abbrev mages : Group
unfolding new
mages = record (new 5 (class_kind (text "Mage")) (text "Mages")) {
  members = (text "al", owner) ∷ [];
}

abbrev store : GroupStore
store = record { groups = (5, mages) ∷ []; group_ids_by_name = [] }

role_for_principal_in_group-apply_example :
    role_for_principal_in_group
      (apply store (log_member_set 5 (text "Bo") (some guest)))
      5
      (text "bo")
      (text "mage")
    ≡ (if (5 == 5) && (name_key (text "bo") =? name_key (text "Bo"))
        then some guest
        else role_for_principal_in_group store 5 (text "bo") (text "mage"))
unfolding name_key trim trim_start_matches trim_end_matches is_whitespace to_ascii_lowercase lower
role_for_principal_in_group-apply_example =
    role_for_principal_in_group-apply store 5 5 mages (text "Bo") (text "bo") (text "mage")
      (some guest) refl

abbrev log : List GroupLogEntry
log =
    log_group_create 1 admin_kind (text "admins") ∷ log_member_set 1 (text "Al") (some member) ∷ []

replay-is_admin_of_example :
    has admin_all (effective_caps_for_principal (replay empty_store log) (text "al") (text "mage"))
    ≡ any (is_admin_of (text "al")) (values (replay empty_store log).groups)
replay-is_admin_of_example = replay-is_admin_of log (text "al") (text "mage") (refl, (refl, tt))

al_is_admin : any (is_admin_of (text "al")) (values (replay empty_store log).groups) ≡ true
unfolding empty_store apply new update set_member set_or_remove name_key trim trim_start_matches
    trim_end_matches is_whitespace to_ascii_lowercase lower
al_is_admin = refl

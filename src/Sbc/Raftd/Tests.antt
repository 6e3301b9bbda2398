-- ===== src/Sbc/Raftd/Tests.antt =====
-- The theorem at a state with one ban.
use slopmud.Prelude.{◌^◌, ◌≡◌, refl, ◌↔◌, some, nat_eq, list_eq}
use slopmud.Prelude.Text.{
  text, trim, trim_start_matches, trim_end_matches, is_whitespace, split_once,
}
use slopmud.Prelude.Map.{get}
use slopmud.Sbc.Prefix.{AddrText, v4, to_cidr_string, parse_cidr, new, mask_addr, mask}
use slopmud.Sbc.Event.{upsert_ban}
use slopmud.Sbc.Raftd.{
  empty_state, Outside, Reply, handle_admin, apply_upsert_ban, ban_id_for, commit, expires_at,
}
use slopmud.Sbc.Raftd.Consistent.{Reached, start, step, cidr_of, reached-IsIndex}

abbrev std : AddrText
std = record {
  show_addr = λ a. text "1.0.0.0";
  show_u8 = λ n. text "8";
  parse_addr = λ s. some (v4 (2 ^ 24));
  parse_u8 = λ s. some 8;
}

abbrev out : Outside
out = record { now = 100; random_id = text "id1" }

-- The answer to a request for a ban of an hour.
abbrev first : Reply
unfolding empty_state commit expires_at apply_upsert_ban ban_id_for to_cidr_string
first =
    apply_upsert_ban std empty_state out (record { addr = v4 (2 ^ 24); prefix_len = 8 }) 3600
      (text "root") (text "spam")

banned : Reached std first.0
unfolding first empty_state handle_admin parse_cidr new mask_addr mask trim trim_start_matches
    trim_end_matches is_whitespace split_once
banned =
    step empty_state out (upsert_ban (text "1.0.0.0/8") 3600 (text "root") (text "spam")) first
      start refl refl

reached-IsIndex_example :
    (get (text "1.0.0.0/8") first.0.ban_by_key ≡ some (text "id1"))
    ↔ (cidr_of std (get (text "id1") first.0.bans) ≡ some (text "1.0.0.0/8"))
reached-IsIndex_example = reached-IsIndex std first.0 banned (text "1.0.0.0/8") (text "id1")

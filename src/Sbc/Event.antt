-- ===== src/Sbc/Event.antt =====
-- crates/sbc_core/src/lib.rs: what administrators ask of the daemon, what it answers, and the events
-- that it sends to its subscribers. A time is in seconds.
use slopmud.Prelude.{ℕ, Bool, Option, List}
use slopmud.Prelude.Text.{Text}
use slopmud.Sbc.Prefix.{IpPrefix}

pub record BanEntry : Type 0 where
  pub ban_id : Text
  pub key : IpPrefix
  pub created_at_unix : ℕ
  pub created_by : Text
  pub reason : Text
  pub expires_at_unix : ℕ

pub record LegalHoldEntry : Type 0 where
  pub name_lc : Text
  pub created_at_unix : ℕ
  pub created_by : Text
  pub reason : Text

pub record EnforcementStatus : Type 0 where
  pub node_id : Text
  pub dns_name : Text
  pub dns_enabled : Bool
  pub dns_last_error : Option Text
  pub backend : Text
  pub backend_attached : Bool
  pub enforcement_mode : Text
  pub reported_at_unix : ℕ

pub record BanApplyResult : Type 0 where
  pub node_id : Text
  pub ban_id : Text
  pub op : Text
  pub outcome : Text
  pub error : Option Text
  pub reported_at_unix : ℕ

pub data AdminReq : Type 0 where
  upsert_ban : Text → ℕ → Text → Text → AdminReq
  delete_ban : Text → AdminReq
  upsert_legal_hold : Text → Text → Text → AdminReq
  delete_legal_hold : Text → AdminReq
  report_enforcement_status : EnforcementStatus → AdminReq
  report_ban_apply_result : BanApplyResult → AdminReq
  get_state : AdminReq

pub data AdminResp : Type 0 where
  ok : ℕ → AdminResp
  ok_ban : ℕ → BanEntry → AdminResp
  ok_legal_hold : ℕ → LegalHoldEntry → AdminResp
  ok_state : ℕ → List BanEntry → List LegalHoldEntry → AdminResp
  err : Text → AdminResp

pub data Event : Type 0 where
  snapshot : List BanEntry → List LegalHoldEntry → Event
  ban_upserted : BanEntry → Event
  ban_deleted : Text → Event
  legal_hold_upserted : LegalHoldEntry → Event
  legal_hold_deleted : Text → Event
  enforcement_status : EnforcementStatus → Event
  ban_apply_result : BanApplyResult → Event

pub record EventEnvelope : Type 0 where
  pub index : ℕ
  pub event : Event

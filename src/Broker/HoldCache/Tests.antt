-- ===== src/Broker/HoldCache/Tests.antt =====
-- The theorems at a hold of the daemon.
use slopmud.Prelude.{◌≡◌, refl, true, false, some, [], ◌∷◌, nat_eq, list_eq}
use slopmud.Prelude.Text.{
  text, name_key, trim, trim_start_matches, trim_end_matches, is_whitespace, to_ascii_lowercase,
  lower,
}
use slopmud.Sbc.Prefix.{AddrText, v4}
use slopmud.Sbc.Event.{LegalHoldEntry, delete_legal_hold, ok, legal_hold_deleted}
use slopmud.Sbc.Raftd.{
  PersistedState, empty_state, Outside, Reply, handle_admin, apply_delete_hold, commit,
}
use slopmud.Broker.HoldCache.{Listener, is_held, on_event}
use slopmud.Broker.HoldCache.Follow.{on_event-Follows, after_event, held_by}
use slopmud.Broker.HoldCache.Flags.{on_event-IsFlagged, IsFlagged}

abbrev std : AddrText
std = record {
  show_addr = λ a. [];
  show_u8 = λ n. n ∷ [];
  parse_addr = λ s. some (v4 1);
  parse_u8 = λ s. some 8;
}

abbrev entry : LegalHoldEntry
entry = record { name_lc = text "bob"; created_at_unix = 1; created_by = text "root"; reason = [] }

abbrev daemon : PersistedState
unfolding empty_state
daemon = record empty_state { holds = (text "bob", entry) ∷ [] }

abbrev broker : Listener
broker = record {
  cache = record { holds = (text "bob", entry) ∷ []; last_index = 4 };
  sessions =
      record { name = text "Bob"; held = true } ∷ record { name = text "al"; held = false } ∷ [];
}

abbrev out : Outside
out = record { now = 7; random_id = text "x" }

abbrev reply : Reply
reply = (
  record {
    next_index = 2;
    bans = [];
    ban_by_key = [];
    holds = [];
    last_status_by_node = [];
    last_apply_by_node_ban = [];
  },
  ok 1,
  some (record { index = 1; event = legal_hold_deleted (text "bob") }),
)

handled : handle_admin std daemon out (delete_legal_hold (text " BOB ")) ≡ some reply
unfolding daemon empty_state handle_admin apply_delete_hold commit name_key trim trim_start_matches
    trim_end_matches is_whitespace to_ascii_lowercase lower
handled = refl

on_event-Follows_example :
    is_held (after_event broker reply.2).cache (text "Bob") ≡ held_by reply.0 (text "Bob")
unfolding daemon empty_state is_held
on_event-Follows_example =
    on_event-Follows std daemon out broker (delete_legal_hold (text " BOB ")) reply (λ name. refl)
      handled (text "Bob")

on_event-IsFlagged_example :
    IsFlagged
      (on_event broker (record { index = 9; event = legal_hold_deleted (text "bob") })).cache
      (on_event broker (record { index = 9; event = legal_hold_deleted (text "bob") })).sessions
unfolding is_held name_key trim trim_start_matches trim_end_matches is_whitespace to_ascii_lowercase
    lower
on_event-IsFlagged_example =
    on_event-IsFlagged broker (record { index = 9; event = legal_hold_deleted (text "bob") })
      (refl, (refl, tt))

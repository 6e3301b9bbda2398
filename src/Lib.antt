-- ===== src/Lib.antt =====
-- slopmud, a multi-user dungeon: telnet clients talk to a broker (crates/slopmud), which speaks to
-- game shards (apps/shard_01) in length-prefixed frames and learns of network bans and legal holds
-- from a daemon (apps/sbc_raftd). This library models the parts of these programs that decide what
-- is read, written, stored and refused, and proves what they promise each other.
--
-- - Slopio (crates/slopio/src): Slopio.Telnet is IacParser (telnet.rs), Slopio.Line is LineReader
--   (line.rs), Slopio.Frame is FrameReader and FrameWriter (frame.rs). A stream is the list of what
--   its reads give (Slopio.Stream), so the loops of the readers recurse on it and end with it.
-- - Mudproto (crates/mudproto/src): session ids, and the parsers of shard and chat messages. A parser
--   that would index or slice out of range gives `panic`.
-- - Broker (crates/slopmud/src): Broker.Wire is write_req and attach_body of main.rs, and
--   write_resp_async of apps/shard_01/src/main.rs; Broker.LineId is LineId and LineIdGen;
--   Broker.Scrollback is Scrollback; Broker.Throttle is LoginThrottle; Broker.HoldCache is hold.rs
--   and the loop of main.rs that feeds it.
-- - Sbc: Sbc.Prefix and Sbc.Event are crates/sbc_core/src/lib.rs; Sbc.Raftd is the state of
--   apps/sbc_raftd/src/main.rs and handle_admin_conn, one function for each kind of request.
-- - Shard (apps/shard_01/src): Shard.Authority and Shard.Groups are groups.rs: capabilities, roles and
--   kinds, Group and GroupStore. Shard.Rooms is Rooms of rooms.rs, Shard.Equipment the slots of items.rs,
--   Shard.RaftLog the log of raftlog.rs. The rest is main.rs: Shard.Creature has races, classes and
--   ability scores, Shard.Skills the table of skills, Shard.Quests gate expressions and contracts, and
--   Shard.World the struct World with its methods and event handlers,
--   one module for each group of them: Events, Parties, Places and Moves, Births, Snapshots and
--   Departures, Inventory, Experience, Combat, Blows, Dice and Runs. Shard.World.Deeds puts them together: a deed is a handler
--   that moves, makes or removes characters or changes parties.
-- - Prelude: shared notation and lemmas. Prelude.Bytes and Prelude.Bits are byte order, shifts and
--   masks as arithmetic; Prelude.Text is `str` as code points; Prelude.Map is `HashMap` as an
--   association list, Prelude.Buckets `HashSet` and maps of sets, Prelude.Int signed numbers.
--
-- A record is a struct, and a method is a function from the record to the record; what an operation
-- sends or answers is part of its result. A number of w bits is a natural number, with `% 2 ^ w` or
-- the saturation written where the source wraps or saturates; `usize` has 64 bits, and sums of
-- lengths of buffers in memory do not reach it. Two loops run on fuel, and a theorem says that enough is
-- given: the loop over levels (one step for each point of experience), and the start of a fight, whose
-- two functions call each other (one more than there are characters that do not attack). The loop over
-- due events runs on any fuel: its handlers, a parameter here, may schedule events that are due at
-- once. All other recursion is on a list or on a digit count.
--
-- Parameters stand for code outside the repository: memchr, which finds the first byte of a value,
-- the standard library's printing and parsing of addresses (AddrText), serde_json's writing and
-- reading of log entries (encode and decode in Shard.RaftLog), the clock and random ids.
--
-- Not modelled: sockets, tasks, files, JSON, logging and prompts; of the shard, rounds of a fight, the use of skills, bosses,
-- shops and most game commands; the web applications; generated code.
pub mod Prelude
pub mod Slopio
pub mod Mudproto
pub mod Broker
pub mod Shard
pub mod Sbc

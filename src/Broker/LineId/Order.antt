-- ===== src/Broker/LineId/Order.antt =====
-- The ids of a generator, as the clock goes.
use Prim.Native.Nat.{bit_and, bit_or}
use native.Mathlib.Nat.{mod-eq_of_lt}
use slopmud.Prelude.{
  ℕ, ◌+◌, ◌-◌, ◌*◌, ◌%◌, ◌^◌, ◌≤◌, ◌<◌, max, ◌≡◌, ap, ap₂, ◌∙◌, ◌⊎◌, List, [], ◌∷◌, arith, nat_eq,
  list_eq, All,
}
use slopmud.Prelude.Bits.{bit_or-shifted, bit_and-ones}
use slopmud.Broker.LineId.{epoch_unix_ms, timestamp_unix_ms, LineIdGen, id_of, advance, next_id}

seq_mask : (a : ℕ) → bit_and a 0x0fff ≡ a % 4096
seq_mask a = bit_and-ones 12 a

node_mask : (a : ℕ) → bit_and a 0x03ff ≡ a % 1024
node_mask a = bit_and-ones 10 a

-- Three fields of 42, 10 and 12 bits.
pack :
    (d n s : ℕ)
    → d < 2 ^ 42
    → bit_or (bit_or (d * 2 ^ 22 % 2 ^ 64) (bit_and n 0x03ff * 2 ^ 12)) (bit_and s 0x0fff)
      ≡ d * 4194304 + n % 1024 * 4096 + s % 4096
pack d n s h =
    let node : ℕ = n % 1024 in
    let seq : ℕ = s % 4096 in
    let whole : d * 2 ^ 22 % 2 ^ 64 ≡ d * 2 ^ 22 = mod-eq_of_lt (omega arith) in
    let high : bit_or (d * 2 ^ 22) (node * 2 ^ 12) ≡ (d * 1024 + node) * 2 ^ 12 =
      bit_or-shifted 22 d (node * 2 ^ 12) (omega arith) ∙ omega arith in
    ap₂ bit_or (ap₂ bit_or whole (ap (λ k. k * 2 ^ 12) (node_mask n)) ∙ high) (seq_mask s)
    ∙ bit_or-shifted 12 (d * 1024 + node) seq (omega arith)
    ∙ omega arith

-- The next state has a later time, or the same time and a larger count.
Later : LineIdGen → LineIdGen → Type 0
Later g k =
    (g.node_bits ≡ k.node_bits)
    × ((g.last_ts_ms < k.last_ts_ms)
        ⊎ ((g.last_ts_ms ≡ k.last_ts_ms) × (g.seq % 4096 < k.seq % 4096)))

advance-Later : (g : LineIdGen) (now : ℕ) → g.last_ts_ms + 1 < 2 ^ 64 → Later g (advance g now)
unfolding advance Later
advance-Later g now h = ground (arith, seq_mask ((g.seq + 1) % 2 ^ 16))

id_of-Later :
    (g k : LineIdGen)
    → epoch_unix_ms ≤ g.last_ts_ms
    → k.last_ts_ms < epoch_unix_ms + 2 ^ 42
    → Later g k
    → id_of g < id_of k
unfolding id_of Later
id_of-Later g k after before h = ground (
  arith,
  h,
  pack (g.last_ts_ms - epoch_unix_ms) g.node_bits g.seq,
  pack (k.last_ts_ms - epoch_unix_ms) k.node_bits k.seq,
)

-- The generator and the ids after a sequence of calls.
abbrev pub run : LineIdGen → List ℕ → LineIdGen × List ℕ
run g [] = (g, [])
run g (now ∷ nows) = let (k, id) = next_id g now in let (last, ids) = run k nows in (last, id ∷ ids)

-- Every number is above the one before it, and all are above `low`.
abbrev pub IsAscending : ℕ → List ℕ → Type 0
IsAscending low [] = Unit
IsAscending low (id ∷ ids) = (low < id) × IsAscending id ids

advance_later :
    (g : LineIdGen) (now : ℕ)
    → g.last_ts_ms < 2 ^ 64
    → now < 2 ^ 64
    → (max now g.last_ts_ms ≤ (advance g now).last_ts_ms) × ((advance g now).last_ts_ms < 2 ^ 64)
unfolding advance
advance_later g now h k = ground arith

run_later :
    (g : LineIdGen) (nows : List ℕ)
    → g.last_ts_ms < 2 ^ 64
    → All (λ now. now < 2 ^ 64) nows
    → g.last_ts_ms ≤ (run g nows).0.last_ts_ms
unfolding next_id
run_later g [] h clock = omega arith
run_later g (now ∷ nows) h clock =
    let (le, small) = advance_later g now h clock.0 in
    omega (arith, le, run_later (advance g now) nows small clock.1)

run-IsAscending :
    (g : LineIdGen) (nows : List ℕ)
    → epoch_unix_ms ≤ g.last_ts_ms
    → g.last_ts_ms < 2 ^ 64
    → All (λ now. now < 2 ^ 64) nows
    → (run g nows).0.last_ts_ms < epoch_unix_ms + 2 ^ 42
    → IsAscending (id_of g) (run g nows).1
unfolding next_id
run-IsAscending g [] after h clock before = tt
run-IsAscending g (now ∷ nows) after h clock before =
    let k = advance g now in
    let (le, small) = advance_later g now h clock.0 in
    let later : k.last_ts_ms ≤ (run k nows).0.last_ts_ms = run_later k nows small clock.1 in
    (
      id_of-Later g k after (omega arith) (advance-Later g now (omega arith)),
      run-IsAscending k nows (omega arith) small clock.1 before,
    )

timestamp_of :
    (g : LineIdGen)
    → epoch_unix_ms ≤ g.last_ts_ms
    → g.last_ts_ms < epoch_unix_ms + 2 ^ 42
    → timestamp_unix_ms (id_of g) ≡ g.last_ts_ms
unfolding id_of timestamp_unix_ms
timestamp_of g after before = omega (arith, pack (g.last_ts_ms - epoch_unix_ms) g.node_bits g.seq)

-- The ids that `next_id` gives at any 64-bit clock values, also repeated ones or ones that go back,
-- are strictly ascending, and so distinct, if the first clock value is the epoch or later and the
-- last timestamp is within 42 bits of it; and the first id's timestamp is the generator's after it.
pub next_id-IsAscending :
    (g : LineIdGen) (now : ℕ) (nows : List ℕ)
    → epoch_unix_ms ≤ now
    → g.last_ts_ms < 2 ^ 64
    → All (λ now. now < 2 ^ 64) (now ∷ nows)
    → (run g (now ∷ nows)).0.last_ts_ms < epoch_unix_ms + 2 ^ 42
    → IsAscending (next_id g now).1 (run (next_id g now).0 nows).1
      × (timestamp_unix_ms (next_id g now).1 ≡ (next_id g now).0.last_ts_ms)
unfolding next_id timestamp_unix_ms
next_id-IsAscending g now nows after h clock before =
    let k = advance g now in
    let (le, small) = advance_later g now h clock.0 in
    let later : k.last_ts_ms ≤ (run k nows).0.last_ts_ms = run_later k nows small clock.1 in
    let start : epoch_unix_ms ≤ k.last_ts_ms = omega (arith, le) in
    (run-IsAscending k nows start small clock.1 before, timestamp_of k start (omega arith))

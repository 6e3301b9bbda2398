-- ===== src/Shard/Quests/Contracts.antt =====
-- apps/shard_01/src/main.rs: q2_room_enter, which completes the contracts of the job board.
pub mod Progress
mod Tests
use slopmud.Prelude.{
  ℕ, zero, suc, ◌+◌, ◌-◌, ◌*◌, ◌/◌, ◌%◌, ◌^◌, ◌≤◌, ◌<◌, min, max, ◌≡◌, refl, sym, ap, ap₂, ◌∙◌,
  subst, ◌≢◌, ◌↔◌, ◌⊎◌, inl, inr, Bool, true, false, not, ◌&&◌, ◌||◌, Option, none, some, List, [],
  ◌∷◌, ◌++◌, map, append-nil, append_assoc, arith, ltb, leb, ◌==◌, if◌then◌else◌, ==_iff,
  Bool-cases, Option-cases, Eq, ◌=?◌, =?_iff, =?_refl, nat_eq, list_eq, list_beq, list_beq_iff,
  length, get_elem?, take, drop, is_empty, any, all, concat, All, length-append, take-append-drop,
  length-take, length-drop, take_front, drop_front, take_all, take_front_of, drop_front_of,
  take-append_left, take_past, drop_past, get_elem?-front, get_elem?-append_left, All-append,
  All-left, reverse, reverse-append, reverse-reverse, filter, length-reverse, drop-append,
  drop-drop, drop_all, reverse-take, take_one, take_over, take_least, All-right,
}
use slopmud.Prelude.Text.{Text, text, trim, starts_with}
use slopmud.Prelude.Map.{get, insert}
use slopmud.Prelude.Int.{ℤ, pos, negsuc}
use slopmud.Shard.Quests.{Quest, parse_i64, eval_gate_expr}

abbrev pub contract_a : Text
contract_a = text "q.q2_job_board.contract_a"

abbrev pub contract_b : Text
contract_b = text "q.q2_job_board.contract_b"

abbrev pub contract_c : Text
contract_c = text "q.q2_job_board.contract_c"

abbrev pub clinic_slip : Text
clinic_slip = text "q.q2_job_board.contract_c_clinic"

abbrev pub contracts_done_key : Text
contracts_done_key = text "q.q2_job_board.contracts_done"

abbrev pub state_key : Text
state_key = text "q.q2_job_board.state"

abbrev pub repeatables_key : Text
repeatables_key = text "q.q2_job_board.repeatables_unlocked"

-- `clamp(0, 3)`, whose value is a natural number.
unfoldable pub clamp_3 : ℤ → ℕ
clamp_3 (pos n) = min n 3
clamp_3 (negsuc n) = 0

unfoldable pub contracts_done : Quest → ℕ
unfolding clamp_3 parse_i64
contracts_done q = elim (get contracts_done_key q) [
  | none ↦ 0
  | some v ↦ elim (parse_i64 (trim v)) [ none ↦ 0 | some n ↦ clamp_3 n ]
]

-- `to_string` of a number below ten.
abbrev pub digit : ℕ → Text
digit n = (b'0' + n) ∷ []

unfoldable pub set_contracts_done : Quest → ℕ → Quest
set_contracts_done q v = insert contracts_done_key (digit (min v 3)) q

abbrev pub state_for : ℕ → Text
state_for n =
    if n == 0
    then text "unstarted"
    else if n == 1
    then text "contract_1"
    else if n == 2
    then text "contract_2"
    else text "contract_3"

unfoldable pub set_state_for_done : Quest → ℕ → Quest
unfolding starts_with
set_state_for_done q done =
    let cur : Text = elim (get state_key q) [ none ↦ [] | some v ↦ trim v ] in
    if not (is_empty cur)
      && not (starts_with cur (text "contract"))
      && not (cur =? text "unstarted")
    then q
    else insert state_key (state_for (min done 3)) q

-- The quest keys after the contract, with the number of contracts then done.
unfoldable pub complete_contract : Quest → Text → Quest × Option ℕ
unfolding eval_gate_expr contracts_done set_contracts_done set_state_for_done
complete_contract q key =
    if eval_gate_expr q key
    then (q, none)
    else let signed : Quest = insert key (text "1") q in
      let done : ℕ = min (contracts_done signed + 1) 3 in
      (set_state_for_done (set_contracts_done signed done) done, some done)

abbrev pub crlf : Text
crlf = 13 ∷ 10 ∷ []

unfoldable pub contract_msg : Text → Quest → ℕ → Text
unfolding eval_gate_expr
contract_msg letter q done =
    (text "contract " ++ letter)
    ++ (text " complete. (contracts done: " ++ digit done)
    ++ (text "/3)" ++ crlf)
    ++ (if leb 3 done && not (eval_gate_expr q repeatables_key)
        then text "return to the job board. (try: look board)" ++ crlf
        else [])

unfoldable pub contract_room : Text → Text → Quest → Quest × Option Text
unfolding complete_contract contract_msg
contract_room letter key q =
    let (after, count) = complete_contract q key in
    elim count [ none ↦ (after, none) | some done ↦ (after, some (contract_msg letter after done)) ]

unfoldable pub clinic_room : Quest → Quest × Option Text
unfolding eval_gate_expr
clinic_room q = if eval_gate_expr q clinic_slip then (q, none) else (
  insert clinic_slip (text "1") q,
  some (text "clinic: a medic stamps a slip with brisk disinterest." ++ crlf),
)

unfoldable pub q2_room_enter : Quest → Text → Quest × Option Text
unfolding contract_room clinic_room eval_gate_expr
q2_room_enter q room_id =
    if room_id =? text "R_MEADOW_PEST_02"
    then contract_room (text "A") contract_a q
    else if room_id =? text "R_ORCHARD_NEST_01"
    then contract_room (text "B") contract_b q
    else if room_id =? text "R_TOWN_CLINIC_01"
    then clinic_room q
    else if room_id =? text "R_TOWN_EDGE_01"
    then if eval_gate_expr q clinic_slip then contract_room (text "C") contract_c q else (q, none)
    else (q, none)

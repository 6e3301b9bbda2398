-- ===== src/Shard/Quests/Contracts/Tests.antt =====
-- The theorem at a contract that is completed for the first time.
use slopmud.Prelude.{◌+◌, min, ◌≡◌, true, none, [], if◌then◌else◌, nat_eq, list_eq}
use slopmud.Shard.Quests.{Quest, eval_gate_expr}
use slopmud.Shard.Quests.Contracts.{contract_a, contracts_done, complete_contract}
use slopmud.Shard.Quests.Contracts.Progress.{is_a, complete_contract_once}

abbrev fresh : Quest
fresh = []

complete_contract_once_example :
    (eval_gate_expr (complete_contract fresh contract_a).0 contract_a ≡ true)
    × (contracts_done (complete_contract fresh contract_a).0 ≡ (
        if eval_gate_expr fresh contract_a
        then contracts_done fresh
        else min (contracts_done fresh + 1) 3))
    × ((if eval_gate_expr fresh contract_a
          then complete_contract fresh contract_a
          else (fresh, none))
        ≡ (fresh, none))
    × (complete_contract (complete_contract fresh contract_a).0 contract_a
        ≡ ((complete_contract fresh contract_a).0, none))
complete_contract_once_example = complete_contract_once contract_a is_a fresh

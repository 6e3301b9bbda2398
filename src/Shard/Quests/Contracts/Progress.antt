-- ===== src/Shard/Quests/Contracts/Progress.antt =====
-- What entering rooms does to the count of contracts.
use slopmud.Prelude.{
  ℕ, zero, suc, ◌+◌, ◌≤◌, min, ◌≡◌, refl, sym, ap, ◌∙◌, inl, inr, true, false, Option, none, some,
  [], ◌∷◌, arith, if◌then◌else◌, Bool-cases, Option-cases, ◌=?◌, =?_refl, nat_eq, list_eq,
}
use slopmud.Prelude.Text.{
  Text, text, trim, trim_start_matches, trim_end_matches, is_whitespace, strip_prefix,
  is_ascii_digit,
}
use slopmud.Prelude.Map.{get, insert, get-insert}
use slopmud.Shard.Quests.{
  Quest, parse_i64, parse_digits, digits_value, is_nonzero, truthy, split_at, eval_ops,
  eval_gate_expr,
}
use slopmud.Shard.Quests.Contracts.{
  contract_a, contract_b, contract_c, contracts_done_key, state_key, clamp_3, digit, contracts_done,
  set_contracts_done, state_for, set_state_for_done, complete_contract,
}

-- The three contracts of the board.
pub data IsContract : Text → Type 0 where
  is_a : IsContract contract_a
  is_b : IsContract contract_b
  is_c : IsContract contract_c

gate_of_contract :
    (key : Text) → IsContract key → (q : Quest) → eval_gate_expr q key ≡ truthy (get key q)
unfolding eval_gate_expr eval_ops split_at strip_prefix trim trim_start_matches trim_end_matches
    is_whitespace
gate_of_contract key is_a q = refl
gate_of_contract key is_b q = refl
gate_of_contract key is_c q = refl

-- A contract's key is none of the counter's.
own_key :
    (key : Text)
    → IsContract key
    → ((key =? state_key) ≡ false)
      × ((key =? contracts_done_key) ≡ false)
      × ((contracts_done_key =? key) ≡ false)
own_key key is_a = (refl, refl, refl)
own_key key is_b = (refl, refl, refl)
own_key key is_c = (refl, refl, refl)

get-set_state_for_done :
    (k : Text) (q : Quest) (d : ℕ)
    → (k =? state_key) ≡ false
    → get k (set_state_for_done q d) ≡ get k q
unfolding set_state_for_done
get-set_state_for_done k q d h = ground (arith, h, get-insert k state_key (state_for (min d 3)) q)

count_of : Option Text → ℕ
unfolding contracts_done
count_of v = contracts_done (elim v [ none ↦ [] | some t ↦ (contracts_done_key, t) ∷ [] ])

contracts_done-count_of : (q : Quest) → contracts_done q ≡ count_of (get contracts_done_key q)
unfolding contracts_done count_of
contracts_done-count_of q = ground (arith, Option-cases (get contracts_done_key q))

count_of-digit : (m : ℕ) → m ≤ 3 → count_of (some (digit m)) ≡ m
unfolding count_of contracts_done parse_i64 parse_digits digits_value is_ascii_digit clamp_3 trim
    trim_start_matches trim_end_matches is_whitespace
count_of-digit zero h = refl
count_of-digit (suc zero) h = refl
count_of-digit (suc (suc zero)) h = refl
count_of-digit (suc (suc (suc zero))) h = refl
count_of-digit (suc (suc (suc (suc n)))) h = absurd (omega arith)

truthy_one : truthy (some (text "1")) ≡ true
unfolding truthy parse_i64 parse_digits digits_value is_ascii_digit is_nonzero trim
    trim_start_matches trim_end_matches is_whitespace
truthy_one = refl

-- The keys after a contract is signed for the first time.
unfoldable signed : Quest → Text → Quest
signed q key =
    let new : Quest = insert key (text "1") q in
    let done : ℕ = min (contracts_done new + 1) 3 in
    set_state_for_done (set_contracts_done new done) done

get-signed : (key : Text) → IsContract key → (q : Quest) → get key (signed q key) ≡ some (text "1")
unfolding signed set_contracts_done
get-signed key k q =
    let new : Quest = insert key (text "1") q in
    let done : ℕ = min (contracts_done new + 1) 3 in
    let apart = own_key key k in
    get-set_state_for_done key (set_contracts_done new done) done apart.0
    ∙ ground (
      arith,
      apart.1,
      get-insert key contracts_done_key (digit (min done 3)) new,
      get-insert key key (text "1") q,
      =?_refl key,
    )

contracts_done-signed :
    (key : Text)
    → IsContract key
    → (q : Quest) → contracts_done (signed q key) ≡ min (contracts_done q + 1) 3
unfolding signed set_contracts_done
contracts_done-signed key k q =
    let new : Quest = insert key (text "1") q in
    let done : ℕ = min (contracts_done new + 1) 3 in
    let apart = own_key key k in
    let same : get contracts_done_key new ≡ get contracts_done_key q =
      ground (arith, apart.2, get-insert contracts_done_key key (text "1") q) in
    let unchanged : contracts_done new ≡ contracts_done q =
      contracts_done-count_of new ∙ ap count_of same ∙ sym (contracts_done-count_of q) in
    let stored : get contracts_done_key (signed q key) ≡ some (digit (min done 3)) =
      get-set_state_for_done contracts_done_key (set_contracts_done new done) done refl
      ∙ ground (
        arith,
        get-insert contracts_done_key contracts_done_key (digit (min done 3)) new,
        =?_refl contracts_done_key,
      ) in
    let least : min done 3 ≡ min (contracts_done q + 1) 3 = omega (arith, unchanged) in
    contracts_done-count_of (signed q key)
    ∙ ap count_of stored
    ∙ count_of-digit (min done 3) (omega arith)
    ∙ least

complete_open :
    (q : Quest) (key : Text) → eval_gate_expr q key ≡ true → complete_contract q key ≡ (q, none)
unfolding complete_contract
complete_open q key h = ground (arith, h)

complete_shut :
    (q : Quest) (key : Text)
    → eval_gate_expr q key ≡ false
    → (complete_contract q key).0 ≡ signed q key
unfolding complete_contract signed
complete_shut q key h = ground (arith, h)

-- Completing a contract of the board opens its gate; it counts one contract more, up to three, if the
-- gate was shut, and changes no key and reports nothing if it was open; so a second completion changes
-- and reports nothing.
pub complete_contract_once :
    (key : Text)
    → IsContract key
    → (q : Quest)
    → (eval_gate_expr (complete_contract q key).0 key ≡ true)
      × (contracts_done (complete_contract q key).0
          ≡ (if eval_gate_expr q key then contracts_done q else min (contracts_done q + 1) 3))
      × ((if eval_gate_expr q key then complete_contract q key else (q, none)) ≡ (q, none))
      × (complete_contract (complete_contract q key).0 key ≡ ((complete_contract q key).0, none))
complete_contract_once key k q = elim (Bool-cases (eval_gate_expr q key)) [
  | inl passed ↦ (
    ap (λ r. eval_gate_expr r.0 key) (complete_open q key passed) ∙ passed,
    ap (λ r. contracts_done r.0) (complete_open q key passed) ∙ ground (arith, passed),
    ground (arith, passed, complete_open q key passed),
    ap (λ r. complete_contract r.0 key) (complete_open q key passed)
        ∙ complete_open q key passed
        ∙ ap (λ r. (r.0, none)) (sym (complete_open q key passed)),
  )
  | inr shut ↦
      let after = complete_shut q key shut in
      let now_open : eval_gate_expr (complete_contract q key).0 key ≡ true =
        ap (λ r. eval_gate_expr r key) after
        ∙ gate_of_contract key k (signed q key)
        ∙ ap truthy (get-signed key k q)
        ∙ truthy_one in
      (
        now_open,
        ap contracts_done after ∙ contracts_done-signed key k q ∙ ground (arith, shut),
        ground (arith, shut),
        complete_open (complete_contract q key).0 key now_open,
      )
]

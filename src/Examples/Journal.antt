-- ===== src/Examples/Journal.antt =====
-- Runs of the journal from the empty database.
use x402_facilitator.Journal.Transitions.{
  mark_prepared, mark_prepared_evm, mark_submitted, mark_terminal, mark_awaiting_retry,
  transition_allowed,
}
use x402_facilitator.Journal.Lifecycle.{Keeps}
use x402_facilitator.Journal.Accounting.{held, client_held}
use x402_facilitator.Journal.Claim.{
  claim_settlement, early_answer, find_existing_settlement, find_by_identifier, find_by_hash,
  anchor_is_claimed, active_evm_signer_exists, claim_transaction,
}
use x402_facilitator.Journal.Rows.{sum_rows}
use x402_facilitator.Journal.Run.Safety.{
  after, run-Apart, run_final, run-confirmed, run_bytes_kept, run-accounted, run-IsHistory,
}
use x402_facilitator.Examples.Data.{
  texts, near_reserved, near_preparation, evm_settlement, claims, evm_reserved, evm_settled,
  near_prepared,
}
use x402_facilitator.Journal.Ledger.{
  reserved_of, reserve_global_budget, reserve_client_budget, reserve_row, release_budget,
  release_row,
}
use x402_facilitator.Journal.Tables.{
  find_row, replace_row, other_rows, insert_row, update_row, violation, first_clash,
  satisfies_checks, clashes,
}
use x402_facilitator.Journal.History.{IsHistory, last_state, state_of, submissions}
use x402_facilitator.Journal.Run.Register.{Reaches, register, run-Reaches}
use x402_facilitator.Journal.Exclusive.Apart.{Apart}
use x402_facilitator.Journal.Types.{
  Date, SettlementRecord, TerminalResult, is_terminal, SettlementState, EvmSubmission, Uuid,
  NearSubmission,
}
use x402_facilitator.Journal.Run.{run}
use x402_facilitator.Prelude.{◌≡◌, refl, true, some, ℕ, ◌≤◌}

near_found : find_row 1 (after texts claims).rows ≡ some near_reserved
unfolding run find_row replace_row other_rows claim_settlement early_answer find_existing_settlement
    find_by_identifier find_by_hash anchor_is_claimed active_evm_signer_exists claim_transaction
    insert_row update_row violation first_clash satisfies_checks clashes reserve_global_budget
    reserve_client_budget reserve_row release_budget release_row mark_prepared mark_prepared_evm
    mark_submitted mark_terminal mark_awaiting_retry is_terminal transition_allowed
near_found = refl

evm_found : find_row 2 (after texts claims).rows ≡ some evm_reserved
unfolding run find_row replace_row other_rows claim_settlement early_answer find_existing_settlement
    find_by_identifier find_by_hash anchor_is_claimed active_evm_signer_exists claim_transaction
    insert_row update_row violation first_clash satisfies_checks clashes reserve_global_budget
    reserve_client_budget reserve_row release_budget release_row mark_prepared mark_prepared_evm
    mark_submitted mark_terminal mark_awaiting_retry is_terminal transition_allowed
evm_found = refl

evm_settled_found : find_row 2 (after texts evm_settlement).rows ≡ some evm_settled
unfolding run find_row replace_row other_rows claim_settlement early_answer find_existing_settlement
    find_by_identifier find_by_hash anchor_is_claimed active_evm_signer_exists claim_transaction
    insert_row update_row violation first_clash satisfies_checks clashes reserve_global_budget
    reserve_client_budget reserve_row release_budget release_row mark_prepared mark_prepared_evm
    mark_submitted mark_terminal mark_awaiting_retry is_terminal transition_allowed
evm_settled_found = refl

near_prepared_found : find_row 1 (after texts near_preparation).rows ≡ some near_prepared
unfolding run find_row replace_row other_rows claim_settlement early_answer find_existing_settlement
    find_by_identifier find_by_hash anchor_is_claimed active_evm_signer_exists claim_transaction
    insert_row update_row violation first_clash satisfies_checks clashes reserve_global_budget
    reserve_client_budget reserve_row release_budget release_row mark_prepared mark_prepared_evm
    mark_submitted mark_terminal mark_awaiting_retry is_terminal transition_allowed
near_prepared_found = refl

terminal_state : is_terminal SettlementState.succeeded ≡ true
unfolding is_terminal
terminal_state = refl

-- The two claims of 30 each.
both_reserved : reserved_of ((after texts claims).ledgers.global 1) ≡ 60
unfolding run find_row replace_row other_rows claim_settlement early_answer find_existing_settlement
    find_by_identifier find_by_hash anchor_is_claimed active_evm_signer_exists claim_transaction
    insert_row update_row violation first_clash satisfies_checks clashes reserve_global_budget
    reserve_client_budget reserve_row release_budget release_row mark_prepared mark_prepared_evm
    mark_submitted mark_terminal mark_awaiting_retry is_terminal transition_allowed
both_reserved = refl

run-accounted_example :
    ((d : Date)
      → reserved_of ((after texts claims).ledgers.global d)
        ≡ sum_rows (held d) (after texts claims).rows)
    × ((d : Date) (k : Uuid)
        → reserved_of ((after texts claims).ledgers.client d k)
          ≡ sum_rows (client_held d k) (after texts claims).rows)
run-accounted_example = run-accounted texts claims

run-Apart_example : Apart texts near_reserved evm_reserved
run-Apart_example = run-Apart texts claims 1 2 near_reserved evm_reserved near_found evm_found refl

run-confirmed_example :
    (t : TerminalResult) × (e : EvmSubmission) × (n : ℕ) × (evm_settled.terminal ≡ some t)
    × (evm_settled.evm_submission ≡ some e)
    × (t.confirmations ≡ some n)
    × (1 ≤ e.required_confirmations)
    × (e.required_confirmations ≤ n)
run-confirmed_example = run-confirmed texts evm_settlement 2 evm_settled evm_settled_found refl refl

run_final_example :
    (r' : SettlementRecord) × (find_row 2
        (run texts near_preparation (after texts evm_settlement)).rows
      ≡ some r')
    × (r'.state ≡ evm_settled.state)
    × (r'.terminal ≡ evm_settled.terminal)
run_final_example =
    run_final texts evm_settlement near_preparation 2 evm_settled evm_settled_found terminal_state

run-Reaches_example :
    Reaches
      (register (after texts claims).rows)
      (register (run texts evm_settlement (after texts claims)).rows)
run-Reaches_example = run-Reaches texts claims evm_settlement

run_bytes_kept_example :
    (r' : SettlementRecord) × (find_row 1
        (run texts evm_settlement (after texts near_preparation)).rows
      ≡ some r')
    × ((e : NearSubmission) → near_prepared.near_submission ≡ some e → r'.near_submission ≡ some e)
    × ((e : EvmSubmission) → near_prepared.evm_submission ≡ some e → Keeps e r'.evm_submission)
run_bytes_kept_example =
    run_bytes_kept texts near_preparation evm_settlement 1 near_prepared near_prepared_found

run-IsHistory_example :
    IsHistory (after texts evm_settlement).events
    × ((id : Uuid)
        → (last_state id (after texts evm_settlement).events
            ≡ state_of (find_row id (after texts evm_settlement).rows))
          × (submissions id (after texts evm_settlement).events ≤ 1))
run-IsHistory_example = run-IsHistory texts evm_settlement

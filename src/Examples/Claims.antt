-- ===== src/Examples/Claims.antt =====
-- Runs of single journal operations.
use x402_facilitator.Journal.Ledger.{
  reserve_global_budget, reserve_client_budget, reserve_row, release_budget, release_row,
}
use x402_facilitator.Journal.Accounting.Release.{
  mark_awaiting_retry_succeeds, mark_terminal_succeeds,
}
use x402_facilitator.Journal.Run.Terminal.{
  mark_terminal_refused, mark_terminal_again, mark_terminal_settled, Repeats,
}
use x402_facilitator.Journal.Transitions.{
  mark_awaiting_retry, mark_terminal, transition_allowed, to_awaiting_retry, to_terminal,
  wrong_state, mark_prepared, mark_prepared_evm, mark_submitted,
}
use x402_facilitator.Journal.Run.Safety.{after}
use x402_facilitator.Examples.Data.{
  evm_reserved, settled, texts, near_claim, claims, submitted_evm, evm_settlement, no_rows,
  evm_settled, near_reserved, evm_in_flight,
}
use x402_facilitator.Journal.Tables.{
  find_row, replace_row, other_rows, Constraint, insert_row, update_row, violation, first_clash,
  satisfies_checks, clashes,
}
use x402_facilitator.Journal.Types.{is_terminal, SettlementState, ok, StoreError, err}
use x402_facilitator.Journal.Accounting.{IsAccounted}
use x402_facilitator.Journal.Run.Duplicates.{
  IsReplayOf, find_existing_settlement-IsReplayOf, claim_known_unchanged, is_known,
}
use x402_facilitator.Journal.Run.Budget.{IsNew, claim_settlement-IsNew}
use x402_facilitator.Journal.Claim.{
  claim_settlement, find_existing_settlement, early_answer, find_by_identifier, find_by_hash,
  anchor_is_claimed, active_evm_signer_exists, claim_transaction,
}
use x402_facilitator.Journal.Run.{run, empty, run-IsSound, empty-IsSound}
use x402_facilitator.Prelude.{◌≡◌, refl, true, some, none, [], ◌∷◌, arith, ◌↔◌}

claim_is_known :
    is_known texts Constraint.payment_hash_key near_claim 1 (after texts claims).rows ≡ true
unfolding run find_row replace_row other_rows claim_settlement early_answer find_existing_settlement
    find_by_identifier find_by_hash anchor_is_claimed active_evm_signer_exists claim_transaction
    insert_row update_row violation first_clash satisfies_checks clashes reserve_global_budget
    reserve_client_budget reserve_row release_budget release_row mark_prepared mark_prepared_evm
    mark_submitted mark_terminal mark_awaiting_retry is_terminal transition_allowed
claim_is_known = refl

claim_known_unchanged_example :
    (claim_settlement texts near_claim 1 no_rows (after texts claims)).1 ≡ after texts claims
claim_known_unchanged_example =
    claim_known_unchanged texts near_claim 1 (after texts claims) no_rows
      Constraint.payment_hash_key claim_is_known

claim_settlement-IsNew_example :
    IsNew texts near_claim 1 empty (claim_settlement texts near_claim 1 no_rows empty)
claim_settlement-IsNew_example = claim_settlement-IsNew texts near_claim 1 empty no_rows

find_existing_settlement-IsReplayOf_example :
    IsReplayOf 40 602
      (evm_reserved ∷ [])
      (find_existing_settlement 40 none 502 602 (evm_reserved ∷ []))
find_existing_settlement-IsReplayOf_example =
    find_existing_settlement-IsReplayOf 40 none 502 602 (evm_reserved ∷ [])

prepared-IsAccounted : IsAccounted (after texts submitted_evm)
prepared-IsAccounted = (run-IsSound texts submitted_evm empty (empty-IsSound texts)).accounted

submitted_found : find_row 2 (after texts submitted_evm).rows ≡ some evm_in_flight
unfolding run find_row replace_row other_rows claim_settlement early_answer find_existing_settlement
    find_by_identifier find_by_hash anchor_is_claimed active_evm_signer_exists claim_transaction
    insert_row update_row violation first_clash satisfies_checks clashes reserve_global_budget
    reserve_client_budget reserve_row release_budget release_row mark_prepared mark_prepared_evm
    mark_submitted mark_terminal mark_awaiting_retry is_terminal transition_allowed
submitted_found = refl

may_succeed : transition_allowed SettlementState.submitted SettlementState.succeeded ≡ true
unfolding transition_allowed
may_succeed = refl

no_violation :
    violation texts
      (to_terminal (settled 2) evm_in_flight)
      (other_rows 2 (after texts submitted_evm).rows)
    ≡ none
unfolding run find_row replace_row other_rows claim_settlement early_answer find_existing_settlement
    find_by_identifier find_by_hash anchor_is_claimed active_evm_signer_exists claim_transaction
    insert_row update_row violation first_clash satisfies_checks clashes reserve_global_budget
    reserve_client_budget reserve_row release_budget release_row mark_prepared mark_prepared_evm
    mark_submitted mark_terminal mark_awaiting_retry is_terminal transition_allowed
no_violation = refl

mark_terminal_succeeds_example :
    ((mark_terminal texts (settled 2) (after texts submitted_evm)).0 ≡ ok tt)
    × (find_row 2 (mark_terminal texts (settled 2) (after texts submitted_evm)).1.rows
        ≡ some (to_terminal (settled 2) evm_in_flight))
mark_terminal_succeeds_example =
    mark_terminal_succeeds texts (settled 2) (after texts submitted_evm) evm_in_flight
      prepared-IsAccounted submitted_found may_succeed no_violation (omega arith)

claimed-IsAccounted : IsAccounted (after texts claims)
claimed-IsAccounted = (run-IsSound texts claims empty (empty-IsSound texts)).accounted

claimed_found : find_row 1 (after texts claims).rows ≡ some near_reserved
unfolding run find_row replace_row other_rows claim_settlement early_answer find_existing_settlement
    find_by_identifier find_by_hash anchor_is_claimed active_evm_signer_exists claim_transaction
    insert_row update_row violation first_clash satisfies_checks clashes reserve_global_budget
    reserve_client_budget reserve_row release_budget release_row mark_prepared mark_prepared_evm
    mark_submitted mark_terminal mark_awaiting_retry is_terminal transition_allowed
claimed_found = refl

may_wait :
    violation texts (to_awaiting_retry 5 near_reserved) (other_rows 1 (after texts claims).rows)
    ≡ none
unfolding run find_row replace_row other_rows claim_settlement early_answer find_existing_settlement
    find_by_identifier find_by_hash anchor_is_claimed active_evm_signer_exists claim_transaction
    insert_row update_row violation first_clash satisfies_checks clashes reserve_global_budget
    reserve_client_budget reserve_row release_budget release_row mark_prepared mark_prepared_evm
    mark_submitted mark_terminal mark_awaiting_retry is_terminal transition_allowed
may_wait = refl

mark_awaiting_retry_succeeds_example :
    ((mark_awaiting_retry texts 1 5 (after texts claims)).0 ≡ ok tt)
    × (find_row 1 (mark_awaiting_retry texts 1 5 (after texts claims)).1.rows
        ≡ some (to_awaiting_retry 5 near_reserved))
mark_awaiting_retry_succeeds_example =
    mark_awaiting_retry_succeeds texts 1 5 (after texts claims) near_reserved claimed-IsAccounted
      claimed_found refl refl may_wait

accepted : (mark_terminal texts (settled 2) (after texts submitted_evm)).0 ≡ ok tt
accepted =
    (mark_terminal_succeeds texts (settled 2) (after texts submitted_evm) evm_in_flight
      prepared-IsAccounted submitted_found may_succeed no_violation (omega arith)).0

mark_terminal_again_example :
    ((mark_terminal texts
        (settled 2)
        (mark_terminal texts (settled 2) (after texts submitted_evm)).1).0
      ≡ ok tt)
    × ((mark_terminal texts
          (settled 2)
          (mark_terminal texts (settled 2) (after texts submitted_evm)).1).1
        ≡ (mark_terminal texts (settled 2) (after texts submitted_evm)).1)
mark_terminal_again_example =
    mark_terminal_again texts (settled 2) (after texts submitted_evm) accepted

is_terminal_entry : is_terminal (settled 2).state ≡ true
unfolding is_terminal
is_terminal_entry = refl

terminal_found : find_row 2 (after texts evm_settlement).rows ≡ some evm_settled
unfolding run find_row replace_row other_rows claim_settlement early_answer find_existing_settlement
    find_by_identifier find_by_hash anchor_is_claimed active_evm_signer_exists claim_transaction
    insert_row update_row violation first_clash satisfies_checks clashes reserve_global_budget
    reserve_client_budget reserve_row release_budget release_row mark_prepared mark_prepared_evm
    mark_submitted mark_terminal mark_awaiting_retry is_terminal transition_allowed
terminal_found = refl

mark_terminal_settled_example :
    ((mark_terminal texts (settled 2) (after texts evm_settlement)).1 ≡ after texts evm_settlement)
    × (((mark_terminal texts (settled 2) (after texts evm_settlement)).0 ≡ ok tt)
        ↔ Repeats texts (settled 2) evm_settled)
    × (¬ Repeats texts (settled 2) evm_settled
        → (mark_terminal texts (settled 2) (after texts evm_settlement)).0
          ≡ wrong_state evm_settled.state (settled 2).state)
mark_terminal_settled_example =
    mark_terminal_settled texts (settled 2) (after texts evm_settlement) evm_settled
      is_terminal_entry terminal_found is_terminal_entry

nothing_claimed : (mark_terminal texts (settled 2) empty).0 ≡ err StoreError.corrupt
unfolding run find_row replace_row other_rows claim_settlement early_answer find_existing_settlement
    find_by_identifier find_by_hash anchor_is_claimed active_evm_signer_exists claim_transaction
    insert_row update_row violation first_clash satisfies_checks clashes reserve_global_budget
    reserve_client_budget reserve_row release_budget release_row mark_prepared mark_prepared_evm
    mark_submitted mark_terminal mark_awaiting_retry is_terminal transition_allowed
nothing_claimed = refl

mark_terminal_refused_example : (mark_terminal texts (settled 2) empty).1 ≡ empty
mark_terminal_refused_example =
    mark_terminal_refused texts (settled 2) empty StoreError.corrupt nothing_claimed

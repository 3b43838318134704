-- ===== src/Near/Receipts.antt =====
-- receipt.rs: `interpret_final_outcome` and `validate_final_outcome_identity`, in the parts in which
-- the code makes their checks. `none` means that a loop ran out of fuel.
mod Inversion
pub mod Settled
use x402_facilitator.Near.Graph.{by_id, get, walk, walk_fuel, check_acyclic}
use x402_facilitator.Near.Types.{
  ExecutionOutcome, FinalExecutionOutcome, FinalExecutionStatus, ReceiptValidationError, Validated,
  ExecutionStatusView, SuccessfulTransferReceipt,
}
use x402_facilitator.Prelude.{
  ℕ, zero, suc, ◌+◌, ◌-◌, ◌*◌, ◌≤◌, ◌<◌, ◌≡◌, ◌≢◌, refl, ap, sym, ◌∙◌, Bool, true, false, not, ◌&&◌,
  ◌||◌, Option, none, some, List, [], ◌∷◌, ◌++◌, map, ltb, leb, ◌==◌, if◌then◌else◌, arith, inl,
  inr, ◌⊎◌, ◌↔◌, ok, err, and_then, Outcome, any, filter, length, is_some, Bool-cases, Option-cases,
  if_cases, All,
}

abbrev pub final_status : FinalExecutionStatus → Validated (Unit {0})
final_status FinalExecutionStatus.not_started = err ReceiptValidationError.not_started
final_status FinalExecutionStatus.started = err ReceiptValidationError.pending
final_status (FinalExecutionStatus.failure e) = err (ReceiptValidationError.final_failure e)
final_status (FinalExecutionStatus.success_value v) = ok tt

-- A status that is a failure, and one that is unknown, end the interpretation.
abbrev pub known_status : (ℕ → ReceiptValidationError) → ExecutionStatusView → Validated (Unit {0})
known_status failed (ExecutionStatusView.failure e) = err (failed e)
known_status failed ExecutionStatusView.unknown =
    err ReceiptValidationError.incomplete_receipt_graph
known_status failed (ExecutionStatusView.success_value v) = ok tt
known_status failed (ExecutionStatusView.success_receipt_id id) = ok tt

abbrev pub only_child : List ℕ → Validated ℕ
only_child (id ∷ []) = ok id
only_child _ = err ReceiptValidationError.invalid_delegate_receipt_count

unfoldable pub delegate_receipt : List ExecutionOutcome → ℕ → ℕ → Validated ExecutionOutcome
delegate_receipt outcomes id payer = elim (get id outcomes) [
  | none ↦ err ReceiptValidationError.missing_delegate_receipt
  | some delegate ↦
      if not (delegate.executor_id == payer)
      then err ReceiptValidationError.invalid_delegate_executor
      else and_then (known_status (λ e. ReceiptValidationError.delegate_failure e) delegate.status)
          (λ _. ok delegate)
]

-- `filter_map(|receipt_id| outcomes.get(receipt_id))`
abbrev pub found_receipts : List ExecutionOutcome → List ℕ → List ExecutionOutcome
found_receipts outcomes [] = []
found_receipts outcomes (id ∷ ids) =
    let rest = found_receipts outcomes ids in
    elim (get id outcomes) [ none ↦ rest | some o ↦ o ∷ rest ]

abbrev pub only_token : List ExecutionOutcome → Validated ExecutionOutcome
only_token (token ∷ []) = ok token
only_token _ = err ReceiptValidationError.invalid_token_receipt_count

unfoldable pub token_receipt :
    List ExecutionOutcome → ExecutionOutcome → ℕ → Validated ExecutionOutcome
token_receipt outcomes delegate asset =
    if any (λ id. not (is_some (get id outcomes))) delegate.receipt_ids
    then err ReceiptValidationError.incomplete_receipt_graph
    else only_token
        (filter (λ r. r.executor_id == asset) (found_receipts outcomes delegate.receipt_ids))

abbrev pub token_status :
    ExecutionOutcome → ExecutionStatusView → Validated SuccessfulTransferReceipt
token_status token (ExecutionStatusView.success_value v) =
    ok (record { receipt_id = token.id; value = v })
token_status token (ExecutionStatusView.failure e) =
    err (ReceiptValidationError.token_receipt_failure e)
token_status token _ = err ReceiptValidationError.token_receipt_not_successful

-- The checks before the walk: the id of the delegate receipt, the index and the token receipt.
unfoldable pub transfer_receipts :
    FinalExecutionOutcome → ℕ → ℕ → Validated (ℕ × List ExecutionOutcome × ExecutionOutcome)
transfer_receipts outcome payer asset = and_then (final_status outcome.status) λ _.
    and_then
      (known_status (λ e. ReceiptValidationError.transaction_failure e)
        outcome.transaction_outcome.status)
      λ _. and_then (only_child outcome.transaction_outcome.receipt_ids) λ id.
        and_then (by_id outcome.receipts_outcome) λ outcomes.
          and_then (delegate_receipt outcomes id payer) λ delegate.
            and_then (token_receipt outcomes delegate asset) λ token. ok (id, outcomes, token)

abbrev pub and_then_loop {ℓ κ} :
    {A : Type ℓ} {B : Type κ}
    → Option (Validated A)
    → (A → Option (Validated B))
    → Option (Validated B)
and_then_loop none f = none
and_then_loop (some (err e)) f = some (err e)
and_then_loop (some (ok a)) f = f a

-- The walk, the sort and the status of the token receipt.
unfoldable pub graph_checked :
    ℕ → List ExecutionOutcome → ExecutionOutcome → Option (Validated SuccessfulTransferReceipt)
graph_checked id outcomes token =
    and_then_loop (walk outcomes token.id (walk_fuel outcomes) (id ∷ []) []) λ visited.
      and_then_loop (check_acyclic outcomes visited) λ _. some (token_status token token.status)

unfoldable pub interpret_final_outcome :
    FinalExecutionOutcome → ℕ → ℕ → Option (Validated SuccessfulTransferReceipt)
interpret_final_outcome outcome payer asset = elim (transfer_receipts outcome payer asset) [
  | err e ↦ some (err e)
  | ok (id, outcomes, token) ↦ graph_checked id outcomes token
]

unfoldable pub validate_final_outcome_identity :
    FinalExecutionOutcome → ℕ → ℕ → ℕ → Validated (Unit {0})
validate_final_outcome_identity outcome hash signer receiver =
    if not (outcome.transaction_hash == hash)
    then err ReceiptValidationError.transaction_hash_mismatch
    else (if not (outcome.transaction_outcome.id == hash)
        then err ReceiptValidationError.transaction_outcome_id_mismatch
        else (if not (outcome.signer_id == signer)
            then err ReceiptValidationError.transaction_signer_mismatch
            else (if not (outcome.receiver_id == receiver)
                then err ReceiptValidationError.transaction_receiver_mismatch
                else (if not (outcome.transaction_outcome.executor_id == signer)
                    then err ReceiptValidationError.invalid_transaction_executor
                    else ok tt))))

-- ===== src/Service/Finalize.antt =====
-- service.rs: `finalize_terminal`, `terminal_protocol_failure`, `retryable_service_failure` and
-- `terminal_transaction_rejected`: the ends of a settlement worker. Metrics and logs are left out.
use x402_facilitator.Prelude.{ℕ, ◌^◌, ◌-◌, false, Option, none, some, leb, if◌then◌else◌}
use x402_facilitator.Journal.Types.{
  Uuid, Text, Bytes, SettlementState, TerminalJournalEntry, Result, ok, err,
}
use x402_facilitator.Journal.Tables.{Collation}
use x402_facilitator.Journal.Transitions.{mark_terminal, mark_awaiting_retry}
use x402_facilitator.Service.Readiness.{set_reconciliation}
use x402_facilitator.Service.World.{World, Env, TerminalOutcome, at_step, store_call}

-- The worker stops and leaves the row to the reconciliation.
abbrev pub pause : World → World
pause w = record w { readiness = set_reconciliation false w.readiness }

-- A failed journal call leaves the reconciliation gate closed.
abbrev pub or_pause {ℓ} : {A : Type ℓ} → Result A × World → World
or_pause (ok a, w) = w
or_pause (err e, w) = pause w

-- `i32::try_from(depth).ok()`.
abbrev pub as_i32 : Option ℕ → Option ℕ
as_i32 none = none
as_i32 (some n) = if leb n (2 ^ 31 - 1) then some n else none

-- A failure entry: nothing was burnt.
abbrev pub failed_entry : Uuid → Bytes → Text → TerminalJournalEntry
failed_entry id bytes reason = record {
  settlement_id = id;
  state = SettlementState.failed;
  http_status = 200;
  response_bytes = bytes;
  error_code = some reason;
  error_detail = none;
  gas_burnt = some 0;
  tokens_burnt = some 0;
  actual = 0;
  mined_block_number = none;
  mined_block_hash = none;
  confirmations = none;
}

abbrev pub outcome_entry : Env → Uuid → Bytes → TerminalOutcome → TerminalJournalEntry
outcome_entry env id bytes o = record {
  settlement_id = id;
  state = if o.success then SettlementState.succeeded else SettlementState.failed;
  http_status = 200;
  response_bytes = bytes;
  error_code = if o.success then none else some env.transaction_failed;
  error_detail = none;
  gas_burnt = some o.gas_units;
  tokens_burnt = some o.fee_atomic;
  actual = o.fee_atomic;
  mined_block_number = o.mined_block_number;
  mined_block_hash = o.mined_block_hash;
  confirmations = as_i32 o.confirmations;
}

abbrev pub journal_terminal : Collation → Env → ℕ → TerminalJournalEntry → World → World
journal_terminal c env k e w = or_pause (store_call env k (mark_terminal c e) (at_step c env k w))

abbrev pub finalize_response :
    Collation → Env → ℕ → Uuid → TerminalOutcome → Option Bytes → World → World
finalize_response c env k id o none w = w
finalize_response c env k id o (some bytes) w =
    journal_terminal c env k (outcome_entry env id bytes o) w

unfoldable pub finalize_terminal :
    Collation → Env → ℕ → Uuid → Text → TerminalOutcome → World → World
finalize_terminal c env k id payer o w =
    finalize_response c env k id o
      (env.response o.success env.transaction_failed (some payer) o.tx_hash) w

abbrev pub protocol_response : Collation → Env → ℕ → Uuid → Text → Option Bytes → World → World
protocol_response c env k id reason none w = w
protocol_response c env k id reason (some bytes) w =
    journal_terminal c env k (failed_entry id bytes reason) w

unfoldable pub terminal_protocol_failure :
    Collation → Env → ℕ → Uuid → Text → Option Text → Text → World → World
terminal_protocol_failure c env k id reason payer transaction w =
    protocol_response c env k id reason (env.response false reason payer transaction) w

unfoldable pub retryable_service_failure : Collation → Env → ℕ → Uuid → Text → World → World
retryable_service_failure c env k id code w =
    or_pause (store_call env k (mark_awaiting_retry c id code) (at_step c env k w))

abbrev pub rejected_response : Collation → Env → ℕ → Uuid → Option Bytes → World → World
rejected_response c env k id none w = pause w
rejected_response c env k id (some bytes) w =
    journal_terminal c env k (failed_entry id bytes env.transaction_rejected) w

unfoldable pub terminal_transaction_rejected :
    Collation → Env → ℕ → Uuid → Text → Text → World → World
terminal_transaction_rejected c env k id payer hash w =
    rejected_response c env k id (env.response false env.transaction_rejected (some payer) hash) w

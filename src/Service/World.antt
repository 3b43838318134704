-- ===== src/Service/World.antt =====
-- What a settlement worker runs in: the journal, the relayer table, the readiness gates and the
-- broadcasts so far, together with what everything else does between its steps and what the chain
-- provider answers.
use x402_facilitator.Prelude.{
  ℕ, ◌≡◌, Bool, true, false, Option, none, some, List, arith, ◌&&◌, if◌then◌else◌,
}
use x402_facilitator.Journal.Types.{Uuid, Hash, Text, Bytes, Result, err, StoreError}
use x402_facilitator.Journal.Tables.{Collation, Db}
use x402_facilitator.Journal.Run.{Op, run}
use x402_facilitator.Service.Readiness.{ReadinessState, GateCall, call_gates, set_relayer}
use x402_facilitator.Service.Relayers.{Relayers, relayer_is_active}
use x402_facilitator.Service.Funding.{ServiceConfig, signer_is_funded}

-- One broadcast, with the journal and the gates at its moment.
pub record Broadcast : Type 0 where
  pub settlement_id : Uuid
  pub bytes : Bytes
  pub journal : Db
  pub gates : ReadinessState

pub record World : Type 0 where
  pub db : Db
  pub relayers : Relayers
  pub readiness : ReadinessState
  pub broadcasts : List Broadcast

-- `TerminalOutcome`.
pub record TerminalOutcome : Type 0 where
  pub success : Bool
  pub tx_hash : Text
  pub gas_units : ℕ
  pub fee_atomic : ℕ
  pub mined_block_number : Option ℕ
  pub mined_block_hash : Option Text
  pub confirmations : Option ℕ

pub data BroadcastOutcome : Type 0 where
  terminal : TerminalOutcome → BroadcastOutcome
  rejected pending : BroadcastOutcome

-- `VerifiedPayment`, its identity and its requirements.
pub record VerifiedPayment : Type 0 where
  pub request_hash : Hash
  pub anchor_scope : Text
  pub anchor_value : Hash
  pub payer : Text
  pub network : Text
  pub asset : Text
  pub pay_to : Text
  pub amount : ℕ

pub data Verification : Type 0 where
  verified : VerifiedPayment → Verification
  rpc_ambiguous : Verification
  rejected : Text → Verification

-- `SignerHead`.
pub record SignerHead : Type 0 where
  pub signer_nonce : ℕ
  pub signer_public_key : Text
  pub signer_balance_atomic : ℕ

-- `Prepared` and its durable submission, by the detail.
pub data Prepared : Type 0 where
  near : Text → Text → ℕ → Bytes → Text → Prepared
  -- estimated L1 fee, required confirmations, nonce, bytes, hash
  evm : Option ℕ → Option ℕ → ℕ → Bytes → Text → Prepared

-- What the surroundings do and answer at each step of the worker.
pub record Env : Type 0 where
  pub config : ServiceConfig
  pub network : Text
  pub account : Text
  pub public_key : Text
  -- operations of other requests and gate changes of other tasks before a step
  pub others : ℕ → List Op
  pub gate_calls : ℕ → List GateCall
  -- whether the database fails a statement of a step
  pub fails : ℕ → Bool
  pub verify : Verification
  pub signer_head : ℕ → Option SignerHead
  pub prepare : Option Prepared
  pub broadcast : BroadcastOutcome
  -- `serde_json::to_vec` of the response: success, reason, payer and transaction
  pub response : Bool → Text → Option Text → Text → Option Bytes
  pub transaction_failed : Text
  pub transaction_rejected : Text
  pub no_transaction : Text
  -- the texts of the two quarantine reasons and the codes of the retryable failures
  pub quarantine_reason : Text
  pub retry_code : ℕ → Text
  pub settlement_identity_mismatch : Text

-- The world when a step starts.
unfoldable pub at_step : Collation → Env → ℕ → World → World
at_step c env k w = record w {
  db = run c (env.others k) w.db;
  readiness = call_gates (env.gate_calls k) w.readiness;
}

-- A store call of the worker, which the database may fail.
unfoldable pub store_call {ℓ} :
    {A : Type ℓ} → Env → ℕ → (Db → Result A × Db) → World → Result A × World
store_call env k call w =
    if env.fails k
    then (err StoreError.database, w)
    else (let (answer, db) = call w.db in (answer, record w { db = db }))

abbrev pub close_relayer : World → World
close_relayer w = record w { readiness = set_relayer false w.readiness }

-- `fresh_signer_head`, by the answer of the chain.
abbrev pub head_policy : Env → SignerHead → World → Option SignerHead × World
head_policy env head w =
    if relayer_is_active env.network env.account head.signer_public_key w.relayers
      && signer_is_funded env.config head.signer_balance_atomic
    then (some head, record w { readiness = set_relayer true w.readiness })
    else (none, close_relayer w)

abbrev pub head_answer : Env → ℕ → Option SignerHead → World → Option SignerHead × World
head_answer env k none w = (none, close_relayer w)
head_answer env k (some head) w = if env.fails k then (none, w) else head_policy env head w

unfoldable pub fresh_signer_head : Env → ℕ → World → Option SignerHead × World
fresh_signer_head env k w = head_answer env k (env.signer_head k) w

-- Only the gates move.
pub fresh_signer_head_journal :
    (env : Env) (k : ℕ) (w : World)
    → ((fresh_signer_head env k w).1.db ≡ w.db)
      × ((fresh_signer_head env k w).1.broadcasts ≡ w.broadcasts)
      × ((fresh_signer_head env k w).1.relayers ≡ w.relayers)
unfolding fresh_signer_head
fresh_signer_head_journal env k w = ground arith

-- ===== src/Journal/Tables.antt =====
-- migrations/*.sql: the table `settlements` with its CHECK constraints and unique indexes, and the
-- two statements on it that store.rs uses, INSERT .. ON CONFLICT DO NOTHING and UPDATE .. WHERE id.
-- The format CHECKs of single columns (byte lengths, the pattern of an identifier, NUMERIC(40, 0))
-- are left out: the callers produce fixed hashes and validated texts.
use x402_facilitator.Prelude.{
  Bool, true, false, not, Option, none, some, List, [], ◌∷◌, ◌++◌, leb, ◌==◌, is_some, any, ◌&&◌,
  if◌then◌else◌,
}
use x402_facilitator.Journal.Types.{
  Uuid, Text, ChainKind, SettlementState, is_active, EvmAuthorizationMetadata, NearSubmission,
  EvmSubmission, TerminalResult, SettlementRecord, SettlementEvent,
}
use x402_facilitator.Journal.Ledger.{Ledgers}

-- PostgreSQL's functions on texts, and the texts that the code names.
pub record Collation : Type 0 where
  pub lower : Text → Text
  pub empty_text : Text
  pub near_scope : Text
  -- network || ':' || lower(asset) || ':' || lower(payer)
  pub evm_scope : Text → Text → Text → Text

-- Rows in the order of `created_at`.
pub record Db : Type 0 where
  pub rows : List SettlementRecord
  pub ledgers : Ledgers
  pub events : List SettlementEvent

unfoldable pub find_row : Uuid → List SettlementRecord → Option SettlementRecord
find_row id [] = none
find_row id (r ∷ rows) = if r.id == id then some r else find_row id rows

unfoldable pub replace_row : Uuid → SettlementRecord → List SettlementRecord → List SettlementRecord
replace_row id new [] = []
replace_row id new (r ∷ rows) = if r.id == id then new ∷ rows else r ∷ replace_row id new rows

unfoldable pub other_rows : Uuid → List SettlementRecord → List SettlementRecord
other_rows id [] = []
other_rows id (r ∷ rows) = if r.id == id then rows else r ∷ other_rows id rows

pub data Constraint : Type 0 where
  check_violation primary_key payment_hash_key payment_identifier_idx relayer_nonce_idx : Constraint
  anchor_unique active_signer_idx signer_nonce_idx : Constraint

abbrev pub has_version_2 : Option EvmAuthorizationMetadata → Bool
has_version_2 none = false
has_version_2 (some m) = m.version == 2

abbrev pub text_is : Text → Option Text → Bool
text_is t none = false
text_is t (some u) = t == u

abbrev pub same_submission_nonce : Option NearSubmission → Option NearSubmission → Bool
same_submission_nonce (some a) (some b) =
    a.relayer_account_id == b.relayer_account_id
    && (a.relayer_public_key == b.relayer_public_key && a.relayer_nonce == b.relayer_nonce)
same_submission_nonce _ _ = false

abbrev pub same_account_nonce : Option EvmSubmission → Option EvmSubmission → Bool
same_account_nonce (some a) (some b) = a.signer_account_nonce == b.signer_account_nonce
same_account_nonce _ _ = false

abbrev pub depth_reached : Option TerminalResult → Option EvmSubmission → Bool
depth_reached (some t) (some e) = elim t.confirmations [
  | none ↦ false
  | some n ↦ leb e.required_confirmations n
]
depth_reached _ _ = false

abbrev pub depth_positive : Option EvmSubmission → Bool
depth_positive none = true
depth_positive (some e) = leb 1 e.required_confirmations

-- settlements_nonterminal_submission_check.
abbrev pub submission_check : SettlementState → ChainKind → SettlementRecord → Bool
submission_check SettlementState.reserved k r = true
submission_check SettlementState.awaiting_retry k r = true
submission_check SettlementState.failed k r = true
submission_check _ ChainKind.near r = is_some r.near_submission
submission_check _ ChainKind.eip155 r = is_some r.signer_address && is_some r.evm_submission

-- settlements_awaiting_retry_check, settlements_evm_success_confirmations_check, and the CHECK of
-- the terminal columns.
abbrev pub state_check : SettlementState → ChainKind → SettlementRecord → Bool
state_check SettlementState.awaiting_retry k r =
    is_some r.retry_code
    && (r.reserved == 0 && (not (is_some r.near_submission) && not (is_some r.evm_submission)))
state_check SettlementState.succeeded ChainKind.eip155 r =
    is_some r.terminal && depth_reached r.terminal r.evm_submission
state_check SettlementState.succeeded ChainKind.near r = is_some r.terminal
state_check SettlementState.failed k r = is_some r.terminal
state_check _ k r = true

-- settlements_chain_authorization_check and settlements_anchor_scope_check.
abbrev pub authorization_check : Collation → ChainKind → SettlementRecord → Bool
authorization_check c ChainKind.near r =
    is_some r.delegate_public_key
    && (is_some r.delegate_nonce
        && (is_some r.delegate_max_block_height
            && (not (is_some r.authorization_metadata)
                && (r.anchor_scope == c.near_scope && r.anchor_value == r.payment_hash))))
authorization_check c ChainKind.eip155 r =
    is_some r.signer_address
    && (has_version_2 r.authorization_metadata
        && r.anchor_scope == c.evm_scope r.network r.asset r.payer)

unfoldable pub satisfies_checks : Collation → SettlementRecord → Bool
satisfies_checks c r =
    authorization_check c r.chain_kind r
    && (submission_check r.state r.chain_kind r
        && (state_check r.state r.chain_kind r
            && (depth_positive r.evm_submission && leb 1 r.attempt_count)))

abbrev pub is_evm : ChainKind → Bool
is_evm ChainKind.near = false
is_evm ChainKind.eip155 = true

-- `lower(a) = lower(b)`, where neither is NULL.
abbrev pub same_signer : Collation → Option Text → Option Text → Bool
same_signer c (some a) (some b) = c.lower a == c.lower b
same_signer c _ _ = false

abbrev pub same_identifier : Option Text → Option Text → Bool
same_identifier (some a) (some b) = a == b
same_identifier _ _ = false

-- The unique index that two rows cannot share, if there is one.
unfoldable pub clashes : Collation → Constraint → SettlementRecord → SettlementRecord → Bool
clashes c Constraint.primary_key r o = r.id == o.id
clashes c Constraint.payment_hash_key r o = r.payment_hash == o.payment_hash
clashes c Constraint.payment_identifier_idx r o =
    r.api_client_id == o.api_client_id && same_identifier r.payment_identifier o.payment_identifier
clashes c Constraint.relayer_nonce_idx r o =
    r.network == o.network && same_submission_nonce r.near_submission o.near_submission
clashes c Constraint.anchor_unique r o =
    r.anchor_scope == o.anchor_scope && r.anchor_value == o.anchor_value
clashes c Constraint.active_signer_idx r o =
    (is_evm r.chain_kind && is_active r.state)
    && ((is_evm o.chain_kind && is_active o.state)
        && (r.network == o.network && same_signer c r.signer_address o.signer_address))
clashes c Constraint.signer_nonce_idx r o =
    (is_evm r.chain_kind && is_evm o.chain_kind)
    && (r.network == o.network
        && (same_signer c r.signer_address o.signer_address
            && same_account_nonce r.evm_submission o.evm_submission))
clashes c Constraint.check_violation r o = false

-- The unique indexes, in the order of their creation.
abbrev pub unique_indexes : List Constraint
unique_indexes =
    Constraint.primary_key ∷ Constraint.payment_hash_key ∷ Constraint.payment_identifier_idx
    ∷ Constraint.relayer_nonce_idx ∷ Constraint.anchor_unique ∷ Constraint.active_signer_idx
    ∷ Constraint.signer_nonce_idx ∷ []

-- The first index under which the row meets another one.
unfoldable pub first_clash :
    Collation → List Constraint → SettlementRecord → List SettlementRecord → Option Constraint
first_clash c [] r others = none
first_clash c (k ∷ ks) r others =
    if any (clashes c k r) others then some k else first_clash c ks r others

-- What a new version of a row violates beside the other rows.
unfoldable pub violation : Collation → SettlementRecord → List SettlementRecord → Option Constraint
unfolding first_clash
violation c r others =
    if satisfies_checks c r
    then first_clash c unique_indexes r others
    else some Constraint.check_violation

pub data Inserted : Type 0 where
  rejected conflicted : Inserted
  inserted : List SettlementRecord → Inserted

-- INSERT .. ON CONFLICT DO NOTHING: a violated CHECK is an error, a unique index inserts no row.
unfoldable pub insert_row : Collation → SettlementRecord → List SettlementRecord → Inserted
insert_row c r rows = elim (violation c r rows) [
  | none ↦ inserted (rows ++ r ∷ [])
  | some Constraint.check_violation ↦ rejected
  | _ ↦ conflicted
]

pub data Updated : Type 0 where
  no_row : Updated
  rejected : Constraint → Updated
  updated : List SettlementRecord → Updated

-- UPDATE settlements SET change WHERE id = $1 AND guard.
unfoldable pub update_row :
    Collation
    → Uuid
    → (SettlementRecord → Bool)
    → (SettlementRecord → SettlementRecord)
    → List SettlementRecord
    → Updated
update_row c id guard change rows = elim (find_row id rows) [
  | none ↦ no_row
  | some r ↦
      if guard r
      then elim (violation c (change r) (other_rows id rows)) [
        | some k ↦ rejected k
        | none ↦ updated (replace_row id (change r) rows)
      ]
      else no_row
]

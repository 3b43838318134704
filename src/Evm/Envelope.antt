-- ===== src/Evm/Envelope.antt =====
-- prepare.rs and settle.rs of crates/x402-chain-eip155-provider: the ERC-3009 calldata, the signed
-- settlement transaction and `validate_signed_transaction`. The envelope codec, the ABI codec, the
-- signature scheme, the classifier of payer signatures and the EIP-712 hash are those of the alloy
-- and x402 crates: they are fields of `Alloy`, and `IsAlloy` states what the code relies on.
mod Checks
pub mod Bound
pub mod Accepted
pub mod Prepared
use x402_facilitator.Evm.Fees.{EvmFeeEnvelope}
use x402_facilitator.Prelude.{
  ℕ, zero, suc, ◌+◌, ◌-◌, ◌*◌, ◌≤◌, ◌<◌, ◌≡◌, ◌≢◌, refl, ap, sym, ◌∙◌, Bool, true, false, not, ◌&&◌,
  ◌||◌, Option, none, some, List, [], ◌∷◌, ◌++◌, map, ltb, leb, ◌==◌, if◌then◌else◌, arith, inl,
  inr, ◌⊎◌, ◌↔◌, ok, err, and_then, Outcome, any, filter, length, is_some, Bool-cases, Option-cases,
  if_cases, All, option_eq,
}

pub record Erc3009Authorization : Type 0 where
  pub payer : ℕ
  pub payee : ℕ
  pub value : ℕ
  pub valid_after : ℕ
  pub valid_before : ℕ
  pub nonce : ℕ

abbrev pub authorization_eq : Erc3009Authorization → Erc3009Authorization → Bool
authorization_eq a b =
    a.payer == b.payer
    && (a.payee == b.payee
        && (a.value == b.value
            && (a.valid_after == b.valid_after
                && (a.valid_before == b.valid_before && a.nonce == b.nonce))))

abbrev pub Bytes : Type 0
Bytes = List ℕ

pub record TxEip1559 : Type 0 where
  pub chain_id : ℕ
  pub nonce : ℕ
  pub gas_limit : ℕ
  pub max_fee_per_gas : ℕ
  pub max_priority_fee_per_gas : ℕ
  -- `TxKind::Call(to)`, or `none` for a creation
  pub to : Option ℕ
  pub value : ℕ
  pub access_list : List ℕ
  pub input : Bytes

-- A signed EIP-1559 transaction, or an envelope of another type.
pub data TxEnvelope : Type 0 where
  eip1559 : TxEip1559 → ℕ → TxEnvelope
  other : ℕ → TxEnvelope

pub data Erc3009SignatureKind : Type 0 where
  eoa eip1271 : Erc3009SignatureKind

-- `StructuredSignature`.
pub data StructuredSignature : Type 0 where
  eoa : ℕ → ℕ → ℕ → StructuredSignature
  eip1271 : Bytes → StructuredSignature
  eip6492 : StructuredSignature

pub record Eip712Domain : Type 0 where
  pub chain_id : Option ℕ
  pub verifying_contract : Option ℕ
  pub has_salt : Bool

pub record Alloy : Type 0 where
  pub encode : TxEnvelope → Bytes
  pub decode : Bytes → Option (TxEnvelope × Bytes)
  pub tx_hash : TxEnvelope → ℕ
  pub recover_signer : TxEnvelope → Option ℕ
  pub signature_hash : TxEip1559 → ℕ
  -- the address of a key, and its deterministic signature of a hash
  pub address : ℕ → ℕ
  pub sign_hash : ℕ → ℕ → Option ℕ
  -- the two overloads of transferWithAuthorization
  pub encode_bytes_call : Erc3009Authorization → Bytes → Bytes
  pub encode_vrs_call : Erc3009Authorization → ℕ → ℕ → ℕ → Bytes
  pub has_bytes_selector : Bytes → Bool
  pub has_vrs_selector : Bytes → Bool
  -- `abi_decode_validate`
  pub decode_bytes_call : Bytes → Option (Erc3009Authorization × Bytes)
  pub decode_vrs_call : Bytes → Option (Erc3009Authorization × ℕ × ℕ × ℕ)
  -- the 65 bytes r, s, v
  pub vrs_bytes : ℕ → ℕ → ℕ → Bytes
  pub structured : Bytes → ℕ → ℕ → Option StructuredSignature
  pub eip712_transfer_hash : Erc3009Authorization → Eip712Domain → ℕ

pub data UnsupportedSignature : Type 0 where
  counterfactual_wallet malformed : UnsupportedSignature

-- `SettleableSignature`.
pub data SettleableSignature : Type 0 where
  eoa : ℕ → ℕ → ℕ → SettleableSignature
  eip1271 : Bytes → SettleableSignature

abbrev pub settleable :
    Option StructuredSignature → Outcome UnsupportedSignature SettleableSignature
settleable none = err UnsupportedSignature.malformed
settleable (some (StructuredSignature.eoa v r s)) = ok (SettleableSignature.eoa v r s)
settleable (some (StructuredSignature.eip1271 bytes)) = ok (SettleableSignature.eip1271 bytes)
settleable (some StructuredSignature.eip6492) = err UnsupportedSignature.counterfactual_wallet

abbrev pub kind_of : SettleableSignature → Erc3009SignatureKind
kind_of (SettleableSignature.eoa v r s) = Erc3009SignatureKind.eoa
kind_of (SettleableSignature.eip1271 bytes) = Erc3009SignatureKind.eip1271

abbrev pub same_kind : Erc3009SignatureKind → Erc3009SignatureKind → Bool
same_kind Erc3009SignatureKind.eoa Erc3009SignatureKind.eoa = true
same_kind Erc3009SignatureKind.eip1271 Erc3009SignatureKind.eip1271 = true
same_kind _ _ = false

pub data StoredTransactionError : Type 0 where
  invalid_envelope trailing_bytes unsupported_envelope : StoredTransactionError
  transaction_hash_mismatch signer_recovery signer_mismatch : StoredTransactionError
  chain_id_mismatch account_nonce_mismatch token_mismatch : StoredTransactionError
  native_value gas_limit_mismatch fee_cap_exceeded : StoredTransactionError
  invalid_fee_envelope unexpected_access_list invalid_calldata : StoredTransactionError
  authorization_mismatch domain_mismatch payment_hash_mismatch : StoredTransactionError

abbrev pub Checked {ℓ} : Type ℓ → Type ℓ
Checked A = Outcome StoredTransactionError A

pub record ExpectedEvmSubmission : Type 0 where
  pub transaction_hash : ℕ
  pub facilitator_signer : ℕ
  pub chain_id : ℕ
  pub account_nonce : ℕ
  pub token : ℕ
  pub gas_limit : ℕ
  pub max_fee_per_gas : ℕ
  pub authorization : Erc3009Authorization
  pub payment_hash : ℕ
  pub domain : Eip712Domain

pub record DecodedEvmSubmission : Type 0 where
  pub transaction_hash : ℕ
  pub facilitator_signer : ℕ
  pub transaction : TxEip1559
  pub authorization : Erc3009Authorization
  pub payment_hash : ℕ
  pub signature_kind : Erc3009SignatureKind

-- `if !test { return Err(error) }`
abbrev pub ensure : Bool → StoredTransactionError → Checked (Unit {0})
ensure true e = ok tt
ensure false e = err e

abbrev pub bytes_eq : Bytes → Bytes → Bool
bytes_eq [] [] = true
bytes_eq (x ∷ xs) (y ∷ ys) = x == y && bytes_eq xs ys
bytes_eq _ _ = false

abbrev pub is_empty : List ℕ → Bool
is_empty [] = true
is_empty (x ∷ xs) = false

module _ (a : Alloy) where
  abbrev pub overload : Erc3009Authorization → SettleableSignature → Bytes
  overload auth (SettleableSignature.eoa v r s) = a.encode_vrs_call auth v r s
  overload auth (SettleableSignature.eip1271 bytes) = a.encode_bytes_call auth bytes

  unfoldable pub settlement_calldata :
      Erc3009Authorization → Bytes → ℕ → Outcome UnsupportedSignature Bytes
  settlement_calldata auth signature prehash =
      and_then (settleable (a.structured signature auth.payer prehash)) λ s. ok (overload auth s)

  abbrev pub settlement_transaction : ℕ → ℕ → EvmFeeEnvelope → ℕ → Bytes → TxEip1559
  settlement_transaction chain_id account_nonce fees asset calldata = record {
    chain_id = chain_id;
    nonce = account_nonce;
    gas_limit = fees.gas_limit;
    max_fee_per_gas = fees.max_fee_per_gas;
    max_priority_fee_per_gas = fees.max_priority_fee_per_gas;
    to = some asset;
    value = 0;
    access_list = [];
    input = calldata;
  }

  -- The hash and the bytes of the signed transaction; `none` if the signer fails.
  unfoldable pub sign_settlement_transaction :
      ℕ → ℕ → ℕ → EvmFeeEnvelope → ℕ → Bytes → Option (ℕ × Bytes)
  sign_settlement_transaction key chain_id account_nonce fees asset calldata =
      let tx = settlement_transaction chain_id account_nonce fees asset calldata in
      elim (a.sign_hash key (a.signature_hash tx)) [
        | none ↦ none
        | some signature ↦
            let envelope = TxEnvelope.eip1559 tx signature in
            some (a.tx_hash envelope, a.encode envelope)
      ]

  abbrev pub AuthorizationCall : Type 0
  AuthorizationCall = Erc3009Authorization × Erc3009SignatureKind × Bytes

  -- Each overload must be the canonical encoding of what it decodes to.
  abbrev pub bytes_call : Bytes → Option (Erc3009Authorization × Bytes) → Checked AuthorizationCall
  bytes_call input none = err StoredTransactionError.invalid_calldata
  bytes_call input (some (auth, signature)) =
      if not (bytes_eq (a.encode_bytes_call auth signature) input)
      then err StoredTransactionError.invalid_calldata
      else ok (auth, Erc3009SignatureKind.eip1271, signature)

  abbrev pub vrs_call :
      Bytes → Option (Erc3009Authorization × ℕ × ℕ × ℕ) → Checked AuthorizationCall
  vrs_call input none = err StoredTransactionError.invalid_calldata
  vrs_call input (some (auth, v, r, s)) =
      if not (bytes_eq (a.encode_vrs_call auth v r s) input)
      then err StoredTransactionError.invalid_calldata
      else ok (auth, Erc3009SignatureKind.eoa, a.vrs_bytes r s v)

  -- The calldata of either overload: the authorization, the overload and the payer's signature.
  unfoldable pub decode_authorization_call : Bytes → Checked AuthorizationCall
  decode_authorization_call input =
      if a.has_bytes_selector input
      then bytes_call input (a.decode_bytes_call input)
      else (if a.has_vrs_selector input
          then vrs_call input (a.decode_vrs_call input)
          else err StoredTransactionError.invalid_calldata)

  abbrev pub only_eip1559 : TxEnvelope → Checked TxEip1559
  only_eip1559 (TxEnvelope.eip1559 tx s) = ok tx
  only_eip1559 (TxEnvelope.other t) = err StoredTransactionError.unsupported_envelope

  abbrev pub decoded_envelope : Bytes → Option (TxEnvelope × Bytes) → Checked TxEnvelope
  decoded_envelope input none = err StoredTransactionError.invalid_envelope
  decoded_envelope input (some (envelope, remaining)) =
      and_then (ensure (is_empty remaining) StoredTransactionError.trailing_bytes) λ _.
        and_then
          (ensure (bytes_eq (a.encode envelope) input) StoredTransactionError.invalid_envelope)
          λ _. ok envelope

  abbrev pub recovered : Option ℕ → Checked ℕ
  recovered none = err StoredTransactionError.signer_recovery
  recovered (some s) = ok s

  unfoldable pub check_identity : ExpectedEvmSubmission → TxEnvelope → Checked (Unit {0})
  check_identity x envelope =
      and_then
        (ensure (a.tx_hash envelope == x.transaction_hash)
          StoredTransactionError.transaction_hash_mismatch)
        λ _.
          and_then (recovered (a.recover_signer envelope))
            λ signer. ensure (signer == x.facilitator_signer) StoredTransactionError.signer_mismatch

  unfoldable pub check_fees : ExpectedEvmSubmission → TxEip1559 → Checked (Unit {0})
  check_fees x tx =
      and_then
        (ensure (leb tx.max_fee_per_gas x.max_fee_per_gas) StoredTransactionError.fee_cap_exceeded)
        λ _.
          and_then
            (ensure
              (not (tx.max_fee_per_gas == 0) && leb tx.max_priority_fee_per_gas tx.max_fee_per_gas)
              StoredTransactionError.invalid_fee_envelope)
            λ _. ensure (is_empty tx.access_list) StoredTransactionError.unexpected_access_list

  unfoldable pub check_transaction : ExpectedEvmSubmission → TxEip1559 → Checked (Unit {0})
  check_transaction x tx =
      and_then (ensure (tx.chain_id == x.chain_id) StoredTransactionError.chain_id_mismatch) λ _.
        and_then
          (ensure (tx.nonce == x.account_nonce) StoredTransactionError.account_nonce_mismatch)
          λ _.
            and_then (ensure (option_eq tx.to (some x.token)) StoredTransactionError.token_mismatch)
              λ _. and_then (ensure (tx.value == 0) StoredTransactionError.native_value) λ _.
                and_then
                  (ensure (tx.gas_limit == x.gas_limit) StoredTransactionError.gas_limit_mismatch)
                  λ _. check_fees x tx

  abbrev pub domain_matches : ExpectedEvmSubmission → Bool
  domain_matches x =
      option_eq x.domain.chain_id (some x.chain_id)
      && (option_eq x.domain.verifying_contract (some x.token) && not x.domain.has_salt)

  abbrev pub signature_checked :
      Erc3009SignatureKind → Outcome UnsupportedSignature SettleableSignature → Checked (Unit {0})
  signature_checked kind (err e) = err StoredTransactionError.invalid_calldata
  signature_checked kind (ok s) =
      ensure (same_kind (kind_of s) kind) StoredTransactionError.invalid_calldata

  -- The authorization is the row's, hashes to the stored payment, and is signed as its overload says.
  unfoldable pub check_authorization :
      ExpectedEvmSubmission → AuthorizationCall → Checked Erc3009SignatureKind
  check_authorization x (auth, kind, signature) =
      let hash = a.eip712_transfer_hash auth x.domain in
      and_then
        (ensure (authorization_eq auth x.authorization)
          StoredTransactionError.authorization_mismatch)
        λ _.
          and_then (ensure (hash == x.payment_hash) StoredTransactionError.payment_hash_mismatch)
            λ _.
              and_then
                (signature_checked kind (settleable (a.structured signature auth.payer hash)))
                λ _. ok kind

  unfoldable pub validate_signed_transaction :
      Bytes → ExpectedEvmSubmission → Checked DecodedEvmSubmission
  validate_signed_transaction input x =
      and_then (decoded_envelope input (a.decode input)) λ envelope.
        and_then (only_eip1559 envelope) λ tx. and_then (check_identity x envelope) λ _.
          and_then (check_transaction x tx) λ _.
            and_then (ensure (domain_matches x) StoredTransactionError.domain_mismatch) λ _.
              and_then (decode_authorization_call tx.input) λ call.
                and_then (check_authorization x call) λ kind. ok (record {
                  transaction_hash = x.transaction_hash;
                  facilitator_signer = x.facilitator_signer;
                  transaction = tx;
                  authorization = call.0;
                  payment_hash = x.payment_hash;
                  signature_kind = kind;
                })

-- ===== src/Evm/Envelope/Bound.antt =====
-- prepare.rs: what stored transaction bytes that pass `validate_signed_transaction` are bound to.
use mathlib.Core.Path.{subst, sym}
use x402_facilitator.Evm.Envelope.Checks.{
  decoded-ok, identity-ok, fees-ok, transaction-ok, decode-IsOverload, authorization-ok, ensure-ok,
  option_eq→eq,
}
use x402_facilitator.Evm.Envelope.{
  Alloy, StoredTransactionError, decode_authorization_call, Bytes, check_transaction,
  check_authorization, ensure, check_identity, ExpectedEvmSubmission, TxEnvelope, TxEip1559,
  decoded_envelope, SettleableSignature, DecodedEvmSubmission, overload, kind_of, domain_matches,
  only_eip1559, validate_signed_transaction,
}
use x402_facilitator.Prelude.{and_then-ok}
use x402_facilitator.Prelude.{ℕ, ◌≤◌, ◌≡◌, ap, ◌∙◌, true, some, [], arith, ok, ok_injective}

-- The facts that a row vouches for, of the one transaction that the stored bytes encode.
pub record IsBound (a : Alloy) (input : Bytes) (x : ExpectedEvmSubmission)
    (d : DecodedEvmSubmission) : Type 0 where
  pub signature : ℕ
  pub canonical : a.encode (TxEnvelope.eip1559 d.transaction signature) ≡ input
  pub hash : a.tx_hash (TxEnvelope.eip1559 d.transaction signature) ≡ x.transaction_hash
  pub signer :
      a.recover_signer (TxEnvelope.eip1559 d.transaction signature) ≡ some x.facilitator_signer
  pub chain : d.transaction.chain_id ≡ x.chain_id
  pub account_nonce : d.transaction.nonce ≡ x.account_nonce
  pub token : d.transaction.to ≡ some x.token
  pub no_native_value : d.transaction.value ≡ 0
  pub gas : d.transaction.gas_limit ≡ x.gas_limit
  pub fee_paid : 1 ≤ d.transaction.max_fee_per_gas
  pub fee_capped : d.transaction.max_fee_per_gas ≤ x.max_fee_per_gas
  pub priority_capped : d.transaction.max_priority_fee_per_gas ≤ d.transaction.max_fee_per_gas
  pub no_access_list : d.transaction.access_list ≡ []
  pub domain_chain : x.domain.chain_id ≡ some x.chain_id
  pub domain_contract : x.domain.verifying_contract ≡ some x.token
  pub authorization : d.authorization ≡ x.authorization
  pub payment : a.eip712_transfer_hash x.authorization x.domain ≡ x.payment_hash
  pub payer_signature : SettleableSignature
  pub calldata : d.transaction.input ≡ overload a x.authorization payer_signature
  pub kind : d.signature_kind ≡ kind_of payer_signature

module _ (a : Alloy) where
  domain-ok :
      (x : ExpectedEvmSubmission)
      → domain_matches a x ≡ true
      → (x.domain.chain_id ≡ some x.chain_id) × (x.domain.verifying_contract ≡ some x.token)
  domain-ok x h = (
    option_eq→eq x.domain.chain_id x.chain_id (ground (arith, h)),
    option_eq→eq x.domain.verifying_contract x.token (ground (arith, h)),
  )

  only_eip1559-ok :
      (v : TxEnvelope) (tx : TxEip1559)
      → only_eip1559 a v ≡ ok tx
      → (s : ℕ) × (v ≡ TxEnvelope.eip1559 tx s)
  only_eip1559-ok (TxEnvelope.eip1559 tx' s) tx h = (s, ground arith)
  only_eip1559-ok (TxEnvelope.other n) tx h = absurd (ground arith)

-- Stored bytes pass the validation only if they are the canonical encoding of one EIP-1559
-- transaction with the journaled hash, signed by the configured facilitator, with the row's chain,
-- nonce, token and gas limit, no native value, a positive fee within the cap, a priority fee within
-- the fee and no access list, whose calldata is the canonical call, by one of the two overloads, of
-- the row's authorization, and that authorization hashes to the stored payment.
pub validate_signed_transaction-IsBound :
    (a : Alloy) (input : Bytes) (x : ExpectedEvmSubmission) (d : DecodedEvmSubmission)
    → validate_signed_transaction a input x ≡ ok d
    → IsBound a input x d
unfolding validate_signed_transaction
validate_signed_transaction-IsBound a input x d h =
    let (v, e1, h1) = and_then-ok (decoded_envelope a input (a.decode input)) _ d h in
    let (tx, e2, h2) = and_then-ok (only_eip1559 a v) _ d h1 in
    let (u3, e3, h3) = and_then-ok (check_identity a x v) _ d h2 in
    let (u4, e4, h4) = and_then-ok (check_transaction a x tx) _ d h3 in
    let (u5, e5, h5) =
      and_then-ok (ensure (domain_matches a x) StoredTransactionError.domain_mismatch) _ d h4 in
    let ((auth, kind, sig), e6, h6) = and_then-ok (decode_authorization_call a tx.input) _ d h5 in
    let (k, e7, h7) = and_then-ok (check_authorization a x (auth, kind, sig)) _ d h6 in
    let (s, same) = only_eip1559-ok a v tx e2 in
    let (found, canonical) = decoded-ok a input (a.decode input) v e1 in
    let (hash, signer) = identity-ok a x v u3 e3 in
    let (c1, c2, c3, c4, c5, fees) = transaction-ok a x tx u4 e4 in
    let (f1, f2, f3, f4) = fees-ok a x tx u4 fees in
    let (d1, d2) = domain-ok a x (ensure-ok (domain_matches a x) _ u5 e5) in
    let (ps, calldata, kinds) = decode-IsOverload a tx.input (auth, kind, sig) e6 in
    let (a1, a2, a3) = authorization-ok a x auth kind sig k e7 in
    subst (λ (y : DecodedEvmSubmission). IsBound a input x y) (ok_injective h7)
      (record {
        signature = s;
        canonical = ap a.encode (sym same) ∙ canonical;
        hash = ap a.tx_hash (sym same) ∙ hash;
        signer = ap a.recover_signer (sym same) ∙ signer;
        chain = c1;
        account_nonce = c2;
        token = c3;
        no_native_value = c4;
        gas = c5;
        fee_paid = f2;
        fee_capped = f1;
        priority_capped = f3;
        no_access_list = f4;
        domain_chain = d1;
        domain_contract = d2;
        authorization = a1;
        payment = ap (λ y. a.eip712_transfer_hash y x.domain) (sym a1) ∙ a2;
        payer_signature = ps;
        calldata = calldata ∙ ap (λ y. overload a y ps) a1;
        kind = sym a3 ∙ kinds;
      })

-- ===== src/Evm/Envelope/Prepared.antt =====
-- prepare.rs: what `sign_settlement_transaction` signs, `validate_signed_transaction` accepts.
use x402_facilitator.Evm.Envelope.Accepted.{
  IsAlloy, ensure_holds, signature_of, decode-overload, authorization_accepted,
  transaction_accepted, decoded_accepted, identity_accepted, domain_accepted,
}
use x402_facilitator.Evm.Fees.{EvmFeeEnvelope}
use x402_facilitator.Evm.Envelope.{
  Alloy, StoredTransactionError, Bytes, decode_authorization_call, TxEnvelope, check_authorization,
  ensure, ExpectedEvmSubmission, Erc3009Authorization, overload, settleable, Eip712Domain, kind_of,
  domain_matches, decoded_envelope, settlement_calldata, check_transaction, check_identity,
  sign_settlement_transaction, validate_signed_transaction, settlement_transaction,
  Erc3009SignatureKind,
}
use x402_facilitator.Prelude.{
  ℕ, ◌≤◌, ◌≡◌, refl, ap, sym, ◌∙◌, false, some, arith, inl, inr, ok, Option-cases, ok_injective,
  and_then_on_ok, and_then-ok,
}

module _ (a : Alloy) (law : IsAlloy a) where
  -- What the row expects of the transaction that was prepared for it.
  abbrev pub expected :
      ℕ
      → ℕ
      → ℕ
      → ℕ
      → EvmFeeEnvelope
      → ℕ
      → ℕ
      → Erc3009Authorization
      → Eip712Domain
      → ExpectedEvmSubmission
  expected key hash chain account_nonce fees cap asset auth domain = record {
    transaction_hash = hash;
    facilitator_signer = a.address key;
    chain_id = chain;
    account_nonce = account_nonce;
    token = asset;
    gas_limit = fees.gas_limit;
    max_fee_per_gas = cap;
    authorization = auth;
    payment_hash = a.eip712_transfer_hash auth domain;
    domain = domain;
  }

  -- The transaction that the facilitator signs for a payment passes the validation of stored bytes,
  -- whichever overload the payer's signature takes: with a domain of the chain and the token, a fee
  -- envelope within the cap, and the row's expectations as the preparation leaves them. What is read
  -- back is the transaction, the authorization and the payment hash that went in.
  pub sign_settlement_transaction_validates :
      (key chain account_nonce asset cap hash : ℕ) (fees : EvmFeeEnvelope)
      (auth : Erc3009Authorization) (sig : Bytes) (domain : Eip712Domain) (calldata bytes : Bytes)
      → settlement_calldata a auth sig (a.eip712_transfer_hash auth domain) ≡ ok calldata
      → sign_settlement_transaction a key chain account_nonce fees asset calldata
        ≡ some (hash, bytes)
      → domain.chain_id ≡ some chain
      → domain.verifying_contract ≡ some asset
      → domain.has_salt ≡ false
      → fees.max_fee_per_gas ≤ cap
      → 1 ≤ fees.max_fee_per_gas
      → fees.max_priority_fee_per_gas ≤ fees.max_fee_per_gas
      → (kind : Erc3009SignatureKind) × (validate_signed_transaction a bytes
            (expected key hash chain account_nonce fees cap asset auth domain)
          ≡ ok (record {
            transaction_hash = hash;
            facilitator_signer = a.address key;
            transaction = settlement_transaction a chain account_nonce fees asset calldata;
            authorization = auth;
            payment_hash = a.eip712_transfer_hash auth domain;
            signature_kind = kind;
          }))
  unfolding settlement_calldata sign_settlement_transaction validate_signed_transaction
  sign_settlement_transaction_validates key chain account_nonce asset cap hash fees auth sig domain
        calldata bytes made signed d1 d2 d3 c1 c2 c3 =
      let (s, classified, built) =
        and_then-ok (settleable (a.structured sig auth.payer (a.eip712_transfer_hash auth domain)))
          _ calldata made in
      let input : overload a auth s ≡ calldata = ok_injective built in
      let tx = settlement_transaction a chain account_nonce fees asset calldata in
      let x = expected key hash chain account_nonce fees cap asset auth domain in
      elim (Option-cases (a.sign_hash key (a.signature_hash tx))) [
        | inl e ↦ absurd (ground (arith, rw (e, sign_settlement_transaction) at signed))
        | inr (signature, e) ↦
            let out : some (
              a.tx_hash (TxEnvelope.eip1559 tx signature),
              a.encode (TxEnvelope.eip1559 tx signature),
            )
                ≡ some (hash, bytes) =
              rw (e, sign_settlement_transaction) at signed in
            let same_hash : a.tx_hash (TxEnvelope.eip1559 tx signature) ≡ hash =
              ground (arith, out) in
            let same_bytes : a.encode (TxEnvelope.eip1559 tx signature) ≡ bytes =
              ground (arith, out) in
            (
              kind_of s,
              and_then_on_ok (decoded_envelope a bytes (a.decode bytes)) _
                  (TxEnvelope.eip1559 tx signature) _
                  (decoded_accepted a law (TxEnvelope.eip1559 tx signature) bytes same_bytes)
                  (and_then_on_ok (check_identity a x (TxEnvelope.eip1559 tx signature)) _ tt _
                    (identity_accepted a law x (TxEnvelope.eip1559 tx signature) same_hash
                      (law.recover_signed key signature tx e))
                    (and_then_on_ok (check_transaction a x tx) _ tt _
                      (transaction_accepted a law x fees calldata refl c1 c2 c3)
                      (and_then_on_ok
                        (ensure (domain_matches a x) StoredTransactionError.domain_mismatch) _ tt _
                        (ensure_holds _ _ (domain_accepted a law x d1 d2 d3))
                        (and_then_on_ok (decode_authorization_call a calldata) _
                          (auth, kind_of s, signature_of a s) _
                          (ap (decode_authorization_call a) (sym input)
                            ∙ decode-overload a law auth s)
                          (and_then_on_ok
                            (check_authorization a x (auth, kind_of s, signature_of a s)) _
                            (kind_of s) _ (authorization_accepted a law x s sig refl classified)
                            refl))))),
            )
      ]

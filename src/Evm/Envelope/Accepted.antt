-- ===== src/Evm/Envelope/Accepted.antt =====
-- prepare.rs: the codecs that the code relies on, and checks of `validate_signed_transaction` that
-- a prepared transaction passes.
use x402_facilitator.Evm.Fees.{EvmFeeEnvelope}
use x402_facilitator.Evm.Envelope.{
  Alloy, StoredTransactionError, Bytes, decode_authorization_call, TxEnvelope, SettleableSignature,
  check_authorization, ensure, StructuredSignature, ExpectedEvmSubmission, bytes_eq,
  Erc3009Authorization, TxEip1559, overload, settleable, kind_of, domain_matches, decoded_envelope,
  authorization_eq, check_transaction, same_kind, check_identity, recovered, check_fees,
  signature_checked, settlement_transaction,
}
use mathlib.Core.Path.{subst}
use x402_facilitator.Prelude.{
  ℕ, ◌≤◌, ◌≡◌, refl, ap, ◌∙◌, Bool, true, false, not, ◌&&◌, Option, none, some, [], ◌∷◌, leb, ◌==◌,
  arith, ok, ==_refl, ok_injective, and_then_on_ok, option_eq,
}

-- What the code relies on of the codecs and of the signature schemes.
pub record IsAlloy (a : Alloy) : Type 0 where
  pub decode_encode : (v : TxEnvelope) → a.decode (a.encode v) ≡ some (v, [])
  pub recover_signed :
      (key signature : ℕ) (tx : TxEip1559)
      → a.sign_hash key (a.signature_hash tx) ≡ some signature
      → a.recover_signer (TxEnvelope.eip1559 tx signature) ≡ some (a.address key)
  pub bytes_selector :
      (auth : Erc3009Authorization) (sig : Bytes)
      → a.has_bytes_selector (a.encode_bytes_call auth sig) ≡ true
  pub not_bytes_selector :
      (auth : Erc3009Authorization) (v r s : ℕ)
      → a.has_bytes_selector (a.encode_vrs_call auth v r s) ≡ false
  pub vrs_selector :
      (auth : Erc3009Authorization) (v r s : ℕ)
      → a.has_vrs_selector (a.encode_vrs_call auth v r s) ≡ true
  pub decode_bytes :
      (auth : Erc3009Authorization) (sig : Bytes)
      → a.decode_bytes_call (a.encode_bytes_call auth sig) ≡ some (auth, sig)
  pub decode_vrs :
      (auth : Erc3009Authorization) (v r s : ℕ)
      → a.decode_vrs_call (a.encode_vrs_call auth v r s) ≡ some (auth, v, r, s)
  -- an opaque signature is passed on as it is, and the parts of an EOA signature give it again
  pub opaque :
      (sig bytes : Bytes) (payer hash : ℕ)
      → a.structured sig payer hash ≡ some (StructuredSignature.eip1271 bytes)
      → bytes ≡ sig
  pub parts :
      (sig : Bytes) (payer hash v r s : ℕ)
      → a.structured sig payer hash ≡ some (StructuredSignature.eoa v r s)
      → a.structured (a.vrs_bytes r s v) payer hash ≡ some (StructuredSignature.eoa v r s)

pub ensure_holds : (b : Bool) (e : StoredTransactionError) → b ≡ true → ensure b e ≡ ok tt
ensure_holds true e h = refl
ensure_holds false e h = absurd (ground arith)

bytes_eq_refl : (xs : Bytes) → bytes_eq xs xs ≡ true
bytes_eq_refl [] = refl
bytes_eq_refl (x ∷ xs) = ground (arith, ==_refl x, bytes_eq_refl xs)

authorization_eq_refl : (x : Erc3009Authorization) → authorization_eq x x ≡ true
authorization_eq_refl x = ground arith

same_kind_refl : (s : SettleableSignature) → same_kind (kind_of s) (kind_of s) ≡ true
same_kind_refl (SettleableSignature.eoa v r s) = refl
same_kind_refl (SettleableSignature.eip1271 bytes) = refl

-- The payer's signature in the form of the overload that carries it.
abbrev pub signature_of : Alloy → SettleableSignature → Bytes
signature_of a (SettleableSignature.eoa v r s) = a.vrs_bytes r s v
signature_of a (SettleableSignature.eip1271 bytes) = bytes

module _ (a : Alloy) (law : IsAlloy a) where
  pub decode-overload :
      (auth : Erc3009Authorization) (s : SettleableSignature)
      → decode_authorization_call a (overload a auth s) ≡ ok (auth, kind_of s, signature_of a s)
  unfolding decode_authorization_call
  decode-overload auth (SettleableSignature.eip1271 bytes) =
      rw (law.bytes_selector auth bytes, decode_authorization_call)
        (rw (law.decode_bytes auth bytes)
          (rw (bytes_eq_refl (a.encode_bytes_call auth bytes)) refl))
  decode-overload auth (SettleableSignature.eoa v r s) =
      rw (law.not_bytes_selector auth v r s, law.vrs_selector auth v r s, decode_authorization_call)
        (rw (law.decode_vrs auth v r s) (rw (bytes_eq_refl (a.encode_vrs_call auth v r s)) refl))

  -- The signature is classified again as it was when the calldata was built.
  structured-signature_of :
      (sig : Bytes) (payer hash : ℕ) (o : Option StructuredSignature) (s : SettleableSignature)
      → a.structured sig payer hash ≡ o
      → settleable o ≡ ok s
      → settleable (a.structured (signature_of a s) payer hash) ≡ ok s
  structured-signature_of sig payer hash none s e h = absurd (ground arith)
  structured-signature_of sig payer hash (some (StructuredSignature.eoa v r t)) s e h =
      let same : SettleableSignature.eoa v r t ≡ s = ok_injective h in
      subst (λ y. settleable (a.structured (signature_of a y) payer hash) ≡ ok y) same
        (ap settleable (law.parts sig payer hash v r t e))
  structured-signature_of sig payer hash (some (StructuredSignature.eip1271 bytes)) s e h =
      let same : SettleableSignature.eip1271 bytes ≡ s = ok_injective h in
      subst (λ y. settleable (a.structured (signature_of a y) payer hash) ≡ ok y) same
        (ap (λ b. settleable (a.structured b payer hash)) (law.opaque sig bytes payer hash e)
          ∙ ap settleable e)
  structured-signature_of sig payer hash (some StructuredSignature.eip6492) s e h =
      absurd (ground arith)

  pub authorization_accepted :
      (x : ExpectedEvmSubmission) (s : SettleableSignature) (sig : Bytes)
      → x.payment_hash ≡ a.eip712_transfer_hash x.authorization x.domain
      → settleable
          (a.structured sig x.authorization.payer (a.eip712_transfer_hash x.authorization x.domain))
        ≡ ok s
      → check_authorization a x (x.authorization, kind_of s, signature_of a s) ≡ ok (kind_of s)
  unfolding check_authorization
  authorization_accepted x s sig p h =
      let again =
        structured-signature_of sig x.authorization.payer
          (a.eip712_transfer_hash x.authorization x.domain) _ s refl h in
      and_then_on_ok
        (ensure (authorization_eq x.authorization x.authorization)
          StoredTransactionError.authorization_mismatch)
        _ tt _ (ensure_holds _ _ (authorization_eq_refl x.authorization))
        (and_then_on_ok
          (ensure (a.eip712_transfer_hash x.authorization x.domain == x.payment_hash)
            StoredTransactionError.payment_hash_mismatch)
          _ tt _ (ensure_holds _ _ (ground (arith, p)))
          (and_then_on_ok
            (signature_checked a (kind_of s) (
              settleable (
                a.structured (signature_of a s) x.authorization.payer
                  (a.eip712_transfer_hash x.authorization x.domain))))
            _ tt _
            (ap (signature_checked a (kind_of s)) again ∙ ensure_holds _ _ (same_kind_refl s))
            refl))

  pub transaction_accepted :
      (x : ExpectedEvmSubmission) (fees : EvmFeeEnvelope) (calldata : Bytes)
      → x.gas_limit ≡ fees.gas_limit
      → fees.max_fee_per_gas ≤ x.max_fee_per_gas
      → 1 ≤ fees.max_fee_per_gas
      → fees.max_priority_fee_per_gas ≤ fees.max_fee_per_gas
      → check_transaction a x
          (settlement_transaction a x.chain_id x.account_nonce fees x.token calldata)
        ≡ ok tt
  unfolding check_transaction check_fees
  transaction_accepted x fees calldata g c1 c2 c3 =
      and_then_on_ok (ensure (x.chain_id == x.chain_id) StoredTransactionError.chain_id_mismatch) _
        tt _ (ensure_holds _ _ (==_refl x.chain_id))
        (and_then_on_ok
          (ensure (x.account_nonce == x.account_nonce)
            StoredTransactionError.account_nonce_mismatch)
          _ tt _ (ensure_holds _ _ (==_refl x.account_nonce))
          (and_then_on_ok
            (ensure (option_eq (some x.token) (some x.token)) StoredTransactionError.token_mismatch)
            _ tt _ (ensure_holds _ _ (==_refl x.token))
            (and_then_on_ok
              (ensure (fees.gas_limit == x.gas_limit) StoredTransactionError.gas_limit_mismatch) _
              tt _ (ensure_holds _ _ (ground (arith, g)))
              (and_then_on_ok
                (ensure (leb fees.max_fee_per_gas x.max_fee_per_gas)
                  StoredTransactionError.fee_cap_exceeded)
                _ tt _ (ensure_holds _ _ (ground arith))
                (and_then_on_ok
                  (ensure
                    (not (fees.max_fee_per_gas == 0)
                      && leb fees.max_priority_fee_per_gas fees.max_fee_per_gas)
                    StoredTransactionError.invalid_fee_envelope)
                  _ tt _ (ensure_holds _ _ (ground arith)) refl)))))

  pub decoded_accepted :
      (v : TxEnvelope) (bytes : Bytes)
      → a.encode v ≡ bytes
      → decoded_envelope a bytes (a.decode bytes) ≡ ok v
  decoded_accepted v bytes same =
      subst (λ b. decoded_envelope a b (a.decode b) ≡ ok v) same
        (ap (decoded_envelope a (a.encode v)) (law.decode_encode v)
          ∙ and_then_on_ok
              (ensure (bytes_eq (a.encode v) (a.encode v)) StoredTransactionError.invalid_envelope)
              _ tt _ (ensure_holds _ _ (bytes_eq_refl (a.encode v))) refl)

  pub identity_accepted :
      (x : ExpectedEvmSubmission) (v : TxEnvelope)
      → a.tx_hash v ≡ x.transaction_hash
      → a.recover_signer v ≡ some x.facilitator_signer
      → check_identity a x v ≡ ok tt
  unfolding check_identity
  identity_accepted x v h r =
      and_then_on_ok
        (ensure (a.tx_hash v == x.transaction_hash)
          StoredTransactionError.transaction_hash_mismatch)
        _ tt _ (ensure_holds _ _ (ground (arith, h)))
        (and_then_on_ok (recovered a (a.recover_signer v)) _ x.facilitator_signer _
          (ap (recovered a) r) (ensure_holds _ _ (==_refl x.facilitator_signer)))

  pub domain_accepted :
      (x : ExpectedEvmSubmission)
      → x.domain.chain_id ≡ some x.chain_id
      → x.domain.verifying_contract ≡ some x.token
      → x.domain.has_salt ≡ false
      → domain_matches a x ≡ true
  domain_accepted x d1 d2 d3 = ground (arith, d1, d2, d3)

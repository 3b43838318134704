-- ===== src/Evm/Envelope/Checks.antt =====
-- prepare.rs: what each check of `validate_signed_transaction` establishes.
use x402_facilitator.Evm.Envelope.{signature_checked, settleable}
use x402_facilitator.Evm.Envelope.{
  Alloy, Erc3009Authorization, StoredTransactionError, is_empty, decode_authorization_call, Bytes,
  authorization_eq, check_transaction, check_authorization, check_fees, ensure, check_identity,
  Erc3009SignatureKind, bytes_eq, ExpectedEvmSubmission, TxEnvelope, TxEip1559, decoded_envelope,
  SettleableSignature, vrs_call, bytes_call, overload, kind_of,
}
use x402_facilitator.Prelude.{and_then-ok, option_eq, ==→eq}
use x402_facilitator.Prelude.{
  ℕ, ◌≤◌, ◌≡◌, refl, ap, ◌∙◌, Bool, true, false, not, ◌&&◌, Option, none, some, List, [], ◌∷◌, leb,
  ◌==◌, arith, inl, inr, ok, Bool-cases, Option-cases,
}

pub ensure-ok :
    (b : Bool) (e : StoredTransactionError) (u : Unit {0}) → ensure b e ≡ ok u → b ≡ true
ensure-ok true e u h = refl
ensure-ok false e u h = absurd (ground arith)

bytes_eq→eq : (xs ys : Bytes) → bytes_eq xs ys ≡ true → xs ≡ ys
bytes_eq→eq [] [] h = refl
bytes_eq→eq [] (y ∷ ys) h = absurd (ground arith)
bytes_eq→eq (x ∷ xs) [] h = absurd (ground arith)
bytes_eq→eq (x ∷ xs) (y ∷ ys) h = ground (arith, bytes_eq→eq xs ys)

pub option_eq→eq : (x : Option ℕ) (n : ℕ) → option_eq x (some n) ≡ true → x ≡ some n
option_eq→eq none n h = absurd (ground arith)
option_eq→eq (some m) n h = ground arith

is_empty→eq : (xs : List ℕ) → is_empty xs ≡ true → xs ≡ []
is_empty→eq [] h = refl
is_empty→eq (x ∷ xs) h = absurd (ground arith)

authorization_eq→eq : (x y : Erc3009Authorization) → authorization_eq x y ≡ true → x ≡ y
authorization_eq→eq x y h = ground arith

module _ (a : Alloy) where
  pub decoded-ok :
      (input : Bytes) (o : Option (TxEnvelope × Bytes)) (v : TxEnvelope)
      → decoded_envelope a input o ≡ ok v
      → (o ≡ some (v, [])) × (a.encode v ≡ input)
  decoded-ok input none v h = absurd (ground arith)
  decoded-ok input (some (w, rest)) v h =
      let (u, e1, h1) =
        and_then-ok (ensure (is_empty rest) StoredTransactionError.trailing_bytes) _ v h in
      let (u', e2, h2) =
        and_then-ok (ensure (bytes_eq (a.encode w) input) StoredTransactionError.invalid_envelope) _
          v h1 in
      let same : w ≡ v = ground arith in
      let empty = is_empty→eq rest (ensure-ok _ _ u e1) in
      (ground arith, rw (← same) (bytes_eq→eq (a.encode w) input (ensure-ok _ _ u' e2)))

  pub identity-ok :
      (x : ExpectedEvmSubmission) (v : TxEnvelope) (u : Unit {0})
      → check_identity a x v ≡ ok u
      → (a.tx_hash v ≡ x.transaction_hash) × (a.recover_signer v ≡ some x.facilitator_signer)
  unfolding check_identity
  identity-ok x v u h =
      let (u', e1, h1) =
        and_then-ok
          (ensure (a.tx_hash v == x.transaction_hash)
            StoredTransactionError.transaction_hash_mismatch)
          _ u h in
      let same = ==→eq (a.tx_hash v) x.transaction_hash (ensure-ok _ _ u' e1) in
      elim (Option-cases (a.recover_signer v)) [
        | inl e ↦ absurd (ground arith)
        | inr (s, e) ↦
            let signer = ensure-ok (s == x.facilitator_signer) _ u (rw e at h1) in
            (same, e ∙ ap some (==→eq s x.facilitator_signer signer))
      ]

  pub fees-ok :
      (x : ExpectedEvmSubmission) (tx : TxEip1559) (u : Unit {0})
      → check_fees a x tx ≡ ok u
      → (tx.max_fee_per_gas ≤ x.max_fee_per_gas)
        × (1 ≤ tx.max_fee_per_gas)
        × (tx.max_priority_fee_per_gas ≤ tx.max_fee_per_gas)
        × (tx.access_list ≡ [])
  unfolding check_fees
  fees-ok x tx u h =
      let (u1, e1, h1) =
        and_then-ok
          (ensure (leb tx.max_fee_per_gas x.max_fee_per_gas)
            StoredTransactionError.fee_cap_exceeded)
          _ u h in
      let (u2, e2, h2) =
        and_then-ok
          (ensure
            (not (tx.max_fee_per_gas == 0) && leb tx.max_priority_fee_per_gas tx.max_fee_per_gas)
            StoredTransactionError.invalid_fee_envelope)
          _ u h1 in
      let cap = ensure-ok _ _ u1 e1 in
      let sane = ensure-ok _ _ u2 e2 in
      (ground arith, ground arith, ground arith, is_empty→eq tx.access_list (ensure-ok _ _ u h2))

  pub transaction-ok :
      (x : ExpectedEvmSubmission) (tx : TxEip1559) (u : Unit {0})
      → check_transaction a x tx ≡ ok u
      → (tx.chain_id ≡ x.chain_id)
        × (tx.nonce ≡ x.account_nonce)
        × (tx.to ≡ some x.token)
        × (tx.value ≡ 0)
        × (tx.gas_limit ≡ x.gas_limit)
        × (check_fees a x tx ≡ ok u)
  unfolding check_transaction
  transaction-ok x tx u h =
      let (u1, e1, h1) =
        and_then-ok (ensure (tx.chain_id == x.chain_id) StoredTransactionError.chain_id_mismatch) _
          u h in
      let (u2, e2, h2) =
        and_then-ok
          (ensure (tx.nonce == x.account_nonce) StoredTransactionError.account_nonce_mismatch) _ u
          h1 in
      let (u3, e3, h3) =
        and_then-ok (ensure (option_eq tx.to (some x.token)) StoredTransactionError.token_mismatch)
          _ u h2 in
      let (u4, e4, h4) =
        and_then-ok (ensure (tx.value == 0) StoredTransactionError.native_value) _ u h3 in
      let (u5, e5, h5) =
        and_then-ok (ensure (tx.gas_limit == x.gas_limit) StoredTransactionError.gas_limit_mismatch)
          _ u h4 in
      (
        ==→eq tx.chain_id x.chain_id (ensure-ok _ _ u1 e1),
        ==→eq tx.nonce x.account_nonce (ensure-ok _ _ u2 e2),
        option_eq→eq tx.to x.token (ensure-ok _ _ u3 e3),
        ==→eq tx.value 0 (ensure-ok _ _ u4 e4),
        ==→eq tx.gas_limit x.gas_limit (ensure-ok _ _ u5 e5),
        h5,
      )

  -- The calldata that decodes is the canonical encoding of one overload.
  abbrev pub IsOverload : Bytes → Erc3009Authorization × Erc3009SignatureKind × Bytes → Type 0
  IsOverload input (auth, kind, signature) =
      (s : SettleableSignature) × (input ≡ overload a auth s) × (kind ≡ kind_of s)

  bytes_call-IsOverload :
      (input : Bytes) (o : Option (Erc3009Authorization × Bytes))
      (c : Erc3009Authorization × Erc3009SignatureKind × Bytes)
      → bytes_call a input o ≡ ok c
      → IsOverload input c
  bytes_call-IsOverload input none c h = absurd (ground arith)
  bytes_call-IsOverload input (some (auth, sig)) (auth', kind, sig') h =
      elim (Bool-cases (bytes_eq (a.encode_bytes_call auth sig) input)) [
        | inl e ↦
            let same = bytes_eq→eq (a.encode_bytes_call auth sig) input e in
            (SettleableSignature.eip1271 sig, ground arith, ground arith)
        | inr e ↦ absurd (ground arith)
      ]

  vrs_call-IsOverload :
      (input : Bytes) (o : Option (Erc3009Authorization × ℕ × ℕ × ℕ))
      (c : Erc3009Authorization × Erc3009SignatureKind × Bytes)
      → vrs_call a input o ≡ ok c
      → IsOverload input c
  vrs_call-IsOverload input none c h = absurd (ground arith)
  vrs_call-IsOverload input (some (auth, v, r, s)) (auth', kind, sig') h =
      elim (Bool-cases (bytes_eq (a.encode_vrs_call auth v r s) input)) [
        | inl e ↦
            let same = bytes_eq→eq (a.encode_vrs_call auth v r s) input e in
            (SettleableSignature.eoa v r s, ground arith, ground arith)
        | inr e ↦ absurd (ground arith)
      ]

  pub decode-IsOverload :
      (input : Bytes) (c : Erc3009Authorization × Erc3009SignatureKind × Bytes)
      → decode_authorization_call a input ≡ ok c
      → IsOverload input c
  unfolding decode_authorization_call
  decode-IsOverload input c h = elim (Bool-cases (a.has_bytes_selector input)) [
    | inl e ↦
        bytes_call-IsOverload input (a.decode_bytes_call input) c
          (rw (e, decode_authorization_call) at h)
    | inr e ↦ elim (Bool-cases (a.has_vrs_selector input)) [
      | inl e' ↦
          vrs_call-IsOverload input (a.decode_vrs_call input) c
            (rw (e, e', decode_authorization_call) at h)
      | inr e' ↦ absurd (ground (arith, rw (e, e', decode_authorization_call) at h))
    ]
  ]

  pub authorization-ok :
      (x : ExpectedEvmSubmission) (auth : Erc3009Authorization) (kind : Erc3009SignatureKind)
      (sig : Bytes) (k : Erc3009SignatureKind)
      → check_authorization a x (auth, kind, sig) ≡ ok k
      → (auth ≡ x.authorization)
        × (a.eip712_transfer_hash auth x.domain ≡ x.payment_hash)
        × (kind ≡ k)
  unfolding check_authorization
  authorization-ok x auth kind sig k h =
      let (u1, e1, h1) =
        and_then-ok
          (ensure (authorization_eq auth x.authorization)
            StoredTransactionError.authorization_mismatch)
          _ k h in
      let (u2, e2, h2) =
        and_then-ok
          (ensure (a.eip712_transfer_hash auth x.domain == x.payment_hash)
            StoredTransactionError.payment_hash_mismatch)
          _ k h1 in
      let (u3, e3, h3) =
        and_then-ok
          (signature_checked a kind
            (settleable (a.structured sig auth.payer (a.eip712_transfer_hash auth x.domain))))
          _ k h2 in
      (
        authorization_eq→eq auth x.authorization (ensure-ok _ _ u1 e1),
        ==→eq _ x.payment_hash (ensure-ok _ _ u2 e2),
        ground (arith, h3),
      )

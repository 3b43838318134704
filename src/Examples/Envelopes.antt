-- ===== src/Examples/Envelopes.antt =====
-- A codec that satisfies the laws, and a settlement transaction signed and validated with it.
use x402_facilitator.Evm.Envelope.Prepared.{expected, sign_settlement_transaction_validates}
use x402_facilitator.Evm.Envelope.Bound.{IsBound, validate_signed_transaction-IsBound}
use x402_facilitator.Evm.Fees.{EvmFeeEnvelope}
use x402_facilitator.Evm.Envelope.Accepted.{IsAlloy}
use x402_facilitator.Evm.Envelope.{
  Alloy, Erc3009Authorization, TxEnvelope, Bytes, StructuredSignature, Erc3009SignatureKind,
  ExpectedEvmSubmission, Eip712Domain, validate_signed_transaction, settlement_transaction,
  settlement_calldata, sign_settlement_transaction, DecodedEvmSubmission, check_identity,
  check_transaction, check_fees, check_authorization, decode_authorization_call, TxEip1559,
}
use x402_facilitator.Prelude.{
  ℕ, zero, suc, ◌+◌, ◌≡◌, refl, ap, sym, Bool, false, Option, none, some, List, [], ◌∷◌, ◌==◌,
  arith, ok, ◌∙◌,
}

-- A list that ends before the bytes that follow it.
pub encode_list : List ℕ → Bytes → Bytes
encode_list [] rest = 0 ∷ rest
encode_list (x ∷ xs) rest = 1 ∷ x ∷ encode_list xs rest

pub decode_list : Bytes → Option (List ℕ × Bytes)
decode_list [] = none
decode_list (zero ∷ rest) = some ([], rest)
decode_list (suc n ∷ []) = none
decode_list (suc n ∷ x ∷ rest) = elim (decode_list rest) [
  | none ↦ none
  | some (xs, r) ↦ some (x ∷ xs, r)
]

decode_list-encode_list :
    (xs : List ℕ) (rest : Bytes) → decode_list (encode_list xs rest) ≡ some (xs, rest)
unfolding encode_list decode_list
decode_list-encode_list [] rest = refl
decode_list-encode_list (x ∷ xs) rest = rw (decode_list-encode_list xs rest) refl

abbrev address_list : Option ℕ → List ℕ
address_list none = []
address_list (some t) = t ∷ []

pub encode_envelope : TxEnvelope → Bytes
encode_envelope (TxEnvelope.other t) = 0 ∷ t ∷ []
encode_envelope (TxEnvelope.eip1559 tx s) =
    1
    ∷ s
    ∷ tx.chain_id
    ∷ tx.nonce
    ∷ tx.gas_limit
    ∷ tx.max_fee_per_gas
    ∷ tx.max_priority_fee_per_gas
    ∷ tx.value
    ∷ encode_list (elim tx.to [ none ↦ [] | some t ↦ t ∷ [] ]) (encode_list tx.access_list tx.input)

abbrev address_of : List ℕ → Option ℕ
address_of [] = none
address_of (t ∷ r) = some t

abbrev with_input : List ℕ → Option (List ℕ × Bytes) → Option (List ℕ × List ℕ × Bytes)
with_input to none = none
with_input to (some (l, input)) = some (to, l, input)

abbrev with_access_list : Option (List ℕ × Bytes) → Option (List ℕ × List ℕ × Bytes)
with_access_list none = none
with_access_list (some (to, r)) = with_input to (decode_list r)

abbrev lists_of : Bytes → Option (List ℕ × List ℕ × Bytes)
lists_of b = with_access_list (decode_list b)

abbrev filled : TxEip1559 → ℕ → Option (List ℕ × List ℕ × Bytes) → Option (TxEnvelope × Bytes)
filled tx s none = none
filled tx s (some (to, l, input)) =
    some
      (TxEnvelope.eip1559 (record tx { to = address_of to; access_list = l; input = input }) s, [])

pub decode_envelope : Bytes → Option (TxEnvelope × Bytes)
decode_envelope (zero ∷ t ∷ []) = some (TxEnvelope.other t, [])
decode_envelope (suc k ∷ s ∷ c ∷ n ∷ g ∷ m ∷ p ∷ v ∷ rest) =
    filled
      (record {
        chain_id = c;
        nonce = n;
        gas_limit = g;
        max_fee_per_gas = m;
        max_priority_fee_per_gas = p;
        to = none;
        value = v;
        access_list = [];
        input = [];
      })
      s (lists_of rest)
decode_envelope _ = none

abbrev encode_call : ℕ → Erc3009Authorization → Bytes → Bytes
encode_call tag auth rest =
    tag ∷ auth.payer ∷ auth.payee ∷ auth.value ∷ auth.valid_after ∷ auth.valid_before ∷ auth.nonce
    ∷ rest

abbrev decode_call : Bytes → Option (Erc3009Authorization × Bytes)
decode_call (tag ∷ a ∷ b ∷ c ∷ d ∷ e ∷ f ∷ rest) =
    some (
      record { payer = a; payee = b; value = c; valid_after = d; valid_before = e; nonce = f },
      rest,
    )
decode_call _ = none

abbrev three_parts :
    Option (Erc3009Authorization × Bytes) → Option (Erc3009Authorization × ℕ × ℕ × ℕ)
three_parts (some (auth, v ∷ r ∷ s ∷ [])) = some (auth, v, r, s)
three_parts _ = none

abbrev first_is : ℕ → Bytes → Bool
first_is tag [] = false
first_is tag (x ∷ xs) = x == tag

-- Three parts are an EOA signature, no bytes a counterfactual one.
abbrev structure_of : Bytes → StructuredSignature
structure_of [] = StructuredSignature.eip6492
structure_of (r ∷ s ∷ v ∷ []) = StructuredSignature.eoa v r s
structure_of sig = StructuredSignature.eip1271 sig

abbrev pub plain : Alloy
plain = record {
  encode = encode_envelope;
  decode = decode_envelope;
  tx_hash = λ v. 9002;
  recover_signer = λ v. elim v [ TxEnvelope.eip1559 tx s ↦ some s | TxEnvelope.other t ↦ none ];
  signature_hash = λ tx. tx.nonce;
  address = λ key. key;
  sign_hash = λ key h. some key;
  encode_bytes_call = encode_call 2;
  encode_vrs_call = λ auth v r s. encode_call 3 auth (v ∷ r ∷ s ∷ []);
  has_bytes_selector = first_is 2;
  has_vrs_selector = first_is 3;
  decode_bytes_call = decode_call;
  decode_vrs_call = λ b. three_parts (decode_call b);
  vrs_bytes = λ r s v. r ∷ s ∷ v ∷ [];
  structured = λ sig payer hash. some (structure_of sig);
  eip712_transfer_hash = λ auth d. auth.nonce + auth.value;
}

lists_of-encode_list :
    (to l : List ℕ) (input : Bytes)
    → lists_of (encode_list to (encode_list l input)) ≡ some (to, l, input)
lists_of-encode_list to l input =
    ap with_access_list (decode_list-encode_list to (encode_list l input))
    ∙ ap (with_input to) (decode_list-encode_list l input)

address_kept : (o : Option ℕ) → address_of (address_list o) ≡ o
address_kept none = refl
address_kept (some t) = refl

decode-encode_envelope : (v : TxEnvelope) → decode_envelope (encode_envelope v) ≡ some (v, [])
unfolding encode_envelope decode_envelope
decode-encode_envelope (TxEnvelope.other t) = refl
decode-encode_envelope (TxEnvelope.eip1559 tx s) =
    ap (filled (record tx { to = none; access_list = []; input = [] }) s)
      (lists_of-encode_list (address_list tx.to) tx.access_list tx.input)
    ∙ ap (λ o. some (TxEnvelope.eip1559 (record tx { to = o }) s, [])) (address_kept tx.to)

opaque_kept :
    (sig bytes : Bytes) → structure_of sig ≡ StructuredSignature.eip1271 bytes → bytes ≡ sig
opaque_kept [] bytes h = absurd (ground arith)
opaque_kept (a ∷ []) bytes h = ground arith
opaque_kept (a ∷ b ∷ []) bytes h = ground arith
opaque_kept (a ∷ b ∷ c ∷ []) bytes h = absurd (ground arith)
opaque_kept (a ∷ b ∷ c ∷ d ∷ r) bytes h = ground arith

parts_kept :
    (sig : Bytes) (v r s : ℕ)
    → structure_of sig ≡ StructuredSignature.eoa v r s
    → structure_of (r ∷ s ∷ v ∷ []) ≡ StructuredSignature.eoa v r s
parts_kept sig v r s h = refl

pub plain_law : IsAlloy plain
plain_law = record {
  decode_encode = decode-encode_envelope;
  recover_signed = λ key s tx h. sym h;
  bytes_selector = λ auth sig. refl;
  not_bytes_selector = λ auth v r s. refl;
  vrs_selector = λ auth v r s. refl;
  decode_bytes = λ auth sig. refl;
  decode_vrs = λ auth v r s. refl;
  opaque = λ sig bytes payer hash h. opaque_kept sig bytes (ground (arith, h));
  parts = λ sig payer hash v r s h. refl;
}

abbrev payment : Erc3009Authorization
payment = record {
  payer = 23;
  payee = 22;
  value = 1000;
  valid_after = 1;
  valid_before = 900;
  nonce = 702;
}

abbrev pub base_domain : Eip712Domain
base_domain = record { chain_id = some 8453; verifying_contract = some 21; has_salt = false }

abbrev base_fees : EvmFeeEnvelope
base_fees = record { gas_limit = 100; max_fee_per_gas = 40; max_priority_fee_per_gas = 2 }

-- An EOA signature, with its parts 7, 8 and 27.
abbrev base_calldata : Bytes
base_calldata = encode_call 3 payment (27 ∷ 7 ∷ 8 ∷ [])

abbrev pub base_bytes : Bytes
base_bytes =
    encode_envelope
      (TxEnvelope.eip1559 (settlement_transaction plain 8453 9 base_fees 21 base_calldata) 24)

calldata_built : settlement_calldata plain payment (7 ∷ 8 ∷ 27 ∷ []) 1702 ≡ ok base_calldata
unfolding settlement_calldata
calldata_built = refl

transaction_signed :
    sign_settlement_transaction plain 24 8453 9 base_fees 21 base_calldata ≡ some (9002, base_bytes)
unfolding sign_settlement_transaction
transaction_signed = refl

abbrev pub base_expected : ExpectedEvmSubmission
base_expected = expected plain plain_law 24 9002 8453 9 base_fees 50 21 payment base_domain

abbrev pub base_decoded : DecodedEvmSubmission
base_decoded = record {
  transaction_hash = 9002;
  facilitator_signer = 24;
  transaction = settlement_transaction plain 8453 9 base_fees 21 base_calldata;
  authorization = payment;
  payment_hash = 1702;
  signature_kind = Erc3009SignatureKind.eoa;
}

pub stored_accepted : validate_signed_transaction plain base_bytes base_expected ≡ ok base_decoded
unfolding validate_signed_transaction check_identity check_transaction check_fees
    check_authorization decode_authorization_call encode_envelope decode_envelope encode_list
    decode_list
stored_accepted = refl

validate_signed_transaction-IsBound_example : IsBound plain base_bytes base_expected base_decoded
validate_signed_transaction-IsBound_example =
    validate_signed_transaction-IsBound plain base_bytes base_expected base_decoded stored_accepted

sign_settlement_transaction_validates_example :
    (kind : Erc3009SignatureKind) × (validate_signed_transaction plain base_bytes base_expected
      ≡ ok (record base_decoded { signature_kind = kind }))
sign_settlement_transaction_validates_example =
    sign_settlement_transaction_validates plain plain_law 24 8453 9 21 50 9002 base_fees payment
      (7 ∷ 8 ∷ 27 ∷ []) base_domain base_calldata base_bytes calldata_built transaction_signed refl
      refl refl (omega arith) (omega arith) (omega arith)

-- ===== src/Examples/StoredRows.antt =====
-- Settlement rows that their providers accept.
use x402_facilitator.Prelude.{
  ◌+◌, ◌≡◌, refl, ap, Option, none, some, [], ◌∷◌, ◌==◌, if◌then◌else◌, ok,
}
use x402_facilitator.Chain.Stored.{
  RowCodec, Configured, StoredEvmSubmission, IsRowBound, transaction_checked, bound_payment,
  validate_stored_submission, validate_stored_submission-IsRowBound,
}
use x402_facilitator.Service.StoredTransaction.{
  SignedDelegateAction, Action, Transaction, SignedTransaction, NearCodec, StoredNearRow,
  validate_delegate, validate_stored_transaction,
}
use x402_facilitator.Service.StoredTransaction.Carried.{
  IsStoredDelegate, validate_stored_transaction-IsStoredDelegate,
}
use x402_facilitator.Examples.Envelopes.{plain, base_bytes, base_domain, stored_accepted}

-- Texts that stand for the number they print.
abbrev digits : RowCodec
digits = record {
  parse_hash = λ t. some t;
  parse_address = λ t. some t;
  parse_u256 = λ t. some t;
  lower = λ t. t;
  scope = λ n x y. n + x + y;
}

abbrev base_provider : Configured
base_provider = record {
  caip2 = 8453;
  chain_id = 8453;
  signer_address = 24;
  asset = 21;
  transfer_domain = base_domain;
}

abbrev base_row : StoredEvmSubmission
base_row = record {
  network = 8453;
  hash = 9002;
  submitter = 24;
  nonce = 9;
  asset = 21;
  payer = 23;
  payee = 22;
  amount = 1000;
  valid_after = 1;
  valid_before = 900;
  anchor_scope = 8497;
  anchor_value = 702;
  payment_hash = 1702;
  gas_limit = 100;
  max_fee_per_gas = 50;
}

row_accepted :
    validate_stored_submission plain digits (some base_provider) base_bytes base_row ≡ ok tt
unfolding validate_stored_submission bound_payment
row_accepted = ap transaction_checked stored_accepted

validate_stored_submission-IsRowBound_example :
    (v : Configured) × (◌≡◌ {A = Option Configured} (some base_provider) (some v))
    × IsRowBound plain digits v base_bytes base_row
validate_stored_submission-IsRowBound_example =
    validate_stored_submission-IsRowBound plain digits (some base_provider) base_bytes base_row tt
      row_accepted

abbrev relayed : SignedDelegateAction
relayed = record {
  delegate_action = record { sender_id = 41; public_key = 42; nonce = 5; max_block_height = 900 };
  signature = 43;
}

abbrev outer : SignedTransaction
outer = record {
  transaction = Transaction.v0 (record {
    signer_id = 44;
    public_key = 45;
    nonce = 6;
    receiver_id = 41;
    actions = Action.delegate relayed ∷ [];
  });
  signature = 46;
}

-- One byte string is the outer transaction, and a signature names its key.
abbrev one_transaction : NearCodec
one_transaction = record {
  decode_signed_transaction = λ b. if b == 7 then some outer else none;
  signed_transaction_hash = λ b. some (b + 300);
  get_hash = λ s. 307;
  public_key_of = λ t. elim t [ Transaction.v0 x ↦ x.public_key | Transaction.other_version n ↦ n ];
  verify = λ s hash key. s == key + 1;
  verify_delegate = λ d. d.signature == d.delegate_action.public_key + 1;
  signed_delegate_hash = λ d. some (d.delegate_action.nonce + 800);
  key_text = λ key. key;
  parse_u64 = λ t. some t;
  parse_account = λ t. some t;
}

abbrev near_row : StoredNearRow
near_row = record {
  relayer_public_key = some 45;
  relayer_nonce = some 6;
  payer = 41;
  payment_hash = 805;
  delegate_public_key = 42;
  delegate_nonce = 5;
  delegate_max_block_height = 900;
}

near_accepted : validate_stored_transaction one_transaction near_row 7 307 44 ≡ ok tt
unfolding validate_stored_transaction validate_delegate
near_accepted = refl

validate_stored_transaction-IsStoredDelegate_example :
    IsStoredDelegate one_transaction near_row 7 307 44
validate_stored_transaction-IsStoredDelegate_example =
    validate_stored_transaction-IsStoredDelegate one_transaction near_row 7 307 44 tt near_accepted

-- ===== src/Chain/Stored.antt =====
-- chain.rs: `validate_stored_submission`, which binds the bytes of a settlement row to the row and to
-- the configured provider. Texts are numbers; the parsers of hashes, addresses and amounts are those
-- of the alloy crates, and `to_ascii_lowercase` and the format of a scope those of Rust: they are
-- fields of `RowCodec`.
use x402_facilitator.Prelude.{
  ℕ, ◌<◌, ◌≡◌, refl, ap, ◌∙◌, Option, none, some, ltb, ◌==◌, if◌then◌else◌, arith, inl, inr, ok,
  err, and_then, Outcome, Bool-cases, ◌^◌, ok_injective, and_then-ok,
}
use x402_facilitator.Journal.Types.{Text}
use x402_facilitator.Evm.Envelope.{
  Alloy, Bytes, Eip712Domain, ExpectedEvmSubmission, DecodedEvmSubmission, StoredTransactionError,
  validate_signed_transaction,
}
use x402_facilitator.Evm.Envelope.Bound.{IsBound, validate_signed_transaction-IsBound}

pub record RowCodec : Type 0 where
  pub parse_hash : Text → Option ℕ
  pub parse_address : Text → Option ℕ
  pub parse_u256 : Text → Option ℕ
  pub lower : Text → Text
  -- format!("{}:{}:{}")
  pub scope : Text → Text → Text → Text

-- What the Base provider is configured with.
pub record Configured : Type 0 where
  pub caip2 : Text
  pub chain_id : ℕ
  pub signer_address : ℕ
  pub asset : ℕ
  pub transfer_domain : Eip712Domain

pub record StoredEvmSubmission : Type 0 where
  pub network : Text
  pub hash : Text
  pub submitter : Text
  pub nonce : ℕ
  pub asset : Text
  pub payer : Text
  pub payee : Text
  pub amount : Text
  pub valid_after : Text
  pub valid_before : Text
  pub anchor_scope : Text
  pub anchor_value : ℕ
  pub payment_hash : ℕ
  pub gas_limit : ℕ
  pub max_fee_per_gas : ℕ

pub data Field : Type 0 where
  network transaction_hash submitter account_nonce asset payer payee amount : Field
  valid_after valid_before anchor_scope : Field

pub data StoredSubmissionError : Type 0 where
  wrong_provider : StoredSubmissionError
  field : Field → StoredSubmissionError
  transaction : StoredTransactionError → StoredSubmissionError

abbrev pub Bound {ℓ} : Type ℓ → Type ℓ
Bound A = Outcome StoredSubmissionError A

-- `.parse().map_err(|_| Field(name))`
abbrev pub parsed : Field → Option ℕ → Bound ℕ
parsed f none = err (StoredSubmissionError.field f)
parsed f (some n) = ok n

-- `if actual != expected { return Err(Field(name)) }`
abbrev pub matching : Field → ℕ → ℕ → Bound (Unit {0})
matching f actual expected =
    if actual == expected then ok tt else err (StoredSubmissionError.field f)

-- `u64::try_from`
abbrev pub as_u64 : ℕ → Option ℕ
as_u64 n = if ltb n (2 ^ 64) then some n else none

abbrev pub transaction_checked {ℓ} :
    {A : Type ℓ} → Outcome StoredTransactionError A → Bound (Unit {0})
transaction_checked (ok d) = ok tt
transaction_checked (err e) = err (StoredSubmissionError.transaction e)

module _ (a : Alloy) (k : RowCodec) where
  abbrev pub expected_submission :
      Configured → StoredEvmSubmission → ℕ → ℕ → ℕ → ℕ → ℕ → ℕ → ℕ → ℕ → ℕ → ExpectedEvmSubmission
  expected_submission v b hash signer nonce token sender recipient value after before = record {
    transaction_hash = hash;
    facilitator_signer = signer;
    chain_id = v.chain_id;
    account_nonce = nonce;
    token = token;
    gas_limit = b.gas_limit;
    max_fee_per_gas = b.max_fee_per_gas;
    authorization = record {
      payer = sender;
      payee = recipient;
      value = value;
      valid_after = after;
      valid_before = before;
      nonce = b.anchor_value;
    };
    payment_hash = b.payment_hash;
    domain = v.transfer_domain;
  }

  -- The second half of the function, from the parse of the payer on.
  unfoldable pub bound_payment :
      Configured → Bytes → StoredEvmSubmission → ℕ → ℕ → ℕ → ℕ → Bound (Unit {0})
  bound_payment v bytes b hash signer nonce token =
      and_then (parsed Field.payer (k.parse_address b.payer)) λ sender.
        and_then (parsed Field.payee (k.parse_address b.payee)) λ recipient.
          and_then (parsed Field.amount (k.parse_u256 b.amount)) λ value.
            and_then (parsed Field.valid_after (k.parse_u256 b.valid_after)) λ after.
              and_then (parsed Field.valid_before (k.parse_u256 b.valid_before)) λ before.
                and_then
                  (matching Field.anchor_scope b.anchor_scope
                    (k.scope b.network (k.lower b.asset) (k.lower b.payer)))
                  λ _. transaction_checked (
                    validate_signed_transaction a bytes (
                      expected_submission v b hash signer nonce token sender recipient value after
                        before))

  -- `none` is a provider that is not the Base one.
  unfoldable pub validate_stored_submission :
      Option Configured → Bytes → StoredEvmSubmission → Bound (Unit {0})
  validate_stored_submission none bytes b = err StoredSubmissionError.wrong_provider
  validate_stored_submission (some v) bytes b =
      and_then (matching Field.network b.network v.caip2) λ _.
        and_then (parsed Field.transaction_hash (k.parse_hash b.hash)) λ hash.
          and_then (parsed Field.submitter (k.parse_address b.submitter)) λ signer.
            and_then (matching Field.submitter signer v.signer_address) λ _.
              and_then (parsed Field.account_nonce (as_u64 b.nonce)) λ nonce.
                and_then (parsed Field.asset (k.parse_address b.asset)) λ token.
                  and_then (matching Field.asset token v.asset)
                    λ _. bound_payment v bytes b hash signer nonce token

-- The row is the provider's own, and its bytes encode the one transaction of its payment.
pub record IsRowBound (a : Alloy) (k : RowCodec) (v : Configured) (bytes : Bytes)
    (b : StoredEvmSubmission) : Type 0 where
  pub expected : ExpectedEvmSubmission
  pub decoded : DecodedEvmSubmission
  pub own_network : b.network ≡ v.caip2
  pub own_signer : k.parse_address b.submitter ≡ some v.signer_address
  pub own_asset : k.parse_address b.asset ≡ some v.asset
  pub own_scope : b.anchor_scope ≡ k.scope b.network (k.lower b.asset) (k.lower b.payer)
  pub row_hash : k.parse_hash b.hash ≡ some expected.transaction_hash
  pub row_payer : k.parse_address b.payer ≡ some expected.authorization.payer
  pub row_payee : k.parse_address b.payee ≡ some expected.authorization.payee
  pub row_amount : k.parse_u256 b.amount ≡ some expected.authorization.value
  pub row_after : k.parse_u256 b.valid_after ≡ some expected.authorization.valid_after
  pub row_before : k.parse_u256 b.valid_before ≡ some expected.authorization.valid_before
  pub row_anchor : expected.authorization.nonce ≡ b.anchor_value
  pub row_payment : expected.payment_hash ≡ b.payment_hash
  pub row_nonce : expected.account_nonce ≡ b.nonce
  pub row_gas : expected.gas_limit ≡ b.gas_limit
  pub row_fee : expected.max_fee_per_gas ≡ b.max_fee_per_gas
  pub own_facilitator : expected.facilitator_signer ≡ v.signer_address
  pub own_token : expected.token ≡ v.asset
  pub own_chain : expected.chain_id ≡ v.chain_id
  pub small_nonce : b.nonce < 2 ^ 64
  pub bound : IsBound a bytes expected decoded

parsed-ok : (f : Field) (o : Option ℕ) (n : ℕ) → parsed f o ≡ ok n → o ≡ some n
parsed-ok f none n h = absurd (ground arith)
parsed-ok f (some m) n h = ap some (ok_injective h)

matching-ok : (f : Field) (x y : ℕ) (u : Unit {0}) → matching f x y ≡ ok u → x ≡ y
matching-ok f x y u h = ground arith

as_u64-some : (n m : ℕ) → as_u64 n ≡ some m → (m ≡ n) × (n < 2 ^ 64)
as_u64-some n m h = elim (Bool-cases (ltb n (2 ^ 64))) [
  | inl small ↦ (ground arith, ground arith)
  | inr big ↦ absurd (ground arith)
]

transaction_checked-ok :
    {A : Type 0} (o : Outcome StoredTransactionError A) (u : Unit {0})
    → transaction_checked o ≡ ok u
    → (d : A) × (o ≡ ok d)
transaction_checked-ok (ok d) u h = (d, refl)
transaction_checked-ok (err e) u h = absurd (ground arith)

-- A stored submission is valid only on the Base provider, for a row with the provider's network,
-- signer and asset and the scope of its own asset and payer, and only if its bytes encode, as
-- `IsBound` says, the transaction with the row's hash, nonce, gas limit and fee cap that pays the
-- row's amount from its payer to its payee in its validity window under its anchor.
pub validate_stored_submission-IsRowBound :
    (a : Alloy) (k : RowCodec) (p : Option Configured) (bytes : Bytes) (b : StoredEvmSubmission)
    (u : Unit {0})
    → validate_stored_submission a k p bytes b ≡ ok u
    → (v : Configured) × (p ≡ some v) × IsRowBound a k v bytes b
unfolding validate_stored_submission bound_payment
validate_stored_submission-IsRowBound a k none bytes b u h = absurd (ground arith)
validate_stored_submission-IsRowBound a k (some v) bytes b u h =
    let (_, e1, h1) = and_then-ok (matching Field.network b.network v.caip2) _ u h in
    let (hash, e2, h2) = and_then-ok (parsed Field.transaction_hash (k.parse_hash b.hash)) _ u h1 in
    let (signer, e3, h3) =
      and_then-ok (parsed Field.submitter (k.parse_address b.submitter)) _ u h2 in
    let (_, e4, h4) = and_then-ok (matching Field.submitter signer v.signer_address) _ u h3 in
    let (nonce, e5, h5) = and_then-ok (parsed Field.account_nonce (as_u64 b.nonce)) _ u h4 in
    let (token, e6, h6) = and_then-ok (parsed Field.asset (k.parse_address b.asset)) _ u h5 in
    let (_, e7, h7) = and_then-ok (matching Field.asset token v.asset) _ u h6 in
    let (sender, e8, h8) = and_then-ok (parsed Field.payer (k.parse_address b.payer)) _ u h7 in
    let (recipient, e9, h9) = and_then-ok (parsed Field.payee (k.parse_address b.payee)) _ u h8 in
    let (value, e10, h10) = and_then-ok (parsed Field.amount (k.parse_u256 b.amount)) _ u h9 in
    let (after, e11, h11) =
      and_then-ok (parsed Field.valid_after (k.parse_u256 b.valid_after)) _ u h10 in
    let (before, e12, h12) =
      and_then-ok (parsed Field.valid_before (k.parse_u256 b.valid_before)) _ u h11 in
    let (_, e13, h13) =
      and_then-ok
        (matching Field.anchor_scope b.anchor_scope
          (k.scope b.network (k.lower b.asset) (k.lower b.payer)))
        _ u h12 in
    let x : ExpectedEvmSubmission =
      expected_submission a k v b hash signer nonce token sender recipient value after before in
    let (d, e14) = transaction_checked-ok (validate_signed_transaction a bytes x) u h13 in
    let own = matching-ok _ signer v.signer_address _ e4 in
    let asset = matching-ok _ token v.asset _ e7 in
    let (same, small) = as_u64-some b.nonce nonce (parsed-ok _ _ nonce e5) in
    (
      v,
      refl,
      record {
        expected = x;
        decoded = d;
        own_network = matching-ok _ b.network v.caip2 _ e1;
        own_signer = parsed-ok _ _ signer e3 ∙ ap some own;
        own_asset = parsed-ok _ _ token e6 ∙ ap some asset;
        own_scope = matching-ok _ b.anchor_scope _ _ e13;
        row_hash = parsed-ok _ _ hash e2;
        row_payer = parsed-ok _ _ sender e8;
        row_payee = parsed-ok _ _ recipient e9;
        row_amount = parsed-ok _ _ value e10;
        row_after = parsed-ok _ _ after e11;
        row_before = parsed-ok _ _ before e12;
        row_anchor = refl;
        row_payment = refl;
        row_nonce = same;
        row_gas = refl;
        row_fee = refl;
        own_facilitator = own;
        own_token = asset;
        own_chain = refl;
        small_nonce = small;
        bound = validate_signed_transaction-IsBound a bytes x d e14;
      },
    )

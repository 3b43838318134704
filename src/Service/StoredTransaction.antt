-- ===== src/Service/StoredTransaction.antt =====
-- service.rs: `validate_stored_transaction`, which checks the bytes of a prepared NEAR settlement
-- against its row before they are sent again. Every refusal is `StoreError::Corrupt`, whose text is
-- left out. The decoding, the hashes, the signatures, the parsers and the format of a key are those
-- of the NEAR crates, and are fields of `NearCodec`.
pub mod Carried
use x402_facilitator.Prelude.{
  ℕ, ◌≡◌, refl, ap, sym, ◌∙◌, Bool, true, false, ◌&&◌, Option, none, some, List, [], ◌∷◌, ◌==◌,
  arith, ok, err, and_then, Outcome, length, option_eq, ok_injective, and_then-ok,
}
use x402_facilitator.Journal.Types.{Bytes, Text}

pub record DelegateAction : Type 0 where
  pub sender_id : ℕ
  pub public_key : ℕ
  pub nonce : ℕ
  pub max_block_height : ℕ

pub record SignedDelegateAction : Type 0 where
  pub delegate_action : DelegateAction
  pub signature : ℕ

pub data Action : Type 0 where
  delegate : SignedDelegateAction → Action
  other_action : Action

pub record TransactionV0 : Type 0 where
  pub signer_id : ℕ
  pub public_key : ℕ
  pub nonce : ℕ
  pub receiver_id : ℕ
  pub actions : List Action

-- A transaction of version 0, or of another version.
pub data Transaction : Type 0 where
  v0 : TransactionV0 → Transaction
  other_version : ℕ → Transaction

pub record SignedTransaction : Type 0 where
  pub transaction : Transaction
  pub signature : ℕ

pub record NearCodec : Type 0 where
  pub decode_signed_transaction : Bytes → Option SignedTransaction
  pub signed_transaction_hash : Bytes → Option ℕ
  pub get_hash : SignedTransaction → ℕ
  pub public_key_of : Transaction → ℕ
  -- a signature, what is signed and the key
  pub verify : ℕ → ℕ → ℕ → Bool
  pub verify_delegate : SignedDelegateAction → Bool
  pub signed_delegate_hash : SignedDelegateAction → Option ℕ
  pub key_text : ℕ → Text
  pub parse_u64 : Text → Option ℕ
  pub parse_account : Text → Option ℕ

-- The columns of the row that are read.
pub record StoredNearRow : Type 0 where
  pub relayer_public_key : Option Text
  pub relayer_nonce : Option Text
  pub payer : Text
  pub payment_hash : ℕ
  pub delegate_public_key : Text
  pub delegate_nonce : Text
  pub delegate_max_block_height : Text

pub data Corrupt : Type 0 where
  corrupt : Corrupt

abbrev pub Valid {ℓ} : Type ℓ → Type ℓ
Valid A = Outcome Corrupt A

-- `if !test { return Err(Corrupt) }`
abbrev pub require : Bool → Valid (Unit {0})
require true = ok tt
require false = err Corrupt.corrupt

-- `.ok_or_else(..)?`
abbrev pub present {ℓ} : {A : Type ℓ} → Option A → Valid A
present none = err Corrupt.corrupt
present (some x) = ok x

abbrev pub only_v0 : Transaction → Valid TransactionV0
only_v0 (Transaction.v0 t) = ok t
only_v0 (Transaction.other_version n) = err Corrupt.corrupt

-- `let Some(Action::Delegate(delegate)) = actions.first() else ..`
abbrev pub first_delegate : List Action → Valid SignedDelegateAction
first_delegate (Action.delegate d ∷ rest) = ok d
first_delegate _ = err Corrupt.corrupt

module _ (k : NearCodec) (row : StoredNearRow) where
  abbrev pub parsed_nonce : Option Text → Option ℕ
  parsed_nonce none = none
  parsed_nonce (some t) = k.parse_u64 t

  abbrev pub transaction_matches : TransactionV0 → ℕ → Text → ℕ → ℕ → Bool
  transaction_matches t expected_signer expected_public_key expected_nonce payer =
      t.signer_id == expected_signer
      && (k.key_text t.public_key == expected_public_key
          && (t.nonce == expected_nonce && (t.receiver_id == payer && length t.actions == 1)))

  abbrev pub delegate_matches : SignedDelegateAction → ℕ → ℕ → ℕ → ℕ → Bool
  delegate_matches d delegate_hash payer expected_nonce expected_max_height =
      delegate_hash == row.payment_hash
      && (d.delegate_action.sender_id == payer
          && (k.key_text d.delegate_action.public_key == row.delegate_public_key
              && (d.delegate_action.nonce == expected_nonce
                  && d.delegate_action.max_block_height == expected_max_height)))

  unfoldable pub validate_delegate : SignedDelegateAction → ℕ → Valid (Unit {0})
  validate_delegate d payer = and_then (require (k.verify_delegate d)) λ _.
      and_then (present (k.signed_delegate_hash d)) λ delegate_hash.
        and_then (present (k.parse_u64 row.delegate_nonce)) λ expected_nonce.
          and_then (present (k.parse_u64 row.delegate_max_block_height)) λ expected_max_height.
            require (delegate_matches d delegate_hash payer expected_nonce expected_max_height)

  unfoldable pub validate_stored_transaction : Bytes → ℕ → ℕ → Valid (Unit {0})
  validate_stored_transaction bytes expected_hash expected_signer =
      and_then (present (k.decode_signed_transaction bytes)) λ signed.
        and_then
          (require (
            option_eq (k.signed_transaction_hash bytes) (some expected_hash)
            && k.get_hash signed == expected_hash))
          λ _.
            and_then
              (require (
                k.verify signed.signature (k.get_hash signed) (k.public_key_of signed.transaction)))
              λ _. and_then (only_v0 signed.transaction) λ t.
                and_then (present row.relayer_public_key) λ expected_public_key.
                  and_then (present (parsed_nonce row.relayer_nonce)) λ expected_nonce.
                    and_then (present (k.parse_account row.payer)) λ payer.
                      and_then
                        (require (
                          transaction_matches t expected_signer expected_public_key expected_nonce
                            payer))
                        λ _. and_then (first_delegate t.actions) λ d. validate_delegate d payer

-- ===== src/Service/StoredTransaction/Carried.antt =====
-- service.rs: what stored NEAR bytes that pass `validate_stored_transaction` carry.
use x402_facilitator.Prelude.{
  ℕ, ◌≡◌, refl, ap, sym, ◌∙◌, Bool, true, false, ◌&&◌, Option, none, some, List, [], ◌∷◌, ◌==◌,
  arith, ok, length, and_then-ok, ok_injective, option_eq,
}
use mathlib.Core.Path.{subst}
use x402_facilitator.Journal.Types.{Bytes, Text}
use x402_facilitator.Service.StoredTransaction.{
  SignedDelegateAction, Action, TransactionV0, Transaction, NearCodec, StoredNearRow, require,
  present, only_v0, first_delegate, parsed_nonce, transaction_matches, delegate_matches,
  validate_delegate, validate_stored_transaction,
}

-- The delegate action is the row's own, sent by the payer.
pub record IsCarried (k : NearCodec) (row : StoredNearRow) (d : SignedDelegateAction) (payer : ℕ)
    : Type 0 where
  pub delegate_signed : k.verify_delegate d ≡ true
  pub delegate_payment : k.signed_delegate_hash d ≡ some row.payment_hash
  pub delegate_sender : payer ≡ d.delegate_action.sender_id
  pub delegate_key : k.key_text d.delegate_action.public_key ≡ row.delegate_public_key
  pub delegate_nonce : k.parse_u64 row.delegate_nonce ≡ some d.delegate_action.nonce
  pub delegate_expiry :
      k.parse_u64 row.delegate_max_block_height ≡ some d.delegate_action.max_block_height

-- The bytes are the row's own relayed delegate action.
pub record IsStoredDelegate (k : NearCodec) (row : StoredNearRow) (bytes : Bytes)
    (expected_hash expected_signer : ℕ) : Type 0 where
  pub inner : TransactionV0
  pub signature : ℕ
  pub carried : SignedDelegateAction
  pub decodes :
      k.decode_signed_transaction bytes
      ≡ some (record { transaction = Transaction.v0 inner; signature = signature })
  pub hashed : k.signed_transaction_hash bytes ≡ some expected_hash
  pub signed : k.verify signature expected_hash (k.public_key_of (Transaction.v0 inner)) ≡ true
  pub outer_signer : inner.signer_id ≡ expected_signer
  pub outer_key : row.relayer_public_key ≡ some (k.key_text inner.public_key)
  pub outer_nonce : parsed_nonce k row row.relayer_nonce ≡ some inner.nonce
  pub outer_receiver : k.parse_account row.payer ≡ some inner.receiver_id
  pub only_action : inner.actions ≡ Action.delegate carried ∷ []
  pub delegate : IsCarried k row carried inner.receiver_id

require-ok : (b : Bool) (u : Unit {0}) → require b ≡ ok u → b ≡ true
require-ok true u h = refl
require-ok false u h = absurd (ground arith)

present-ok : {A : Type 0} (o : Option A) (x : A) → present o ≡ ok x → o ≡ some x
present-ok none x h = absurd (ground arith)
present-ok (some y) x h = ap some (ok_injective h)

only_v0-ok : (t : Transaction) (x : TransactionV0) → only_v0 t ≡ ok x → t ≡ Transaction.v0 x
only_v0-ok (Transaction.v0 y) x h = ap Transaction.v0 (ok_injective h)
only_v0-ok (Transaction.other_version n) x h = absurd (ground arith)

hashes-ok :
    (o : Option ℕ) (m h : ℕ) → (option_eq o (some h) && m == h) ≡ true → (o ≡ some h) × (m ≡ h)
hashes-ok none m h e = absurd (ground arith)
hashes-ok (some n) m h e = (ground arith, ground arith)

module _ (k : NearCodec) (row : StoredNearRow) where
  transaction_matches-ok :
      (t : TransactionV0) (signer : ℕ) (key : Text) (nonce sender : ℕ)
      → transaction_matches k row t signer key nonce sender ≡ true
      → (t.signer_id ≡ signer)
        × (key ≡ k.key_text t.public_key)
        × (nonce ≡ t.nonce)
        × (sender ≡ t.receiver_id)
        × (length t.actions ≡ 1)
  transaction_matches-ok t signer key nonce sender h =
      (ground arith, ground arith, ground arith, ground arith, ground arith)

  delegate_matches-ok :
      (d : SignedDelegateAction) (hash sender nonce height : ℕ)
      → delegate_matches k row d hash sender nonce height ≡ true
      → (hash ≡ row.payment_hash)
        × (sender ≡ d.delegate_action.sender_id)
        × (k.key_text d.delegate_action.public_key ≡ row.delegate_public_key)
        × (nonce ≡ d.delegate_action.nonce)
        × (height ≡ d.delegate_action.max_block_height)
  delegate_matches-ok d hash sender nonce height h =
      (ground arith, ground arith, ground arith, ground arith, ground arith)

first_delegate-ok :
    (l : List Action) (d : SignedDelegateAction)
    → first_delegate l ≡ ok d
    → length l ≡ 1
    → l ≡ Action.delegate d ∷ []
first_delegate-ok [] d h n = absurd (ground arith)
first_delegate-ok (Action.other_action ∷ r) d h n = absurd (ground arith)
first_delegate-ok (Action.delegate e ∷ []) d h n = ap (λ x. Action.delegate x ∷ []) (ok_injective h)
first_delegate-ok (Action.delegate e ∷ x ∷ r) d h n = absurd (ground arith)

validate_delegate-IsCarried :
    (k : NearCodec) (row : StoredNearRow) (d : SignedDelegateAction) (payer : ℕ) (u : Unit {0})
    → validate_delegate k row d payer ≡ ok u
    → IsCarried k row d payer
unfolding validate_delegate
validate_delegate-IsCarried k row d payer u h =
    let (u1, e1, h1) = and_then-ok (require (k.verify_delegate d)) _ u h in
    let (dh, e2, h2) = and_then-ok (present (k.signed_delegate_hash d)) _ u h1 in
    let (dn, e3, h3) = and_then-ok (present (k.parse_u64 row.delegate_nonce)) _ u h2 in
    let (dm, e4, h4) = and_then-ok (present (k.parse_u64 row.delegate_max_block_height)) _ u h3 in
    let same = require-ok (delegate_matches k row d dh payer dn dm) u h4 in
    let (d1, d2, d3, d4, d5) = delegate_matches-ok k row d dh payer dn dm same in
    record {
      delegate_signed = require-ok (k.verify_delegate d) u1 e1;
      delegate_payment = present-ok (k.signed_delegate_hash d) dh e2 ∙ ap some d1;
      delegate_sender = d2;
      delegate_key = d3;
      delegate_nonce = present-ok (k.parse_u64 row.delegate_nonce) dn e3 ∙ ap some d4;
      delegate_expiry = present-ok (k.parse_u64 row.delegate_max_block_height) dm e4 ∙ ap some d5;
    }

-- Stored NEAR bytes are accepted only if they decode to a signed transaction of version 0 with the
-- expected hash and a valid signature, of the expected signer, with the row's relayer key and nonce,
-- to the row's payer, whose only action is a validly signed delegate action that hashes to the row's
-- payment, sent by that payer with the row's delegate key, nonce and expiry.
pub validate_stored_transaction-IsStoredDelegate :
    (k : NearCodec) (row : StoredNearRow) (bytes : Bytes) (expected_hash expected_signer : ℕ)
    (u : Unit {0})
    → validate_stored_transaction k row bytes expected_hash expected_signer ≡ ok u
    → IsStoredDelegate k row bytes expected_hash expected_signer
unfolding validate_stored_transaction
validate_stored_transaction-IsStoredDelegate k row bytes hash signer u h =
    let (s, e1, h1) = and_then-ok (present (k.decode_signed_transaction bytes)) _ u h in
    let (u2, e2, h2) =
      and_then-ok
        (require (option_eq (k.signed_transaction_hash bytes) (some hash) && k.get_hash s == hash))
        _ u h1 in
    let (u3, e3, h3) =
      and_then-ok (require (k.verify s.signature (k.get_hash s) (k.public_key_of s.transaction))) _
        u h2 in
    let (t, e4, h4) = and_then-ok (only_v0 s.transaction) _ u h3 in
    let (key, e5, h5) = and_then-ok (present row.relayer_public_key) _ u h4 in
    let (nonce, e6, h6) = and_then-ok (present (parsed_nonce k row row.relayer_nonce)) _ u h5 in
    let (sender, e7, h7) = and_then-ok (present (k.parse_account row.payer)) _ u h6 in
    let (u8, e8, h8) =
      and_then-ok (require (transaction_matches k row t signer key nonce sender)) _ u h7 in
    let (d, e9, h9) = and_then-ok (first_delegate t.actions) _ u h8 in
    let (hashed, same) = hashes-ok (k.signed_transaction_hash bytes) (k.get_hash s) hash (
      require-ok (option_eq (k.signed_transaction_hash bytes) (some hash) && k.get_hash s == hash)
        u2 e2) in
    let (o1, o2, o3, o4, o5) =
      transaction_matches-ok k row t signer key nonce sender
        (require-ok (transaction_matches k row t signer key nonce sender) u8 e8) in
    let version = only_v0-ok s.transaction t e4 in
    record {
      inner = t;
      signature = s.signature;
      carried = d;
      decodes =
          present-ok (k.decode_signed_transaction bytes) s e1
          ∙ ap (λ x. some (record { transaction = x; signature = s.signature })) version;
      hashed = hashed;
      signed =
          ap (λ x. k.verify s.signature x (k.public_key_of (Transaction.v0 t))) (sym same)
          ∙ ap (λ x. k.verify s.signature (k.get_hash s) (k.public_key_of x)) (sym version)
          ∙ require-ok (k.verify s.signature (k.get_hash s) (k.public_key_of s.transaction)) u3 e3;
      outer_signer = o1;
      outer_key = present-ok row.relayer_public_key key e5 ∙ ap some o2;
      outer_nonce = present-ok (parsed_nonce k row row.relayer_nonce) nonce e6 ∙ ap some o3;
      outer_receiver = present-ok (k.parse_account row.payer) sender e7 ∙ ap some o4;
      only_action = first_delegate-ok t.actions d e9 o5;
      delegate =
          subst (λ x. IsCarried k row d x) o4 (validate_delegate-IsCarried k row d sender u h9);
    }

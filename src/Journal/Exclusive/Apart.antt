-- ===== src/Journal/Exclusive/Apart.antt =====
-- What the unique indexes say of two different settlements, index by index.
use x402_facilitator.Prelude.{
  ◌≡◌, ◌≢◌, Bool, true, false, some, List, [], ◌∷◌, arith, any, ◌==◌, Bool-cases, inl, inr, sym, ap,
  ◌∙◌, sym, ◌∙◌,
}
use x402_facilitator.Journal.Types.{
  Uuid, Text, is_active, NearSubmission, EvmSubmission, SettlementRecord,
}
use x402_facilitator.Journal.Tables.{Collation, Constraint, find_row, clashes, is_evm}
use x402_facilitator.Journal.Exclusive.{IsAlone, IsExclusive, clashes_comm}

-- Two rows that no unique index lets meet.
pub record Apart (c : Collation) (r s : SettlementRecord) : Type 0 where
  pub payment_hashes : r.payment_hash ≢ s.payment_hash
  pub anchors : r.anchor_scope ≡ s.anchor_scope → r.anchor_value ≢ s.anchor_value
  pub identifiers :
      (i : Text)
      → r.api_client_id ≡ s.api_client_id
      → r.payment_identifier ≡ some i
      → s.payment_identifier ≢ some i
  pub relayer_nonces :
      (a b : NearSubmission)
      → r.network ≡ s.network
      → r.near_submission ≡ some a
      → s.near_submission ≡ some b
      → a.relayer_account_id ≡ b.relayer_account_id
      → a.relayer_public_key ≡ b.relayer_public_key
      → a.relayer_nonce ≢ b.relayer_nonce
  pub active_signers :
      (x y : Text)
      → is_evm r.chain_kind ≡ true
      → is_evm s.chain_kind ≡ true
      → is_active r.state ≡ true
      → is_active s.state ≡ true
      → r.network ≡ s.network
      → r.signer_address ≡ some x
      → s.signer_address ≡ some y
      → c.lower x ≢ c.lower y
  pub signer_nonces :
      (x y : Text) (a b : EvmSubmission)
      → is_evm r.chain_kind ≡ true
      → is_evm s.chain_kind ≡ true
      → r.network ≡ s.network
      → r.signer_address ≡ some x
      → s.signer_address ≡ some y
      → c.lower x ≡ c.lower y
      → r.evm_submission ≡ some a
      → s.evm_submission ≡ some b
      → a.signer_account_nonce ≢ b.signer_account_nonce

module _ (c : Collation) (r s : SettlementRecord) where
  unclashing-Apart : ((k : Constraint) → clashes c k r s ≡ false) → Apart c r s
  unfolding clashes
  unclashing-Apart h = record {
    payment_hashes = λ e. absurd (ground (arith, h Constraint.payment_hash_key));
    anchors = λ e f. absurd (ground (arith, h Constraint.anchor_unique));
    identifiers = λ i e f g. absurd (ground (arith, h Constraint.payment_identifier_idx));
    relayer_nonces = λ a b e f g u v w. absurd (ground (arith, h Constraint.relayer_nonce_idx));
    active_signers = λ x y e f g u v w z q. absurd (ground (arith, h Constraint.active_signer_idx));
    signer_nonces =
        λ x y a b e f g u v w p q t. absurd (ground (arith, h Constraint.signer_nonce_idx));
  }

pub any-find_row :
    (p : SettlementRecord → Bool) (id : Uuid) (rows : List SettlementRecord) (s : SettlementRecord)
    → any p rows ≡ false
    → find_row id rows ≡ some s
    → p s ≡ false
unfolding find_row
any-find_row p id [] s h f = ground arith
any-find_row p id (x ∷ rows) s h f = ground (arith, any-find_row p id rows s)

all_rows :
    (c : Collation) (x : SettlementRecord) (rows : List SettlementRecord) (j : Uuid)
    (s : SettlementRecord)
    → IsAlone c x rows
    → find_row j rows ≡ some s
    → (k : Constraint) → clashes c k x s ≡ false
all_rows c x rows j s a f k = any-find_row (clashes c k x) j rows s (a k) f

-- Two settlements found under different identifiers are apart.
pub found-Apart :
    (c : Collation) (i j : Uuid) (rows : List SettlementRecord) (r s : SettlementRecord)
    → IsExclusive c rows
    → find_row i rows ≡ some r
    → find_row j rows ≡ some s
    → (i == j) ≡ false
    → Apart c r s
unfolding find_row
found-Apart c i j [] r s h f g n = ground arith
found-Apart c i j (x ∷ rows) r s (a, h) f g n = elim (Bool-cases (x.id == i)) [
  | inl e ↦
      let here : x ≡ r = ground (arith, f) in
      let there : find_row j rows ≡ some s = ground (arith, g) in
      let alone = all_rows c x rows j s a there in
      unclashing-Apart c r s
        (λ k. ap (λ (y : SettlementRecord). clashes c k y s) (sym here) ∙ alone k)
  | inr e ↦ elim (Bool-cases (x.id == j)) [
    | inl d ↦
        let here : x ≡ s = ground (arith, g) in
        let there : find_row i rows ≡ some r = ground (arith, f) in
        let alone = all_rows c x rows i r a there in
        unclashing-Apart c r s (λ k.
          clashes_comm c k r s
          ∙ ap (λ (y : SettlementRecord). clashes c k y r) (sym here)
          ∙ alone k)
    | inr d ↦ found-Apart c i j rows r s h (rw e at f) (rw d at g) n
  ]
]

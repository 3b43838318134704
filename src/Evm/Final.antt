-- ===== src/Evm/Final.antt =====
-- provider.rs: terminal outcomes of `classify_confirmations` and `reconcile_with_confirmations`.
use x402_facilitator.Prelude.{
  ℕ, ◌+◌, ◌-◌, ◌^◌, ◌≤◌, ◌<◌, ◌≡◌, refl, ap, ◌∙◌, Option, none, some, ok, ◌==◌, min, arith,
  Bool-cases, inl, inr, ◌↔◌, sym, and_then-ok,
}
use x402_facilitator.Evm.Types.{
  ReceiptFacts, facts_eq, ReceiptObservation, TransactionObservation, EvmTerminalOutcome,
  EvmReconcileStatus,
}
use x402_facilitator.Evm.Readers.{
  merge_receipts, merge_transactions, facts_eq→eq, merge_receipts_agree,
}
use x402_facilitator.Evm.Depth.{
  classify_confirmations, classify_reconciliation, reconcile_with_confirmations, safe_block_number,
  Reader, retried, recheck, terminal_of, next_saturating, head_of, reconcile_reads,
}

-- A receipt is classified terminal exactly if the depth is positive, the head is not behind the
-- receipt and the depth is reached, counting the receipt's own block; the outcome then carries the
-- receipt's facts and the depth.
pub classify_confirmations_terminal :
    (r : ReceiptFacts) (head required : ℕ) (o : EvmTerminalOutcome)
    → head < 2 ^ 64 - 1
    → (classify_confirmations r head required ≡ ok (EvmReconcileStatus.terminal o)) ↔ (
        (1 ≤ required)
        × (r.block_number ≤ head)
        × (r.block_number + required ≤ head + 1)
        × (o ≡ terminal_of r (head - r.block_number + 1)))
unfolding classify_confirmations
classify_confirmations_terminal r head required o m =
    (λ h. (ground arith, ground arith, ground arith, ground arith), λ (a, b, c, d). ground arith)

-- With u64 values the depth never falls as the head advances: what is terminal stays terminal.
pub classify_confirmations_monotone :
    (r : ReceiptFacts) (head head' required : ℕ) (o : EvmTerminalOutcome)
    → head ≤ head'
    → classify_confirmations r head required ≡ ok (EvmReconcileStatus.terminal o)
    → (o' : EvmTerminalOutcome) × (classify_confirmations r head' required
        ≡ ok (EvmReconcileStatus.terminal o'))
      × (o.confirmations ≤ o'.confirmations)
      × (o'.success ≡ o.success)
      × (o'.tx_hash ≡ o.tx_hash)
unfolding classify_confirmations
classify_confirmations_monotone r head head' required o l h = (
  terminal_of r (next_saturating (head' - r.block_number)),
  ground arith,
  ground arith,
  ground arith,
  ground arith,
)

-- What a terminal outcome is based on.
pub record IsFinal (chain : ℕ) (primary backup : Reader) (required : ℕ) (o : EvmTerminalOutcome)
    : Type 0 where
  pub facts : ReceiptFacts
  pub primary_head : ℕ
  pub backup_head : ℕ
  pub primary_receipt : retried primary.receipt ≡ ok (ReceiptObservation.mined facts)
  pub backup_receipt : retried backup.receipt ≡ ok (ReceiptObservation.mined facts)
  pub primary_recheck : retried primary.receipt_again ≡ ok (ReceiptObservation.mined facts)
  pub backup_recheck : retried backup.receipt_again ≡ ok (ReceiptObservation.mined facts)
  pub primary_chain : retried primary.block_head ≡ ok (chain, primary_head)
  pub backup_chain : retried backup.block_head ≡ ok (chain, backup_head)
  pub required_positive : 1 ≤ required
  pub primary_depth : facts.block_number + required ≤ primary_head + 1
  pub backup_depth : facts.block_number + required ≤ backup_head + 1
  pub outcome : o ≡ terminal_of facts o.confirmations
  pub depth_recorded : required ≤ o.confirmations

head_of-min :
    (chain head : ℕ) (p b : ℕ × ℕ)
    → head_of chain p b ≡ ok head
    → (p ≡ (chain, p.1)) × (b ≡ (chain, b.1)) × (head ≡ min p.1 b.1)
head_of-min chain head (x, p) (y, b) h = ground arith

safe_head :
    (chain head : ℕ) (primary backup : Reader)
    → safe_block_number chain primary backup ≡ ok head
    → (p b : ℕ) × (retried primary.block_head ≡ ok (chain, p))
      × (retried backup.block_head ≡ ok (chain, b))
      × (head ≡ min p b)
unfolding safe_block_number
safe_head chain head primary backup h =
    let (p, e, h1) = and_then-ok (retried primary.block_head) _ head h in
    let (b, d, h2) = and_then-ok (retried backup.block_head) _ head h1 in
    let (c, k, m) = head_of-min chain head p b h2 in (p.1, b.1, e ∙ ap ok c, d ∙ ap ok k, m)

classified :
    (first : ReceiptObservation) (t : TransactionObservation) (again : Option ReceiptObservation)
    (head required : ℕ) (o : EvmTerminalOutcome)
    → classify_reconciliation first t again head required ≡ ok (EvmReconcileStatus.terminal o)
    → (f : ReceiptFacts) × (first ≡ ReceiptObservation.mined f)
      × (again ≡ some (ReceiptObservation.mined f))
      × (classify_confirmations f head required ≡ ok (EvmReconcileStatus.terminal o))
unfolding classify_reconciliation
classified ReceiptObservation.unknown t again head required o h = absurd (ground arith)
classified ReceiptObservation.pending t again head required o h = absurd (ground arith)
classified (ReceiptObservation.mined f) t none head required o h = absurd (ground arith)
classified (ReceiptObservation.mined f) t (some ReceiptObservation.unknown) head required o h =
    absurd (ground arith)
classified (ReceiptObservation.mined f) t (some ReceiptObservation.pending) head required o h =
    absurd (ground arith)
classified (ReceiptObservation.mined f) t (some (ReceiptObservation.mined g)) head required o h =
    elim (Bool-cases (facts_eq f g)) [
      | inl e ↦ let same = facts_eq→eq f g e in (f, refl, rw same, rw same (ground arith))
      | inr e ↦ absurd (ground arith)
    ]

depth_reached :
    (f : ReceiptFacts) (head required : ℕ) (o : EvmTerminalOutcome)
    → classify_confirmations f head required ≡ ok (EvmReconcileStatus.terminal o)
    → (1 ≤ required)
      × (f.block_number + required ≤ head + 1)
      × (o ≡ terminal_of f o.confirmations)
      × (required ≤ o.confirmations)
unfolding classify_confirmations
depth_reached f head required o h = (ground arith, ground arith, ground arith, ground arith)

rechecked :
    (primary backup : Reader) (f g : ReceiptFacts)
    → recheck primary backup (ReceiptObservation.mined f) ≡ ok (some (ReceiptObservation.mined g))
    → (retried primary.receipt_again ≡ ok (ReceiptObservation.mined g))
      × (retried backup.receipt_again ≡ ok (ReceiptObservation.mined g))
rechecked primary backup f g h =
    let (p, e, h1) = and_then-ok (retried primary.receipt_again) _ _ h in
    let (b, d, h2) = and_then-ok (retried backup.receipt_again) _ _ h1 in
    let (m, c, h3) = and_then-ok (merge_receipts p b) _ _ h2 in
    let same : m ≡ ReceiptObservation.mined g = ground (arith, h3) in
    let (x, y) = (merge_receipts_agree p b m c).0 g same in (e ∙ ap ok x, d ∙ ap ok y)

reads-IsFinal :
    (chain : ℕ) (primary backup : Reader) (required : ℕ) (o : EvmTerminalOutcome)
    → reconcile_reads chain primary backup required ≡ ok (EvmReconcileStatus.terminal o)
    → IsFinal chain primary backup required o
unfolding reconcile_reads
reads-IsFinal chain primary backup required o h =
    let (p, e1, h1) = and_then-ok (retried primary.receipt) _ _ h in
    let (b, e2, h2) = and_then-ok (retried backup.receipt) _ _ h1 in
    let (first, e3, h3) = and_then-ok (merge_receipts p b) _ _ h2 in
    let (pt, e4, h4) = and_then-ok (retried primary.transaction) _ _ h3 in
    let (bt, e5, h5) = and_then-ok (retried backup.transaction) _ _ h4 in
    let (t, e6, h6) = and_then-ok (merge_transactions pt bt) _ _ h5 in
    let (head, e7, h7) = and_then-ok (safe_block_number chain primary backup) _ _ h6 in
    let (again, e8, h8) = and_then-ok (recheck primary backup first) _ _ h7 in
    let (f, mined, mined_again, depth) = classified first t again head required o h8 in
    let (x, y) = (merge_receipts_agree p b first e3).0 f mined in
    let (ph, bh, c1, c2, m) = safe_head chain head primary backup e7 in
    let (r1, r2) = rechecked primary backup f f (
      ap (λ (v : ReceiptObservation). recheck primary backup v) (sym mined)
      ∙ e8
      ∙ ap ok mined_again) in
    let (d1, d2, d3, d4) = depth_reached f head required o depth in
    record {
      facts = f;
      primary_head = ph;
      backup_head = bh;
      primary_receipt = e1 ∙ ap ok x;
      backup_receipt = e2 ∙ ap ok y;
      primary_recheck = r1;
      backup_recheck = r2;
      primary_chain = c1;
      backup_chain = c2;
      required_positive = d1;
      primary_depth = ground (arith, m, d2);
      backup_depth = ground (arith, m, d2);
      outcome = d3;
      depth_recorded = d4;
    }

-- Whenever the reconciliation of a transaction reports a terminal outcome, both readers have
-- reported the same receipt, twice, both are on the configured chain, and the receipt lies at least
-- the required depth, which is positive, below both heads; the outcome carries that receipt's facts
-- and a depth that reaches the required one.
pub reconcile_with_confirmations-IsFinal :
    (chain : ℕ) (primary backup : Reader) (required : ℕ) (o : EvmTerminalOutcome)
    → reconcile_with_confirmations chain primary backup required
      ≡ ok (EvmReconcileStatus.terminal o)
    → IsFinal chain primary backup required o
unfolding reconcile_with_confirmations
reconcile_with_confirmations-IsFinal chain primary backup required o h =
    elim (Bool-cases (required == 0)) [
      | inl z ↦ absurd (ground arith)
      | inr z ↦ reads-IsFinal chain primary backup required o (ground arith)
    ]

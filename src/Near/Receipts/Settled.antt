-- ===== src/Near/Receipts/Settled.antt =====
-- receipt.rs: what a successful interpretation of a final outcome rests on.
use mathlib.Core.Path.{subst}
use x402_facilitator.Near.Graph.Sort.{children_of}
use x402_facilitator.Near.Graph.Acyclic.{IsCycle, check_acyclic_returns, check_acyclic_sound}
use x402_facilitator.Near.Graph.Walk.{
  Reaches, IsAccepted, walk_from_returns, walk-IsWalked, Reaches-mem,
}
use x402_facilitator.Near.Receipts.Inversion.{
  on_asset, final_status-ok, delegate_receipt-ok, known_status-ok, only_child-ok, token_receipt-ok,
  token_status-ok, found_receipts-get, IsAccepted-get, Reaches-get, children_of-same,
}
use x402_facilitator.Near.Graph.Indexed.{HasDistinctIds, by_id-get, by_id-HasDistinctIds}
use x402_facilitator.Near.Graph.{execution_failure, by_id, get, walk, walk_fuel, check_acyclic}
use x402_facilitator.Near.Receipts.{
  interpret_final_outcome, transfer_receipts, graph_checked, and_then_loop, final_status,
  known_status, only_child, found_receipts, delegate_receipt, token_receipt,
}
use x402_facilitator.Near.Types.{
  FinalExecutionOutcome, Validated, SuccessfulTransferReceipt, ExecutionOutcome,
  FinalExecutionStatus, ReceiptValidationError, ExecutionStatusView,
}
use x402_facilitator.Near.Graph.Counts.{count, mem→count}
use x402_facilitator.Prelude.{
  ℕ, ◌≤◌, ◌≡◌, ◌≢◌, refl, ap, sym, ◌∙◌, Option, none, some, List, [], ◌∷◌, arith, inl, inr, ◌⊎◌, ok,
  err, filter, Outcome-cases, and_then-ok, ok_injective,
}

-- The graph of a settled payment: the transaction did not fail and has one child, the delegate
-- receipt, which ran on the payer; exactly one of its children ran on the asset, the token receipt,
-- which returned the value that is reported; every receipt that the delegate receipt leads to is
-- known and did not fail; and no cycle is among them.
pub record IsSettled (o : FinalExecutionOutcome) (payer asset : ℕ)
    (receipt : SuccessfulTransferReceipt) : Type 0 where
  pub final_value : List ℕ
  pub final : o.status ≡ FinalExecutionStatus.success_value final_value
  pub transaction_not_failed : execution_failure o.transaction_outcome.status ≡ none
  pub distinct : HasDistinctIds o.receipts_outcome
  pub delegate_id : ℕ
  pub delegate : ExecutionOutcome
  pub spawned : o.transaction_outcome.receipt_ids ≡ delegate_id ∷ []
  pub delegate_found : get delegate_id o.receipts_outcome ≡ some delegate
  pub on_payer : delegate.executor_id ≡ payer
  pub token : ExecutionOutcome
  pub one_token :
      filter (on_asset asset) (found_receipts o.receipts_outcome delegate.receipt_ids) ≡ token ∷ []
  pub token_reported : receipt.receipt_id ≡ token.id
  pub token_succeeded : token.status ≡ ExecutionStatusView.success_value receipt.value
  pub reachable :
      (v : ℕ) → Reaches o.receipts_outcome delegate_id v → IsAccepted o.receipts_outcome token.id v
  pub acyclic :
      (cycle : List ℕ)
      → ((v : ℕ) → 1 ≤ count v cycle → Reaches o.receipts_outcome delegate_id v)
      → ¬ (IsCycle (children_of o.receipts_outcome) cycle)

loop-cases {ℓ} :
    {A : Type ℓ} (x : Option (Validated A))
    → (x ≡ none)
      ⊎ (((e : ReceiptValidationError) × (x ≡ some (err e))) ⊎ ((a : A) × (x ≡ some (ok a))))
loop-cases none = inl refl
loop-cases (some (err e)) = inr (inl (e, refl))
loop-cases (some (ok a)) = inr (inr (a, refl))

and_then_loop-ok {ℓ κ} :
    {A : Type ℓ} {B : Type κ} (x : Option (Validated A)) (f : A → Option (Validated B)) (b : B)
    → and_then_loop x f ≡ some (ok b)
    → (a : A) × (x ≡ some (ok a)) × (f a ≡ some (ok b))
and_then_loop-ok none f b h = absurd (ground arith)
and_then_loop-ok (some (err e)) f b h = absurd (ground arith)
and_then_loop-ok (some (ok a)) f b h = (a, refl, h)

-- What the checks before the walk have found.
abbrev TransferReceipts : Type 0
TransferReceipts = ℕ × List ExecutionOutcome × ExecutionOutcome

record IsTransfer (o : FinalExecutionOutcome) (payer asset : ℕ) (r : TransferReceipts)
    : Type 0 where
  final_value : List ℕ
  final : o.status ≡ FinalExecutionStatus.success_value final_value
  transaction_not_failed : execution_failure o.transaction_outcome.status ≡ none
  indexed : by_id o.receipts_outcome ≡ ok r.1
  spawned : o.transaction_outcome.receipt_ids ≡ r.0 ∷ []
  delegate : ExecutionOutcome
  delegate_found : get r.0 r.1 ≡ some delegate
  on_payer : delegate.executor_id ≡ payer
  one_token : filter (on_asset asset) (found_receipts r.1 delegate.receipt_ids) ≡ r.2 ∷ []

transfer_receipts-IsTransfer :
    (o : FinalExecutionOutcome) (payer asset : ℕ) (r : TransferReceipts)
    → transfer_receipts o payer asset ≡ ok r
    → IsTransfer o payer asset r
unfolding transfer_receipts
transfer_receipts-IsTransfer o payer asset r h =
    let (u, e1, h1) = and_then-ok (final_status o.status) _ r h in
    let (u', e2, h2) =
      and_then-ok
        (known_status (λ e. ReceiptValidationError.transaction_failure e)
          o.transaction_outcome.status)
        _ _ h1 in
    let (i, e3, h3) = and_then-ok (only_child o.transaction_outcome.receipt_ids) _ _ h2 in
    let (n, e4, h4) = and_then-ok (by_id o.receipts_outcome) _ _ h3 in
    let (d, e5, h5) = and_then-ok (delegate_receipt n i payer) _ _ h4 in
    let (t, e6, h6) = and_then-ok (token_receipt n d asset) _ _ h5 in
    let (v, final) = final_status-ok o.status u e1 in
    let (found, on) = delegate_receipt-ok n i payer d e5 in
    subst (λ (x : TransferReceipts). IsTransfer o payer asset x) (ok_injective h6)
      (record {
        final_value = v;
        final = final;
        transaction_not_failed = known_status-ok _ o.transaction_outcome.status u' e2;
        indexed = e4;
        spawned = only_child-ok _ i e3;
        delegate = d;
        delegate_found = found;
        on_payer = on;
        one_token = token_receipt-ok n d asset t e6;
      })

graph-IsSettled :
    (o : FinalExecutionOutcome) (payer asset : ℕ) (r : TransferReceipts)
    (receipt : SuccessfulTransferReceipt)
    → IsTransfer o payer asset r
    → graph_checked r.0 r.1 r.2 ≡ some (ok receipt)
    → IsSettled o payer asset receipt
unfolding graph_checked
graph-IsSettled o payer asset (id, m, token) receipt t h =
    let (visited, e1, h1) =
      and_then_loop-ok (walk m token.id (walk_fuel m) (id ∷ []) []) _ receipt h in
    let (u, e2, h2) = and_then_loop-ok (check_acyclic m visited) _ receipt h1 in
    let (w, starts) = walk-IsWalked m token.id (walk_fuel m) id visited e1 in
    let (reported, succeeded) = token_status-ok token token.status receipt (ground arith) in
    let same = λ (v : ℕ). by_id-get o.receipts_outcome m v t.indexed in
    record {
      final_value = t.final_value;
      final = t.final;
      transaction_not_failed = t.transaction_not_failed;
      distinct = by_id-HasDistinctIds o.receipts_outcome m t.indexed;
      delegate_id = id;
      delegate = t.delegate;
      spawned = t.spawned;
      delegate_found = sym (same id) ∙ t.delegate_found;
      on_payer = t.on_payer;
      token = token;
      one_token =
          ap (filter (on_asset asset))
            (sym (found_receipts-get m o.receipts_outcome t.delegate.receipt_ids same))
          ∙ t.one_token;
      token_reported = reported;
      token_succeeded = succeeded;
      reachable = λ v reaches.
          IsAccepted-get m o.receipts_outcome token.id v (same v)
            (w.accepted v (Reaches-mem token.id visited w starts (Reaches-get same reaches)));
      acyclic = λ cycle inside c.
          check_acyclic_sound m visited cycle w.once e2
            (λ v k.
              mem→count v visited
                (Reaches-mem token.id visited w starts (Reaches-get same (inside v k))))
            (rw (children_of-same m o.receipts_outcome same) c);
    }

-- Whenever a final outcome is read as a successful transfer of a payer's tokens, its graph is the
-- graph of a settled payment: the transaction did not fail and created one receipt, which ran on the
-- payer's account; exactly one receipt of that one ran on the asset's contract, and it returned the
-- value that is reported; no two outcomes share an id; every receipt that the delegate receipt leads
-- to has an outcome that did not fail and, the token receipt aside, is not unknown; and no cycle is
-- among them.
pub interpret_final_outcome-IsSettled :
    (o : FinalExecutionOutcome) (payer asset : ℕ) (receipt : SuccessfulTransferReceipt)
    → interpret_final_outcome o payer asset ≡ some (ok receipt)
    → IsSettled o payer asset receipt
unfolding interpret_final_outcome graph_checked
interpret_final_outcome-IsSettled o payer asset receipt h =
    elim (Outcome-cases (transfer_receipts o payer asset)) [
      | inl (e, failed) ↦ absurd (ground (arith, rw (failed, interpret_final_outcome) at h))
      | inr (r, passed) ↦
          let t = transfer_receipts-IsTransfer o payer asset r passed in
          graph-IsSettled o payer asset r receipt t (rw (passed, interpret_final_outcome) at h)
    ]

graph_checked_returns :
    (id : ℕ) (m : List ExecutionOutcome) (token : ExecutionOutcome)
    → graph_checked id m token ≢ none
unfolding graph_checked
graph_checked_returns id m token h =
    elim (loop-cases (walk m token.id (walk_fuel m) (id ∷ []) [])) [
      | inl none_left ↦ walk_from_returns m token.id id none_left
      | inr (inl (e, failed)) ↦ absurd (ground (arith, rw (failed, graph_checked) at h))
      | inr (inr (visited, walked)) ↦
          let (w, starts) = walk-IsWalked m token.id (walk_fuel m) id visited walked in
          elim (loop-cases (check_acyclic m visited)) [
            | inl none_left ↦ check_acyclic_returns m visited w.once none_left
            | inr (inl (e, failed)) ↦
                absurd (ground (arith, rw (walked, failed, graph_checked) at h))
            | inr (inr (u, sorted)) ↦
                absurd (ground (arith, rw (walked, sorted, graph_checked) at h))
          ]
    ]

-- The interpretation of a final outcome always ends, whatever the outcome: both loops end within
-- their fuel, the walk on graphs with cycles too.
pub interpret_final_outcome_returns :
    (o : FinalExecutionOutcome) (payer asset : ℕ) → interpret_final_outcome o payer asset ≢ none
unfolding interpret_final_outcome
interpret_final_outcome_returns o payer asset h =
    elim (Outcome-cases (transfer_receipts o payer asset)) [
      | inl (e, failed) ↦ absurd (ground (arith, rw (failed, interpret_final_outcome) at h))
      | inr (r, passed) ↦
          graph_checked_returns r.0 r.1 r.2 (rw (passed, interpret_final_outcome) at h)
    ]

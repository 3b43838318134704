-- ===== src/Near/Receipts/Inversion.antt =====
-- receipt.rs: what the success of each part of `interpret_final_outcome` says, and lookups in two
-- maps that agree.
use x402_facilitator.Near.Graph.Walk.{IsAccepted, Reaches}
use x402_facilitator.Near.Graph.{get, execution_failure}
use x402_facilitator.Near.Graph.Sort.{children_of}
use x402_facilitator.Near.Receipts.{
  delegate_receipt, only_child, token_receipt, found_receipts, only_token, final_status,
  known_status, token_status,
}
use x402_facilitator.Near.Types.{
  ExecutionOutcome, FinalExecutionStatus, ReceiptValidationError, ExecutionStatusView,
  SuccessfulTransferReceipt,
}
use mathlib.Core.Path.{fun_ext}
use x402_facilitator.Prelude.{
  ℕ, ◌≡◌, refl, sym, ◌∙◌, Bool, not, none, some, List, [], ◌∷◌, ◌==◌, arith, inl, inr, ok, any,
  filter, is_some, Bool-cases, Option-cases, and_then-ok, ==→eq,
}

abbrev pub on_asset : ℕ → ExecutionOutcome → Bool
on_asset asset r = r.executor_id == asset

pub final_status-ok :
    (s : FinalExecutionStatus) (u : Unit {0})
    → final_status s ≡ ok u
    → (v : List ℕ) × (s ≡ FinalExecutionStatus.success_value v)
final_status-ok FinalExecutionStatus.not_started u h = absurd (ground arith)
final_status-ok FinalExecutionStatus.started u h = absurd (ground arith)
final_status-ok (FinalExecutionStatus.failure e) u h = absurd (ground arith)
final_status-ok (FinalExecutionStatus.success_value v) u h = (v, refl)

pub known_status-ok :
    (failed : ℕ → ReceiptValidationError) (s : ExecutionStatusView) (u : Unit {0})
    → known_status failed s ≡ ok u
    → execution_failure s ≡ none
known_status-ok failed ExecutionStatusView.unknown u h = refl
known_status-ok failed (ExecutionStatusView.failure e) u h = absurd (ground arith)
known_status-ok failed (ExecutionStatusView.success_value v) u h = refl
known_status-ok failed (ExecutionStatusView.success_receipt_id v) u h = refl

pub only_child-ok : (ids : List ℕ) (id : ℕ) → only_child ids ≡ ok id → ids ≡ id ∷ []
only_child-ok [] id h = absurd (ground arith)
only_child-ok (x ∷ []) id h = ground arith
only_child-ok (x ∷ y ∷ ids) id h = absurd (ground arith)

pub only_token-ok :
    (os : List ExecutionOutcome) (t : ExecutionOutcome) → only_token os ≡ ok t → os ≡ t ∷ []
only_token-ok [] t h = absurd (ground arith)
only_token-ok (x ∷ []) t h = ground arith
only_token-ok (x ∷ y ∷ os) t h = absurd (ground arith)

pub token_status-ok :
    (token : ExecutionOutcome) (s : ExecutionStatusView) (r : SuccessfulTransferReceipt)
    → token_status token s ≡ ok r
    → (r.receipt_id ≡ token.id) × (s ≡ ExecutionStatusView.success_value r.value)
token_status-ok token ExecutionStatusView.unknown r h = absurd (ground arith)
token_status-ok token (ExecutionStatusView.failure e) r h = absurd (ground arith)
token_status-ok token (ExecutionStatusView.success_value v) r h = (ground arith, ground arith)
token_status-ok token (ExecutionStatusView.success_receipt_id v) r h = absurd (ground arith)

pub delegate_receipt-ok :
    (outcomes : List ExecutionOutcome) (id payer : ℕ) (d : ExecutionOutcome)
    → delegate_receipt outcomes id payer ≡ ok d
    → (get id outcomes ≡ some d) × (d.executor_id ≡ payer)
unfolding delegate_receipt
delegate_receipt-ok outcomes id payer d h = elim (Option-cases (get id outcomes)) [
  | inl e ↦ absurd (ground arith)
  | inr (r, e) ↦ elim (Bool-cases (r.executor_id == payer)) [
    | inl on ↦
        let (u, k, same) =
          and_then-ok (known_status (λ e. ReceiptValidationError.delegate_failure e) r.status) _ d
            (rw (on) at (rw (e, delegate_receipt) at h)) in
        let same' : r ≡ d = ground arith in
        (ground arith, rw (← same') (==→eq r.executor_id payer on))
    | inr off ↦ absurd (ground arith)
  ]
]

pub token_receipt-ok :
    (outcomes : List ExecutionOutcome) (d : ExecutionOutcome) (asset : ℕ) (t : ExecutionOutcome)
    → token_receipt outcomes d asset ≡ ok t
    → filter (on_asset asset) (found_receipts outcomes d.receipt_ids) ≡ t ∷ []
unfolding token_receipt
token_receipt-ok outcomes d asset t h =
    elim (Bool-cases (any (λ id. not (is_some (get id outcomes))) d.receipt_ids)) [
      | inl e ↦ absurd (ground (arith, rw (e, token_receipt) at h))
      | inr e ↦ only_token-ok _ t (rw (e, token_receipt) at h)
    ]

pub found_receipts-get :
    (m os : List ExecutionOutcome) (ids : List ℕ)
    → ((v : ℕ) → get v m ≡ get v os)
    → found_receipts m ids ≡ found_receipts os ids
found_receipts-get m os [] same = refl
found_receipts-get m os (id ∷ ids) same =
    rw (same id, found_receipts)
      (ground (arith, found_receipts-get m os ids same, Option-cases (get id os)))

pub Reaches-get :
    {m os : List ExecutionOutcome} {root : ℕ}
    → ((v : ℕ) → get v m ≡ get v os)
    → {v : ℕ} → Reaches os root v
    → Reaches m root v
Reaches-get same Reaches.here = Reaches.here
Reaches-get same (Reaches.child {u} {v} o r e c) =
    Reaches.child o (Reaches-get same r) (same u ∙ e) c

pub IsAccepted-get :
    (m os : List ExecutionOutcome) (token_id v : ℕ)
    → get v m ≡ get v os
    → IsAccepted m token_id v
    → IsAccepted os token_id v
IsAccepted-get m os token_id v same a = record {
  receipt = a.receipt;
  found = sym same ∙ a.found;
  not_failed = a.not_failed;
  not_unknown = a.not_unknown;
}

pub children_of-same :
    (m os : List ExecutionOutcome) → ((v : ℕ) → get v m ≡ get v os) → children_of m ≡ children_of os
unfolding children_of
children_of-same m os same = fun_ext (λ v. rw (same v, children_of) refl)

-- ===== src/Chain/Verdicts.antt =====
-- chain.rs: what a terminal verdict of `reconcile_status`, `broadcast` and `rebroadcast` rests on.
use x402_facilitator.Near.Receipts.Settled.{IsSettled, interpret_final_outcome-IsSettled}
use x402_facilitator.Service.Recovery.{ReconcileVerdict}
use x402_facilitator.Service.World.{TerminalOutcome}
use x402_facilitator.Near.Types.{
  NearRpcError, TransactionLookup, FinalExecutionOutcome, Validated, SuccessfulTransferReceipt,
  ReceiptValidationError, is_definitive_failure,
}
use x402_facilitator.Near.Receipts.{validate_final_outcome_identity, interpret_final_outcome}
use x402_facilitator.Chain.{
  Codec, NearInterpretation, interpret_near_final, near_lookups_status, NearProvider, near_verdict,
  near_terminal, near_final_outcome, graph_verdict,
}
use x402_facilitator.Prelude.{
  ℕ, ◌≡◌, refl, ap, Bool, true, false, Option, none, some, arith, inl, inr, ◌⊎◌, ok, err, Outcome,
  Bool-cases, Option-cases, Outcome-cases,
}

-- A final outcome of NEAR that is read as terminal: it names the expected transaction, signer and
-- receiver; a success is a settled payment, a failure a definitive one.
pub record IsNearTerminal (k : Codec) (view : FinalExecutionOutcome) (hash signer payer asset : ℕ)
    (o : TerminalOutcome) : Type 0 where
  pub transaction_hash : view.transaction_hash ≡ hash
  pub outcome_id : view.transaction_outcome.id ≡ hash
  pub signer_id : view.signer_id ≡ signer
  pub receiver_id : view.receiver_id ≡ payer
  pub executor : view.transaction_outcome.executor_id ≡ signer
  pub reported : o ≡ near_terminal k view hash o.success
  pub succeeded : o.success ≡ true → (r : SuccessfulTransferReceipt) × IsSettled view payer asset r
  pub failed :
      o.success ≡ false
      → (e : ReceiptValidationError) × (interpret_final_outcome view payer asset ≡ some (err e))
        × (is_definitive_failure e ≡ true)

identity-ok :
    (view : FinalExecutionOutcome) (hash signer payer : ℕ) (u : Unit {0})
    → validate_final_outcome_identity view hash signer payer ≡ ok u
    → (view.transaction_hash ≡ hash)
      × (view.transaction_outcome.id ≡ hash)
      × (view.signer_id ≡ signer)
      × (view.receiver_id ≡ payer)
      × (view.transaction_outcome.executor_id ≡ signer)
unfolding validate_final_outcome_identity
identity-ok view hash signer payer u h =
    (ground arith, ground arith, ground arith, ground arith, ground arith)

graph_verdict-terminal :
    (k : Codec) (view : FinalExecutionOutcome) (hash : ℕ)
    (x : Option (Validated SuccessfulTransferReceipt)) (o : TerminalOutcome)
    → graph_verdict k view hash x ≡ NearInterpretation.terminal o
    → (o ≡ near_terminal k view hash o.success)
      × (o.success ≡ true → (r : SuccessfulTransferReceipt) × (x ≡ some (ok r)))
      × (o.success ≡ false
          → (e : ReceiptValidationError) × (x ≡ some (err e)) × (is_definitive_failure e ≡ true))
graph_verdict-terminal k view hash none o h = absurd (ground arith)
graph_verdict-terminal k view hash (some (ok r)) o h =
    (ground arith, λ s. (r, refl), λ s. absurd (ground arith))
graph_verdict-terminal k view hash (some (err e)) o h = (
  ground (arith, Bool-cases (is_definitive_failure e)),
  λ s. absurd (ground (arith, Bool-cases (is_definitive_failure e))),
  λ s. (e, refl, ground (arith, Bool-cases (is_definitive_failure e))),
)

pub interpret_near_final-IsNearTerminal :
    (k : Codec) (view : FinalExecutionOutcome) (hash signer payer asset : ℕ) (o : TerminalOutcome)
    → interpret_near_final k view hash signer payer asset ≡ NearInterpretation.terminal o
    → IsNearTerminal k view hash signer payer asset o
unfolding interpret_near_final
interpret_near_final-IsNearTerminal k view hash signer payer asset o h =
    elim (Outcome-cases (validate_final_outcome_identity view hash signer payer)) [
      | inl (e, refused) ↦ absurd (ground (arith, rw (refused, interpret_near_final) at h))
      | inr (u, bound) ↦
          let (a, b, c, d, e) = identity-ok view hash signer payer u bound in
          let (same, good, bad) =
            graph_verdict-terminal k view hash (interpret_final_outcome view payer asset) o
              (rw (bound, interpret_near_final) at h) in
          record {
            transaction_hash = a;
            outcome_id = b;
            signer_id = c;
            receiver_id = d;
            executor = e;
            reported = same;
            succeeded = λ s.
                let (r, read) = good s in
                (r, interpret_final_outcome-IsSettled view payer asset r read);
            failed = bad;
          }
    ]

-- Which reader has reported a final outcome: the primary, with which a final outcome of the backup
-- agrees, or the backup alone.
abbrev pub IsReported :
    Codec
    → Outcome NearRpcError TransactionLookup
    → Outcome NearRpcError TransactionLookup
    → FinalExecutionOutcome
    → Bool
    → Type 0
IsReported k primary backup view failover =
    ((primary ≡ ok (TransactionLookup.final view))
      × (failover ≡ false)
      × ((other : FinalExecutionOutcome)
          → backup ≡ ok (TransactionLookup.final other)
          → k.same_outcome view other ≡ true))
    ⊎ ((near_final_outcome primary ≡ none)
        × (backup ≡ ok (TransactionLookup.final view))
        × (failover ≡ true))

near_verdict-terminal :
    (v : NearInterpretation) (o : TerminalOutcome)
    → near_verdict v ≡ ReconcileVerdict.terminal o
    → v ≡ NearInterpretation.terminal o
near_verdict-terminal (NearInterpretation.terminal x) o h = ground arith
near_verdict-terminal NearInterpretation.indeterminate o h = absurd (ground arith)

final_lookup :
    (l : Outcome NearRpcError TransactionLookup) (view : FinalExecutionOutcome)
    → near_final_outcome l ≡ some view
    → l ≡ ok (TransactionLookup.final view)
final_lookup (ok TransactionLookup.unknown) view h = absurd (ground arith)
final_lookup (ok (TransactionLookup.pending s)) view h = absurd (ground arith)
final_lookup (ok (TransactionLookup.final x)) view h = ground arith
final_lookup (err e) view h = absurd (ground arith)

pub near_lookups_status-terminal :
    (k : Codec) (p : NearProvider) (hash payer asset : ℕ)
    (primary backup : Outcome NearRpcError TransactionLookup) (o : TerminalOutcome)
    (failover : Bool)
    → near_lookups_status k p hash payer asset primary backup
      ≡ (ReconcileVerdict.terminal o, failover)
    → (view : FinalExecutionOutcome) × IsReported k primary backup view failover
      × (interpret_near_final k view hash p.relayer payer asset ≡ NearInterpretation.terminal o)
unfolding near_lookups_status
near_lookups_status-terminal k p hash payer asset primary backup o failover h =
    elim (Option-cases (near_final_outcome primary)) [
      | inl e ↦ elim (Option-cases (near_final_outcome backup)) [
        | inl e' ↦ absurd (ground (arith, rw (e, e', near_lookups_status) at h))
        | inr (b, e') ↦
            let h' = rw (e, e', near_lookups_status) at h in
            (
              b,
              inr (e, final_lookup backup b e', ground (arith, h')),
              near_verdict-terminal _ o (ground (arith, h')),
            )
      ]
      | inr (a, e) ↦ elim (Option-cases (near_final_outcome backup)) [
        | inl e' ↦
            let h' = rw (e, e', near_lookups_status) at h in
            (
              a,
              inl (
                final_lookup primary a e,
                ground (arith, h'),
                λ other r. absurd (ground (arith, ap near_final_outcome r)),
              ),
              near_verdict-terminal _ o (ground (arith, h')),
            )
        | inr (b, e') ↦
            let h' = rw (e, e', near_lookups_status) at h in
            (
              a,
              inl (
                final_lookup primary a e,
                ground (arith, h'),
                λ other r.
                    let same : b ≡ other = ground (arith, ap near_final_outcome r) in
                    rw (← same) (ground (arith, h')),
              ),
              near_verdict-terminal _ o (ground (arith, h')),
            )
      ]
    ]

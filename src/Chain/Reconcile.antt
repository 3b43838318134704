-- ===== src/Chain/Reconcile.antt =====
-- chain.rs: the terminal verdicts of `reconcile_status` and of `rebroadcast`, on both chains.
use x402_facilitator.Evm.Final.{IsFinal, reconcile_with_confirmations-IsFinal}
use x402_facilitator.Service.Recovery.{ReconcileVerdict}
use x402_facilitator.Chain.Verdicts.{
  IsReported, IsNearTerminal, near_lookups_status-terminal, interpret_near_final-IsNearTerminal,
}
use x402_facilitator.Journal.Types.{Bytes, Text}
use x402_facilitator.Service.World.{BroadcastOutcome, TerminalOutcome}
use x402_facilitator.Evm.Types.{EvmRpcError, EvmReconcileStatus, EvmTerminalOutcome}
use x402_facilitator.Near.Types.{FinalExecutionOutcome, NearRpcError, TransactionLookup}
use x402_facilitator.Chain.{
  Codec, NearInterpretation, reconcile_hash_with_confirmations, reconcile_status, rebroadcast,
  NearProvider, EvmProvider, ChainProvider, near_outcome, rebroadcast_final, RecoveryPolicy,
  near_reconcile_status, evm_verdict, near_sent, evm_terminal_to_neutral,
}
use x402_facilitator.Prelude.{
  ℕ, ◌≡◌, refl, Bool, Option, none, some, arith, inl, inr, ok, err, Outcome, Option-cases,
}

-- What a terminal verdict rests on, by the provider and the policy of the row.
pub record IsNearFinal (k : Codec) (p : NearProvider) (hash signer payer asset : Text)
    (o : TerminalOutcome) (failover : Bool) : Type 0 where
  pub hash_id : ℕ
  pub signer_id : ℕ
  pub payer_id : ℕ
  pub asset_id : ℕ
  pub hash_parsed : k.parse_hash hash ≡ some hash_id
  pub signer_parsed : k.parse_account signer ≡ some signer_id
  pub payer_parsed : k.parse_account payer ≡ some payer_id
  pub asset_parsed : k.parse_account asset ≡ some asset_id
  pub view : FinalExecutionOutcome
  pub reported :
      IsReported k
        (p.query_transaction hash_id signer_id)
        (p.query_transaction_backup hash_id signer_id)
        view
        failover
  pub terminal_view : IsNearTerminal k view hash_id p.relayer payer_id asset_id o

pub record IsEvmFinal (k : Codec) (p : EvmProvider) (hash : Text) (required : ℕ)
    (o : TerminalOutcome) : Type 0 where
  pub hash_id : ℕ
  pub hash_parsed : k.parse_b256 hash ≡ some hash_id
  pub outcome : EvmTerminalOutcome
  pub is_final : IsFinal p.chain_id (p.primary hash_id) (p.backup hash_id) required outcome
  pub reported : o ≡ evm_terminal_to_neutral k outcome

abbrev pub IsVerdictOf :
    Codec
    → ChainProvider
    → Text
    → Text
    → Text
    → Text
    → RecoveryPolicy
    → TerminalOutcome
    → Bool
    → Type 0
IsVerdictOf k (ChainProvider.near p) hash signer payer asset RecoveryPolicy.near_finality o f =
    IsNearFinal k p hash signer payer asset o f
IsVerdictOf k (ChainProvider.evm p) hash signer payer asset (RecoveryPolicy.evm_confirmations n) o
      f =
    IsEvmFinal k p hash n o
IsVerdictOf k _ hash signer payer asset _ o f = ⊥

near_reconcile-IsNearFinal :
    (k : Codec) (p : NearProvider) (hash signer payer asset : Text) (h s pa a : Option ℕ)
    (o : TerminalOutcome) (f : Bool)
    → k.parse_hash hash ≡ h
    → k.parse_account signer ≡ s
    → k.parse_account payer ≡ pa
    → k.parse_account asset ≡ a
    → near_reconcile_status k p h s pa a ≡ (ReconcileVerdict.terminal o, f)
    → IsNearFinal k p hash signer payer asset o f
near_reconcile-IsNearFinal k p hash signer payer asset none s pa a o f e1 e2 e3 e4 h =
    absurd (ground arith)
near_reconcile-IsNearFinal k p hash signer payer asset (some h) none pa a o f e1 e2 e3 e4 r =
    absurd (ground arith)
near_reconcile-IsNearFinal k p hash signer payer asset (some h) (some s) none a o f e1 e2 e3 e4 r =
    absurd (ground arith)
near_reconcile-IsNearFinal k p hash signer payer asset (some h) (some s) (some pa) none o f e1 e2 e3
      e4 r =
    absurd (ground arith)
near_reconcile-IsNearFinal k p hash signer payer asset (some h) (some s) (some pa) (some a) o f e1
      e2 e3 e4 r =
    let (view, reported, read) =
      near_lookups_status-terminal k p h pa a (p.query_transaction h s)
        (p.query_transaction_backup h s) o f r in
    record {
      hash_id = h;
      signer_id = s;
      payer_id = pa;
      asset_id = a;
      hash_parsed = e1;
      signer_parsed = e2;
      payer_parsed = e3;
      asset_parsed = e4;
      view = view;
      reported = reported;
      terminal_view = interpret_near_final-IsNearTerminal k view h p.relayer pa a o read;
    }

evm_verdict-terminal :
    (k : Codec) (x : Outcome EvmRpcError EvmReconcileStatus) (o : TerminalOutcome)
    → evm_verdict k x ≡ ReconcileVerdict.terminal o
    → (t : EvmTerminalOutcome) × (x ≡ ok (EvmReconcileStatus.terminal t))
      × (o ≡ evm_terminal_to_neutral k t)
evm_verdict-terminal k (ok (EvmReconcileStatus.terminal t)) o h = (t, refl, ground arith)
evm_verdict-terminal k (ok EvmReconcileStatus.pending) o h = absurd (ground arith)
evm_verdict-terminal k (ok EvmReconcileStatus.unknown) o h = absurd (ground arith)
evm_verdict-terminal k (ok (EvmReconcileStatus.mined a b)) o h = absurd (ground arith)
evm_verdict-terminal k (err e) o h = absurd (ground arith)

evm_reconcile-IsEvmFinal :
    (k : Codec) (p : EvmProvider) (hash : Text) (required : ℕ) (o : TerminalOutcome)
    → evm_verdict k (reconcile_hash_with_confirmations k p hash required)
      ≡ ReconcileVerdict.terminal o
    → IsEvmFinal k p hash required o
unfolding reconcile_hash_with_confirmations
evm_reconcile-IsEvmFinal k p hash required o h = elim (Option-cases (k.parse_b256 hash)) [
  | inl e ↦ absurd (ground (arith, rw (e, reconcile_hash_with_confirmations) at h))
  | inr (id, e) ↦
      let (t, read, same) =
        evm_verdict-terminal k _ o (rw (e, reconcile_hash_with_confirmations) at h) in
      record {
        hash_id = id;
        hash_parsed = e;
        outcome = t;
        is_final =
            reconcile_with_confirmations-IsFinal p.chain_id (p.primary id) (p.backup id) required t
              read;
        reported = same;
      }
]

-- Whenever a reconciliation reports a terminal outcome, the row's policy is that of the provider's
-- chain and the outcome is final. On NEAR the hash and the accounts have parsed, a reader has
-- reported a final outcome, with which a final outcome of the backup agrees where the primary has
-- one, and failover is reported exactly if only the backup has; it names the stored transaction, the
-- relayer and the payer, and a success is a settled payment, a failure a definitive one. On Base
-- both readers have confirmed one receipt at the row's depth, and the outcome is that receipt's.
pub reconcile_status-IsVerdictOf :
    (k : Codec) (p : ChainProvider) (hash signer payer asset : Text) (policy : RecoveryPolicy)
    (o : TerminalOutcome) (failover : Bool)
    → reconcile_status k p hash signer payer asset policy ≡ (ReconcileVerdict.terminal o, failover)
    → IsVerdictOf k p hash signer payer asset policy o failover
unfolding reconcile_status
reconcile_status-IsVerdictOf k (ChainProvider.near p) hash signer payer asset
      RecoveryPolicy.near_finality o f h =
    near_reconcile-IsNearFinal k p hash signer payer asset (k.parse_hash hash)
      (k.parse_account signer) (k.parse_account payer) (k.parse_account asset) o f refl refl refl
      refl h
reconcile_status-IsVerdictOf k (ChainProvider.near p) hash signer payer asset
      (RecoveryPolicy.evm_confirmations n) o f h =
    absurd (ground arith)
reconcile_status-IsVerdictOf k (ChainProvider.evm p) hash signer payer asset
      RecoveryPolicy.near_finality o f h =
    absurd (ground arith)
reconcile_status-IsVerdictOf k (ChainProvider.evm p) hash signer payer asset
      (RecoveryPolicy.evm_confirmations n) o f h =
    evm_reconcile-IsEvmFinal k p hash n o (ground arith)

-- What a send that is terminal at once rests on.
abbrev pub IsSentTerminal :
    Codec → ChainProvider → Bytes → Text → Text → Text → TerminalOutcome → Type 0
IsSentTerminal k (ChainProvider.near p) bytes hash payer asset o =
    (view : FinalExecutionOutcome) × (h pa a : ℕ) × (k.parse_hash hash ≡ some h)
    × (k.parse_account payer ≡ some pa)
    × (k.parse_account asset ≡ some a)
    × (p.broadcast_exact bytes ≡ ok (TransactionLookup.final view))
    × IsNearTerminal k view h p.relayer pa a o
IsSentTerminal k (ChainProvider.evm p) bytes hash payer asset o = ⊥

near_sent-terminal :
    (read : FinalExecutionOutcome → BroadcastOutcome) (x : Outcome NearRpcError TransactionLookup)
    (o : TerminalOutcome)
    → near_sent read x ≡ BroadcastOutcome.terminal o
    → (view : FinalExecutionOutcome) × (x ≡ ok (TransactionLookup.final view))
      × (read view ≡ BroadcastOutcome.terminal o)
near_sent-terminal read (ok (TransactionLookup.final v)) o h = (v, refl, h)
near_sent-terminal read (ok TransactionLookup.unknown) o h = absurd (ground arith)
near_sent-terminal read (ok (TransactionLookup.pending s)) o h = absurd (ground arith)
near_sent-terminal read (err NearRpcError.transaction_rejected) o h = absurd (ground arith)
near_sent-terminal read (err NearRpcError.transaction_unknown) o h = absurd (ground arith)
near_sent-terminal read (err (NearRpcError.other n)) o h = absurd (ground arith)

near_outcome-terminal :
    (v : NearInterpretation) (o : TerminalOutcome)
    → near_outcome v ≡ BroadcastOutcome.terminal o
    → v ≡ NearInterpretation.terminal o
near_outcome-terminal (NearInterpretation.terminal x) o h = ground arith
near_outcome-terminal NearInterpretation.indeterminate o h = absurd (ground arith)

rebroadcast_final-terminal :
    (k : Codec) (p : NearProvider) (view : FinalExecutionOutcome) (h pa a : Option ℕ)
    (o : TerminalOutcome)
    → rebroadcast_final k p view h pa a ≡ BroadcastOutcome.terminal o
    → (x y z : ℕ) × (h ≡ some x)
      × (pa ≡ some y)
      × (a ≡ some z)
      × IsNearTerminal k view x p.relayer y z o
rebroadcast_final-terminal k p view none pa a o e = absurd (ground arith)
rebroadcast_final-terminal k p view (some h) none a o e = absurd (ground arith)
rebroadcast_final-terminal k p view (some h) (some pa) none o e = absurd (ground arith)
rebroadcast_final-terminal k p view (some h) (some pa) (some a) o e = (
  h,
  pa,
  a,
  refl,
  refl,
  refl,
  interpret_near_final-IsNearTerminal k view h p.relayer pa a o (near_outcome-terminal _ o e),
)

-- A rebroadcast of the stored bytes is terminal at once only on NEAR, with a final outcome of those
-- bytes that names the stored transaction, the relayer and the payer; a success is a settled
-- payment, a failure a definitive one.
pub rebroadcast-IsSentTerminal :
    (k : Codec) (p : ChainProvider) (bytes : Bytes) (hash payer asset : Text) (o : TerminalOutcome)
    → rebroadcast k p bytes hash payer asset ≡ BroadcastOutcome.terminal o
    → IsSentTerminal k p bytes hash payer asset o
unfolding rebroadcast
rebroadcast-IsSentTerminal k (ChainProvider.near p) bytes hash payer asset o h =
    let (view, sent, read) = near_sent-terminal _ (p.broadcast_exact bytes) o h in
    let (x, y, z, e1, e2, e3, t) = rebroadcast_final-terminal k p view _ _ _ o read in
    (view, x, y, z, e1, e2, e3, sent, t)
rebroadcast-IsSentTerminal k (ChainProvider.evm p) bytes hash payer asset o h =
    absurd (ground arith)

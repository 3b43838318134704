-- ===== src/Service/Recovery/Safety.antt =====
-- service.rs: the broadcasts of `reconcile_prepared_evm`, from its verdict on.
use x402_facilitator.Service.Worker.Broadcasts.{step_broadcasts, headed_step}
use x402_facilitator.Service.Worker.Journaled.{IfOk}
use x402_facilitator.Service.Worker.Safety.{
  HasStarted, Stores, Origin, journal_after, rejected_broadcasts, at_step-HasStarted,
  store_call_broadcasts,
}
use x402_facilitator.Journal.Lifecycle.{is_started}
use x402_facilitator.Service.Recovery.{
  can_reconciliation_broadcast, Answer, rebroadcast, resubmit, finalize_reconciled_terminal,
  overrun_answer, sent, TerminalOutcome, BroadcastOutcome, SignerHead, recovery_headed,
  rebroadcast_answered, resubmit_marked, finalize_bytes, write_outcome, at_step, compare_nonces,
  fee_overrun, ReadinessState, balance_checked, mark_terminal, outcome_entry,
}
use x402_facilitator.Journal.Tables.{Collation, Db, find_row}
use x402_facilitator.Journal.Types.{
  Uuid, SettlementRecord, EvmSubmission, Bytes, Text, Result, err, ok, SettlementState,
}
use x402_facilitator.Journal.Transitions.{mark_submitted}
use x402_facilitator.Service.World.{Broadcast, Env, World}
use x402_facilitator.Prelude.{
  ◌+◌, ℕ, ◌≡◌, refl, ap, sym, ◌∙◌, Bool, true, false, none, some, List, [], ◌∷◌, ◌++◌, if_cases,
  ◌⊎◌, inl, inr, ◌==◌, Option, ltb,
}
use mathlib.Core.Path.{subst}

-- A rebroadcast while this process leads, its reader and its relayer are ready, of bytes that the
-- journal held with the settlement and had marked as submitted, with a journal as `own` wants it.
abbrev pub IsRecovered : Origin → Broadcast → Type 0
IsRecovered own b =
    (can_reconciliation_broadcast b.gates ≡ true)
    × (r : SettlementRecord) × (find_row b.settlement_id b.journal.rows ≡ some r)
    × (is_started r.state ≡ true)
    × Stores b.bytes r
    × own b.bytes b.journal

abbrev pub RecoversAtMostOne : Origin → Uuid → List Broadcast → World → Type 0
RecoversAtMostOne own id old w =
    (w.broadcasts ≡ old)
    ⊎ ((b : Broadcast) × (w.broadcasts ≡ old ++ b ∷ [])
        × (b.settlement_id ≡ id)
        × IsRecovered own b)

-- What a recovery rests on: the row was read as submitted, or the recovery's own call has marked it,
-- and was accepted. Before and after are the operations of the others, and nothing else.
abbrev pub IsResubmitted : Collation → Env → SettlementRecord → Db → Origin
IsResubmitted c env row raised bytes journal =
    ((row.state ≡ SettlementState.submitted)
      × (journal ≡ journal_after c env (2 ∷ 3 ∷ 5 ∷ []) raised))
    ⊎ ((row.state ≡ SettlementState.prepared)
        × (let held = journal_after c env (1 ∷ []) raised in
            ((mark_submitted c row.id held).0 ≡ ok tt)
            × (journal ≡ journal_after c env (2 ∷ 3 ∷ 5 ∷ []) (mark_submitted c row.id held).1)))

module _ (c : Collation) (env : Env) (row : SettlementRecord) (own : Origin) where
  overrun_broadcasts :
      (x : Bool) (a : Answer) → (overrun_answer c env row x a).1.broadcasts ≡ a.1.broadcasts
  overrun_broadcasts x (err e, w) = refl
  overrun_broadcasts true (ok t, w) = refl
  overrun_broadcasts false (ok t, w) = refl

  write_broadcasts :
      (k : ℕ) (bytes : Bytes) (o : TerminalOutcome) (w : World)
      → (write_outcome c env row k bytes o w).1.broadcasts ≡ w.broadcasts
  write_broadcasts k bytes o w =
      overrun_broadcasts (fee_overrun c env row o) _
      ∙ store_call_broadcasts c env row.id k (mark_terminal c (outcome_entry env row.id bytes o))
          (at_step c env k w)
      ∙ step_broadcasts c env row.id own k w

  pub finalize_reconciled_broadcasts :
      (k : ℕ) (o : TerminalOutcome) (w : World)
      → (finalize_reconciled_terminal c env row k o w).1.broadcasts ≡ w.broadcasts
  unfolding finalize_reconciled_terminal
  finalize_reconciled_broadcasts k o w = go _
    where
      go : (x : Option Bytes) → (finalize_bytes c env row k o x w).1.broadcasts ≡ w.broadcasts
      go none = refl
      go (some bytes) =
          if_cases (λ (a : Answer). a.1.broadcasts ≡ w.broadcasts) (fee_overrun c env row o)
            (λ _.
              if_cases (λ (a : Answer). a.1.broadcasts ≡ w.broadcasts) (env.fails (k + 10))
                (λ _. refl) (λ _. write_broadcasts k bytes o _))
            (λ _. write_broadcasts k bytes o w)

  answered_broadcasts :
      (hash : Text) (o : BroadcastOutcome) (w : World)
      → (rebroadcast_answered c env row hash o w).1.broadcasts ≡ w.broadcasts
  answered_broadcasts hash (BroadcastOutcome.terminal o) w = finalize_reconciled_broadcasts 6 o w
  answered_broadcasts hash BroadcastOutcome.rejected w =
      rejected_broadcasts c env row.id 6 row.payer hash w
  answered_broadcasts hash BroadcastOutcome.pending w = refl

  sent-RecoversAtMostOne :
      (bytes : Bytes) (old : List Broadcast) (w w' : World)
      → w'.broadcasts ≡ (sent c env row.id bytes w).broadcasts
      → w.broadcasts ≡ old
      → can_reconciliation_broadcast w.readiness ≡ true
      → HasStarted c env row.id own [] bytes w.db
      → RecoversAtMostOne own row.id old w'
  sent-RecoversAtMostOne bytes old w w' e q g x =
      let h = x.holds in
      let b : Broadcast = record {
        settlement_id = row.id;
        bytes = bytes;
        journal = w.db;
        gates = w.readiness;
      } in
      inr (
        b,
        e ∙ ap (λ (l : List Broadcast). l ++ b ∷ []) q,
        refl,
        (g, h.row, h.found, x.started, h.stores, x.owned),
      )

  rebroadcast-RecoversAtMostOne :
      (e : EvmSubmission) (old : List Broadcast) (v : World)
      → v.broadcasts ≡ old
      → HasStarted c env row.id own (5 ∷ []) e.submitted_tx_rlp v.db
      → RecoversAtMostOne own row.id old (rebroadcast c env row e v).1
  unfolding rebroadcast
  rebroadcast-RecoversAtMostOne e old v q h =
      let w = at_step c env 5 v in
      let before = step_broadcasts c env row.id own 5 v ∙ q in
      if_cases (λ (a : Answer). RecoversAtMostOne own row.id old a.1)
        (can_reconciliation_broadcast w.readiness)
        (λ g.
          sent-RecoversAtMostOne e.submitted_tx_rlp old w
            (rebroadcast_answered c env row e.submitted_tx_hash env.broadcast
              (sent c env row.id e.submitted_tx_rlp w)).1
            (answered_broadcasts e.submitted_tx_hash env.broadcast
              (sent c env row.id e.submitted_tx_rlp w))
            before g (at_step-HasStarted c env row.id 5 e.submitted_tx_rlp v h))
        (λ _. inl before)

  compare-RecoversAtMostOne :
      (e : EvmSubmission) (head : SignerHead) (old : List Broadcast) (w : World)
      → w.broadcasts ≡ old
      → HasStarted c env row.id own (5 ∷ []) e.submitted_tx_rlp w.db
      → RecoversAtMostOne own row.id old (compare_nonces c env row e head w).1
  compare-RecoversAtMostOne e head old w q h =
      if_cases (λ (a : Answer). RecoversAtMostOne own row.id old a.1)
        (ltb e.signer_account_nonce head.signer_nonce)
        (λ _.
          if_cases (λ (a : Answer). RecoversAtMostOne own row.id old a.1) (env.fails 4) (λ _. inl q)
            (λ _. inl q))
        (λ _.
          if_cases (λ (a : Answer). RecoversAtMostOne own row.id old a.1)
            (head.signer_nonce == e.signer_account_nonce)
            (λ _. rebroadcast-RecoversAtMostOne e old w q h) (λ _. inl q))

  balance-RecoversAtMostOne :
      (e : EvmSubmission) (head : SignerHead) (x : Result (Unit {0}) × ReadinessState)
      (old : List Broadcast) (w : World)
      → w.broadcasts ≡ old
      → HasStarted c env row.id own (5 ∷ []) e.submitted_tx_rlp w.db
      → RecoversAtMostOne own row.id old (balance_checked c env row e head x w).1
  balance-RecoversAtMostOne e head (err y, r) old w q h = inl q
  balance-RecoversAtMostOne e head (ok t, r) old w q h =
      compare-RecoversAtMostOne e head old (record w { readiness = r }) q h

  headed-RecoversAtMostOne :
      (e : EvmSubmission) (x : Option SignerHead × World) (old : List Broadcast)
      → x.1.broadcasts ≡ old
      → HasStarted c env row.id own (5 ∷ []) e.submitted_tx_rlp x.1.db
      → RecoversAtMostOne own row.id old (recovery_headed c env row e x).1
  headed-RecoversAtMostOne e (none, w) old q h = inl q
  headed-RecoversAtMostOne e (some head, w) old q h = balance-RecoversAtMostOne e head _ old w q h

  pub resubmit-RecoversAtMostOne :
      (e : EvmSubmission) (old : List Broadcast) (v : World)
      → v.broadcasts ≡ old
      → HasStarted c env row.id own (2 ∷ 3 ∷ 5 ∷ []) e.submitted_tx_rlp v.db
      → RecoversAtMostOne own row.id old (resubmit c env row e v).1
  unfolding resubmit
  resubmit-RecoversAtMostOne e old v q h =
      let w = at_step c env 2 v in
      let before = step_broadcasts c env row.id own 2 v ∙ q in
      let (b, d) = headed_step c env row.id own 3 old w before in
      let bytes = e.submitted_tx_rlp in
      let held =
        at_step-HasStarted c env row.id 3 bytes w (at_step-HasStarted c env row.id 2 bytes v h) in
      if_cases (λ (a : Answer). RecoversAtMostOne own row.id old a.1)
        (can_reconciliation_broadcast w.readiness)
        (λ _.
          headed-RecoversAtMostOne e _ old b
            (subst (HasStarted c env row.id own (5 ∷ []) bytes) (sym d) held))
        (λ _. inl before)

  pub marked-RecoversAtMostOne :
      (e : EvmSubmission) (x : Answer) (old : List Broadcast)
      → x.1.broadcasts ≡ old
      → IfOk (HasStarted c env row.id own (2 ∷ 3 ∷ 5 ∷ []) e.submitted_tx_rlp) x
      → RecoversAtMostOne own row.id old (resubmit_marked c env row e x).1
  marked-RecoversAtMostOne e (err y, w) old q h = inl q
  marked-RecoversAtMostOne e (ok t, w) old q h = resubmit-RecoversAtMostOne e old w q h

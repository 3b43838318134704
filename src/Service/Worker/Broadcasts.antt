-- ===== src/Service/Worker/Broadcasts.antt =====
-- service.rs: the broadcasts of `run_new_settlement` on its NEAR path.
use x402_facilitator.Service.Worker.Journaled.{IfOk, mark_submitted-HasStarted}
use x402_facilitator.Service.Worker.Safety.{
  AddsAtMostOne, HasStarted, rejected_broadcasts, finalize_broadcasts, at_step-HasStarted, Origin,
  IsReady, at_step-IsReady, store_call_broadcasts,
}
use x402_facilitator.Service.Worker.{
  evm_broadcast, near_broadcast, World, Broadcast, BroadcastOutcome, evm_answered, near_answered,
  can_settle, sent, near_submit, SignerHead, fresh_signer_head, store_call, near_journaled,
  near_submitted, near_rechecked, mark_submitted,
}
use x402_facilitator.Journal.Types.{Uuid, Bytes, Text, Result, ok, err}
use x402_facilitator.Service.World.{Env, at_step, fresh_signer_head_journal}
use x402_facilitator.Journal.Tables.{Collation, Db}
use mathlib.Core.Path.{subst, sym}
use x402_facilitator.Prelude.{
  [], ◌∷◌, none, some, ◌++◌, ◌==◌, ℕ, ◌≡◌, refl, if_cases, inl, inr, List, true, ◌∙◌, ap, Option,
}

module _ (c : Collation) (env : Env) (id : Uuid) (own : Origin) where
  quiet :
      (old : List Broadcast) (w w' : World)
      → w'.broadcasts ≡ w.broadcasts
      → AddsAtMostOne own id old w
      → AddsAtMostOne own id old w'
  quiet old w w' e (inl h) = inl (e ∙ h)
  quiet old w w' e (inr (b, h, p, j)) = inr (b, e ∙ h, p, j)

  sent-AddsAtMostOne :
      (bytes : Bytes) (old : List Broadcast) (w : World)
      → w.broadcasts ≡ old
      → can_settle w.readiness ≡ true
      → HasStarted c env id own [] bytes w.db
      → AddsAtMostOne own id old (sent c env id bytes w)
  sent-AddsAtMostOne bytes old w q g x =
      let h = x.holds in
      let b : Broadcast = record {
        settlement_id = id;
        bytes = bytes;
        journal = w.db;
        gates = w.readiness;
      } in
      inr (
        b,
        ap (λ (l : List Broadcast). l ++ b ∷ []) q,
        refl,
        (g, h.row, h.found, x.started, h.stores, x.owned),
      )

  near_answered_broadcasts :
      (payer hash : Text) (o : BroadcastOutcome) (w : World)
      → (near_answered c env id payer hash o w).broadcasts ≡ w.broadcasts
  near_answered_broadcasts payer hash (BroadcastOutcome.terminal o) w =
      finalize_broadcasts c env id 11 payer o w
  near_answered_broadcasts payer hash BroadcastOutcome.rejected w =
      rejected_broadcasts c env id 11 payer hash w
  near_answered_broadcasts payer hash BroadcastOutcome.pending w = refl

  evm_answered_broadcasts :
      (payer hash : Text) (o : BroadcastOutcome) (w : World)
      → (evm_answered c env id payer hash o w).broadcasts ≡ w.broadcasts
  evm_answered_broadcasts payer hash (BroadcastOutcome.terminal o) w = refl
  evm_answered_broadcasts payer hash BroadcastOutcome.rejected w =
      rejected_broadcasts c env id 12 payer hash w
  evm_answered_broadcasts payer hash BroadcastOutcome.pending w = refl

  pub step_broadcasts : (k : ℕ) (w : World) → (at_step c env k w).broadcasts ≡ w.broadcasts
  unfolding at_step
  step_broadcasts k w = refl

  -- A world after quiet steps from w, in which the settlement holds the bytes.
  near_broadcast-AddsAtMostOne :
      (payer hash : Text) (bytes : Bytes) (old : List Broadcast) (v : World)
      → v.broadcasts ≡ old
      → HasStarted c env id own (10 ∷ []) bytes v.db
      → AddsAtMostOne own id old (near_broadcast c env id payer hash bytes v)
  unfolding near_broadcast
  near_broadcast-AddsAtMostOne payer hash bytes old v q h =
      let w = at_step c env 10 v in
      let before = step_broadcasts 10 v ∙ q in
      if_cases (AddsAtMostOne own id old) (can_settle w.readiness)
        (λ g.
          quiet old (sent c env id bytes w)
            (near_answered c env id payer hash env.broadcast (sent c env id bytes w))
            (near_answered_broadcasts payer hash env.broadcast (sent c env id bytes w))
            (sent-AddsAtMostOne bytes old w before g (at_step-HasStarted c env id 10 bytes v h)))
        (λ _. inl before)

  pub evm_broadcast-AddsAtMostOne :
      (payer hash : Text) (bytes : Bytes) (old : List Broadcast) (v : World)
      → v.broadcasts ≡ old
      → HasStarted c env id own (11 ∷ []) bytes v.db
      → AddsAtMostOne own id old (evm_broadcast c env id payer hash bytes v)
  unfolding evm_broadcast
  evm_broadcast-AddsAtMostOne payer hash bytes old v q h =
      let w = at_step c env 11 v in
      let before = step_broadcasts 11 v ∙ q in
      if_cases (AddsAtMostOne own id old) (can_settle w.readiness)
        (λ g.
          quiet old (sent c env id bytes w)
            (evm_answered c env id payer hash env.broadcast (sent c env id bytes w))
            (evm_answered_broadcasts payer hash env.broadcast (sent c env id bytes w))
            (sent-AddsAtMostOne bytes old w before g (at_step-HasStarted c env id 11 bytes v h)))
        (λ _. inl before)

  pub after_call :
      {A : Type 0} (k : ℕ) (call : Db → Result A × Db) (old : List Broadcast) (w : World)
      → w.broadcasts ≡ old
      → (store_call env k call (at_step c env k w)).1.broadcasts ≡ old
  after_call k call old w q =
      store_call_broadcasts c env id k call (at_step c env k w) ∙ step_broadcasts k w ∙ q

  near_submitted-AddsAtMostOne :
      (payer hash : Text) (bytes : Bytes) (old : List Broadcast) (x : Result (Unit {0}) × World)
      → x.1.broadcasts ≡ old
      → IfOk (HasStarted c env id own (10 ∷ []) bytes) x
      → AddsAtMostOne own id old (near_submitted c env id payer hash bytes x)
  near_submitted-AddsAtMostOne payer hash bytes old (ok t, w) q h =
      near_broadcast-AddsAtMostOne payer hash bytes old w q h
  near_submitted-AddsAtMostOne payer hash bytes old (err e, w) q h = inl q

  near_submit-AddsAtMostOne :
      (payer hash : Text) (bytes : Bytes) (old : List Broadcast) (v : World)
      → v.broadcasts ≡ old
      → IsReady c env id own (8 ∷ 9 ∷ []) (10 ∷ []) bytes v.db
      → AddsAtMostOne own id old (near_submit c env id payer hash bytes v)
  unfolding near_submit
  near_submit-AddsAtMostOne payer hash bytes old v q h =
      let w = at_step c env 8 v in
      let before = step_broadcasts 8 v ∙ q in
      let held = at_step-IsReady c env id 9 bytes w (at_step-IsReady c env id 8 bytes v h) in
      if_cases (AddsAtMostOne own id old) (can_settle w.readiness)
        (λ _.
          near_submitted-AddsAtMostOne payer hash bytes old _
            (after_call 9 (mark_submitted c id) old w before)
            (mark_submitted-HasStarted c env id 9 bytes (at_step c env 9 w) held))
        (λ _. inl before)

  near_rechecked-AddsAtMostOne :
      (payer hash : Text) (bytes : Bytes) (head : SignerHead) (old : List Broadcast)
      (x : Option SignerHead × World)
      → x.1.broadcasts ≡ old
      → IsReady c env id own (8 ∷ 9 ∷ []) (10 ∷ []) bytes x.1.db
      → AddsAtMostOne own id old (near_rechecked c env id payer hash bytes head x)
  near_rechecked-AddsAtMostOne payer hash bytes head old (none, w) q h = inl q
  near_rechecked-AddsAtMostOne payer hash bytes head old (some current, w) q h =
      if_cases (AddsAtMostOne own id old) (current.signer_nonce == head.signer_nonce)
        (λ _. near_submit-AddsAtMostOne payer hash bytes old w q h) (λ _. inl q)

  pub headed_step :
      (k : ℕ) (old : List Broadcast) (w : World)
      → w.broadcasts ≡ old
      → ((fresh_signer_head env k (at_step c env k w)).1.broadcasts ≡ old)
        × ((fresh_signer_head env k (at_step c env k w)).1.db ≡ (at_step c env k w).db)
  headed_step k old w q =
      let (d, b, r) = fresh_signer_head_journal env k (at_step c env k w) in
      (b ∙ step_broadcasts k w ∙ q, d)

  pub near_journaled-AddsAtMostOne :
      (payer hash : Text) (bytes : Bytes) (head : SignerHead) (old : List Broadcast)
      (x : Result (Unit {0}) × World)
      → x.1.broadcasts ≡ old
      → IfOk (IsReady c env id own (6 ∷ 8 ∷ 9 ∷ []) (10 ∷ []) bytes) x
      → AddsAtMostOne own id old (near_journaled c env id payer hash bytes head x)
  near_journaled-AddsAtMostOne payer hash bytes head old (err e, w) q h = inl q
  near_journaled-AddsAtMostOne payer hash bytes head old (ok t, w) q h =
      let (b, d) = headed_step 6 old w q in
      near_rechecked-AddsAtMostOne payer hash bytes head old _ b (
        subst (IsReady c env id own (8 ∷ 9 ∷ []) (10 ∷ []) bytes) (sym d)
          (at_step-IsReady c env id 6 bytes w h))

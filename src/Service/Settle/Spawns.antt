-- ===== src/Service/Settle/Spawns.antt =====
-- service.rs: the workers that the end of `settle_inner` spawns.
use x402_facilitator.Service.Settle.Quiet.{IsQuiet, IsQuiet-trans, wait-IsQuiet, desk_at-IsQuiet}
use x402_facilitator.Journal.Run.{run}
use x402_facilitator.Journal.Transitions.{resume_awaiting_retry}
use x402_facilitator.Journal.Claim.{claim_settlement}
use x402_facilitator.Service.World.{VerifiedPayment}
use x402_facilitator.Service.Settle.{
  SettleEnv, Desk, Client, wait_for_terminal, desk_at, RequestMeta, Reply, join_resumed,
  resume_race, resume, spawn, new_settlement, waited, claim_answered, retry_of, resume_answered,
}
use x402_facilitator.Journal.Tables.{Collation, Db}
use x402_facilitator.Journal.Types.{
  SettlementRecord, ClaimOutcome, Uuid, Hash, state_eq, SettlementState, is_terminal, Result,
  RetryOutcome, StoreError,
}
use x402_facilitator.Prelude.{
  true, ◌≡◌, refl, ◌∙◌, Option, none, some, if_cases, inl, ◌⊎◌, ◌∷◌, inr, ap,
}

module _ (c : Collation) (e : SettleEnv) (client : Client) (m : RequestMeta)
    (hash fingerprint : Hash) where
  -- A worker is spawned for the settlement that the claim, made on this journal, created, or that
  -- was found awaiting a retry by the claim and resumed by the call that follows it.
  abbrev pub IsSpawned : VerifiedPayment → Db → Desk → Desk → Type 0
  IsSpawned v at d d' =
      let claimed =
        claim_settlement c (new_settlement c e client m hash fingerprint v) e.today e.snapshots
          at in
      (r : SettlementRecord) × (d'.spawned ≡ r.id ∷ d.spawned)
      × ((claimed.0 ≡ Result.ok (ClaimOutcome.new r))
          ⊎ ((old : SettlementRecord) × (claimed.0 ≡ Result.ok (ClaimOutcome.existing old))
              × (state_eq old.state SettlementState.awaiting_retry ≡ true)
              × ((resume_awaiting_retry c (retry_of c e client m hash fingerprint old.id) e.today
                    (run c (e.others 8) claimed.1)).0
                  ≡ Result.ok (RetryOutcome.resumed r))))

  -- One claim, of the verified payment, and at most one worker.
  abbrev pub IsOneClaim : VerifiedPayment → Db → Desk → Desk → Type 0
  IsOneClaim v at d d' =
      (d'.claims ≡ new_settlement c e client m hash fingerprint v ∷ d.claims)
      × ((d'.spawned ≡ d.spawned) ⊎ IsSpawned v at d d')

  abbrev pub MaySpawn : VerifiedPayment → Db → Desk → Desk → Type 0
  MaySpawn v at d d' = (d'.claims ≡ d.claims) × ((d'.spawned ≡ d.spawned) ⊎ IsSpawned v at d d')

  pub quiet-MaySpawn :
      (v : VerifiedPayment) (at : Db) (d d' : Desk) → IsQuiet d d' → MaySpawn v at d d'
  quiet-MaySpawn v at d d' h = (h.0, inl h.1)

  join-IsQuiet :
      (o : Option SettlementRecord) (d d' : Desk)
      → IsQuiet d d'
      → IsQuiet d (join_resumed c e client m hash fingerprint o d').1
  join-IsQuiet none d d' h = h
  join-IsQuiet (some r) d d' h =
      if_cases (λ (y : Reply × Desk). IsQuiet d y.1)
        (state_eq r.state SettlementState.awaiting_retry) (λ _. h)
        (λ _.
          IsQuiet-trans d d' (wait_for_terminal c e e.polls 10 r.id d').1 h
            (wait-IsQuiet c e e.polls 10 r.id d'))

  race-IsQuiet :
      (id : Uuid) (d d' : Desk)
      → IsQuiet d d'
      → IsQuiet d (resume_race c e client m hash fingerprint id d').1
  race-IsQuiet id d d' h =
      let here = IsQuiet-trans d d' (desk_at c e 9 d') h (desk_at-IsQuiet c e 9 d') in
      if_cases (λ (y : Reply × Desk). IsQuiet d y.1) (e.fails 9) (λ _. here)
        (λ _. join-IsQuiet _ d (desk_at c e 9 d') here)

  -- After a worker was spawned nothing more is.
  spawned-MaySpawn :
      (v : VerifiedPayment) (at : Db) (r : SettlementRecord) (d d' : Desk)
      → IsQuiet d d'
      → (IsSpawned v at d (spawn c e client m hash fingerprint r.id d'))
      → MaySpawn v at d (waited c e 10 r.id (spawn c e client m hash fingerprint r.id d')).1
  spawned-MaySpawn v at r d d' h (x, s, how) =
      let (k1, k2) =
        wait-IsQuiet c e e.polls 10 r.id (spawn c e client m hash fingerprint r.id d') in
      (k1 ∙ h.0, inr (x, k2 ∙ s, how))

  -- The claim has found the settlement awaiting a retry, and left this journal.
  abbrev FoundAwaiting : VerifiedPayment → Db → Db → SettlementRecord → Type 0
  FoundAwaiting v at db old =
      (claim_settlement c (new_settlement c e client m hash fingerprint v) e.today e.snapshots at
        ≡ (Result.ok (ClaimOutcome.existing old), db))
      × (state_eq old.state SettlementState.awaiting_retry ≡ true)

  abbrev resumed_on : Db → Uuid → Result RetryOutcome × Db
  resumed_on db old =
      resume_awaiting_retry c (retry_of c e client m hash fingerprint old) e.today
        (run c (e.others 8) db)

  resumed-MaySpawn :
      (v : VerifiedPayment) (at db : Db) (old : SettlementRecord) (x : Result RetryOutcome)
      (d d' : Desk)
      → IsQuiet d d'
      → FoundAwaiting v at db old
      → (resumed_on db old.id).0 ≡ x
      → MaySpawn v at d (resume_answered c e client m hash fingerprint old.id x d').1
  resumed-MaySpawn v at db old (Result.ok (RetryOutcome.resumed r)) d d' h (f, a) q =
      spawned-MaySpawn v at r d d' h (
        r,
        ap (λ s. r.id ∷ s) h.1,
        inr (
          old,
          ap (λ y. y.0) f,
          a,
          ap (λ (y : Result ClaimOutcome × Db). (resumed_on y.1 old.id).0) f ∙ q,
        ),
      )
  resumed-MaySpawn v at db old (Result.ok RetryOutcome.settlement_busy) d d' h f q =
      quiet-MaySpawn v at d d' h
  resumed-MaySpawn v at db old (Result.ok RetryOutcome.budget_exceeded) d d' h f q =
      quiet-MaySpawn v at d d' h
  resumed-MaySpawn v at db old (Result.err (StoreError.transition a b)) d d' h f q =
      quiet-MaySpawn v at d (resume_race c e client m hash fingerprint old.id d').1
        (race-IsQuiet old.id d d' h)
  resumed-MaySpawn v at db old (Result.err StoreError.database) d d' h f q =
      quiet-MaySpawn v at d d' h
  resumed-MaySpawn v at db old (Result.err StoreError.corrupt) d d' h f q =
      quiet-MaySpawn v at d d' h
  resumed-MaySpawn v at db old (Result.err StoreError.invalid_input) d d' h f q =
      quiet-MaySpawn v at d d' h

  resume-MaySpawn :
      (v : VerifiedPayment) (at : Db) (old : SettlementRecord) (d d' : Desk)
      → IsQuiet d d'
      → FoundAwaiting v at d'.db old
      → MaySpawn v at d (resume c e client m hash fingerprint old.id d').1
  unfolding desk_at
  resume-MaySpawn v at old d d' h f =
      let here = IsQuiet-trans d d' (desk_at c e 8 d') h (desk_at-IsQuiet c e 8 d') in
      if_cases (λ (y : Reply × Desk). MaySpawn v at d y.1) (e.fails 8)
        (λ _. quiet-MaySpawn v at d (desk_at c e 8 d') here)
        (λ _. resumed-MaySpawn v at d'.db old _ d _ here f refl)

  pub claimed-MaySpawn :
      (v : VerifiedPayment) (x : Result ClaimOutcome) (at : Db) (d d' : Desk)
      → IsQuiet d d'
      → claim_settlement c (new_settlement c e client m hash fingerprint v) e.today e.snapshots at
        ≡ (x, d'.db)
      → MaySpawn v at d (claim_answered c e client m hash fingerprint v x d').1
  claimed-MaySpawn v (Result.err x) at d d' h q = quiet-MaySpawn v at d d' h
  claimed-MaySpawn v (Result.ok (ClaimOutcome.new r)) at d d' h q =
      spawned-MaySpawn v at r d d' h (r, ap (λ s. r.id ∷ s) h.1, inl (ap (λ y. y.0) q))
  claimed-MaySpawn v (Result.ok (ClaimOutcome.existing r)) at d d' h q =
      if_cases (λ (y : Reply × Desk). MaySpawn v at d y.1) (is_terminal r.state)
        (λ _. quiet-MaySpawn v at d d' h)
        (λ _.
          if_cases (λ (y : Reply × Desk). MaySpawn v at d y.1)
            (state_eq r.state SettlementState.awaiting_retry)
            (λ a. resume-MaySpawn v at r d d' h (q, a))
            (λ _. quiet-MaySpawn v at d (wait_for_terminal c e e.polls 10 r.id d').1 (
              IsQuiet-trans d d' (wait_for_terminal c e e.polls 10 r.id d').1 h
                (wait-IsQuiet c e e.polls 10 r.id d'))))
  claimed-MaySpawn v (Result.ok ClaimOutcome.identifier_conflict) at d d' h q =
      quiet-MaySpawn v at d d' h
  claimed-MaySpawn v (Result.ok ClaimOutcome.duplicate_settlement) at d d' h q =
      quiet-MaySpawn v at d d' h
  claimed-MaySpawn v (Result.ok ClaimOutcome.settlement_busy) at d d' h q =
      quiet-MaySpawn v at d d' h
  claimed-MaySpawn v (Result.ok ClaimOutcome.budget_exceeded) at d d' h q =
      quiet-MaySpawn v at d d' h

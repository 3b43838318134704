-- ===== src/Service/Recovery/Broadcasts.antt =====
-- service.rs: `reconcile_prepared_evm` as a whole, beside other operations.
use x402_facilitator.Service.Worker.Journaled.{mark_submitted-HasStarted}
use x402_facilitator.Service.Worker.Broadcasts.{after_call}
use x402_facilitator.Service.Recovery.Safety.{
  IsResubmitted, RecoversAtMostOne, finalize_reconciled_broadcasts, marked-RecoversAtMostOne,
  resubmit-RecoversAtMostOne,
}
use x402_facilitator.Journal.Lifecycle.{is_started}
use x402_facilitator.Journal.Transitions.{
  is_in_flight, raise_required_confirmations, mark_submitted,
}
use x402_facilitator.Service.Worker.Safety.{Holds, IsReady, Origin, at_step-IsSound, Evolves-Stores}
use x402_facilitator.Journal.Run.{Op, run, IsSound, run-Evolves, apply-IsSound}
use x402_facilitator.Service.Recovery.{
  Recovery, reconcile_prepared_evm, ReconcileVerdict, signer_known, recover_unknown,
  with_submission, configured, depth_raised, verdict_reached, Answer, is_canonical, depth_kept,
}
use x402_facilitator.Journal.Types.{
  Uuid, Bytes, SettlementRecord, EvmSubmission, SettlementState, Text, Result, err, ok,
}
use x402_facilitator.Service.World.{Env, at_step, store_call, World, Broadcast}
use x402_facilitator.Journal.Tables.{Collation, Db, find_row}
use x402_facilitator.Prelude.{
  ℕ, ◌≡◌, refl, ap, sym, ◌∙◌, true, none, some, List, [], ◌∷◌, arith, if_cases, inl, inr, ◌==◌,
  ◌&&◌, Option,
}

-- The recovery starts from this world: it raises the required depth to the configured one, and goes
-- on from the journal that this leaves.
abbrev pub IsRecoveryOf : Collation → Env → SettlementRecord → Recovery → World → Origin
IsRecoveryOf c env row r w bytes journal =
    (minimum required : ℕ) × (r.configured_confirmations ≡ some minimum)
    × ((store_call env 0 (raise_required_confirmations c row.id minimum) (at_step c env 0 w)).0
        ≡ ok required)
    × IsResubmitted c env row
        (store_call env 0 (raise_required_confirmations c row.id minimum) (at_step c env 0 w)).1.db
        bytes journal

RecoversAtMostOne-map :
    (p q : Origin) (id : Uuid) (old : List Broadcast) (w : World)
    → ((bytes : Bytes) (journal : Db) → p bytes journal → q bytes journal)
    → RecoversAtMostOne p id old w
    → RecoversAtMostOne q id old w
RecoversAtMostOne-map p q id old w h (inl e) = inl e
RecoversAtMostOne-map p q id old w h (inr (b, e, i, (g, x, f, s, t, o))) =
    inr (b, e, i, (g, x, f, s, t, h b.bytes b.journal o))

-- The call that raises the depth was accepted.
abbrev IsRaised : Collation → Env → SettlementRecord → Result ℕ × World → Origin
IsRaised c env row x bytes journal =
    (required : ℕ) × (x.0 ≡ ok required) × IsResubmitted c env row x.1.db bytes journal

module _ (c : Collation) (env : Env) (row : SettlementRecord) (e : EvmSubmission) where
  -- The journal holds the bytes of the row that was read, which has not moved back since.
  abbrev pub Follows : Db → Type 0
  Follows db =
      (h : Holds c row.id e.submitted_tx_rlp db) × (is_started row.state ≡ true
        → is_started h.row.state ≡ true)

  followed :
      (ops : List Op) (db : Db) → Follows db → IsSound c (run c ops db) → Follows (run c ops db)
  followed ops db (h, s) sound =
      let (r, f, v) = run-Evolves c ops db row.id h.row h.sound h.found in
      (
        record {
          sound = sound;
          row = r;
          found = f;
          stores = Evolves-Stores e.submitted_tx_rlp h.row r v h.stores;
        },
        λ g. v.started (s g),
      )

  at_step-Follows : (k : ℕ) (w : World) → Follows w.db → Follows (at_step c env k w).db
  unfolding at_step
  at_step-Follows k w (h, s) =
      followed (env.others k) w.db (h, s) (at_step-IsSound c env row.id k w h.sound)

  raised-Follows :
      (minimum : ℕ) (w : World)
      → Follows w.db
      → Follows (store_call env 0 (raise_required_confirmations c row.id minimum) w).1.db
  unfolding store_call run
  raised-Follows minimum w (h, s) =
      let o = Op.raise row.id minimum in
      if_cases (λ (x : Result ℕ × World). Follows x.1.db) (env.fails 0) (λ _. (h, s))
        (λ _. followed (o ∷ []) w.db (h, s) (apply-IsSound c o w.db h.sound))

  ready :
      (w : World)
      → row.state ≡ SettlementState.prepared
      → Follows w.db
      → IsReady c env row.id
          (IsResubmitted c env row w.db)
          []
          (2 ∷ 3 ∷ 5 ∷ [])
          e.submitted_tx_rlp
          (at_step c env 1 w).db
  unfolding at_step
  ready w p h = record { holds = (at_step-Follows 1 w h).0; owned = λ m. inr (p, (m, refl)) }

  unknown-RecoversAtMostOne :
      (t : SettlementState) (old : List Broadcast) (w : World)
      → t ≡ row.state
      → is_in_flight t ≡ true
      → w.broadcasts ≡ old
      → Follows w.db
      → RecoversAtMostOne
          (IsResubmitted c env row w.db)
          row.id
          old
          (recover_unknown c env row e t w).1
  unknown-RecoversAtMostOne SettlementState.prepared old w p i q h =
      marked-RecoversAtMostOne c env row (IsResubmitted c env row w.db) e _ old
        (after_call c env row.id (IsResubmitted c env row w.db) 1 (mark_submitted c row.id) old w q)
        (mark_submitted-HasStarted c env row.id 1 e.submitted_tx_rlp (at_step c env 1 w)
          (ready w (sym p) h))
  unknown-RecoversAtMostOne SettlementState.submitted old w p i q (h, s) =
      resubmit-RecoversAtMostOne c env row (IsResubmitted c env row w.db) e old w q
        (record { holds = h; started = s (ap is_started (sym p)); owned = inl (sym p, refl) })
  unknown-RecoversAtMostOne SettlementState.reserved old w p i q h = absurd (ground (arith, i))
  unknown-RecoversAtMostOne SettlementState.awaiting_retry old w p i q h =
      absurd (ground (arith, i))
  unknown-RecoversAtMostOne SettlementState.succeeded old w p i q h = absurd (ground (arith, i))
  unknown-RecoversAtMostOne SettlementState.failed old w p i q h = absurd (ground (arith, i))

  verdict-RecoversAtMostOne :
      (v : ReconcileVerdict) (old : List Broadcast) (w : World)
      → is_in_flight row.state ≡ true
      → w.broadcasts ≡ old
      → Follows w.db
      → RecoversAtMostOne
          (IsResubmitted c env row w.db)
          row.id
          old
          (verdict_reached c env row e v w).1
  verdict-RecoversAtMostOne (ReconcileVerdict.terminal o) old w i q h =
      inl (finalize_reconciled_broadcasts c env row (IsResubmitted c env row w.db) 1 o w ∙ q)
  verdict-RecoversAtMostOne ReconcileVerdict.pending old w i q h = inl q
  verdict-RecoversAtMostOne ReconcileVerdict.indeterminate old w i q h = inl q
  verdict-RecoversAtMostOne ReconcileVerdict.unknown old w i q h =
      unknown-RecoversAtMostOne row.state old w refl i q h
  verdict-RecoversAtMostOne ReconcileVerdict.conflict old w i q h = inl q
  verdict-RecoversAtMostOne ReconcileVerdict.ambiguous old w i q h = inl q

  raised_on :
      (r : Recovery) (required : ℕ) (w : World) (old : List Broadcast)
      → is_in_flight row.state ≡ true
      → w.broadcasts ≡ old
      → Follows w.db
      → RecoversAtMostOne
          (IsResubmitted c env row w.db)
          row.id
          old
          (depth_raised c env row r e (ok required, w)).1
  raised_on r required w old i q h =
      if_cases (λ (a : Answer). RecoversAtMostOne (IsResubmitted c env row w.db) row.id old a.1)
        (is_canonical c env row row.authorization_metadata
          && depth_kept c env row r.admission_confirmations required)
        (λ _.
          if_cases (λ (a : Answer). RecoversAtMostOne (IsResubmitted c env row w.db) row.id old a.1)
            r.valid_submission (λ _. verdict-RecoversAtMostOne (r.verdict required) old w i q h)
            (λ _. inl q))
        (λ _. inl q)

  raised-RecoversAtMostOne :
      (r : Recovery) (x : Result ℕ × World) (old : List Broadcast)
      → is_in_flight row.state ≡ true
      → x.1.broadcasts ≡ old
      → Follows x.1.db
      → RecoversAtMostOne (IsRaised c env row x) row.id old (depth_raised c env row r e x).1
  raised-RecoversAtMostOne r (err y, w) old i q h = inl q
  raised-RecoversAtMostOne r (ok required, w) old i q h =
      RecoversAtMostOne-map (IsResubmitted c env row w.db) (IsRaised c env row (ok required, w))
        row.id old (depth_raised c env row r e (ok required, w)).1
        (λ bytes journal o. (required, refl, o)) (raised_on r required w old i q h)

  -- The depth is raised first, to the one that is configured.
  configured-RecoversAtMostOne :
      (r : Recovery) (w : World)
      → is_in_flight row.state ≡ true
      → Follows w.db
      → (x : Option ℕ) → r.configured_confirmations ≡ x
      → RecoversAtMostOne
          (IsRecoveryOf c env row r w)
          row.id
          w.broadcasts
          (configured c env row r e x w).1
  configured-RecoversAtMostOne r w i h none k = inl refl
  configured-RecoversAtMostOne r w i h (some minimum) k =
      let x =
        store_call env 0 (raise_required_confirmations c row.id minimum) (at_step c env 0 w) in
      RecoversAtMostOne-map (IsRaised c env row x) (IsRecoveryOf c env row r w) row.id w.broadcasts
        (configured c env row r e (some minimum) w).1
        (λ bytes journal (required, p, o). (minimum, required, k, p, o))
        (raised-RecoversAtMostOne r x w.broadcasts i
          (after_call c env row.id (IsResubmitted c env row w.db) 0
            (raise_required_confirmations c row.id minimum) w.broadcasts w refl)
          (raised-Follows minimum (at_step c env 0 w) (at_step-Follows 0 w h)))

module _ (c : Collation) (env : Env) (row : SettlementRecord) (r : Recovery) where
  with_submission-RecoversAtMostOne :
      (x : Option EvmSubmission) (w : World)
      → x ≡ row.evm_submission
      → IsSound c w.db
      → find_row row.id w.db.rows ≡ some row
      → is_in_flight row.state ≡ true
      → RecoversAtMostOne
          (IsRecoveryOf c env row r w)
          row.id
          w.broadcasts
          (with_submission c env row r x w).1
  with_submission-RecoversAtMostOne none w p s f i = inl refl
  with_submission-RecoversAtMostOne (some e) w p s f i =
      configured-RecoversAtMostOne c env row e r w i
        (record { sound = s; row = row; found = f; stores = inr (e, sym p, refl) }, λ g. g)
        r.configured_confirmations refl

  known-RecoversAtMostOne :
      (x : Option Text) (w : World)
      → IsSound c w.db
      → find_row row.id w.db.rows ≡ some row
      → is_in_flight row.state ≡ true
      → RecoversAtMostOne
          (IsRecoveryOf c env row r w)
          row.id
          w.broadcasts
          (signer_known c env row r x w).1
  known-RecoversAtMostOne none w s f i = inl refl
  known-RecoversAtMostOne (some signer) w s f i =
      if_cases
        (λ (a : Answer). RecoversAtMostOne (IsRecoveryOf c env row r w) row.id w.broadcasts a.1)
        (signer == env.account)
        (λ _. with_submission-RecoversAtMostOne row.evm_submission w refl s f i) (λ _. inl refl)

  -- From a sound journal, the recovery of a Base settlement that was read as prepared or submitted
  -- broadcasts at most once, whatever other requests and tasks do between its steps and however its
  -- calls fail. A broadcast is made only while the leadership, RPC and relayer gates are open, of
  -- bytes that the journal then holds with the settlement, and only after the depth was raised to the
  -- configured one and for a settlement that was read as submitted, or that was read as prepared and
  -- that the recovery's own call, which was accepted, marked as submitted. Before and after there are
  -- only the operations of others, which may have ended the submitted settlement since.
  pub reconcile_prepared_evm-RecoversAtMostOne :
      (w : World)
      → IsSound c w.db
      → find_row row.id w.db.rows ≡ some row
      → is_in_flight row.state ≡ true
      → RecoversAtMostOne
          (IsRecoveryOf c env row r w)
          row.id
          w.broadcasts
          (reconcile_prepared_evm c env row r w).1
  unfolding reconcile_prepared_evm
  reconcile_prepared_evm-RecoversAtMostOne w s f i =
      known-RecoversAtMostOne row.signer_address w s f i

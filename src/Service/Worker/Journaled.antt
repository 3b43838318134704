-- ===== src/Service/Worker/Journaled.antt =====
-- service.rs: `mark_prepared`, `mark_prepared_evm` and `mark_submitted` as a worker calls them.
use x402_facilitator.Service.Worker.Safety.{
  Holds, guarded_update-ok, HasStarted, IsReady, Origin, journal_after,
}
use x402_facilitator.Journal.Lifecycle.{is_started}
use x402_facilitator.Journal.Run.{IsSound, apply-IsSound, Op}
use x402_facilitator.Journal.Transitions.{
  mark_prepared, mark_prepared_evm, mark_submitted, to_prepared, to_submitted, to_prepared_evm,
}
use x402_facilitator.Service.World.{store_call, World, Env}
use x402_facilitator.Journal.Tables.{Collation, Db}
use x402_facilitator.Journal.Types.{
  Result, ok, Uuid, NearSubmission, Bytes, err, EvmSubmission, SettlementState, EventCode,
}
use x402_facilitator.Prelude.{
  true, List, [], ℕ, ◌≡◌, refl, if_cases, Bool-cases, inl, inr, ltb, arith,
}

abbrev pub Answer : Type 0
Answer = Result (Unit {0})

-- Either an error, or a journal of which P holds.
abbrev pub IfOk : (Db → Type 0) → Answer × World → Type 0
IfOk P (ok a, w) = P w.db
IfOk P (err e, w) = Unit

if_ok : (P : Db → Type 0) (x : Answer × World) → (x.0 ≡ ok tt → P x.1.db) → IfOk P x
if_ok P (ok tt, w) h = h refl
if_ok P (err e, w) h = tt

store_call-IfOk :
    (P : Db → Type 0) (env : Env) (k : ℕ) (call : Db → Answer × Db) (w : World)
    → ((call w.db).0 ≡ ok tt → P (call w.db).1)
    → IfOk P (store_call env k call w)
unfolding store_call
store_call-IfOk P env k call w h = if_cases (IfOk P) (env.fails k) (λ _. tt) (λ _. if_ok P _ h)

module _ (c : Collation) (env : Env) (id : Uuid) where
  prepared-Holds :
      (e : NearSubmission) (db : Db)
      → IsSound c db
      → (mark_prepared c id e db).0 ≡ ok tt
      → Holds c id e.transaction_bytes (mark_prepared c id e db).1
  unfolding mark_prepared
  prepared-Holds e db s h =
      let (r, f, g) =
        guarded_update-ok c id SettlementState.reserved SettlementState.prepared
          EventCode.outer_transaction_persisted (to_prepared e) db (λ x. refl) h in
      record {
        sound = apply-IsSound c (Op.prepare id e) db s;
        row = to_prepared e r;
        found = g;
        stores = inl (e, refl, refl);
      }

  -- What an accepted call on this journal, followed by an accepted mark, must give.
  abbrev pub Gives : Origin → List ℕ → List ℕ → Bytes → Answer × Db → Type 0
  Gives own ks more bytes x =
      x.0 ≡ ok tt
      → (mark_submitted c id (journal_after c env ks x.1)).0 ≡ ok tt
      → own bytes (journal_after c env more (mark_submitted c id (journal_after c env ks x.1)).1)

  pub mark_prepared-IsReady :
      (own : Origin) (ks more : List ℕ) (k : ℕ) (e : NearSubmission) (w : World)
      → IsSound c w.db
      → Gives own ks more e.transaction_bytes (mark_prepared c id e w.db)
      → IfOk
          (IsReady c env id own ks more e.transaction_bytes)
          (store_call env k (mark_prepared c id e) w)
  mark_prepared-IsReady own ks more k e w s g =
      store_call-IfOk _ env k (mark_prepared c id e) w
        (λ h. record { holds = prepared-Holds e w.db s h; owned = g h })

  prepared_evm-Holds :
      (e : EvmSubmission) (db : Db)
      → IsSound c db
      → (mark_prepared_evm c id e db).0 ≡ ok tt
      → Holds c id e.submitted_tx_rlp (mark_prepared_evm c id e db).1
  unfolding mark_prepared_evm
  prepared_evm-Holds e db s h = elim (Bool-cases (ltb e.required_confirmations 1)) [
    | inl low ↦ absurd (ground arith)
    | inr fits ↦
        let (r, f, g) =
          guarded_update-ok c id SettlementState.reserved SettlementState.prepared
            EventCode.evm_transaction_persisted (to_prepared_evm e) db (λ x. refl)
            (ground (arith, fits, h)) in
        record {
          sound = apply-IsSound c (Op.prepare_evm id e) db s;
          row = to_prepared_evm e r;
          found = ground (arith, fits, g);
          stores = inr (e, refl, refl);
        }
  ]

  pub mark_prepared_evm-IsReady :
      (own : Origin) (ks more : List ℕ) (k : ℕ) (e : EvmSubmission) (w : World)
      → IsSound c w.db
      → Gives own ks more e.submitted_tx_rlp (mark_prepared_evm c id e w.db)
      → IfOk
          (IsReady c env id own ks more e.submitted_tx_rlp)
          (store_call env k (mark_prepared_evm c id e) w)
  mark_prepared_evm-IsReady own ks more k e w s g =
      store_call-IfOk _ env k (mark_prepared_evm c id e) w
        (λ h. record { holds = prepared_evm-Holds e w.db s h; owned = g h })

  marked-Holds :
      (bytes : Bytes) (db : Db)
      → Holds c id bytes db
      → (mark_submitted c id db).0 ≡ ok tt
      → (x : Holds c id bytes (mark_submitted c id db).1) × (is_started x.row.state ≡ true)
  unfolding mark_submitted
  marked-Holds bytes db s h =
      let (r, f, g) =
        guarded_update-ok c id SettlementState.prepared SettlementState.submitted
          EventCode.broadcast_started to_submitted db (λ x. refl) h in
      let same : s.row ≡ r = ground (arith, f, s.found) in
      (
        record {
          sound = apply-IsSound c (Op.submit id) db s.sound;
          row = to_submitted r;
          found = g;
          stores = rw same at s.stores;
        },
        refl,
      )

  submitted-HasStarted :
      {own : Origin} {more : List ℕ} (bytes : Bytes) (db : Db)
      → IsReady c env id own [] more bytes db
      → (mark_submitted c id db).0 ≡ ok tt
      → HasStarted c env id own more bytes (mark_submitted c id db).1
  submitted-HasStarted bytes db x h =
      let (y, s) = marked-Holds bytes db x.holds h in
      record { holds = y; started = s; owned = x.owned h }

  pub mark_submitted-HasStarted :
      {own : Origin} {more : List ℕ} (k : ℕ) (bytes : Bytes) (w : World)
      → IsReady c env id own [] more bytes w.db
      → IfOk (HasStarted c env id own more bytes) (store_call env k (mark_submitted c id) w)
  mark_submitted-HasStarted k bytes w s =
      store_call-IfOk _ env k (mark_submitted c id) w (submitted-HasStarted bytes w.db s)

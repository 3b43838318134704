-- ===== src/Service/Worker/Safety.antt =====
-- service.rs: the broadcasts of a settlement worker, and which of its calls make none.
use x402_facilitator.Prelude.{
  ℕ, ◌≡◌, refl, ap, ◌∙◌, true, Option, none, some, List, [], ◌∷◌, ◌++◌, arith, inl, inr, ◌⊎◌,
}
use x402_facilitator.Journal.Types.{
  Uuid, Text, Bytes, SettlementState, SettlementRecord, NearSubmission, EvmSubmission, Result, ok,
  err, state_eq, EventCode, SettlementIdentity,
}
use x402_facilitator.Journal.Tables.{Collation, Db, find_row, update_row, Updated}
use x402_facilitator.Journal.Rows.{update_row-updated, find_row-replace_row, find_row-id}
use x402_facilitator.Journal.Transitions.{
  guarded_update, guarded_updated, mark_terminal, mark_awaiting_retry, refused, mark_submitted,
  mark_prepared, mark_prepared_evm,
}
use x402_facilitator.Journal.Lifecycle.{Evolves, Keeps, is_started}
use x402_facilitator.Journal.Run.{run, IsSound, run-IsSound, run-Evolves}
use x402_facilitator.Service.Readiness.{can_settle}
use x402_facilitator.Service.World.{World, Env, Broadcast, TerminalOutcome, at_step, store_call}
use x402_facilitator.Service.Finalize.{
  or_pause, journal_terminal, finalize_terminal, finalize_response, terminal_protocol_failure,
  protocol_response, retryable_service_failure, terminal_transaction_rejected, rejected_response,
}

-- The row holds these bytes as its one signed transaction of a chain.
abbrev pub Stores : Bytes → SettlementRecord → Type 0
Stores bytes r =
    ((e : NearSubmission) × (r.near_submission ≡ some e) × (e.transaction_bytes ≡ bytes))
    ⊎ ((e : EvmSubmission) × (r.evm_submission ≡ some e) × (e.submitted_tx_rlp ≡ bytes))

kept_evm :
    (e : EvmSubmission) (o : Option EvmSubmission)
    → Keeps e o
    → (e' : EvmSubmission) × (o ≡ some e') × (e'.submitted_tx_rlp ≡ e.submitted_tx_rlp)
kept_evm e none k = absurd k
kept_evm e (some e') (a, b, d, f) = (e', refl, b)

pub Evolves-Stores :
    (bytes : Bytes) (r r' : SettlementRecord) → Evolves r r' → Stores bytes r → Stores bytes r'
Evolves-Stores bytes r r' v (inl (e, p, q)) = inl (e, v.near_kept e p, q)
Evolves-Stores bytes r r' v (inr (e, p, q)) =
    let (e', p', q') = kept_evm e r'.evm_submission (v.evm_kept e p) in inr (e', p', q' ∙ q)

-- The journal is sound and holds the bytes with the settlement.
pub record Holds (c : Collation) (id : Uuid) (bytes : Bytes) (db : Db) : Type 0 where
  pub sound : IsSound c db
  pub row : SettlementRecord
  pub found : find_row id db.rows ≡ some row
  pub stores : Stores bytes row

-- The journal after the operations of the others before these steps.
abbrev pub journal_after : Collation → Env → List ℕ → Db → Db
journal_after c env [] db = db
journal_after c env (k ∷ ks) db = journal_after c env ks (run c (env.others k) db)

-- What a journal must satisfy when these bytes are sent.
abbrev pub Origin : Type 1
Origin = Bytes → Db → Type 0

-- The settlement was marked as submitted, may be terminal by now, and after the steps that are left
-- its journal is as `own` wants it.
pub record HasStarted (c : Collation) (env : Env) (id : Uuid) (own : Origin) (ks : List ℕ)
    (bytes : Bytes) (db : Db) : Type 0 where
  pub holds : Holds c id bytes db
  pub started : is_started holds.row.state ≡ true
  pub owned : own bytes (journal_after c env ks db)

-- The bytes are held, and the journal will be as `own` wants it if the call that marks the
-- settlement, after the first steps, is accepted.
pub record IsReady (c : Collation) (env : Env) (id : Uuid) (own : Origin) (ks more : List ℕ)
    (bytes : Bytes) (db : Db) : Type 0 where
  pub holds : Holds c id bytes db
  pub owned :
      (mark_submitted c id (journal_after c env ks db)).0 ≡ ok tt
      → own bytes (journal_after c env more (mark_submitted c id (journal_after c env ks db)).1)

-- A broadcast that was allowed by every gate, of bytes that the journal held with the settlement
-- and had marked as submitted, with a journal as `own` wants it.
abbrev pub IsJournaled : Origin → Broadcast → Type 0
IsJournaled own b =
    (can_settle b.gates ≡ true)
    × (r : SettlementRecord) × (find_row b.settlement_id b.journal.rows ≡ some r)
    × (is_started r.state ≡ true)
    × Stores b.bytes r
    × own b.bytes b.journal

-- At most one broadcast more, of the settlement, and a journaled one.
abbrev pub AddsAtMostOne : Origin → Uuid → List Broadcast → World → Type 0
AddsAtMostOne own id old w =
    (w.broadcasts ≡ old)
    ⊎ ((b : Broadcast) × (w.broadcasts ≡ old ++ b ∷ [])
        × (b.settlement_id ≡ id)
        × IsJournaled own b)

-- What the worker itself has done to a journal before it sends: its own call stored the bytes and
-- its own call marked the settlement as submitted, and both were accepted. Between the calls are the
-- operations of the others before the steps, and nothing else.
abbrev pub IsOwn : Collation → Env → Uuid → Db → Origin
IsOwn c env id db bytes journal =
    let read = journal_after c env (0 ∷ 2 ∷ 3 ∷ 5 ∷ []) db in
    ((e : NearSubmission) × (e.transaction_bytes ≡ bytes)
      × ((mark_prepared c id e read).0 ≡ ok tt)
      × (let held = journal_after c env (6 ∷ 8 ∷ 9 ∷ []) (mark_prepared c id e read).1 in
          ((mark_submitted c id held).0 ≡ ok tt)
          × (journal ≡ journal_after c env (10 ∷ []) (mark_submitted c id held).1)))
    ⊎ ((e : EvmSubmission) × (e.submitted_tx_rlp ≡ bytes)
        × ((mark_prepared_evm c id e read).0 ≡ ok tt)
        × (let held = journal_after c env (6 ∷ 7 ∷ []) (mark_prepared_evm c id e read).1 in
            ((mark_submitted c id held).0 ≡ ok tt)
            × (journal ≡ journal_after c env (8 ∷ 9 ∷ 11 ∷ []) (mark_submitted c id held).1)))

module _ (c : Collation) (env : Env) (id : Uuid) where
  pub store_call_broadcasts :
      {A : Type 0} (k : ℕ) (f : Db → Result A × Db) (w : World)
      → (store_call env k f w).1.broadcasts ≡ w.broadcasts
  unfolding store_call
  store_call_broadcasts k f w = ground arith

  or_pause_broadcasts :
      {A : Type 0} (x : Result A × World) → (or_pause x).broadcasts ≡ x.1.broadcasts
  or_pause_broadcasts (ok a, w) = refl
  or_pause_broadcasts (err e, w) = refl

  journal_terminal_broadcasts :
      (k : ℕ) (e : _) (w : World) → (journal_terminal c env k e w).broadcasts ≡ w.broadcasts
  unfolding at_step
  journal_terminal_broadcasts k e w =
      or_pause_broadcasts _ ∙ store_call_broadcasts k (mark_terminal c e) (at_step c env k w)

  pub retryable_broadcasts :
      (k : ℕ) (code : Text) (w : World)
      → (retryable_service_failure c env k id code w).broadcasts ≡ w.broadcasts
  unfolding retryable_service_failure at_step
  retryable_broadcasts k code w =
      or_pause_broadcasts _
      ∙ store_call_broadcasts k (mark_awaiting_retry c id code) (at_step c env k w)

  pub finalize_broadcasts :
      (k : ℕ) (payer : Text) (o : TerminalOutcome) (w : World)
      → (finalize_terminal c env k id payer o w).broadcasts ≡ w.broadcasts
  unfolding finalize_terminal
  finalize_broadcasts k payer o w = go _
    where
      go : (x : Option Bytes) → (finalize_response c env k id o x w).broadcasts ≡ w.broadcasts
      go none = refl
      go (some bytes) = journal_terminal_broadcasts k _ w

  pub protocol_broadcasts :
      (k : ℕ) (reason : Text) (payer : Option Text) (t : Text) (w : World)
      → (terminal_protocol_failure c env k id reason payer t w).broadcasts ≡ w.broadcasts
  unfolding terminal_protocol_failure
  protocol_broadcasts k reason payer t w = go _
    where
      go : (x : Option Bytes) → (protocol_response c env k id reason x w).broadcasts ≡ w.broadcasts
      go none = refl
      go (some bytes) = journal_terminal_broadcasts k _ w

  pub rejected_broadcasts :
      (k : ℕ) (payer hash : Text) (w : World)
      → (terminal_transaction_rejected c env k id payer hash w).broadcasts ≡ w.broadcasts
  unfolding terminal_transaction_rejected
  rejected_broadcasts k payer hash w = go _
    where
      go : (x : Option Bytes) → (rejected_response c env k id x w).broadcasts ≡ w.broadcasts
      go none = refl
      go (some bytes) = journal_terminal_broadcasts k _ w

  -- Between two steps.
  pub at_step-IsSound : (k : ℕ) (w : World) → IsSound c w.db → IsSound c (at_step c env k w).db
  unfolding at_step
  at_step-IsSound k w h = run-IsSound c (env.others k) w.db h

  pub at_step-Holds :
      (k : ℕ) (bytes : Bytes) (w : World)
      → Holds c id bytes w.db
      → Holds c id bytes (at_step c env k w).db
  unfolding at_step
  at_step-Holds k bytes w h =
      let (r, f, v) = run-Evolves c (env.others k) w.db id h.row h.sound h.found in
      record {
        sound = run-IsSound c (env.others k) w.db h.sound;
        row = r;
        found = f;
        stores = Evolves-Stores bytes h.row r v h.stores;
      }

  pub at_step-IsReady :
      {own : Origin} {ks more : List ℕ} (k : ℕ) (bytes : Bytes) (w : World)
      → IsReady c env id own (k ∷ ks) more bytes w.db
      → IsReady c env id own ks more bytes (at_step c env k w).db
  unfolding at_step
  at_step-IsReady k bytes w h = record { holds = at_step-Holds k bytes w h.holds; owned = h.owned }

  pub at_step-HasStarted :
      {own : Origin} {ks : List ℕ} (k : ℕ) (bytes : Bytes) (w : World)
      → HasStarted c env id own (k ∷ ks) bytes w.db
      → HasStarted c env id own ks bytes (at_step c env k w).db
  unfolding at_step
  at_step-HasStarted k bytes w x =
      let h = x.holds in
      let (r, f, v) = run-Evolves c (env.others k) w.db id h.row h.sound h.found in
      record {
        holds = record {
          sound = run-IsSound c (env.others k) w.db h.sound;
          row = r;
          found = f;
          stores = Evolves-Stores bytes h.row r v h.stores;
        };
        started = v.started x.started;
        owned = x.owned;
      }

-- A guarded UPDATE that was accepted has changed the row.
pub guarded_update-ok :
    (c : Collation) (id : Uuid) (from to : SettlementState) (code : EventCode)
    (change : SettlementRecord → SettlementRecord) (db : Db)
    → ((r : SettlementRecord) → (change r).columns ≡ r.columns)
    → (guarded_update c id from to code change db).0 ≡ ok tt
    → (r : SettlementRecord) × (find_row id db.rows ≡ some r)
      × (find_row id (guarded_update c id from to code change db).1.rows ≡ some (change r))
guarded_update-ok c id from to code change db k h = go _ refl h
  where
    refused_err : (o : Option SettlementRecord) → (refused to db o).0 ≡ ok tt → ⊥
    refused_err none q = ground arith
    refused_err (some r) q = ground arith

    go :
        (u : Updated)
        → update_row c id (λ x. state_eq x.state from) change db.rows ≡ u
        → (guarded_updated id from to code db u).0 ≡ ok tt
        → (r : SettlementRecord) × (find_row id db.rows ≡ some r)
          × (find_row id (guarded_updated id from to code db u).1.rows ≡ some (change r))
    go Updated.no_row e q = absurd (refused_err (find_row id db.rows) q)
    go (Updated.rejected x) e q = absurd (ground (arith, q))
    go (Updated.updated rows) e q =
        let (r, f, g, v, w) = update_row-updated c id _ _ db.rows e in
        let same : (change r).id ≡ id =
          ap (λ (x : SettlementIdentity). x.id) (k r) ∙ find_row-id id db.rows r f in
        (r, f, ground (arith, w, find_row-replace_row id id (change r) db.rows r f same))

-- ===== src/Journal/Accounting/Steps.antt =====
-- store.rs: the ledgers under every step of the journal.
use x402_facilitator.Prelude.{
  ◌≡◌, refl, ap, true, false, some, List, ◌++◌, [], ◌∷◌, arith, Option-cases, inl, inr, ◌⊎◌, ◌∙◌,
}
use x402_facilitator.Journal.Types.{
  Uuid, Date, SettlementState, is_active, NewSettlement, SettlementRecord, SettlementEvent,
  SettlementIdentity,
}
use x402_facilitator.Journal.Ledger.{Ledgers}
use x402_facilitator.Journal.Ledger.Moves.{release_budget-Releases}
use x402_facilitator.Journal.Tables.{Collation, Db, find_row, replace_row}
use x402_facilitator.Journal.Rows.{
  find_row-id, find_row-replace_row, find_row-append, sum_rows-replace_row, sum_rows-append,
}
use x402_facilitator.Journal.Claim.{new_row, reserve_both}
use x402_facilitator.Journal.Transitions.{
  transition_allowed, to_resumed, to_prepared, to_prepared_evm, to_submitted, to_terminal,
}
use x402_facilitator.Journal.Effects.{Move, Amend, Effect}
use x402_facilitator.Journal.Accounting.{
  held, client_held, IsAccounted, Balances, gives_back, takes, keeps, reserve_retry-Reserves,
  reserve_both_claim-Reserves,
}

pub transition_allowed_active :
    (s t : SettlementState)
    → transition_allowed s t ≡ true
    → (is_active s ≡ true) × (is_active t ≡ false)
unfolding transition_allowed
transition_allowed_active s t h = ground arith

Move-Balances : (r r' : SettlementRecord) (b b' : Ledgers) → Move r r' b b' → Balances r r' b b'
Move-Balances r r' b b' (Move.relinquish code s e p) =
    gives_back r r' b b' 0 (rw s) (rw e) (release_budget-Releases b b' _ _ _ _ p)
Move-Balances r r' b b' (Move.resume q today s e p) = rw e (
    takes r (to_resumed q today r) b b' (rw s) refl
      (reserve_retry-Reserves q today r.api_client_id b b' p))
Move-Balances r r' b b' (Move.prepare x s e p) =
    rw e (keeps r (to_prepared x r) b b' p (rw s) refl refl refl)
Move-Balances r r' b b' (Move.prepare_evm x s e p) =
    rw e (keeps r (to_prepared_evm x r) b b' p (rw s) refl refl refl)
Move-Balances r r' b b' (Move.submit s e p) =
    rw e (keeps r (to_submitted r) b b' p (rw s) refl refl refl)
Move-Balances r r' b b' (Move.finish x a e p) =
    let (i, j) = transition_allowed_active r.state x.state a in
    rw e (gives_back r (to_terminal x r) b b' x.actual i j (release_budget-Releases b b' _ _ _ _ p))

Amend-Balances : (r r' : SettlementRecord) (b : Ledgers) → Amend r r' → Balances r r' b b
Amend-Balances r r' b (Amend.raise minimum e) = rw e (keeps r _ b b refl refl refl refl refl)
Amend-Balances r r' b (Amend.note e) = rw e (keeps r _ b b refl refl refl refl refl)

pub Move-columns :
    (r r' : SettlementRecord) (b b' : Ledgers) → Move r r' b b' → r'.columns ≡ r.columns
Move-columns r r' b b' (Move.relinquish code s e p) = rw e
Move-columns r r' b b' (Move.resume q today s e p) = rw e
Move-columns r r' b b' (Move.prepare x s e p) = rw e
Move-columns r r' b b' (Move.prepare_evm x s e p) = rw e
Move-columns r r' b b' (Move.submit s e p) = rw e
Move-columns r r' b b' (Move.finish x a e p) = rw e

pub Amend-columns : (r r' : SettlementRecord) → Amend r r' → r'.columns ≡ r.columns
Amend-columns r r' (Amend.raise minimum e) = rw e
Amend-columns r r' (Amend.note e) = rw e

-- A look-up after a step finds the new version of the row, or what was there before.
pub found_after :
    (id j : Uuid) (r r' s : SettlementRecord) (rows : List SettlementRecord)
    → find_row id rows ≡ some r
    → r'.columns ≡ r.columns
    → find_row j (replace_row id r' rows) ≡ some s
    → ((s ≡ r') × (j ≡ id)) ⊎ (find_row j rows ≡ some s)
found_after id j r r' s rows f e g =
    let same : r'.id ≡ id = ap (λ (x : SettlementIdentity). x.id) e ∙ find_row-id id rows r f in
    ground (arith, find_row-replace_row id j r' rows r f same)

replaced-IsAccounted :
    (db : Db) (id : Uuid) (r r' : SettlementRecord) (b : Ledgers) (events : List SettlementEvent)
    → find_row id db.rows ≡ some r
    → r'.columns ≡ r.columns
    → Balances r r' db.ledgers b
    → IsAccounted db
    → IsAccounted (record db { rows = replace_row id r' db.rows; ledgers = b; events = events })
replaced-IsAccounted db id r r' b events f e m h = record {
  global_sum = λ d.
      omega
        (arith, h.global_sum d, m.global_moved d, sum_rows-replace_row (held d) id r' db.rows r f);
  client_sum = λ d k. omega (
    arith,
    h.client_sum d k,
    m.client_moved d k,
    sum_rows-replace_row (client_held d k) id r' db.rows r f,
  );
  backed = λ j s g. elim (found_after id j r r' s db.rows f e g) [
    | inl (p, _) ↦ rw p (m.still_backed (h.backed id r f))
    | inr before ↦ λ a.
        let (x, y) = h.backed j s before a in
        (m.global_kept s.reservation_date x, m.client_kept s.reservation_date s.api_client_id y)
  ];
}

appended-IsAccounted :
    (db : Db) (n : NewSettlement) (today : Date) (b : Ledgers) (events : List SettlementEvent)
    → reserve_both n today db.ledgers ≡ some b
    → IsAccounted db
    → IsAccounted
        (record db { rows = db.rows ++ new_row n today ∷ []; ledgers = b; events = events })
appended-IsAccounted db n today b events p h =
    let m = reserve_both_claim-Reserves n today db.ledgers b p in
    record {
      global_sum = λ d. ground (
        arith,
        h.global_sum d,
        m.global_moved d,
        sum_rows-append (held d) db.rows (new_row n today),
      );
      client_sum = λ d k. ground (
        arith,
        h.client_sum d k,
        m.client_moved d k,
        sum_rows-append (client_held d k) db.rows (new_row n today),
      );
      backed = λ j s g. elim (Option-cases (find_row j db.rows)) [
        | inl missing ↦
            let e : s ≡ new_row n today =
              ground (arith, find_row-append j db.rows (new_row n today)) in
            rw e (λ _. (m.global_there, m.client_there))
        | inr (s', there) ↦
            let e : s ≡ s' = ground (arith, find_row-append j db.rows (new_row n today)) in
            rw e λ a.
              let (x, y) = h.backed j s' there a in
              (
                m.global_kept s'.reservation_date x,
                m.client_kept s'.reservation_date s'.api_client_id y,
              )
      ];
    }

-- Whatever a store operation does, afterwards the reserved amount of every day, and of every
-- client's day, is again the sum of what the active settlements hold, and every active settlement
-- has its two ledger rows.
pub Effect-IsAccounted :
    (c : Collation) (db db' : Db) → Effect c db db' → IsAccounted db → IsAccounted db'
Effect-IsAccounted c db db' (Effect.unchanged e) h = rw e h
Effect-IsAccounted c db db' (Effect.claimed n today b code v p e) h =
    rw e (appended-IsAccounted db n today b _ p h)
Effect-IsAccounted c db db' (Effect.moved id r r' b code f v m e) h =
    rw e
      (replaced-IsAccounted db id r r' b _ f (Move-columns r r' _ b m) (Move-Balances r r' _ b m) h)
Effect-IsAccounted c db db' (Effect.amended id r r' f v m e) h = rw e (
    replaced-IsAccounted db id r r' db.ledgers db.events f (Amend-columns r r' m)
      (Amend-Balances r r' db.ledgers m) h)

-- ===== src/Journal/History/Steps.antt =====
-- store.rs: the events and the rows under every step of the journal.
use x402_facilitator.Prelude.{
  ◌≡◌, refl, ap, sym, ==→eq, ◌∙◌, true, false, none, some, List, [], ◌∷◌, ◌++◌, arith, ◌==◌, any,
  Bool-cases, inl, inr,
}
use x402_facilitator.Journal.Types.{
  Uuid, SettlementState, SettlementIdentity, SettlementRecord, SettlementEvent,
}
use x402_facilitator.Journal.Ledger.{Ledgers}
use x402_facilitator.Journal.Tables.{Collation, Db, Constraint, find_row, replace_row, clashes}
use x402_facilitator.Journal.Transitions.{transition_allowed, event}
use x402_facilitator.Journal.Rows.{find_row-id, find_row-append, find_row-replace_row}
use x402_facilitator.Journal.Claim.{new_row}
use x402_facilitator.Journal.Effects.{Move, Amend, Effect}
use x402_facilitator.Journal.Exclusive.{violation-none}
use x402_facilitator.Journal.Accounting.Steps.{Move-columns, Amend-columns}
use x402_facilitator.Journal.History.{
  is_legal, last_state, last_state-append, IsHistory, state_of, IsLogged,
}

transition_allowed_legal :
    (s t : SettlementState) → transition_allowed s t ≡ true → is_legal (some s) t ≡ true
unfolding transition_allowed is_legal
transition_allowed_legal s t h = ground arith

Move-is_legal :
    (r r' : SettlementRecord) (b b' : Ledgers)
    → Move r r' b b'
    → is_legal (some r.state) r'.state ≡ true
unfolding is_legal
Move-is_legal r r' b b' (Move.relinquish code s e p) = rw (e, s)
Move-is_legal r r' b b' (Move.resume q today s e p) = rw (e, s)
Move-is_legal r r' b b' (Move.prepare x s e p) = rw (e, s)
Move-is_legal r r' b b' (Move.prepare_evm x s e p) = rw (e, s)
Move-is_legal r r' b b' (Move.submit s e p) = rw (e, s)
Move-is_legal r r' b b' (Move.finish x a e p) = rw e (transition_allowed_legal r.state x.state a)

Amend-state : (r r' : SettlementRecord) → Amend r r' → r'.state ≡ r.state
Amend-state r r' (Amend.raise minimum e) = rw e
Amend-state r r' (Amend.note e) = rw e

-- A row that is alone has a new identifier.
alone_is_new :
    (c : Collation) (n : SettlementRecord) (rows : List SettlementRecord)
    → any (clashes c Constraint.primary_key n) rows ≡ false
    → find_row n.id rows ≡ none
unfolding clashes find_row
alone_is_new c n [] h = refl
alone_is_new c n (x ∷ rows) h = ground (arith, alone_is_new c n rows)

replays_append :
    (id j : Uuid) (r r' : SettlementRecord) (rows : List SettlementRecord)
    (es : List SettlementEvent) (e : SettlementEvent)
    → find_row id rows ≡ some r
    → r'.id ≡ id
    → e.settlement_id ≡ id
    → e.to_state ≡ r'.state
    → last_state j es ≡ state_of (find_row j rows)
    → last_state j (es ++ e ∷ []) ≡ state_of (find_row j (replace_row id r' rows))
replays_append id j r r' rows es e f i k t h =
    rw (last_state-append j es e, find_row-replace_row id j r' rows r f i, k)
      (elim (Bool-cases (id == j)) [ inl hit ↦ rw (hit, t) | inr miss ↦ rw miss h ])

replays_kept :
    (id j : Uuid) (r r' : SettlementRecord) (rows : List SettlementRecord)
    → find_row id rows ≡ some r
    → r'.id ≡ id
    → r'.state ≡ r.state
    → state_of (find_row j rows) ≡ state_of (find_row j (replace_row id r' rows))
replays_kept id j r r' rows f i s = ground (arith, find_row-replace_row id j r' rows r f i)

claim_legal : is_legal none SettlementState.reserved ≡ true
unfolding is_legal
claim_legal = refl

replays_claimed :
    (j : Uuid) (new : SettlementRecord) (rows : List SettlementRecord) (es : List SettlementEvent)
    (e : SettlementEvent)
    → find_row new.id rows ≡ none
    → e.settlement_id ≡ new.id
    → e.to_state ≡ new.state
    → last_state j es ≡ state_of (find_row j rows)
    → last_state j (es ++ e ∷ []) ≡ state_of (find_row j (rows ++ new ∷ []))
replays_claimed j new rows es e f k t h = elim (Bool-cases (new.id == j)) [
  | inl hit ↦
      let q : find_row j rows ≡ none =
        ap (λ (x : Uuid). find_row x rows) (sym (==→eq new.id j hit)) ∙ f in
      ground (arith, q, last_state-append j es e, find_row-append j rows new)
  | inr miss ↦ ground (arith, h, last_state-append j es e, find_row-append j rows new)
]

-- Every step keeps the events a history along legal edges that replays to the rows.
pub Effect-IsLogged : (c : Collation) (db db' : Db) → Effect c db db' → IsLogged db → IsLogged db'
Effect-IsLogged c db db' (Effect.unchanged e) h = rw e h
Effect-IsLogged c db db' (Effect.claimed n today b code v p e) h =
    let (_, alone) = violation-none c _ db.rows v in
    let fresh : find_row n.id db.rows ≡ none =
      alone_is_new c (new_row n today) db.rows (alone Constraint.primary_key) in
    rw e (record {
      history = IsHistory.next _ h.history (rw (h.replays n.id, fresh)) claim_legal refl;
      replays = λ j.
          replays_claimed j (new_row n today) db.rows db.events _ fresh refl refl (h.replays j);
    })
Effect-IsLogged c db db' (Effect.moved id r r' b code f v m e) h =
    let same : r'.id ≡ id =
      ap (λ (x : SettlementIdentity). x.id) (Move-columns r r' _ b m)
      ∙ find_row-id id db.rows r f in
    rw e (record {
      history =
          IsHistory.next (event id r.state r'.state code) h.history (rw (h.replays id, f))
            (Move-is_legal r r' _ b m) refl;
      replays = λ j. replays_append id j r r' db.rows db.events _ f same refl refl (h.replays j);
    })
Effect-IsLogged c db db' (Effect.amended id r r' f v m e) h =
    let same : r'.id ≡ id =
      ap (λ (x : SettlementIdentity). x.id) (Amend-columns r r' m) ∙ find_row-id id db.rows r f in
    rw e (record {
      history = h.history;
      replays = λ j. h.replays j ∙ replays_kept id j r r' db.rows f same (Amend-state r r' m);
    })

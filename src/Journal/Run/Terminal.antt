-- ===== src/Journal/Run/Terminal.antt =====
-- `mark_terminal`: replays, refusals and errors.
use x402_facilitator.Prelude.{
  Bool-cases, inl, inr, ◌↔◌, ◌≡◌, refl, true, Option, none, some, arith, leb, if_cases,
  if◌then◌else◌, ◌∙◌, ◌≤◌,
}
use x402_facilitator.Journal.Types.{
  TerminalResult, SettlementRecord, TerminalJournalEntry, StoreError, Result, ok, err, is_terminal,
}
use x402_facilitator.Journal.Ledger.{Ledgers}
use x402_facilitator.Journal.Tables.{Collation, Db, find_row, Updated, update_row}
use x402_facilitator.Journal.Rows.{update_row-updated, find_row-replace_row, find_row-id}
use x402_facilitator.Journal.Transitions.{
  mark_terminal, terminal_found, terminal_released, terminal_updated, same_response, to_terminal,
  any_row, transition_allowed, wrong_state,
}

module _ (c : Collation) (e : TerminalJournalEntry) where
  -- The stored result answers the entry again.
  abbrev pub Answers : Result (Unit {0}) × Db → Type 0
  Answers x =
      x.0 ≡ ok tt
      → (r : SettlementRecord) × (find_row e.settlement_id x.1.rows ≡ some r)
        × (is_terminal r.state ≡ true)
        × (same_response r.terminal e ≡ true)

  abbrev pub Refuses : Db → Result (Unit {0}) × Db → Type 0
  Refuses db x = (s : StoreError) → x.0 ≡ err s → x.1 ≡ db

  updated-Answers :
      (db : Db) (r : SettlementRecord) (b : Ledgers) (u : Updated)
      → is_terminal e.state ≡ true
      → leb e.http_status 32767 ≡ true
      → update_row c e.settlement_id any_row (to_terminal e) db.rows ≡ u
      → Answers (terminal_updated e r b db u) × Refuses db (terminal_updated e r b db u)
  updated-Answers db r b Updated.no_row t s p = (λ h. ground arith, λ x h. refl)
  updated-Answers db r b (Updated.rejected k) t s p = (λ h. ground arith, λ x h. refl)
  updated-Answers db r b (Updated.updated rows) t s p =
      let (r', f, g, v, w) = update_row-updated c e.settlement_id _ _ db.rows p in
      let same = find_row-id e.settlement_id db.rows r' f in
      (
        λ h. (
          to_terminal e r',
          ground (
            arith,
            w,
            find_row-replace_row e.settlement_id e.settlement_id (to_terminal e r') db.rows r' f
                same,
          ),
          t,
          ground arith,
        ),
        λ x h. ground arith,
      )

  released-Answers :
      (db : Db) (r : SettlementRecord) (o : Option Ledgers)
      → is_terminal e.state ≡ true
      → Answers (terminal_released c e r db o) × Refuses db (terminal_released c e r db o)
  released-Answers db r none t = (λ h. ground arith, λ x h. refl)
  released-Answers db r (some b) t =
      if_cases (λ (x : Result (Unit {0}) × Db). Answers x × Refuses db x) (leb e.http_status 32767)
        (λ s. updated-Answers db r b _ t s refl) (λ _. (λ h. ground arith, λ x h. refl))

  found-Answers :
      (db : Db) (o : Option SettlementRecord)
      → is_terminal e.state ≡ true
      → find_row e.settlement_id db.rows ≡ o
      → Answers (terminal_found c e db o) × Refuses db (terminal_found c e db o)
  found-Answers db none t f = (λ h. ground arith, λ x h. refl)
  found-Answers db (some r) t f =
      if_cases (λ (x : Result (Unit {0}) × Db). Answers x × Refuses db x) (is_terminal r.state)
        (λ s. (λ h. (r, f, s, ground arith), λ x h. refl))
        (λ _.
          if_cases (λ (x : Result (Unit {0}) × Db). Answers x × Refuses db x)
            (transition_allowed r.state e.state) (λ _. released-Answers db r _ t)
            (λ _. (λ h. ground arith, λ x h. refl)))

  terminal-Answers : (db : Db) → Answers (mark_terminal c e db) × Refuses db (mark_terminal c e db)
  unfolding mark_terminal
  terminal-Answers db =
      if_cases (λ (x : Result (Unit {0}) × Db). Answers x × Refuses db x) (is_terminal e.state)
        (λ t. found-Answers db _ t refl) (λ _. (λ h. ground arith, λ x h. refl))

  settled_answer :
      (db : Db) (r : SettlementRecord)
      → is_terminal e.state ≡ true
      → find_row e.settlement_id db.rows ≡ some r
      → is_terminal r.state ≡ true
      → ((mark_terminal c e db).1 ≡ db)
        × ((mark_terminal c e db).0
            ≡ (if same_response r.terminal e then ok tt else wrong_state r.state e.state))
  unfolding mark_terminal
  settled_answer db r t f s = ground arith

  -- The stored response has the status and the body of the entry, whose status fits an i16.
  abbrev pub Repeats : SettlementRecord → Type 0
  Repeats r =
      (t : TerminalResult) × (r.terminal ≡ some t)
      × (t.http_status ≡ e.http_status)
      × (t.response_bytes ≡ e.response_bytes)
      × (e.http_status ≤ 32767)

  same-Repeats :
      (o : Option TerminalResult)
      → same_response o e ≡ true
      → (t : TerminalResult) × (o ≡ some t)
        × (t.http_status ≡ e.http_status)
        × (t.response_bytes ≡ e.response_bytes)
        × (e.http_status ≤ 32767)
  same-Repeats none h = absurd (ground arith)
  same-Repeats (some t) h = (t, refl, ground arith, ground arith, ground arith)

  Repeats-same : (r : SettlementRecord) → Repeats r → same_response r.terminal e ≡ true
  Repeats-same r (t, p, q, k, i) = ground arith

  -- A terminal entry for a settlement that is terminal already changes nothing. It is accepted
  -- exactly if the stored response has the entry's status, which fits an i16, and the entry's body,
  -- and is otherwise refused as a transition from the stored state.
  pub mark_terminal_settled :
      (db : Db) (r : SettlementRecord)
      → is_terminal e.state ≡ true
      → find_row e.settlement_id db.rows ≡ some r
      → is_terminal r.state ≡ true
      → ((mark_terminal c e db).1 ≡ db)
        × (((mark_terminal c e db).0 ≡ ok tt) ↔ Repeats r)
        × (¬ Repeats r → (mark_terminal c e db).0 ≡ wrong_state r.state e.state)
  mark_terminal_settled db r t f s =
      let (kept, answer) = settled_answer db r t f s in
      elim (Bool-cases (same_response r.terminal e)) [
        | inl same ↦
            let repeats = same-Repeats r.terminal same in
            (kept, (λ _. repeats, λ _. answer ∙ rw same), λ n. absurd (n repeats))
        | inr differs ↦
            let refused : (mark_terminal c e db).0 ≡ wrong_state r.state e.state =
              answer ∙ rw differs in
            (
              kept,
              (λ h. absurd (ground arith), λ p. absurd (ground (arith, Repeats-same r p))),
              λ _. refused,
            )
      ]

  -- A terminal entry that is refused leaves the database as it was.
  pub mark_terminal_refused :
      (db : Db) (x : StoreError) → (mark_terminal c e db).0 ≡ err x → (mark_terminal c e db).1 ≡ db
  mark_terminal_refused db x h = (terminal-Answers db).1 x h

  only_terminal : (db : Db) → (mark_terminal c e db).0 ≡ ok tt → is_terminal e.state ≡ true
  unfolding mark_terminal
  only_terminal db h = ground arith

  -- A terminal entry that was accepted is accepted again, without any change to the database.
  pub mark_terminal_again :
      (db : Db)
      → (mark_terminal c e db).0 ≡ ok tt
      → ((mark_terminal c e (mark_terminal c e db).1).0 ≡ ok tt)
        × ((mark_terminal c e (mark_terminal c e db).1).1 ≡ (mark_terminal c e db).1)
  mark_terminal_again db h =
      let (r, f, s, same) = (terminal-Answers db).0 h in
      let (kept, answer) = settled_answer (mark_terminal c e db).1 r (only_terminal db h) f s in
      (answer ∙ rw same, kept)

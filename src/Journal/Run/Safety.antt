-- ===== src/Journal/Run/Safety.antt =====
-- store.rs: sequences of operations from the empty database on.
use x402_facilitator.Prelude.{
  ℕ, ◌≤◌, ◌≡◌, true, false, some, List, [], ◌∷◌, arith, ◌==◌, Option-cases, inl, inr,
}
use x402_facilitator.Journal.Types.{
  Uuid, Date, ChainKind, SettlementState, is_terminal, NearSubmission, EvmSubmission,
  TerminalResult, SettlementRecord,
}
use x402_facilitator.Journal.Ledger.{reserved_of}
use x402_facilitator.Journal.Tables.{Collation, Db, find_row, satisfies_checks}
use x402_facilitator.Journal.Rows.{sum_rows}
use x402_facilitator.Journal.Accounting.{held, client_held}
use x402_facilitator.Journal.Exclusive.{IsChecked}
use x402_facilitator.Journal.Exclusive.Apart.{Apart, found-Apart}
use x402_facilitator.Journal.Lifecycle.{Keeps}
use x402_facilitator.Journal.History.{
  IsHistory, last_state, state_of, submissions, submissions-IsBounded,
}
use x402_facilitator.Journal.Run.{Op, run, empty, empty-IsSound, run-IsSound, run-Evolves, IsSound}

abbrev pub after : Collation → List Op → Db
after c ops = run c ops empty

sound : (c : Collation) (ops : List Op) → IsSound c (after c ops)
sound c ops = run-IsSound c ops empty (empty-IsSound c)

-- After any sequence of journal operations the reserved amount of each day's global ledger is the
-- sum of the reservations of the active settlements dated that day, and likewise for each client.
pub run-accounted :
    (c : Collation) (ops : List Op)
    → ((d : Date)
        → reserved_of ((after c ops).ledgers.global d) ≡ sum_rows (held d) (after c ops).rows)
      × ((d : Date) (k : Uuid)
          → reserved_of ((after c ops).ledgers.client d k)
            ≡ sum_rows (client_held d k) (after c ops).rows)
run-accounted c ops = let h = sound c ops in (h.accounted.global_sum, h.accounted.client_sum)

-- After any sequence of journal operations two settlements with different identifiers have
-- different payment hashes, anchors, payment identifiers of one client, relayer nonces of one key
-- and account nonces of one EVM signer, and no EVM signer has two active settlements.
pub run-Apart :
    (c : Collation) (ops : List Op) (i j : Uuid) (r s : SettlementRecord)
    → find_row i (after c ops).rows ≡ some r
    → find_row j (after c ops).rows ≡ some s
    → (i == j) ≡ false
    → Apart c r s
run-Apart c ops i j r s f g n =
    let h = sound c ops in found-Apart c i j (after c ops).rows r s h.consistent.0 f g n

checked :
    (c : Collation) (id : Uuid) (rows : List SettlementRecord) (r : SettlementRecord)
    → IsChecked c rows
    → find_row id rows ≡ some r
    → satisfies_checks c r ≡ true
unfolding find_row
checked c id [] r h f = ground arith
checked c id (x ∷ rows) r h f = ground (arith, checked c id rows r)

confirmed :
    (c : Collation) (r : SettlementRecord)
    → satisfies_checks c r ≡ true
    → r.chain_kind ≡ ChainKind.eip155
    → r.state ≡ SettlementState.succeeded
    → (t : TerminalResult) × (e : EvmSubmission) × (n : ℕ) × (r.terminal ≡ some t)
      × (r.evm_submission ≡ some e)
      × (t.confirmations ≡ some n)
      × (1 ≤ e.required_confirmations)
      × (e.required_confirmations ≤ n)
unfolding satisfies_checks
confirmed c r h k s = elim (Option-cases r.terminal) [
  | inl p ↦ absurd (ground arith)
  | inr (t, p) ↦ elim (Option-cases r.evm_submission) [
    | inl q ↦ absurd (ground arith)
    | inr (e, q) ↦ elim (Option-cases t.confirmations) [
      | inl w ↦ absurd (ground arith)
      | inr (n, w) ↦ (t, e, n, p, q, w, ground arith, ground arith)
    ]
  ]
]

-- After any sequence of journal operations an EVM settlement that has succeeded records a
-- confirmation depth that reaches the depth stored with its submission, which is at least one.
pub run-confirmed :
    (c : Collation) (ops : List Op) (id : Uuid) (r : SettlementRecord)
    → find_row id (after c ops).rows ≡ some r
    → r.chain_kind ≡ ChainKind.eip155
    → r.state ≡ SettlementState.succeeded
    → (t : TerminalResult) × (e : EvmSubmission) × (n : ℕ) × (r.terminal ≡ some t)
      × (r.evm_submission ≡ some e)
      × (t.confirmations ≡ some n)
      × (1 ≤ e.required_confirmations)
      × (e.required_confirmations ≤ n)
run-confirmed c ops id r f k s =
    let h = sound c ops in confirmed c r (checked c id (after c ops).rows r h.consistent.1 f) k s

-- A settlement that is terminal after some operations keeps its state and its response, whatever
-- operations follow.
pub run_final :
    (c : Collation) (ops more : List Op) (id : Uuid) (r : SettlementRecord)
    → find_row id (after c ops).rows ≡ some r
    → is_terminal r.state ≡ true
    → (r' : SettlementRecord) × (find_row id (run c more (after c ops)).rows ≡ some r')
      × (r'.state ≡ r.state)
      × (r'.terminal ≡ r.terminal)
run_final c ops more id r f t =
    let (r', g, v) = run-Evolves c more (after c ops) id r (sound c ops) f in
    let (s, p) = v.final t in (r', g, s, p)

-- A signed transaction that is stored with a settlement stays whatever operations follow: the NEAR
-- submission unchanged, and of the EVM submission the nonce, the bytes and the hash, while its
-- required depth never falls.
pub run_bytes_kept :
    (c : Collation) (ops more : List Op) (id : Uuid) (r : SettlementRecord)
    → find_row id (after c ops).rows ≡ some r
    → (r' : SettlementRecord) × (find_row id (run c more (after c ops)).rows ≡ some r')
      × ((e : NearSubmission) → r.near_submission ≡ some e → r'.near_submission ≡ some e)
      × ((e : EvmSubmission) → r.evm_submission ≡ some e → Keeps e r'.evm_submission)
run_bytes_kept c ops more id r f =
    let (r', g, v) = run-Evolves c more (after c ops) id r (sound c ops) f in
    (r', g, v.near_kept, v.evm_kept)

-- After any sequence of journal operations the events of every settlement follow the legal edges
-- of the state machine one after the other, end in the state of its row, and start at most one
-- broadcast.
pub run-IsHistory :
    (c : Collation) (ops : List Op)
    → IsHistory (after c ops).events
      × ((id : Uuid)
          → (last_state id (after c ops).events ≡ state_of (find_row id (after c ops).rows))
            × (submissions id (after c ops).events ≤ 1))
run-IsHistory c ops =
    let h = sound c ops in
    (
      h.logged.history,
      λ id.
          (h.logged.replays id, (submissions-IsBounded id (after c ops).events h.logged.history).0),
    )

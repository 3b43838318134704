-- ===== src/Journal/History.antt =====
-- The table `settlement_events` as a history of every settlement, and the legal edges of the state
-- machine.
pub mod Steps
use x402_facilitator.Prelude.{
  ℕ, suc, ◌+◌, ◌≤◌, ◌≡◌, refl, Bool, true, false, Option, none, some, List, [], ◌∷◌, ◌++◌, arith,
  ◌==◌, any, ◌||◌, if◌then◌else◌, Option-cases, Bool-cases, inl, inr, ap, ◌∙◌, ==→eq,
}
use x402_facilitator.Journal.Types.{Uuid, SettlementState, SettlementRecord, SettlementEvent}
use x402_facilitator.Journal.Tables.{Collation, Db, Constraint, find_row, replace_row, clashes}
use x402_facilitator.Journal.Transitions.{transition_allowed, event}
use x402_facilitator.Journal.Rows.{find_row-id, find_row-append, find_row-replace_row}
use x402_facilitator.Journal.Claim.{new_row}
use x402_facilitator.Journal.Effects.{Move, Amend, Effect}
use x402_facilitator.Journal.Exclusive.{violation-none}
use x402_facilitator.Journal.Accounting.Steps.{Move-columns, Amend-columns}

-- The edges of the settlement state machine; `none` is a settlement that is not there yet.
unfoldable pub is_legal : Option SettlementState → SettlementState → Bool
is_legal none SettlementState.reserved = true
is_legal (some SettlementState.reserved) SettlementState.awaiting_retry = true
is_legal (some SettlementState.reserved) SettlementState.prepared = true
is_legal (some SettlementState.reserved) SettlementState.failed = true
is_legal (some SettlementState.awaiting_retry) SettlementState.reserved = true
is_legal (some SettlementState.prepared) SettlementState.submitted = true
is_legal (some SettlementState.prepared) SettlementState.succeeded = true
is_legal (some SettlementState.prepared) SettlementState.failed = true
is_legal (some SettlementState.submitted) SettlementState.succeeded = true
is_legal (some SettlementState.submitted) SettlementState.failed = true
is_legal _ _ = false

-- The state that the events of a settlement end in.
unfoldable pub last_state : Uuid → List SettlementEvent → Option SettlementState
last_state id [] = none
last_state id (e ∷ es) = elim (last_state id es) [
  | some s ↦ some s
  | none ↦ if e.settlement_id == id then some e.to_state else none
]

-- Each event leaves the state that the earlier ones end in, along a legal edge.
pub data IsHistory : List SettlementEvent → Type 0 where
  start : IsHistory []
  next :
      {es es' : List SettlementEvent} (e : SettlementEvent)
      → IsHistory es
      → e.from_state ≡ last_state e.settlement_id es
      → is_legal e.from_state e.to_state ≡ true
      → es' ≡ es ++ e ∷ []
      → IsHistory es'

abbrev pub state_of : Option SettlementRecord → Option SettlementState
state_of none = none
state_of (some r) = some r.state

pub record IsLogged (db : Db) : Type 0 where
  pub history : IsHistory db.events
  pub replays : (id : Uuid) → last_state id db.events ≡ state_of (find_row id db.rows)

pub last_state-append :
    (id : Uuid) (es : List SettlementEvent) (e : SettlementEvent)
    → last_state id (es ++ e ∷ [])
      ≡ (if e.settlement_id == id then some e.to_state else last_state id es)
unfolding last_state
last_state-append id [] e = refl
last_state-append id (x ∷ es) e = ground (arith, last_state-append id es e)

-- Whether an event starts a broadcast.
abbrev pub starts : SettlementState → ℕ
starts SettlementState.submitted = 1
starts _ = 0

-- How often the events of a settlement start a broadcast.
unfoldable pub submissions : Uuid → List SettlementEvent → ℕ
submissions id [] = 0
submissions id (e ∷ es) =
    (if e.settlement_id == id then starts e.to_state else 0) + submissions id es

submissions-append :
    (id : Uuid) (es : List SettlementEvent) (e : SettlementEvent)
    → submissions id (es ++ e ∷ [])
      ≡ submissions id es + (if e.settlement_id == id then starts e.to_state else 0)
unfolding submissions
submissions-append id [] e = omega arith
submissions-append id (x ∷ es) e = omega (arith, submissions-append id es e)

-- A settlement in one of these states has never been submitted.
abbrev pub unsubmitted : Option SettlementState → Bool
unsubmitted none = true
unsubmitted (some SettlementState.reserved) = true
unsubmitted (some SettlementState.awaiting_retry) = true
unsubmitted (some SettlementState.prepared) = true
unsubmitted _ = false

abbrev IsBounded : Option SettlementState → ℕ → Type 0
IsBounded o n = (n ≤ 1) × (unsubmitted o ≡ true → n ≡ 0)

-- One more event keeps the bound: only a prepared settlement is submitted.
IsBounded-next :
    (o : Option SettlementState) (t : SettlementState) (n : ℕ)
    → is_legal o t ≡ true
    → IsBounded o n
    → IsBounded (some t) (n + starts t)
unfolding is_legal
IsBounded-next o t n l (b, u) = ground arith

start-IsBounded : (id : Uuid) → IsBounded (last_state id []) (submissions id [])
unfolding submissions last_state
start-IsBounded id = (omega arith, λ _. refl)

pub submissions-IsBounded :
    (id : Uuid) (es : List SettlementEvent)
    → IsHistory es
    → IsBounded (last_state id es) (submissions id es)
submissions-IsBounded id es' IsHistory.start = start-IsBounded id
submissions-IsBounded id es' (IsHistory.next {es = es} e h f l p) =
    rw (p, last_state-append id es e, submissions-append id es e)
      (elim (Bool-cases (e.settlement_id == id)) [
        | inl hit ↦
            let same : e.from_state ≡ last_state id es =
              f ∙ ap (λ (x : Uuid). last_state x es) (==→eq e.settlement_id id hit) in
            rw hit (
              IsBounded-next (last_state id es) e.to_state (submissions id es) (rw same at l)
                (submissions-IsBounded id es h))
        | inr miss ↦ ground (arith, submissions-IsBounded id es h)
      ])

-- ===== src/Service/Readiness.antt =====
-- leadership.rs: `ReadinessState`, five gates that start unknown and fail closed.
use x402_facilitator.Prelude.{
  ℕ, ◌≡◌, refl, Bool, true, false, Option, none, some, List, [], ◌∷◌, arith, ◌&&◌, ◌==◌,
  if◌then◌else◌,
}

pub data ReadinessGate : Type 0 where
  database leadership reconciliation rpc relayer : ReadinessGate

pub data ReadinessGateState : Type 0 where
  ready not_ready : ReadinessGateState

abbrev pub from_ready : Bool → ReadinessGateState
from_ready true = ReadinessGateState.ready
from_ready false = ReadinessGateState.not_ready

-- UNKNOWN is 0, NOT_READY is 1 and READY is 2.
unfoldable pub from_atomic : ℕ → Option ReadinessGateState
from_atomic value =
    if value == 1
    then some ReadinessGateState.not_ready
    else (if value == 2 then some ReadinessGateState.ready else none)

abbrev pub as_atomic : ReadinessGateState → ℕ
as_atomic ReadinessGateState.ready = 2
as_atomic ReadinessGateState.not_ready = 1

-- `ReadinessInner`, the u8 in each atomic.
pub record ReadinessState : Type 0 where
  pub database : ℕ
  pub leadership : ℕ
  pub reconciliation : ℕ
  pub rpc : ℕ
  pub relayer : ℕ

abbrev pub unobserved : ReadinessState
unobserved = record { database = 0; leadership = 0; reconciliation = 0; rpc = 0; relayer = 0 }

pub record ReadinessTransition : Type 0 where
  pub gate : ReadinessGate
  pub state : ReadinessGateState

abbrev pub same_state : Option ReadinessGateState → ReadinessGateState → Bool
same_state none s = false
same_state (some ReadinessGateState.ready) ReadinessGateState.ready = true
same_state (some ReadinessGateState.not_ready) ReadinessGateState.not_ready = true
same_state (some _) _ = false

unfoldable pub observed : ReadinessGate → ℕ → Bool → Option ReadinessTransition
unfolding from_atomic
observed gate previous up =
    if same_state (from_atomic previous) (from_ready up)
    then none
    else some (record { gate = gate; state = from_ready up })

abbrev pub gate_value : ReadinessGate → ReadinessState → ℕ
gate_value ReadinessGate.database r = r.database
gate_value ReadinessGate.leadership r = r.leadership
gate_value ReadinessGate.reconciliation r = r.reconciliation
gate_value ReadinessGate.rpc r = r.rpc
gate_value ReadinessGate.relayer r = r.relayer

abbrev pub store_gate : ReadinessGate → ℕ → ReadinessState → ReadinessState
store_gate ReadinessGate.database v r = record r { database = v }
store_gate ReadinessGate.leadership v r = record r { leadership = v }
store_gate ReadinessGate.reconciliation v r = record r { reconciliation = v }
store_gate ReadinessGate.rpc v r = record r { rpc = v }
store_gate ReadinessGate.relayer v r = record r { relayer = v }

-- The swap returns the previous value, by which the transition is emitted.
unfoldable pub set_gate :
    ReadinessGate → Bool → ReadinessState → Option ReadinessTransition × ReadinessState
unfolding observed
set_gate gate up r =
    (observed gate (gate_value gate r) up, store_gate gate (as_atomic (from_ready up)) r)

abbrev pub set_reconciliation : Bool → ReadinessState → ReadinessState
set_reconciliation up r = (set_gate ReadinessGate.reconciliation up r).1

-- Lost leadership takes the reconciliation with it.
unfoldable pub set_leadership : Bool → ReadinessState → ReadinessState
unfolding set_gate
set_leadership up r =
    let s = (set_gate ReadinessGate.leadership up r).1 in
    let t = set_reconciliation false s in if up then s else t

abbrev pub set_database : Bool → ReadinessState → ReadinessState
set_database up r = (set_gate ReadinessGate.database up r).1

abbrev pub set_rpc : Bool → ReadinessState → ReadinessState
set_rpc up r = (set_gate ReadinessGate.rpc up r).1

abbrev pub set_relayer : Bool → ReadinessState → ReadinessState
set_relayer up r = (set_gate ReadinessGate.relayer up r).1

unfoldable pub atomic_gate_ready : ℕ → Bool
unfolding from_atomic
atomic_gate_ready value = same_state (from_atomic value) ReadinessGateState.ready

pub record ReadinessSnapshot : Type 0 where
  pub leadership : Bool
  pub reconciliation : Bool
  pub rpc : Bool
  pub relayer : Bool

abbrev pub snapshot : ReadinessState → ReadinessSnapshot
snapshot r = record {
  leadership = atomic_gate_ready r.leadership;
  reconciliation = atomic_gate_ready r.reconciliation;
  rpc = atomic_gate_ready r.rpc;
  relayer = atomic_gate_ready r.relayer;
}

unfoldable pub can_settle : ReadinessState → Bool
unfolding atomic_gate_ready
can_settle r = let s = snapshot r in s.leadership && (s.reconciliation && (s.rpc && s.relayer))

-- One call of a setter.
pub data GateCall : Type 0 where
  call : ReadinessGate → Bool → GateCall

unfoldable pub call_gate : GateCall → ReadinessState → ReadinessState
unfolding set_gate set_leadership
call_gate (GateCall.call ReadinessGate.leadership up) r = set_leadership up r
call_gate (GateCall.call gate up) r = (set_gate gate up r).1

unfoldable pub call_gates : List GateCall → ReadinessState → ReadinessState
call_gates [] r = r
call_gates (g ∷ gs) r = call_gates gs (call_gate g r)

-- The call does not report a finished reconciliation.
abbrev pub reports_reconciled : GateCall → Bool
reports_reconciled (GateCall.call ReadinessGate.reconciliation true) = true
reports_reconciled _ = false

abbrev pub none_reconciled : List GateCall → Bool
none_reconciled [] = true
none_reconciled (g ∷ gs) = elim (reports_reconciled g) [ true ↦ false | false ↦ none_reconciled gs ]

stays_unreconciled :
    (gs : List GateCall) (r : ReadinessState)
    → none_reconciled gs ≡ true
    → atomic_gate_ready r.reconciliation ≡ false
    → atomic_gate_ready (call_gates gs r).reconciliation ≡ false
unfolding call_gates call_gate atomic_gate_ready
stays_unreconciled [] r h n = n
stays_unreconciled (GateCall.call ReadinessGate.database b ∷ gs) r h n = stays_unreconciled gs _ h n
stays_unreconciled (GateCall.call ReadinessGate.leadership true ∷ gs) r h n =
    stays_unreconciled gs _ h n
stays_unreconciled (GateCall.call ReadinessGate.leadership false ∷ gs) r h n =
    stays_unreconciled gs _ h refl
stays_unreconciled (GateCall.call ReadinessGate.reconciliation true ∷ gs) r h n =
    absurd (ground (arith, h))
stays_unreconciled (GateCall.call ReadinessGate.reconciliation false ∷ gs) r h n =
    stays_unreconciled gs _ h refl
stays_unreconciled (GateCall.call ReadinessGate.rpc b ∷ gs) r h n = stays_unreconciled gs _ h n
stays_unreconciled (GateCall.call ReadinessGate.relayer b ∷ gs) r h n = stays_unreconciled gs _ h n

-- Once leadership is lost, no settlement may proceed until a reconciliation is reported finished,
-- whatever else the gates are set to, leadership included.
pub set_leadership-can_settle :
    (gs : List GateCall) (r : ReadinessState)
    → none_reconciled gs ≡ true
    → can_settle (call_gates gs (set_leadership false r)) ≡ false
unfolding can_settle set_leadership
set_leadership-can_settle gs r h =
    let n = stays_unreconciled gs (set_leadership false r) h refl in ground (arith, n)

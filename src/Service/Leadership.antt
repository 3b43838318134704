-- ===== src/Service/Leadership.antt =====
-- leadership.rs: `run_leadership` and `hold_leadership`, as a machine over what the connection and
-- the shutdown channel report. Delays are milliseconds.
use mathlib.Core.Path.{subst, sym}
use x402_facilitator.Prelude.{
  ap, ◌∙◌, ◌&&◌, ◌≢◌, ℕ, ◌*◌, ◌≤◌, ◌≡◌, refl, Bool, true, false, List, [], ◌∷◌, arith, min,
}
use x402_facilitator.Service.Readiness.{ReadinessState, set_leadership, atomic_gate_ready}

pub data Phase : Type 0 where
  -- about to connect, in `hold_leadership`, after the shutdown
  trying holding stopped : Phase

pub record Leader : Type 0 where
  pub phase : Phase
  pub retry : ℕ
  pub readiness : ReadinessState

-- While trying: the connection fails, the query fails, another process has the lock, or the lock is
-- acquired. While holding: the heartbeat succeeds or fails. At any time: the shutdown.
pub data LeadershipEvent : Type 0 where
  connection_failed lock_failed not_acquired acquired : LeadershipEvent
  heartbeat heartbeat_failed shutdown : LeadershipEvent

abbrev pub longer : ℕ → ℕ
longer retry = min (retry * 2) 5000

abbrev pub begin_try : Leader → Leader
begin_try l = record l { phase = Phase.trying; readiness = set_leadership false l.readiness }

abbrev pub stop : Leader → Leader
stop l = record l { phase = Phase.stopped; readiness = set_leadership false l.readiness }

abbrev pub try_event : LeadershipEvent → Leader → Leader
try_event LeadershipEvent.connection_failed l = begin_try (record l { retry = longer l.retry })
try_event LeadershipEvent.lock_failed l = begin_try (record l { retry = longer l.retry })
try_event LeadershipEvent.not_acquired l = begin_try l
try_event LeadershipEvent.acquired l = record l {
  phase = Phase.holding;
  retry = 250;
  readiness = set_leadership true l.readiness;
}
try_event LeadershipEvent.heartbeat l = l
try_event LeadershipEvent.heartbeat_failed l = l
try_event LeadershipEvent.shutdown l = stop l

abbrev pub hold_event : LeadershipEvent → Leader → Leader
hold_event LeadershipEvent.heartbeat_failed l = begin_try l
hold_event LeadershipEvent.shutdown l = stop l
hold_event _ l = l

abbrev pub step_in : Phase → LeadershipEvent → Leader → Leader
step_in Phase.trying e l = try_event e l
step_in Phase.holding e l = hold_event e l
step_in Phase.stopped e l = l

unfoldable pub step : LeadershipEvent → Leader → Leader
step e l = step_in l.phase e l

unfoldable pub run_leadership : List LeadershipEvent → Leader → Leader
unfolding step
run_leadership [] l = l
run_leadership (e ∷ es) l = run_leadership es (step e l)

abbrev pub started : ReadinessState → Leader
started r = record { phase = Phase.trying; retry = 250; readiness = set_leadership false r }

-- What the answers of the database say of the advisory lock, without a look at the loop: an
-- acquisition takes it, and a failed heartbeat loses it.
abbrev pub lock_reported : Bool → List LeadershipEvent → Bool
lock_reported b [] = b
lock_reported b (LeadershipEvent.acquired ∷ es) = lock_reported true es
lock_reported b (LeadershipEvent.heartbeat_failed ∷ es) = lock_reported false es
lock_reported b (_ ∷ es) = lock_reported b es

abbrev pub no_shutdown : List LeadershipEvent → Bool
no_shutdown [] = true
no_shutdown (LeadershipEvent.shutdown ∷ es) = false
no_shutdown (_ ∷ es) = no_shutdown es

-- The gate is open exactly if the answers say that the lock is held and nothing was shut down, and
-- the delay is bounded.
abbrev pub IsFenced : List LeadershipEvent → Leader → Type 0
IsFenced es l =
    (atomic_gate_ready l.readiness.leadership ≡ (no_shutdown es && lock_reported false es))
    × (250 ≤ l.retry)
    × (l.retry ≤ 5000)

-- The loop stands where the answers say: b is the lock so far.
abbrev IsAt : Phase → Bool → Leader → Type 0
IsAt p b l =
    (l.phase ≡ p)
    × (atomic_gate_ready l.readiness.leadership ≡ b)
    × (250 ≤ l.retry)
    × (l.retry ≤ 5000)

-- What the loop ends with, after a lock that was reported as b.
abbrev Ends : Bool → List LeadershipEvent → Leader → Type 0
Ends b es l =
    (atomic_gate_ready l.readiness.leadership ≡ (no_shutdown es && lock_reported b es))
    × (250 ≤ l.retry)
    × (l.retry ≤ 5000)

stopped_stays :
    (es : List LeadershipEvent) (l : Leader) → l.phase ≡ Phase.stopped → run_leadership es l ≡ l
unfolding run_leadership
stopped_stays [] l p = refl
stopped_stays (e ∷ es) l p =
    let here : step_in l.phase e l ≡ l = ap (λ (x : Phase). step_in x e l) p in
    ap (run_leadership es) here ∙ stopped_stays es l p

stop-Ends :
    (b : Bool) (es : List LeadershipEvent) (l : Leader)
    → 250 ≤ l.retry
    → l.retry ≤ 5000
    → Ends b (LeadershipEvent.shutdown ∷ es) (run_leadership es (stop l))
unfolding set_leadership atomic_gate_ready
stop-Ends b es l m n =
    subst (Ends b (LeadershipEvent.shutdown ∷ es)) (sym (stopped_stays es (stop l) refl))
      (refl, m, n)

unfolded :
    (e : LeadershipEvent) (es : List LeadershipEvent) (p : Phase) (l : Leader)
    → l.phase ≡ p
    → run_leadership (e ∷ es) l ≡ run_leadership es (step_in p e l)
unfolding run_leadership
unfolded e es p l q = ap (λ (x : Phase). run_leadership es (step_in x e l)) q

abbrev at_phase : Phase → Bool
at_phase Phase.holding = true
at_phase _ = false

-- One event, where the later events end as they should.
step-Ends :
    (es : List LeadershipEvent) (l : Leader)
    → ((p : Phase) (x : Leader)
        → p ≢ Phase.stopped
        → IsAt p (at_phase p) x
        → Ends (at_phase p) es (run_leadership es x))
    → (x : LeadershipEvent) (q : Phase) → q ≢ Phase.stopped
    → l.phase ≡ q
    → atomic_gate_ready l.readiness.leadership ≡ at_phase q
    → 250 ≤ l.retry
    → l.retry ≤ 5000
    → Ends (at_phase q) (x ∷ es) (run_leadership es (step_in q x l))
unfolding set_leadership atomic_gate_ready
step-Ends es l ih x Phase.stopped n a b m k = absurd (n refl)
step-Ends es l ih LeadershipEvent.shutdown Phase.trying n a b m k = stop-Ends false es l m k
step-Ends es l ih LeadershipEvent.shutdown Phase.holding n a b m k = stop-Ends true es l m k
step-Ends es l ih LeadershipEvent.connection_failed Phase.trying n a b m k =
    ih Phase.trying _ n (refl, refl, omega arith, omega arith)
step-Ends es l ih LeadershipEvent.lock_failed Phase.trying n a b m k =
    ih Phase.trying _ n (refl, refl, omega arith, omega arith)
step-Ends es l ih LeadershipEvent.not_acquired Phase.trying n a b m k =
    ih Phase.trying _ n (refl, refl, m, k)
step-Ends es l ih LeadershipEvent.acquired Phase.trying n a b m k =
    ih Phase.holding _ (λ q. absurd (ground arith)) (refl, refl, omega arith, omega arith)
step-Ends es l ih LeadershipEvent.heartbeat Phase.trying n a b m k =
    ih Phase.trying l n (a, b, m, k)
step-Ends es l ih LeadershipEvent.heartbeat_failed Phase.trying n a b m k =
    ih Phase.trying l n (a, b, m, k)
step-Ends es l ih LeadershipEvent.heartbeat_failed Phase.holding n a b m k =
    ih Phase.trying _ (λ q. absurd (ground arith)) (refl, refl, m, k)
step-Ends es l ih LeadershipEvent.connection_failed Phase.holding n a b m k =
    ih Phase.holding l n (a, b, m, k)
step-Ends es l ih LeadershipEvent.lock_failed Phase.holding n a b m k =
    ih Phase.holding l n (a, b, m, k)
step-Ends es l ih LeadershipEvent.not_acquired Phase.holding n a b m k =
    ih Phase.holding l n (a, b, m, k)
step-Ends es l ih LeadershipEvent.acquired Phase.holding n a b m k =
    ih Phase.holding l n (a, b, m, k)
step-Ends es l ih LeadershipEvent.heartbeat Phase.holding n a b m k =
    ih Phase.holding l n (a, b, m, k)

run-Ends :
    (es : List LeadershipEvent) (p : Phase) (l : Leader)
    → p ≢ Phase.stopped
    → IsAt p (at_phase p) l
    → Ends (at_phase p) es (run_leadership es l)
unfolding run_leadership
run-Ends [] p l n (a, b, m, k) = (b, m, k)
run-Ends (e ∷ es) p l n (a, b, m, k) =
    subst (Ends (at_phase p) (e ∷ es)) (sym (unfolded e es p l a))
      (step-Ends es l (run-Ends es) e p n a b m k)

-- Whatever the connection reports, the leadership gate is open exactly if the lock was acquired, no
-- heartbeat has failed since the last acquisition and nothing was shut down, and the delay before
-- another attempt stays between 250 milliseconds and 5 seconds.
pub run_leadership-IsFenced :
    (es : List LeadershipEvent) (r : ReadinessState) → IsFenced es (run_leadership es (started r))
unfolding set_leadership atomic_gate_ready
run_leadership-IsFenced es r =
    run-Ends es Phase.trying (started r) (λ q. absurd (ground arith))
      (refl, refl, omega arith, omega arith)

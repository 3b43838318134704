-- ===== src/Journal/Lifecycle.antt =====
-- How one row may develop: what is written once and never replaced, and what only grows.
pub mod Steps
use x402_facilitator.Prelude.{◌≤◌, ◌≡◌, refl, ◌∙◌, Bool, true, false, Option, none, some, arith}
use x402_facilitator.Journal.Types.{
  SettlementState, is_terminal, NearSubmission, EvmSubmission, SettlementRecord,
}
use x402_facilitator.Journal.Transitions.{transition_allowed, to_terminal}
use x402_facilitator.Journal.Effects.{Move, Amend}

-- A signed transaction may exist from here on.
abbrev pub is_sent : SettlementState → Bool
is_sent SettlementState.reserved = false
is_sent SettlementState.awaiting_retry = false
is_sent _ = true

-- A broadcast may have started from here on.
abbrev pub is_started : SettlementState → Bool
is_started SettlementState.submitted = true
is_started SettlementState.succeeded = true
is_started SettlementState.failed = true
is_started _ = false

-- Before the preparation no submission is stored.
abbrev pub IsClean : SettlementRecord → Type 0
IsClean r = is_sent r.state ≡ false → (r.near_submission ≡ none) × (r.evm_submission ≡ none)

-- The signed bytes, the hash and the nonce of an EVM submission stay; its depth may only grow.
abbrev pub Keeps : EvmSubmission → Option EvmSubmission → Type 0
Keeps e none = ⊥
Keeps e (some e') =
    (e'.signer_account_nonce ≡ e.signer_account_nonce)
    × (e'.submitted_tx_rlp ≡ e.submitted_tx_rlp)
    × (e'.submitted_tx_hash ≡ e.submitted_tx_hash)
    × (e.required_confirmations ≤ e'.required_confirmations)

pub record Evolves (r r' : SettlementRecord) : Type 0 where
  pub identity : r'.columns ≡ r.columns
  pub final : is_terminal r.state ≡ true → (r'.state ≡ r.state) × (r'.terminal ≡ r.terminal)
  pub sent : is_sent r.state ≡ true → is_sent r'.state ≡ true
  pub started : is_started r.state ≡ true → is_started r'.state ≡ true
  pub near_kept : (e : NearSubmission) → r.near_submission ≡ some e → r'.near_submission ≡ some e
  pub evm_kept : (e : EvmSubmission) → r.evm_submission ≡ some e → Keeps e r'.evm_submission
  pub attempts : r.attempt_count ≤ r'.attempt_count

Keeps-refl : (e : EvmSubmission) (o : Option EvmSubmission) → o ≡ some e → Keeps e o
Keeps-refl e none h = ground arith
Keeps-refl e (some e') h = ground arith

Keeps-trans :
    (e : EvmSubmission) (o o' : Option EvmSubmission)
    → Keeps e o
    → ((x : EvmSubmission) → o ≡ some x → Keeps x o')
    → Keeps e o'
Keeps-trans e none o' h k = absurd h
Keeps-trans e (some x) none h k = absurd (k x refl)
Keeps-trans e (some x) (some y) h k = ground (arith, k x refl)

pub Evolves-refl : (r : SettlementRecord) → Evolves r r
Evolves-refl r = record {
  identity = refl;
  final = λ _. (refl, refl);
  sent = λ h. h;
  started = λ h. h;
  near_kept = λ e h. h;
  evm_kept = λ e h. Keeps-refl e r.evm_submission h;
  attempts = omega arith;
}

pub Evolves-trans : (r s t : SettlementRecord) → Evolves r s → Evolves s t → Evolves r t
unfolding is_terminal
Evolves-trans r s t p q = record {
  identity = q.identity ∙ p.identity;
  final = λ h. let (a, b) = p.final h in let (x, y) = q.final (rw a h) in (x ∙ a, y ∙ b);
  sent = λ h. q.sent (p.sent h);
  started = λ h. q.started (p.started h);
  near_kept = λ e h. q.near_kept e (p.near_kept e h);
  evm_kept = λ e h. Keeps-trans e s.evm_submission t.evm_submission (p.evm_kept e h) q.evm_kept;
  attempts = omega (arith, p.attempts, q.attempts);
}

transition_allowed_sent :
    (s t : SettlementState)
    → transition_allowed s t ≡ true
    → (is_terminal s ≡ false) × (is_sent t ≡ true) × (is_started t ≡ true)
unfolding transition_allowed is_terminal
transition_allowed_sent s t h = ground arith

-- A move by which no submission is touched.
plain :
    (r r' : SettlementRecord)
    → r'.columns ≡ r.columns
    → is_terminal r.state ≡ false
    → (is_sent r.state ≡ true → is_sent r'.state ≡ true)
    → (is_started r.state ≡ true → is_started r'.state ≡ true)
    → r'.near_submission ≡ r.near_submission
    → r'.evm_submission ≡ r.evm_submission
    → r.attempt_count ≤ r'.attempt_count
    → Evolves r r'
plain r r' i f s t n e a = record {
  identity = i;
  final = λ h. absurd (ground arith);
  sent = s;
  started = t;
  near_kept = λ x h. n ∙ h;
  evm_kept = λ x h. Keeps-refl x r'.evm_submission (e ∙ h);
  attempts = a;
}

pub Move-Evolves :
    (r r' : SettlementRecord) {b b' : _} → IsClean r → Move r r' b b' → Evolves r r' × IsClean r'
unfolding is_terminal
Move-Evolves r r' k (Move.relinquish code s e p) =
    rw e
      (plain r _ refl (rw s) (rw s (λ h. h)) (rw s (λ h. h)) refl refl (omega arith), λ _. k (rw s))
Move-Evolves r r' k (Move.resume q today s e p) =
    rw e
      (plain r _ refl (rw s) (rw s (λ h. h)) (rw s (λ h. h)) refl refl (omega arith), λ _. k (rw s))
Move-Evolves r r' k (Move.prepare x s e p) =
    let (n, m) = k (rw s) in
    rw e (
      record {
        identity = refl;
        final = λ h. absurd (ground arith);
        sent = λ h. refl;
        started = λ h. absurd (ground arith);
        near_kept = λ y h. absurd (ground arith);
        evm_kept = λ y h. Keeps-refl y r.evm_submission h;
        attempts = omega arith;
      },
      λ h. absurd (ground arith),
    )
Move-Evolves r r' k (Move.prepare_evm x s e p) =
    let (n, m) = k (rw s) in
    rw e (
      record {
        identity = refl;
        final = λ h. absurd (ground arith);
        sent = λ h. refl;
        started = λ h. absurd (ground arith);
        near_kept = λ y h. h;
        evm_kept = λ y h. absurd (ground arith);
        attempts = omega arith;
      },
      λ h. absurd (ground arith),
    )
Move-Evolves r r' k (Move.submit s e p) = rw e (
  plain r _ refl (rw s) (λ h. refl) (λ h. refl) refl refl (omega arith),
  λ h. absurd (ground arith),
)
Move-Evolves r r' k (Move.finish x a e p) =
    let (t, u, v) = transition_allowed_sent r.state x.state a in
    rw e (
      plain r (to_terminal x r) refl t (λ h. u) (λ h. v) refl refl (omega arith),
      λ h. absurd (ground arith),
    )

pub Amend-Evolves : (r r' : SettlementRecord) → IsClean r → Amend r r' → Evolves r r' × IsClean r'
Amend-Evolves r r' k (Amend.note e) = rw e (
  record {
    identity = refl;
    final = λ h. (refl, refl);
    sent = λ h. h;
    started = λ h. h;
    near_kept = λ y h. h;
    evm_kept = λ y h. Keeps-refl y r.evm_submission h;
    attempts = omega arith;
  },
  k,
)
Amend-Evolves r r' k (Amend.raise minimum e) = rw e (
  record {
    identity = refl;
    final = λ h. (refl, refl);
    sent = λ h. h;
    started = λ h. h;
    near_kept = λ y h. h;
    evm_kept = λ y h. rw h (refl, refl, refl, omega arith);
    attempts = omega arith;
  },
  λ h. ground (arith, k h),
)

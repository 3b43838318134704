-- ===== src/Retry.antt =====
-- crates/x402-near-facilitator/src/retry.rs, `retry_while_transient`, and its twin
-- `retry_transient` in crates/x402-chain-eip155-provider/src/provider.rs. `call k` is what the
-- attempt number k answers; the sleeps between attempts are left out.
use x402_facilitator.Prelude.{
  ℕ, suc, ◌+◌, ◌≤◌, ◌<◌, ◌≡◌, refl, Bool, true, false, List, [], ◌∷◌, Outcome, ok, err, length,
  arith, Bool-cases, inl, ◌==◌, ==→eq, inr,
}

-- The backoff in milliseconds before each further attempt.
abbrev pub rpc_retry_delays : List ℕ
rpc_retry_delays = 300 ∷ 900 ∷ []

-- An answer that is not transient stands.
abbrev pub next_attempt {ℓ} : {T : Type ℓ} → Bool → T → T → T
next_attempt true answer later = later
next_attempt false answer later = answer

module _ {ℓ} {T : Type ℓ} (call : ℕ → T) (transient : T → Bool) where
  -- The loop over the delays, after attempt k has answered.
  unfoldable pub retry_loop : List ℕ → ℕ → T
  retry_loop [] k = call k
  retry_loop (d ∷ delays) k = elim (transient (call k)) [
    | false ↦ call k
    | true ↦ retry_loop delays (suc k)
  ]

  unfoldable pub retry_while_transient : T
  unfolding retry_loop
  retry_while_transient = retry_loop rpc_retry_delays 0

  -- The attempt whose answer the loop returns: every earlier one was transient, and it is itself
  -- transient only if it is the last one.
  abbrev pub IsAnswerOf : List ℕ → ℕ → T → Type ℓ
  IsAnswerOf delays k answer =
      (j : ℕ) × (k ≤ j)
      × (j ≤ k + length delays)
      × (answer ≡ call j)
      × ((i : ℕ) → k ≤ i → i < j → transient (call i) ≡ true)
      × (transient (call j) ≡ true → j ≡ k + length delays)

  retry_loop-IsAnswerOf : (delays : List ℕ) (k : ℕ) → IsAnswerOf delays k (retry_loop delays k)
  unfolding retry_loop
  retry_loop-IsAnswerOf [] k =
      (k, omega arith, omega arith, refl, (λ i a b. absurd (omega arith)), λ h. omega arith)
  retry_loop-IsAnswerOf (d ∷ delays) k = elim (Bool-cases (transient (call k))) [
    | inl again ↦
        let (j, a, b, e, before, last) = retry_loop-IsAnswerOf delays (suc k) in
        (
          j,
          omega (arith, a),
          omega (arith, b),
          ground (arith, again, e),
          (λ i l m. elim (Bool-cases (i == k)) [
            | inl h ↦ ground (arith, again, ==→eq i k h)
            | inr h ↦ before i (ground (arith, h)) m
          ]),
          λ h. omega (arith, last h),
        )
    | inr done ↦ (
      k,
      omega arith,
      omega arith,
      ground (arith, done),
      (λ i a b. absurd (omega arith)),
      λ h. absurd (ground arith),
    )
  ]

  -- A retried read returns the answer of one of at most three attempts: every attempt before it was
  -- transient, and it is transient itself only if it is the third.
  pub retry_while_transient-IsAnswerOf : IsAnswerOf rpc_retry_delays 0 retry_while_transient
  unfolding retry_while_transient
  retry_while_transient-IsAnswerOf = retry_loop-IsAnswerOf rpc_retry_delays 0

-- `retry_transient`, whose predicate reads the error only.
abbrev pub transient_error {ℓ κ} : {E : Type κ} {A : Type ℓ} → (E → Bool) → Outcome E A → Bool
transient_error transient (ok a) = false
transient_error transient (err e) = transient e

abbrev pub retry_transient {ℓ κ} :
    {E : Type κ} {A : Type ℓ} → (ℕ → Outcome E A) → (E → Bool) → Outcome E A
retry_transient call transient = retry_while_transient call (transient_error transient)

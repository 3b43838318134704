-- ===== src/Service/Settle/Quiet.antt =====
-- service.rs: the steps of `settle_inner` that neither claim a settlement nor spawn a worker.
use x402_facilitator.Journal.Types.{
  ClaimOutcome, SettlementRecord, Uuid, Hash, state_eq, SettlementState, is_terminal,
}
use x402_facilitator.Journal.Tables.{Collation, find_row}
use x402_facilitator.Service.Settle.{
  Desk, SettleEnv, desk_at, Reply, Client, wait_for_terminal, Waited, prior_outcome, RequestMeta,
  prior_existing, poll, refuse_unless_prior, prior_settlement_response, or_reply, has_ended,
}
use x402_facilitator.Prelude.{
  ℕ, zero, suc, ◌+◌, ◌≡◌, refl, ◌∙◌, Option, none, some, arith, if_cases,
}

-- No claim was made and no worker was spawned.
abbrev pub IsQuiet : Desk → Desk → Type 0
IsQuiet d d' = (d'.claims ≡ d.claims) × (d'.spawned ≡ d.spawned)

pub IsQuiet-trans : (a b d : Desk) → IsQuiet a b → IsQuiet b d → IsQuiet a d
IsQuiet-trans a b d h k = (k.0 ∙ h.0, k.1 ∙ h.1)

module _ (c : Collation) (e : SettleEnv) where
  pub desk_at-IsQuiet : (k : ℕ) (d : Desk) → IsQuiet d (desk_at c e k d)
  unfolding desk_at
  desk_at-IsQuiet k d = (refl, refl)

  poll-IsQuiet :
      (o : Option SettlementRecord) (d d' : Desk) (rest : Waited × Desk)
      → IsQuiet d d'
      → IsQuiet d rest.1
      → IsQuiet d (poll c e o d' rest).1
  poll-IsQuiet none d d' rest h r = h
  poll-IsQuiet (some x) d d' rest h r =
      if_cases (λ (y : Waited × Desk). IsQuiet d y.1) (has_ended c e x) (λ _. h) (λ _. r)

  pub wait-IsQuiet : (n k : ℕ) (id : Uuid) (d : Desk) → IsQuiet d (wait_for_terminal c e n k id d).1
  unfolding wait_for_terminal
  wait-IsQuiet zero k id d = (refl, refl)
  wait-IsQuiet (suc n) k id d =
      let here = desk_at-IsQuiet k d in
      if_cases (λ (y : Waited × Desk). IsQuiet d y.1) (e.fails k) (λ _. here)
        (λ _. poll-IsQuiet (find_row id (desk_at c e k d).db.rows) d (desk_at c e k d) _ here (
          IsQuiet-trans d (desk_at c e k d) (wait_for_terminal c e n (k + 1) id (desk_at c e k d)).1
            here (wait-IsQuiet n (k + 1) id (desk_at c e k d))))

  -- Nothing is answered only where the journal was read, and nothing else happened.
  abbrev pub IsPrior : Desk → Desk → Option Reply × Desk → Type 0
  IsPrior d d' (o, x) = IsQuiet d x × (o ≡ none → x ≡ d')

  existing-IsPrior :
      (k : ℕ) (r : SettlementRecord) (d d' : Desk)
      → IsQuiet d d'
      → IsPrior d d' (prior_existing c e k r d')
  existing-IsPrior k r d d' h =
      if_cases (IsPrior d d') (state_eq r.state SettlementState.awaiting_retry)
        (λ _. (h, λ n. refl))
        (λ _.
          if_cases (IsPrior d d') (is_terminal r.state) (λ _. (h, λ n. absurd (ground arith)))
            (λ _. (
              IsQuiet-trans d d' (wait_for_terminal c e e.polls (k + 1) r.id d').1 h
                  (wait-IsQuiet e.polls (k + 1) r.id d'),
              λ n. absurd (ground arith),
            )))

  outcome-IsPrior :
      (k : ℕ) (o : Option ClaimOutcome) (d d' : Desk)
      → IsQuiet d d'
      → IsPrior d d' (prior_outcome c e k o d')
  outcome-IsPrior k none d d' h = (h, λ n. refl)
  outcome-IsPrior k (some (ClaimOutcome.existing r)) d d' h = existing-IsPrior k r d d' h
  outcome-IsPrior k (some ClaimOutcome.identifier_conflict) d d' h = (h, λ n. absurd (ground arith))
  outcome-IsPrior k (some ClaimOutcome.duplicate_settlement) d d' h =
      (h, λ n. absurd (ground arith))
  outcome-IsPrior k (some (ClaimOutcome.new r)) d d' h = (h, λ n. absurd (ground arith))
  outcome-IsPrior k (some ClaimOutcome.settlement_busy) d d' h = (h, λ n. absurd (ground arith))
  outcome-IsPrior k (some ClaimOutcome.budget_exceeded) d d' h = (h, λ n. absurd (ground arith))

  module _ (client : Client) (m : RequestMeta) (hash fingerprint : Hash) where
    pub first_read-IsPrior :
        (k : ℕ) (d : Desk)
        → IsPrior d (desk_at c e k d) (prior_settlement_response c e k client m hash fingerprint d)
    unfolding prior_settlement_response
    first_read-IsPrior k d =
        let here = desk_at-IsQuiet k d in
        if_cases (IsPrior d (desk_at c e k d)) (e.fails k) (λ _. (here, λ n. absurd (ground arith)))
          (λ _. outcome-IsPrior k _ d (desk_at c e k d) here)

    or_reply-IsQuiet :
        (r : Reply) (d : Desk) (x : Option Reply × Desk)
        → IsQuiet d x.1
        → IsQuiet d (or_reply c e r x).1
    or_reply-IsQuiet r d (none, y) h = h
    or_reply-IsQuiet r d (some p, y) h = h

    pub refuse-IsQuiet :
        (k : ℕ) (r : Reply) (d : Desk)
        → IsQuiet d (refuse_unless_prior c e client m hash fingerprint k r d).1
    unfolding refuse_unless_prior
    refuse-IsQuiet k r d = or_reply-IsQuiet r d _ (first_read-IsPrior k d).0

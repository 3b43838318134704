-- ===== src/Service/Settle/Admission.antt =====
-- service.rs: what `settle_inner` has checked before it claims a settlement or spawns a worker.
use x402_facilitator.Prelude.{◌==◌, false}
use x402_facilitator.Service.Settle.Quiet.{
  IsQuiet, IsQuiet-trans, first_read-IsPrior, refuse-IsQuiet, IsPrior,
}
use x402_facilitator.Service.Settle.Spawns.{IsOneClaim, claimed-MaySpawn, quiet-MaySpawn, MaySpawn}
use x402_facilitator.Service.Readiness.{can_settle, call_gates}
use x402_facilitator.Service.World.{VerifiedPayment, Verification}
use x402_facilitator.Service.Settle.{
  SettleEnv, Desk, Client, desk_at, RequestMeta, Reply, refuse_unless_prior, new_settlement,
  static_failure_reason, Routed, claim, check_payee, verify_routed, settle_identified,
  claim_verified, check_gates, unless_prior,
}
use x402_facilitator.Journal.Tables.{Collation, Db}
use x402_facilitator.Journal.Run.{run}
use x402_facilitator.Journal.Claim.{claim_settlement}
use mathlib.Core.Path.{sym}
use x402_facilitator.Journal.Types.{Hash, NewSettlement}
use x402_facilitator.Prelude.{
  ℕ, ◌≡◌, refl, Option, none, some, arith, if_cases, inl, ◌⊎◌, true, ◌∷◌, inr, ap, Outcome, List,
  not, Bool,
}

module _ (c : Collation) (e : SettleEnv) (client : Client) (m : RequestMeta)
    (hash fingerprint : Hash) where
  -- What has been checked before a claim.
  pub record IsAdmitted (d : Desk) (v : VerifiedPayment) : Type 0 where
    pub authenticated : e.authenticated ≡ Outcome.ok client
    pub admitted : e.rate_admits ≡ true
    pub parsed : e.parsed ≡ Outcome.ok m
    pub supported : static_failure_reason c e.config m ≡ none
    pub hashed : e.payment_hash ≡ Outcome.ok hash
    pub fingerprinted : e.fingerprint ≡ some fingerprint
    pub gates_open :
        can_settle (call_gates (e.gate_calls 1) (call_gates (e.gate_calls 0) d.readiness)) ≡ true
    pub payee : e.payee_allowed ≡ some true
    pub routed : (e.routed ≡ Routed.unregistered) ⊎ (e.routed ≡ Routed.valid)
    pub verified : e.verify ≡ Verification.verified v
    pub same_payment : v.request_hash ≡ hash

  -- The journal when the claim is made: the other requests of the four steps have gone before.
  abbrev pub claim_journal : Desk → Db
  claim_journal d = (desk_at c e 7 (desk_at c e 3 (desk_at c e 1 (desk_at c e 0 d)))).db

  -- A step that has neither claimed nor spawned, with the journal before the claim.
  abbrev Arrives : Desk → Desk → Type 0
  Arrives d d' = IsQuiet d d' × (d'.db ≡ (desk_at c e 3 (desk_at c e 1 (desk_at c e 0 d))).db)

  -- Nothing was claimed and no worker was spawned, or everything had been checked and one claim was
  -- made.
  abbrev pub IsSettling : Desk → Desk → Type 0
  IsSettling d d' =
      IsQuiet d d'
      ⊎ ((v : VerifiedPayment) × IsAdmitted d v
          × IsOneClaim c e client m hash fingerprint v (claim_journal d) d d')

  -- What holds of the requests that reach the claim, before the provider's answer.
  pub record IsScreened (d : Desk) : Type 0 where
    pub authenticated : e.authenticated ≡ Outcome.ok client
    pub admitted : e.rate_admits ≡ true
    pub parsed : e.parsed ≡ Outcome.ok m
    pub supported : static_failure_reason c e.config m ≡ none
    pub hashed : e.payment_hash ≡ Outcome.ok hash
    pub fingerprinted : e.fingerprint ≡ some fingerprint

  claim-IsOneClaim :
      (v : VerifiedPayment) (d d' : Desk)
      → Arrives d d'
      → IsOneClaim c e client m hash fingerprint v
          (claim_journal d)
          d
          (claim c e client m hash fingerprint v d').1
  unfolding claim desk_at
  claim-IsOneClaim v d d' (h, j) =
      let n = new_settlement c e client m hash fingerprint v in
      let before = record d { claims = n ∷ d.claims } in
      let after = desk_at c e 7 (record d' { claims = n ∷ d'.claims }) in
      let quiet : IsQuiet before after = (ap (λ (x : List NewSettlement). n ∷ x) h.0, h.1) in
      let at : claim_journal d ≡ after.db = ap (run c (e.others 7)) (sym j) in
      if_cases
        (λ (y : Reply × Desk).
          MaySpawn c e client m hash fingerprint v (claim_journal d) before y.1)
        (e.fails 7)
        (λ _. quiet-MaySpawn c e client m hash fingerprint v (claim_journal d) before after quiet)
        (λ _.
          claimed-MaySpawn c e client m hash fingerprint v _ (claim_journal d) before _ quiet
            (ap (λ (x : Db). claim_settlement c n e.today e.snapshots x) at))

  abbrev GatesOpen : Desk → Type 0
  GatesOpen d =
      can_settle (call_gates (e.gate_calls 1) (call_gates (e.gate_calls 0) d.readiness)) ≡ true

  refused-IsSettling :
      (k : ℕ) (r : Reply) (d d' : Desk)
      → IsQuiet d d'
      → IsSettling d (refuse_unless_prior c e client m hash fingerprint k r d').1
  refused-IsSettling k r d d' h = inl (
      IsQuiet-trans d d' (refuse_unless_prior c e client m hash fingerprint k r d').1 h
        (refuse-IsQuiet c e client m hash fingerprint k r d'))

  verified-IsSettling :
      (x : Verification) (d d' : Desk)
      → IsScreened d
      → GatesOpen d
      → e.payee_allowed ≡ some true
      → (e.routed ≡ Routed.unregistered) ⊎ (e.routed ≡ Routed.valid)
      → e.verify ≡ x
      → Arrives d d'
      → IsSettling d (claim_verified c e client m hash fingerprint x d').1
  unfolding claim_verified
  verified-IsSettling (Verification.verified v) d d' s g p r q h =
      if_cases (λ (y : Reply × Desk). IsSettling d y.1) (not (v.request_hash == hash))
        (λ _. inl h.0)
        (λ same. inr (
          v,
          record {
            authenticated = s.authenticated;
            admitted = s.admitted;
            parsed = s.parsed;
            supported = s.supported;
            hashed = s.hashed;
            fingerprinted = s.fingerprinted;
            gates_open = g;
            payee = p;
            routed = r;
            verified = q;
            same_payment = ground (arith, same);
          },
          claim-IsOneClaim v d d' h,
        ))
  verified-IsSettling Verification.rpc_ambiguous d d' s g p r q h = refused-IsSettling 6 _ d d' h.0
  verified-IsSettling (Verification.rejected reason) d d' s g p r q h =
      refused-IsSettling 6 _ d d' h.0

  routed-IsSettling :
      (x : Routed) (d d' : Desk)
      → IsScreened d
      → GatesOpen d
      → e.payee_allowed ≡ some true
      → e.routed ≡ x
      → Arrives d d'
      → IsSettling d (verify_routed c e client m hash fingerprint x d').1
  unfolding verify_routed
  routed-IsSettling Routed.unregistered d d' s g p q h =
      verified-IsSettling e.verify d d' s g p (inl q) refl h
  routed-IsSettling Routed.valid d d' s g p q h =
      verified-IsSettling e.verify d d' s g p (inr q) refl h
  routed-IsSettling Routed.unreachable d d' s g p q h = refused-IsSettling 5 _ d d' h.0
  routed-IsSettling Routed.ambiguous d d' s g p q h = refused-IsSettling 5 _ d d' h.0
  routed-IsSettling (Routed.invalid reason payer) d d' s g p q h = refused-IsSettling 5 _ d d' h.0

  payee-IsSettling :
      (x : Option Bool) (d d' : Desk)
      → IsScreened d
      → GatesOpen d
      → e.payee_allowed ≡ x
      → Arrives d d'
      → IsSettling d (check_payee c e client m hash fingerprint x d').1
  unfolding check_payee
  payee-IsSettling none d d' s g p h = inl h.0
  payee-IsSettling (some false) d d' s g p h = refused-IsSettling 4 _ d d' h.0
  payee-IsSettling (some true) d d' s g p h = routed-IsSettling e.routed d d' s g p refl h

  gates-IsSettling :
      (d : Desk)
      → IsScreened d
      → IsSettling d (check_gates c e client m hash fingerprint (desk_at c e 0 d)).1
  unfolding check_gates desk_at
  gates-IsSettling d s =
      let d' = desk_at c e 1 (desk_at c e 0 d) in
      if_cases (λ (y : Reply × Desk). IsSettling d y.1) (not (can_settle d'.readiness))
        (λ _. refused-IsSettling 2 _ d d' (refl, refl))
        (λ open_gates.
          payee-IsSettling e.payee_allowed d (desk_at c e 3 d') s (ground (arith, open_gates)) refl
            ((refl, refl), refl))

  unless_prior-IsSettling :
      (d : Desk) (x : Option Reply × Desk)
      → IsScreened d
      → IsPrior c e d (desk_at c e 0 d) x
      → IsSettling d (unless_prior c e client m hash fingerprint x).1
  unless_prior-IsSettling d (some r, y) s h = inl h.0
  unless_prior-IsSettling d (none, y) s h = rw (h.1 refl) (gates-IsSettling d s)

  pub identified-IsSettling :
      (d : Desk) → IsScreened d → IsSettling d (settle_identified c e client m hash fingerprint d).1
  unfolding settle_identified
  identified-IsSettling d s =
      unless_prior-IsSettling d _ s (first_read-IsPrior c e client m hash fingerprint 0 d)

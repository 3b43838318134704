-- ===== src/Service/Settle/Safety.antt =====
-- service.rs: `settle_inner` from its first check to its answer.
use x402_facilitator.Service.Settle.Admission.{
  claim_journal, IsAdmitted, IsSettling, identified-IsSettling,
}
use x402_facilitator.Service.Settle.Quiet.{IsQuiet}
use x402_facilitator.Service.Settle.Spawns.{IsOneClaim}
use x402_facilitator.Service.World.{VerifiedPayment}
use x402_facilitator.Service.Settle.{
  SettleEnv, Desk, Client, RequestMeta, Reply, static_failure_reason, FailureReason, settle_client,
  settle_parsed, settle_fingerprint, settle_inner, settle_hash, settle_static, settle_identified,
}
use x402_facilitator.Journal.Tables.{Collation}
use x402_facilitator.Journal.Types.{Hash, Text}
use x402_facilitator.Prelude.{
  ℕ, ◌≡◌, refl, Option, none, some, arith, if_cases, inl, ◌⊎◌, true, inr, Outcome, not,
}

module _ (c : Collation) (e : SettleEnv) (d : Desk) where
  -- Nothing happened, or an admitted request made one claim.
  abbrev pub IsSettledSafely : Desk → Type 0
  IsSettledSafely y =
      IsQuiet d y
      ⊎ ((client : Client) × (m : RequestMeta) × (hash fingerprint : Hash) × (v : VerifiedPayment)
          × IsAdmitted c e client m hash fingerprint d v
          × IsOneClaim c e client m hash fingerprint v
              (claim_journal c e client m hash fingerprint d) d y)

  pack :
      (client : Client) (m : RequestMeta) (hash fingerprint : Hash) (y : Desk)
      → IsSettling c e client m hash fingerprint d y
      → IsSettledSafely y
  pack client m hash fingerprint y (inl q) = inl q
  pack client m hash fingerprint y (inr (v, a, o)) = inr (client, m, hash, fingerprint, v, a, o)

  fingerprint-IsSettledSafely :
      (client : Client) (m : RequestMeta) (hash : Hash) (f : Option Hash)
      → e.authenticated ≡ Outcome.ok client
      → e.rate_admits ≡ true
      → e.parsed ≡ Outcome.ok m
      → static_failure_reason c e.config m ≡ none
      → e.payment_hash ≡ Outcome.ok hash
      → e.fingerprint ≡ f
      → IsSettledSafely (settle_fingerprint c e client m hash f d).1
  fingerprint-IsSettledSafely client m hash none a r p s k q = inl (refl, refl)
  fingerprint-IsSettledSafely client m hash (some f) a r p s k q =
      pack client m hash f (settle_identified c e client m hash f d).1 (
        identified-IsSettling c e client m hash f d (record {
          authenticated = a;
          admitted = r;
          parsed = p;
          supported = s;
          hashed = k;
          fingerprinted = q;
        }))

  hash-IsSettledSafely :
      (client : Client) (m : RequestMeta) (x : Outcome Text Hash)
      → e.authenticated ≡ Outcome.ok client
      → e.rate_admits ≡ true
      → e.parsed ≡ Outcome.ok m
      → static_failure_reason c e.config m ≡ none
      → e.payment_hash ≡ x
      → IsSettledSafely (settle_hash c e client m x d).1
  hash-IsSettledSafely client m (Outcome.err reason) a r p s k = inl (refl, refl)
  hash-IsSettledSafely client m (Outcome.ok hash) a r p s k =
      fingerprint-IsSettledSafely client m hash e.fingerprint a r p s k refl

  static-IsSettledSafely :
      (client : Client) (m : RequestMeta) (x : Option FailureReason)
      → e.authenticated ≡ Outcome.ok client
      → e.rate_admits ≡ true
      → e.parsed ≡ Outcome.ok m
      → static_failure_reason c e.config m ≡ x
      → IsSettledSafely (settle_static c e client m x d).1
  static-IsSettledSafely client m (some reason) a r p s = inl (refl, refl)
  static-IsSettledSafely client m none a r p s =
      hash-IsSettledSafely client m e.payment_hash a r p s refl

  parsed-IsSettledSafely :
      (client : Client) (x : Outcome ℕ RequestMeta)
      → e.authenticated ≡ Outcome.ok client
      → e.rate_admits ≡ true
      → e.parsed ≡ x
      → IsSettledSafely (settle_parsed c e client x d).1
  parsed-IsSettledSafely client (Outcome.err x) a r p = inl (refl, refl)
  parsed-IsSettledSafely client (Outcome.ok m) a r p =
      static-IsSettledSafely client m (static_failure_reason c e.config m) a r p refl

  client-IsSettledSafely :
      (x : Outcome ℕ Client) → e.authenticated ≡ x → IsSettledSafely (settle_client c e x d).1
  client-IsSettledSafely (Outcome.err x) a = inl (refl, refl)
  client-IsSettledSafely (Outcome.ok client) a =
      if_cases (λ (y : Reply × Desk). IsSettledSafely y.1) (not e.rate_admits)
        (λ _. inl (refl, refl))
        (λ r. parsed-IsSettledSafely client e.parsed a (ground (arith, r)) refl)

  -- Whatever the request, the gates, the answers and the other requests: either nothing is claimed and
  -- no worker is spawned, or exactly one settlement is claimed and at most one worker is spawned: for
  -- the settlement that this very claim created, on the journal as the other requests have left it,
  -- or for the one that this claim found awaiting a retry and the resumption after it resumed. A
  -- claim is made only for an authenticated client within its rate whose request has parsed and is
  -- supported, after the gates were found open by their check, with an allowed payee, for a payment
  -- that the facilitator, where there is one, and the provider have verified and that is the payment
  -- of the request.
  pub settle_inner-IsSettledSafely : IsSettledSafely (settle_inner c e d).1
  unfolding settle_inner
  settle_inner-IsSettledSafely = client-IsSettledSafely e.authenticated refl

-- ===== src/Service/Relayers.antt =====
-- store.rs: the table `relayers`, with `upsert_relayer`, `quarantine_relayer` and
-- `relayer_is_active`.
use x402_facilitator.Prelude.{
  Bool-cases, inl, inr, ℕ, ◌≡◌, refl, Bool, true, false, Option, none, some, List, [], ◌∷◌, arith,
  ◌&&◌, ◌==◌, if◌then◌else◌,
}
use x402_facilitator.Journal.Types.{Text}

pub data RelayerStatus : Type 0 where
  active disabled : RelayerStatus
  quarantined : Text → ℕ → RelayerStatus

-- The status of a row, with its reason and its last observed nonce.
abbrev pub Relayers : Type 0
Relayers = Text → Text → Text → Option RelayerStatus

abbrev pub set_relayer_row : Relayers → Text → Text → Text → RelayerStatus → Relayers
set_relayer_row table network account key status =
    λ n a k. if n == network && (a == account && k == key) then some status else table n a k

abbrev pub or_active : Option RelayerStatus → RelayerStatus
or_active none = RelayerStatus.active
or_active (some s) = s

-- ON CONFLICT DO NOTHING.
unfoldable pub upsert_relayer : Text → Text → Text → Relayers → Relayers
upsert_relayer network account key table =
    set_relayer_row table network account key (or_active (table network account key))

unfoldable pub quarantine_relayer : Text → Text → Text → Text → ℕ → Relayers → Relayers
quarantine_relayer network account key reason nonce table =
    set_relayer_row table network account key (RelayerStatus.quarantined reason nonce)

abbrev pub is_active_status : Option RelayerStatus → Bool
is_active_status none = false
is_active_status (some RelayerStatus.active) = true
is_active_status (some RelayerStatus.disabled) = false
is_active_status (some (RelayerStatus.quarantined reason nonce)) = false

unfoldable pub relayer_is_active : Text → Text → Text → Relayers → Bool
relayer_is_active network account key table = is_active_status (table network account key)

-- One call of the table by the service.
pub data RelayerCall : Type 0 where
  upsert : Text → Text → Text → RelayerCall
  quarantine : Text → Text → Text → Text → ℕ → RelayerCall

unfoldable pub call_relayers : List RelayerCall → Relayers → Relayers
call_relayers [] table = table
call_relayers (RelayerCall.upsert n a k ∷ calls) table =
    call_relayers calls (upsert_relayer n a k table)
call_relayers (RelayerCall.quarantine n a k reason nonce ∷ calls) table =
    call_relayers calls (quarantine_relayer n a k reason nonce table)

abbrev pub IsQuarantined : Text → Text → Text → Relayers → Type 0
IsQuarantined network account key table =
    (reason : Text) × (nonce : ℕ) × (table network account key
      ≡ some (RelayerStatus.quarantined reason nonce))

set_kept :
    (table : Relayers) (n a k network account key : Text) (s : RelayerStatus)
    → IsQuarantined network account key table
    → (table n a k ≡ table network account key
        → IsQuarantined network account key (λ x y z. some s))
    → IsQuarantined network account key (set_relayer_row table n a k s)
set_kept table n a k network account key s (reason, nonce, h) hit =
    elim (Bool-cases (network == n && (account == a && key == k))) [
      | inl e ↦
          let p : network ≡ n = ground arith in
          let q : account ≡ a = ground arith in
          let r : key ≡ k = ground arith in
          let same : table n a k ≡ table network account key = cc in
          let (x, y, z) = hit same in (x, y, ground (arith, e, z))
      | inr e ↦ (reason, nonce, ground (arith, e, h))
    ]

quarantined_kept :
    (calls : List RelayerCall) (network account key : Text) (table : Relayers)
    → IsQuarantined network account key table
    → relayer_is_active network account key (call_relayers calls table) ≡ false
unfolding call_relayers relayer_is_active upsert_relayer quarantine_relayer
quarantined_kept [] network account key table (reason, nonce, h) = ground (arith, h)
quarantined_kept (RelayerCall.upsert n a k ∷ calls) network account key table (r, m, h) =
    quarantined_kept calls network account key _
      (set_kept table n a k network account key _ (r, m, h) λ same. (r, m, ground (arith, same, h)))
quarantined_kept (RelayerCall.quarantine n a k reason nonce ∷ calls) network account key table h =
    quarantined_kept calls network account key _
      (set_kept table n a k network account key _ h λ same. (reason, nonce, refl))

-- A quarantined key stays inactive, whatever upserts and quarantines follow.
pub quarantine_relayer-relayer_is_active :
    (calls : List RelayerCall) (network account key reason : Text) (nonce : ℕ) (table : Relayers)
    → relayer_is_active network account key
        (call_relayers calls (quarantine_relayer network account key reason nonce table))
      ≡ false
unfolding quarantine_relayer
quarantine_relayer-relayer_is_active calls network account key reason nonce table =
    quarantined_kept calls network account key _ (reason, nonce, ground arith)

-- ===== src/Service/RateLimit.antt =====
-- service.rs: `RateLimiter::check`, one fixed window of a minute for each key and operation.
-- Instants are nanoseconds; `duration_since` stops at 0.
use x402_facilitator.Prelude.{
  ℕ, suc, ◌+◌, ◌-◌, ◌*◌, ◌^◌, ◌≤◌, ◌<◌, ◌≡◌, Bool, true, false, Option, none, some, List, [], ◌∷◌,
  arith, leb, ◌==◌, min, if◌then◌else◌, All, Bool-cases, inl, inr,
}

pub record RateWindow : Type 0 where
  pub started : ℕ
  pub count : ℕ

abbrev pub minute : ℕ
minute = 60 * 10 ^ 9

abbrev pub max_u32 : ℕ
max_u32 = 2 ^ 32 - 1

-- The window of the key after `or_insert` and the reset.
abbrev pub current_window : Option RateWindow → ℕ → RateWindow
current_window none now = record { started = now; count = 0 }
current_window (some w) now =
    if leb minute (now - w.started) then record { started = now; count = 0 } else w

abbrev pub admit : RateWindow → ℕ → Bool × RateWindow
admit w limit =
    if leb limit w.count then (false, w) else (true, record w { count = min (w.count + 1) max_u32 })

unfoldable pub check_window : Option RateWindow → ℕ → ℕ → Bool × RateWindow
check_window o now limit = admit (current_window o now) limit

-- The map, by the number of the key prefix and the operation.
unfoldable pub check : (ℕ → Option RateWindow) → ℕ → ℕ → ℕ → Bool × (ℕ → Option RateWindow)
unfolding check_window
check windows key now limit =
    let (answer, w) = check_window (windows key) now limit in
    (answer, λ k. if k == key then some w else windows k)

-- How many of the calls at these instants are admitted.
unfoldable pub admitted : Option RateWindow → ℕ → List ℕ → ℕ
unfolding check_window
admitted o limit [] = 0
admitted o limit (now ∷ later) =
    let (answer, w) = check_window o now limit in
    let rest = admitted (some w) limit later in if answer then suc rest else rest

-- Every instant is within a minute of this one.
abbrev pub WithinMinute : ℕ → ℕ → Type 0
WithinMinute start now = (start ≤ now) × (now < start + minute)

admitted_window :
    (w : RateWindow) (limit : ℕ) (times : List ℕ)
    → limit ≤ max_u32
    → w.count ≤ limit
    → All (WithinMinute w.started) times
    → admitted (some w) limit times + w.count ≤ limit
unfolding admitted check_window
admitted_window w limit [] m c a = omega (arith, c)
admitted_window w limit (now ∷ later) m c ((l, u), rest) = elim (Bool-cases (leb limit w.count)) [
  | inl full ↦ ground (arith, admitted_window w limit later m c rest)
  | inr free ↦ ground (
    arith,
    admitted_window (record w { count = min (w.count + 1) max_u32 }) limit later m (ground arith)
        rest,
  )
]

-- Of the calls for one key within a minute of the first one, at most the limit is admitted.
pub admitted_bounded :
    (limit start : ℕ) (times : List ℕ)
    → limit ≤ max_u32
    → All (WithinMinute start) times
    → admitted none limit (start ∷ times) ≤ limit
unfolding admitted check_window
admitted_bounded limit start times m a = elim (Bool-cases (leb limit 0)) [
  | inl full ↦
      ground (
        arith,
        admitted_window (record { started = start; count = 0 }) limit times m (omega arith) a,
      )
  | inr free ↦ ground (
    arith,
    admitted_window (record { started = start; count = 1 }) limit times m (ground arith) a,
  )
]

-- A check of one key leaves the windows of all other keys as they are.
pub check_other_keys :
    (windows : ℕ → Option RateWindow) (key other now limit : ℕ)
    → (other == key) ≡ false
    → (check windows key now limit).1 other ≡ windows other
unfolding check
check_other_keys windows key other now limit n = ground arith

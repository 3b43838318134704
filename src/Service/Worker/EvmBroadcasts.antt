-- ===== src/Service/Worker/EvmBroadcasts.antt =====
-- service.rs: the broadcasts of `settle_prepared_evm`, and of the whole worker.
use x402_facilitator.Service.Worker.Safety.{Origin, IsOwn, journal_after}
use x402_facilitator.Journal.Run.{IsSound}
use x402_facilitator.Service.Worker.{World}
use x402_facilitator.Journal.Types.{Uuid, ok, err}
use x402_facilitator.Service.World.{Env}
use x402_facilitator.Journal.Tables.{Collation, Db}
use x402_facilitator.Prelude.{ℕ, ◌≡◌, List, ok, err}

module _ (c : Collation) (env : Env) (id : Uuid) (from : Db) where
  abbrev own : Origin
  own = IsOwn c env id from

  -- A journal that the others have brought here from the first one by the steps before.
  abbrev IsAfter : List ℕ → Db → Type 0
  IsAfter ks db = IsSound c db × (db ≡ journal_after c env ks from)

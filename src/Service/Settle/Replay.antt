-- ===== src/Service/Settle/Replay.antt =====
-- service.rs: a request for a settlement that has ended.
use x402_facilitator.Service.Wire.{finalize_wire_response}
use x402_facilitator.Service.Settle.{SettleEnv, RequestMeta, Desk, Reply}
use x402_facilitator.Journal.Tables.{Collation}

abbrev in_dialect : Collation → SettleEnv → RequestMeta → Desk → Reply → Reply × Desk
in_dialect c e m d x = (finalize_wire_response e.codec m.wire x, d)

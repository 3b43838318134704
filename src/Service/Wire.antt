-- ===== src/Service/Wire.antt =====
-- What the handlers of service.rs answer, with `finalize_wire_response` of service.rs and
-- `translate_response_value_to_v1` of v1_compat.rs. The JSON library, the serialization of a failed
-- `SettleResponse` and the buffering of a body are fields of `WireCodec`.
use x402_facilitator.Prelude.{ℕ, Bool, Option, none, some, List, [], ◌∷◌, ◌==◌, if◌then◌else◌}
use x402_facilitator.Journal.Types.{Text, Bytes}

-- The codes of the 503 and 4xx answers that this handler gives.
pub data ErrorCode : Type 0 where
  rate_limit_exceeded invalid_json database_unavailable settlement_unavailable : ErrorCode
  rpc_unavailable verification_unavailable verification_inconsistent : ErrorCode
  settlement_busy settlement_retryable settlement_pending : ErrorCode
  response_serialization_failed : ErrorCode
  sponsorship_budget_exhausted payment_identifier_conflict journal_incomplete : ErrorCode
  -- an answer of `authenticate` or of `read_and_parse`
  refused_earlier : ℕ → ErrorCode

-- The reasons of a failed `SettleResponse` that this handler names; the others are texts.
pub data FailureReason : Type 0 where
  invalid_x402_version unsupported_scheme invalid_network : FailureReason
  unsupported_asset_transfer_method invalid_asset amount_below_minimum : FailureReason
  payee_not_allowed duplicate_settlement : FailureReason
  reported : Text → FailureReason

-- A failed `SettleResponse` with its payer, a stored response with its status, or an `ApiError`.
pub data Reply : Type 0 where
  failure : FailureReason → Option Text → Reply
  raw : ℕ → Bytes → Reply
  error : ErrorCode → Reply

-- `WireVersion`.
pub data WireVersion : Type 0 where
  v1 v2 : WireVersion

-- A JSON value, by the text at its key `network`, where there is one, and everything else.
pub record Value : Type 0 where
  pub network : Option Text
  pub rest : ℕ

pub record WireCodec : Type 0 where
  -- the body of a failed `SettleResponse`
  pub protocol_json : FailureReason → Option Text → Bytes
  -- whether `to_bytes` takes the body within its limit
  pub rebuffers : Bytes → Bool
  pub from_slice : Bytes → Option Value
  pub to_vec : Value → Option Bytes
  -- the texts base, eip155:8453, base-sepolia and eip155:84532
  pub base : Text
  pub base_caip2 : Text
  pub base_sepolia : Text
  pub base_sepolia_caip2 : Text

module _ (k : WireCodec) where
  -- `V1_NETWORKS`.
  abbrev pub v1_networks : List (Text × Text)
  v1_networks = (k.base, k.base_caip2) ∷ (k.base_sepolia, k.base_sepolia_caip2) ∷ []

  abbrev pub name_in : List (Text × Text) → Text → Option Text
  name_in [] network = none
  name_in ((alias, caip2) ∷ rest) network =
      if caip2 == network then some alias else name_in rest network

  unfoldable pub v1_network_name : Text → Option Text
  v1_network_name network = name_in v1_networks network

  abbrev pub renamed : Option Text → Option Text
  renamed none = none
  renamed (some network) = elim (v1_network_name network) [
    | none ↦ some network
    | some name ↦ some name
  ]

  abbrev pub translate_response_value_to_v1 : Value → Value
  translate_response_value_to_v1 value = record value { network = renamed value.network }

  abbrev pub printed : Option Bytes → Reply
  printed none = Reply.error ErrorCode.response_serialization_failed
  printed (some bytes) = Reply.raw 200 bytes

  abbrev pub translated : Bytes → Option Value → Reply
  translated bytes none = Reply.raw 200 bytes
  translated bytes (some value) = printed (k.to_vec (translate_response_value_to_v1 value))

  -- A body of status 200.
  unfoldable pub rewrite_body : Bytes → Reply
  rewrite_body bytes =
      if k.rebuffers bytes
      then translated bytes (k.from_slice bytes)
      else Reply.error ErrorCode.response_serialization_failed

  unfoldable pub finalize_wire_response : WireVersion → Reply → Reply
  finalize_wire_response WireVersion.v2 r = r
  finalize_wire_response WireVersion.v1 (Reply.failure reason payer) =
      rewrite_body (k.protocol_json reason payer)
  finalize_wire_response WireVersion.v1 (Reply.raw status bytes) =
      if status == 200 then rewrite_body bytes else Reply.raw status bytes
  finalize_wire_response WireVersion.v1 (Reply.error code) = Reply.error code

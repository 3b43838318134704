-- ===== src/Lib.antt =====
-- The x402 facilitator: a service that verifies a client's signed payment and settles it on NEAR or
-- on Base, paying the gas from a sponsored budget. This library models its settlement core.
--
-- A request is claimed in a durable journal (PostgreSQL), a worker signs one outer transaction,
-- journals its bytes, marks the settlement as submitted and broadcasts; what is left open is
-- reconciled against two independent RPC readers. Readiness gates fence all of it.
--
-- Prelude: library names, tests on native numbers, lists, the result of a fallible call.
-- Journal: crates/x402-near-facilitator/src/store.rs and migrations/*.sql.
--   Types holds the rows and the answers, Ledger the two sponsorship ledgers with their reservations
--   and releases, Tables the constraints of `settlements` and its INSERT and UPDATE, Claim
--   `claim_settlement`, Transitions the other operations. Each operation is a function from the
--   database to its answer and the next database; an error rolls back. Identifiers, hashes, texts and
--   byte strings are numbers, since they are only compared, and `lower` and the concatenation of an
--   anchor scope are parameters (`Collation`). The reads of a claim outside its transaction see
--   snapshots of their own, so that other requests may commit in between.
--   Effects is the step relation that every operation follows; Accounting, Exclusive, Lifecycle and
--   History are invariants of the steps; Run takes them to sequences of operations from the empty
--   database, in the order of their commits; Run/Register is an abstract register of payments, and
--   the payments that the rows stand for.
-- Retry: crates/x402-near-facilitator/src/retry.rs and its twin in
--   crates/x402-chain-eip155-provider/src/provider.rs, by recursion on the list of delays.
-- Evm: crates/x402-chain-eip155-provider/src/provider.rs, from the observations of a reader to the
--   status of a transaction. What a reader answers, by the number of the attempt, is a parameter.
--   Block numbers are u64 and saturate at 2^64 - 1; fees are u128.
--   Envelope is crates/x402-chain-eip155-provider/src/prepare.rs and settle.rs: the settlement
--   transaction, its calldata and the validation of stored bytes. The codecs and the signature
--   schemes are the fields of `Alloy`, with the laws that the code relies on in `IsAlloy`.
-- Near: crates/x402-chain-near/src/receipt.rs. Graph holds the index of the outcomes, the walk over
--   the reachable receipts and their topological sort, Receipts `interpret_final_outcome` and
--   `validate_final_outcome_identity`. Hashes and accounts are numbers.
-- Chain: crates/x402-near-facilitator/src/chain.rs: `reconcile_status`, `broadcast` and `rebroadcast`
--   on both chains, over what the two readers answer. The parsers and formats of hashes and accounts
--   and the equality of final outcomes are the fields of `Codec`.
--   Stored is `validate_stored_submission`, over the parsers of a row in `RowCodec`.
-- Service: crates/x402-near-facilitator/src/leadership.rs (Readiness, Leadership) and
--   crates/x402-near-facilitator/src/service.rs: Failures, RateLimit, Funding, Relayers (the table
--   `relayers` of store.rs), and the settlement worker. World is what a worker runs in: the journal,
--   the gates, the relayer table and the broadcasts so far. `Env` gives what the chain provider, the
--   serializer and the database answer at each step, and which operations of other requests and
--   which gate changes of other tasks come before it; the steps are numbered in the order of the code.
--   Worker is `run_new_settlement` with `settle_prepared_evm`, Finalize their ends, and Recovery
--   `reconcile_prepared_evm`, where the checks of the stored envelope and of the policy snapshot are
--   parameters. Settle is the handler `settle_inner`, with the replies of the journal and the polls
--   of `wait_for_terminal`; `SettleEnv` gives the answers of the authenticator, the parser, the
--   allowlist, the facilitator and the provider, and `Desk` records the claims and the workers.
--   Wire holds the replies and `finalize_wire_response`, with the part of
--   crates/x402-near-facilitator/src/v1_compat.rs that translates a response; a JSON value is the text
--   at its key `network` and the rest.
--   StoredTransaction is `validate_stored_transaction`, the check of stored NEAR bytes.
-- Examples: concrete runs.
--
-- Loops recurse on a list of delays, of rows or of events. The two loops over a receipt graph take
-- fuel: one more round than the children of all outcomes and the start allow the walk, and one more
-- than the visited receipts the sort. A wait takes the number of polls that its deadline allows.
-- Not modelled: the connection pool and the SQL engine beyond the statements named above; the
-- formats of single columns; metrics and logs; the parsing of raw receipts; the reconciliation loop
-- and its NEAR branch; `verify_inner` and the other HTTP handlers; the NEAR provider and its checks of
-- a delegate action; the wire protocol but for the v1 dialect of a response, authentication,
-- configuration and the catalog.
pub mod Prelude
pub mod Journal
pub mod Retry
pub mod Evm
pub mod Near
pub mod Chain
pub mod Service
pub mod Examples

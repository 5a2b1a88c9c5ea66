-- ===== src/Lib.antt =====
-- The claims service of the AR.IO Solana attestor: the parts that decide what is paid, to whom and
-- how often, and the records that let others check it.
--
-- The program. The claims service (packages/claims/src/api/service.ts) offers a challenge for an asset of
-- the frozen ledger, verifies the recipient's signature over a message that it rebuilds itself
-- (packages/claims/src/verify), and takes the asset from `available`. The claim is then paid by the dispatch worker (packages/claims/src/dispatch). The worker signs a transaction, commits
-- its signature to the database, broadcasts it and waits for its confirmation; after a crash it
-- recovers from the signature that it committed. Each transaction on the database also appends a
-- row to a hash-chained audit log (packages/claims/src/api/audit.ts), which
-- packages/claims/src/transparency verifies and anchors beside a Merkle commitment of the ledger.
--
-- The files:
--   Prelude: the names that all files share; native numbers, lists, integers, Boolean tests.
--   Merkle: packages/claims/src/transparency/merkle.ts. Merkle/Hex has toHex and fromHex; Merkle/Roots,
--     Merkle/Proofs and Merkle/Binding the theorems. root_loop and proof_loop run on fuel, the
--     number of leaves, which is enough as each round at least halves a level of two or more.
--   Audit: packages/claims/src/api/audit.ts, with the canonical JSON text in Audit/Canonical;
--     Audit/Chain is packages/claims/src/transparency/audit-chain.ts (verifyAuditChain,
--     checkExtendsAnchor), and Audit/Chain/Links and Audit/Chain/Tamper are about it.
--   Store: the tables that packages/claims/migrations declares, as lists of records, and the SQL
--     statements on one key.
--   Settlement: packages/claims/src/verify/vault-settlement.ts and
--     packages/claims/src/ledger/vault-rules.ts.
--   Instructions: packages/claims/src/dispatch/instructions.ts and, in Instructions/Relock,
--     packages/claims/src/dispatch/vault-relock.ts, to the byte.
--   Gateway: packages/claims/src/dispatch/chain.ts, the interface and, in Gateway/Status, the
--     classification of a signature and the history scan.
--   Dispatch: packages/claims/src/dispatch/dispatch-core.ts. Dispatch/Persist, Dispatch/Recovery and
--     Dispatch/Core have the transactions, Dispatch/Transitions runs them in any order.
--   Float: packages/claims/src/dispatch/float.ts.
--   Worker: packages/claims/src/dispatch/worker.ts. Worker/Fresh has #dispatchFresh, Worker/Process
--     processClaim and #recover, Worker/Queue runOnce and runAntBatch; the other files are about them.
--   Verify: packages/claims/src/verify (types.ts, errors.ts, arweave.ts, ethereum.ts, index.ts).
--     Verify/Canonical is canonical-message.ts there, with packages/canonical/src/canonical.ts;
--     Verify/Arweave has packages/canonical/src/verify-rsa-pss.ts too. The numeral of the amount is
--     written on fuel, one more than the number, which is more than it has digits.
--   Service: packages/claims/src/api/service.ts and errors.ts. Service/Proof has buildProof,
--     Service/Initiate and Service/Complete the operations, Service/Reaper
--     packages/claims/src/api/reaper.ts, Service/History all of them beside the dispatch.
--   RateLimit: packages/claims/src/api/rate-limit.ts.
--   Reserves: packages/claims/src/transparency/reserves.ts, the liabilities and their coverage.
--   Reconcile: packages/claims/src/dispatch/reconcile-dispatch.ts, the report on the confirmed claims.
--   Operator: packages/claims/src/dispatch/ant-operator.ts. Operator/Reserve has expireStaleReservations,
--     reserveAntBatch and releaseAntBatch, Operator/Build buildReservedBatch, Operator/Recover
--     recoverReservedAntClaim and releaseReservationForRebuild, Operator/Submit submitAntBatch,
--     Operator/Views the read models; the other files are about them.
--   Ledger: packages/claims/src/ledger/types.ts, and in Ledger/Write packages/claims/src/ledger/build.ts.
--     insertChunked goes on fuel, the number of its rows, which Ledger/Chunks shows to be enough.
--     In packages/claims/src/ledger also: Ledger/Normalize normalize.ts, asset-id.ts and the derivation
--     of ant-mint.ts, Ledger/Stakes stake-extract.ts, Ledger/Plan and Ledger/Phases plan.ts, of which
--     Ledger/Owned, Ledger/Balance, Ledger/Placement, Ledger/Classified, Ledger/Kept and Ledger/Totals are
--     about the invariant, Ledger/Rows, Ledger/Accepted, Ledger/Landed and Ledger/Written about writing
--     the plan. Balances there are whole
--     numbers, `number` in the source, and times whole milliseconds.
--   Alerts: packages/claims/src/ops/alerts.ts.
--   Examples, Merkle/Examples: concrete inputs.
--
-- Conventions. A database transaction is one step from database to database, with the clock reading
-- and the audit signer in a Context; one that rolls back leaves the database as it was. The row locks
-- and the advisory lock are this atomicity. A thrown error is `none` of an Option, or `throws` of a
-- Reply; where a violated index aborts a transaction that has no reply of its own, the database stays as
-- it was. The answers of the chain and the balances stay the same during a call of processClaim and
-- during a tick of runOnce. A claim's identifier is a text: one that is no uuid, which PostgreSQL refuses
-- with an error, is not found. A World is the database with the transactions broadcast so far. While processClaim runs, no
-- one else writes; Dispatch/Transitions is about transactions in any order. Amounts are numbers of
-- mARIO; the checks of the columns keep them from being negative. bigint has no bound, and the 64-bit
-- fields of instructions have the range checks of the source.
--
-- Parameters. sha256, Ed25519, the UTF-8 encoder, the address codecs and derivation of the kit, the
-- answers of the RPC node and the signers are not code of the repository: records carry them as
-- functions, and what a theorem assumes of them is among its hypotheses.
--
-- Not modelled: the HTTP routes, the read-only lookups of the claims service, the collection of
-- metrics, the sampling of ANT owners in the reserves report, the loading of the frozen inputs
-- of the ledger, the command-line tools, configuration, logs and network I/O.
pub mod Prelude
pub mod Merkle
pub mod Audit
pub mod Store
pub mod Settlement
pub mod Instructions
pub mod Gateway
pub mod Dispatch
pub mod Float
pub mod Worker
pub mod Verify
pub mod Service
pub mod RateLimit
pub mod Reserves
pub mod Reconcile
pub mod Operator
pub mod Ledger
pub mod Alerts
pub mod Examples

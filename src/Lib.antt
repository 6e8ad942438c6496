-- ===== src/Lib.antt =====
-- The Bondsman backend (backend/src): bonds, paid quotes, the SQLite projection and the watchdog.
--
-- The backend prices a bond for an action, sells a quote for it, lets the payer submit the quoted
-- action, projects what the chain reports into SQLite, and runs a watchdog that challenges
-- faulty actions with the evidence that it finds in that projection.
--
-- Common: Boolean tests, equality as an instance, lists, integers, decimal text, stable sorting, and
--   Table, a SQL table as the list of its rows behind their primary keys.
-- Policy: policy/engine.ts. positiveAmount is positive_amount, bondBasisPoints is
--   bond_basis_points, riskTier is risk_tier, priceBond is price_bond, policyFor is policy_for. A
--   throw of the amount's guard is none.
-- Economics: evidence/bond-economics.ts.
-- Repository: db/schema.ts and db/repositories.ts. Records holds the interfaces, Tables the columns;
--   the other modules hold the methods under their names in snake case, each as a function on
--   Database. A method that can break a UNIQUE index returns Sql, with constraint_failed for the
--   throw. Date.now() is an argument. A column of JSON text holds the document that it encodes, and
--   a time that is stored as ISO text is a number of milliseconds.
-- Authorization: verify/submit-authorization.ts. Signatures, the account hash of the Casper SDK,
--   BLAKE2b, JSON.stringify and the bytes of a text are the record Crypto;
--   canonicalSubmitAuthorizationPayload is canonical_submit_authorization_payload, over the document
--   signed_document.
-- Submit: POST /v1/actions/submit of api/routes.ts, cut at its two waits into admit, authorize and
--   settle; Interleaving runs the parts of many requests in any order.
-- Quoting: quoteResponse of verify/x402.ts (quote_response), projectedBondPolicyReader of
--   api/routes.ts (projected_bond_policy) and, in Route, POST /v1/actions/quote. What the facilitator
--   answers to a payment is an argument.
-- Attestation: verifiers/delivery-attestation.ts. Signatures, BLAKE2b and the formats of keys are
--   the record Crypto. Its records are the evidence that Watchdog reads.
-- Watchdog: watchdog/detection.ts and scanOnce of watchdog/service.ts. What other writers, the
--   language model and the chain do during the waits of one candidate is an Encounter; each of its
--   waits may throw, the reconciliation too.
-- Arm: api/arm.ts with casper/funding.ts. Failures holds the tests of error messages, Loops the loops,
--   Steps runArmStep and the transactions with what follows when one is refused, Request and Once
--   armOnce, Service the funding, its retry and the queue. An operation is a function on World, the
--   state of the chain, the log of the steps and the database, and returns what is left also when it
--   throws. Outside holds the calls of the chain, the clock and the random bytes. The loops have the
--   bounds of the code: 200 probes, 15 polls, one retry.
-- Wallet: casper/transactions.ts (Wallet and Transaction) and api/wallet-challenge.ts (Resolve). The
--   answer of the node is a JSON document; the call that resolves an action is a function on the
--   database, which it brings up to date.
-- SpendGuard: ops/spend-guard.ts. Settings holds the limits that the environment gives; a transaction
--   is guarded and recorded the way callContract of casper/odra-cli.ts does it, one after the other,
--   as casper/signer-queue.ts orders them. In Refusal the module's functions are called in any order.
-- Demo: api/eligibility.ts, api/demo-ready.ts and, in Pool, api/ready-pool.ts, whose ticks are cut at
--   the wait for the arming of a case.
-- Reconcile: listener/reconcile.ts. Reconcile itself projects the events of one contract, Chain reads
--   the chain's words, Refresh is reconcileChain and Expiry is resolveExpiredClean, on Arm's World. What
--   the chain and the parser of events give, the files of runs and BLAKE2b are arguments.
-- Decision: agent/decision.ts, on code units. Grammar says what text of an object the scanner is asked
--   to find; JSON.parse is an argument.
-- Evidence: stableJson and checksum of evidence/replay.ts; Same says when two values are one document.
-- Idempotency: api/idempotency.ts. A promise is a number, and its two callbacks are on_value and
--   on_settled. Promise says what is promised of a key with no table, and Exclusive runs requests and
--   operations in any order.
-- ApiErrors: api/errors.ts, on the codes of a message.
-- DemoJobs: api/demo-jobs.ts, cut at the waits of a run; World runs requests, ends of waits, reads
--   and the writes of other parts in any order.
--
-- Numbers of JavaScript are natural numbers where the code only stores times, indices and
-- identifiers; the reputation score is an integer. BigInt is read from and printed as decimal text;
-- the fuel of the printer is above the number printed, and so above the number of its digits. Of
-- letters, toLowerCase changes those of ASCII.
--
-- Not modelled: network and command-line access to the chain, the HTTP server, process start, the
-- prompts and answers of the language model, the Rust contracts and the frontend.
pub mod Common
pub mod Policy
pub mod Economics
pub mod Repository
pub mod Authorization
pub mod Submit
pub mod Watchdog
pub mod SpendGuard
pub mod Demo
pub mod Reconcile
pub mod Attestation
pub mod Quoting
pub mod Arm
pub mod Wallet
pub mod Idempotency
pub mod ApiErrors
pub mod DemoJobs
pub mod Decision
pub mod Evidence

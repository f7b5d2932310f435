-- ===== src/Lib.antt =====
-- The money paths of the bounty agent: what may be spent on inference, what may be paid to a
-- contributor, and who wins a bounty.
--
-- The agent pays for its own inference over x402 and pays contributors for merged pull requests.
-- Each kind of money leaves through a signer, a process of its own with its own key and its own
-- journal in SQLite, which repeats every check and trusts no caller. The parts and their files:
-- - Base: the conditional, results, texts, rows of a table (lookups, updates, sums, UNIQUE
--   constraints), numbers as JavaScript reads them, and the UUID pattern of
--   services/signer/src/signer.ts.
-- - Budget/Governor: decide and budgetConfig of packages/budget/src/governor.ts. Budget/Ledger:
--   the in-memory ledger of packages/budget/src/ledger.ts, whose totals the governor reads.
--   Budget/Metrics: packages/budget/src/metrics.ts.
-- - Inference/Journal: the table of services/signer/src/journal.ts, its rail binding and its
--   transitions. Inference/Signer: payQuote, balanceProof and signerConfig of
--   services/signer/src/signer.ts.
-- - Gate/Approval: the signed envelope of packages/gate/src/approval.ts. Gate/Repos:
--   packages/gate/src/bounty-repos.ts. Gate/Evaluate: evaluateGate of packages/gate/src/gate.ts.
-- - Payout/Journal and Payout/Signer: services/signer/src/payout/journal.ts and payout-signer.ts,
--   the signer that pays a bounty from an approval.
-- - Grainhack/Caps, Grainhack/Journal with its child Move, Grainhack/Signer and Grainhack/Resolve:
--   caps.ts, journal.ts, grainhack-signer.ts and resolve.ts of services/signer/src/grainhack, the
--   signer of hackathon payouts, with what it reads of packages/gate/src/grainhack-approval.ts and
--   grainhack-statement.ts.
-- - DrawService: apps/agent/src/draw-service.ts with the outbox of apps/agent/src/events.ts.
--   DrawService/Tables holds the tables of packages/db as lists of rows and enqueueEvent; Settings
--   is config, settings, setSetting and resetSetting; Apply is openApplications, apply,
--   canManageBounty and poolVisibilityForMaintainer; Decide is unassignByDecision, closeByDecision,
--   tellRoundClosed and setAssignmentDeadline; Reopen is reopenAfterUnmergedClose, the repair
--   command and recordSubmittedPullRequests; Draw is historyFor and runDrawFor, which runs the draw
--   of Draw/Run; Sweep is releaseStaleAssignments and closeDueWindows; Views is maintainerView with
--   applicationsFor and drawsFor. DrawService/Histories has the histories of them.
-- - Funded: apps/agent/src/funded-service.ts with apps/agent/src/escrow-service.ts. Funded/Tables
--   adds the escrows, the proposals to unassign and the traffic to the attestor to the tables of
--   DrawService; Escrow is quote, confirmFunding and the records of what the chain says; Open is
--   confirm and reclaim; Assign is assignPrepare and assignConfirm; Attest is runDraw; Unassign is
--   unassign, unassignConfirm and release; Propose, Carry and Agree are propose, carryOut and
--   respond; Lapse is withdraw, expireProposals, leaveToDeadline, conductNote and markTest;
--   Reconcile is reconcile and reclaimConfirm. Funded/Consent/Histories has the histories in which
--   they run one at a time.
-- - Draw/Rng and Draw/Run: the weighted draw of packages/gate/src/draw.ts. Draw/Config: the
--   settings of packages/gate/src/draw-config.ts.
--
-- Conventions. A table is a list of rows in rowid order with its last rowid; one SQLite
-- transaction is one function. The handlers of the three signers (Inference, Payout and Grainhack)
-- are cut at their awaits: begin is what runs before the first one, build_failed, built,
-- broadcast_ok and broadcast_failed are what runs after each answer, and a relation Step lists
-- them, so that a history (Reach) is any interleaving of any number of requests, crashes between
-- the parts included. A broadcast of the inference signer reports at most 10,000 lamports of fee,
-- which is the reserve of its rail. The services of apps/agent are not cut so finely. In the draw
-- service runDrawFor is cut once, between what it reads (draw_plan) and what it writes
-- (write_draw), and every other handler is one step, though it awaits the database; the step
-- elsewhere of its histories is any change that makes, moves and revives no assignment. In Funded
-- every handler is one step from its start to its end, with the calls of the attestor and the
-- chain in it: handlers that overlap and crashes within one are outside its histories. pay_quote
-- of the inference signer and pay of the payout signer compose the parts the way the source does.
-- An exception is a value of a result type. The text of a refusal is a constructor. Amounts are
-- natural numbers; JsNumber and Parsed keep what a value from outside may be instead.
--
-- Parameters. Ed25519, Date.parse, toLowerCase, BigInt, the clock, GitHub, the chain, the attestor
-- and the Solana rails are arguments; no law of them is assumed but where a theorem names one.
-- JavaScript's floating-point numbers are the record Floats, of which the theorems assume nothing,
-- so they hold with any rounding. There is no fuel: every loop of the source that is modelled runs
-- over a list.
--
-- Not modelled: HTTP servers, the other Postgres services of apps/agent, assignmentsForUser and
-- bountiesForMaintainer of the draw service and the views of funded bounties, which only read, the
-- payloads of their events, the preparation of a funding (prepare and prepareFunding) and Solana
-- instructions, GitHub and Solana I/O, the escrow contract in Rust, and command lines; of
-- packages/gate/src/grainhack-statement.ts and grainhack-approval.ts the shape checks and the
-- parsing, which are parameters of the GrainHack signer. These call the parts above or are called
-- through the parameters.
pub mod Base
pub mod Budget
pub mod Draw
pub mod DrawService
pub mod Funded
pub mod Gate
pub mod Grainhack
pub mod Inference
pub mod Payout

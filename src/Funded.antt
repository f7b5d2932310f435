-- ===== src/Funded.antt =====
-- apps/agent/src/funded-service.ts with the records of apps/agent/src/escrow-service.ts: bounties that a
-- maintainer funds from an escrow on the chain. A handler is one step on the tables.
pub mod Tables
pub mod Escrow
pub mod Open
pub mod Assign
pub mod Attest
pub mod Unassign
pub mod Propose
pub mod Carry
pub mod Agree
pub mod Lapse
pub mod Reconcile
pub mod Consent
mod Tests

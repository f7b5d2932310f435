-- ===== src/Budget.antt =====
-- packages/budget/src: the governor that decides whether one more spend fits, and the ledger of
-- reservations and settled spends.
pub mod Governor
pub mod Ledger
pub mod Metrics
mod Tests

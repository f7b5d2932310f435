-- ===== src/Payout.antt =====
-- services/signer/src/payout: the signer that pays a bounty from the float, and its journal.
pub mod Journal
pub mod Signer
mod Tests

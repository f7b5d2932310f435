-- ===== src/Grainhack.antt =====
-- services/signer/src/grainhack: the signer of hackathon payouts, its caps, its journal, and the
-- resolution of outcomes it could not confirm.
pub mod Caps
pub mod Journal
pub mod Resolve
pub mod Signer
mod Tests

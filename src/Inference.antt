-- ===== src/Inference.antt =====
-- services/signer/src: the inference signer, its journal and its decision logic.
pub mod Journal
pub mod Signer
mod Tests

-- ===== src/Gate.antt =====
-- packages/gate/src: human approvals, and the gate that decides whether a merged pull request earns
-- its bounty.
pub mod Approval
pub mod Repos
pub mod Evaluate
mod Tests

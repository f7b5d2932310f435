-- ===== src/DrawService.antt =====
-- apps/agent/src/draw-service.ts: applications, the draw, the assignment that comes out of it, and the
-- decisions and the sweep that end it. One query is one step on the tables.
pub mod Tables
pub mod Settings
pub mod Apply
pub mod Decide
pub mod Reopen
pub mod Draw
pub mod Kept
pub mod Sweep
pub mod Histories
pub mod Views
pub mod Sample
mod Tests

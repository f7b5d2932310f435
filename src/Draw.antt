-- ===== src/Draw.antt =====
-- packages/gate/src/draw.ts and draw-config.ts: the weighted draw and its settings.
pub mod Rng
pub mod Run
pub mod Config
pub mod Sample
mod Tests

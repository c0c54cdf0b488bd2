-- ===== src/Controller/Bounds.antt =====
-- The stored retry counters and their limits.
pub mod Steps
pub mod Handlers
pub mod Reconciling

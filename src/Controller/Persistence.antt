-- ===== src/Controller/Persistence.antt =====
-- The stored phase of a restore and the diagram of Controller/Graph.
pub mod Start
pub mod Handlers
pub mod Reconciling

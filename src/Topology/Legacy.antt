-- ===== src/Topology/Legacy.antt =====
-- frontend/topology-model.js, the adapter that makes a model from a report without a compact topology.
pub mod Address
pub mod Routes
pub mod Choice
pub mod Sums
pub mod Model
mod Tests

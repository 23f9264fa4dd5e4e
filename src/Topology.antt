-- ===== src/Topology.antt =====
-- The topology of a report: frontend/topology-model.js (what a view shows within its limits) and
-- frontend/topology-presentation.js.
pub mod Data
pub mod RouteOrder
pub mod Select
pub mod Present
pub mod Mount
pub mod View
pub mod Annotate
pub mod Plan
pub mod Legacy
mod Tests
mod AnnotateTests

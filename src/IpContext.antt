-- ===== src/IpContext.antt =====
-- frontend/state.js, the supplementary context of an address: what its answer may hold, and the controller
-- that asks for it.
pub mod Address
pub mod Number
pub mod Json
pub mod Schema
pub mod Parts
pub mod Controller
pub mod Request
pub mod Check
pub mod Reader
mod Tests
mod ReaderTests

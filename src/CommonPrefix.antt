-- ===== src/CommonPrefix.antt =====
-- frontend/common-prefix.js: the longest common prefix of a list of IP addresses, by family.
pub mod Parse
pub mod Format
pub mod Group
pub mod Report
pub mod RoundTrip
mod Tests

-- ===== src/Requests.antt =====
-- The requests of the web client: frontend/state.js (the state of a request, errors, the wire format
-- of API errors) and the part of frontend/app.js that drives them.
pub mod Errors
pub mod Lane
pub mod ApiError
pub mod Response
pub mod ApiBase
pub mod Inputs
mod Tests
mod ErrorTests
mod InputTests

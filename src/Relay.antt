-- ===== src/Relay.antt =====
-- server/relay/relay.js: the WebSocket to TCP relay.
pub mod Types
pub mod Resolve
pub mod Active
pub mod Connection
pub mod Steps
pub mod Permitted
pub mod Safety
pub mod Limit
pub mod Auth
pub mod Tests

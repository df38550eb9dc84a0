-- ===== src/Workload.antt =====
-- server/workloads/workload_protocol.js: the messages between a workload and the relay.
pub mod Bytes
pub mod Forbidden
pub mod Fields
pub mod Prompt
pub mod Messages
pub mod Rejection
pub mod PromptLimits
pub mod Token
pub mod TokenJob
pub mod Tests

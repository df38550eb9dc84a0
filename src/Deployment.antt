-- ===== src/Deployment.antt =====
-- server/config/deployment_config.js: the configuration of a deployment, its validator, and what
-- operators are shown of it.
pub mod Types
pub mod Strings
pub mod Urls
pub mod Validate
pub mod Shown
pub mod Accepted
pub mod Made
pub mod Tls
pub mod Secrets
pub mod Tests

-- ===== src/Partners.antt =====
-- Partner integrations: templates, endpoints, credentials, the adapters, workflows and webhooks.
pub mod Template
pub mod World
pub mod Endpoints
pub mod Auth
pub mod Requests
pub mod Xml
pub mod Adapters
pub mod Registry
pub mod Sftp
pub mod Integrations
pub mod Operations
pub mod Workflows
pub mod Discovery
pub mod Webhooks
pub mod Receiver
mod Tests

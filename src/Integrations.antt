-- ===== src/Integrations.antt =====
-- integrations/: the proxy between workspace containers and OpenConnector.
pub mod Lockout
pub mod Rows
pub mod Tokens
pub mod Connections
pub mod Bearer
pub mod Json
pub mod Sanitize
pub mod Providers
pub mod Remote
pub mod Rotation
pub mod Connect
pub mod McpRoute
pub mod Disconnect
pub mod Listing
pub mod Tests
pub mod Examples

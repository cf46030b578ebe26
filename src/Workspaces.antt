-- ===== src/Workspaces.antt =====
-- The workspaces feature (rust_gateway/src/workspaces).
pub mod Rows
pub mod Db
pub mod Reads
pub mod Writes
pub mod Invariant
pub mod Host
pub mod Docker
pub mod Lifecycle
pub mod Resolve
pub mod Diagnosis
pub mod Watch
pub mod Safety
pub mod Quiet
pub mod Operations
pub mod Creation
pub mod Listing
pub mod AgentCookie
pub mod WrapperProxy
pub mod Fake
pub mod Tests

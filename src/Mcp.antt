-- ===== src/Mcp.antt =====
-- src/screener/mcp: the authorization server behind the connector.
pub mod Tables
pub mod OAuth
pub mod Statements
pub mod Claims
pub mod Consistency
pub mod Rotation
pub mod Journey
pub mod Entitled
pub mod Clients
pub mod Redirects
mod Tests

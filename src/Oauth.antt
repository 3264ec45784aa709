-- ===== src/Oauth.antt =====
-- src/whatsvault/mcp/oauth.py: the authorization server of the public connector.
pub mod Schema
pub mod Clients
pub mod Authorize
pub mod Token
pub mod Http
mod Tests

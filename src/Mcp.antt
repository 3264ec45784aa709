-- ===== src/Mcp.antt =====
-- What a model may read, src/whatsvault/mcp.
pub mod Present
pub mod Acl
pub mod Reads
pub mod Gate
mod Tests

-- ===== src/Import.antt =====
-- The import of an exported chat: src/whatsvault/importers.
pub mod Fingerprint
pub mod Batch
pub mod Write
pub mod Undo
mod Tests

-- ===== src/Ingest.antt =====
-- What the vault makes of the events that the provider sends: src/whatsvault/ingest, and the daemon
-- src/apps/ingest that drains the queue into vault.db.
pub mod Status
pub mod Payload
pub mod Keys
pub mod Db
pub mod Dlq
pub mod Process
pub mod Evidence
pub mod Consumer
pub mod Queue
mod Tests

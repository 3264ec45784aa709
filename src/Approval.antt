-- ===== src/Approval.antt =====
-- The approval chain, src/whatsvault/approval/, over the approval tables of control.db.
pub mod Schema
pub mod Policy
pub mod Clock
pub mod Canonical
pub mod Devices
pub mod Sender
pub mod Grants
pub mod Drafts
pub mod Relay
pub mod Reconcile
pub mod Templates
mod Tests

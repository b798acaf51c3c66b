-- ===== src/Update.antt =====
-- internal/managerupdate: versions and their order, signed manifests, and the record of an update
-- that has not proved itself yet.
pub mod Errors
pub mod Version
pub mod Manifest
pub mod Recovery
pub mod Host
pub mod Client
pub mod Download
pub mod Coordinator
pub mod Installation
mod Examples
mod Trial

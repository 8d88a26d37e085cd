-- ===== src/Controller.antt =====
-- pkg/controller: the controller of TFJobs.
pub mod Util
pub mod Labels
pub mod Helper
pub mod Manage
pub mod Sync
pub mod Worker
pub mod Handlers
pub mod Wiring
pub mod Run

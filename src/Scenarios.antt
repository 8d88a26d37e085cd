-- ===== src/Scenarios.antt =====
-- A small platform and two jobs on it, and the theorems on them.
pub mod Fixtures
pub mod Jobs
pub mod Plans
pub mod Rounds
pub mod Statuses
pub mod Claims
pub mod Contention
pub mod Settling
pub mod Courses
pub mod Restarts
pub mod Isolation
pub mod Events
pub mod Runs
pub mod FirstSync

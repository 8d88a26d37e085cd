-- ===== src/Updater.antt =====
-- pkg/controller/updater: the status of a job. `Statuses` follows util.go; the two kinds of updater
-- are `Local` and `Distributed`. `Run` is how the controller calls them.
-- `Counts`, `Table`, `Phases`, `Stable` and `Single` prove what the status holds, `Life` what it is
-- over many updates, and `Metadata` that the job keeps its metadata.
pub mod Statuses
pub mod Local
pub mod Distributed
pub mod Run
pub mod Counts
pub mod Table
pub mod Phases
pub mod Single
pub mod Life
pub mod Stable
pub mod Metadata

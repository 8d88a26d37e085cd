-- ===== src/Ref.antt =====
-- pkg/controller/ref: claiming the services of a job. `Base` and `Service` follow the two files;
-- `Verdict` and `Spec` are the specification of a claim, which `Carried` follows for one service and
-- `Claimed` for ClaimServices. `Quiet` and `Adopt` prove what a claim does and leaves alone on any API
-- server, and `Within` that its requests are patches in the job's namespace.
pub mod Base
pub mod Service
pub mod Quiet
pub mod Adopt
pub mod Within
pub mod Verdict
pub mod Spec
pub mod Carried
pub mod Claimed

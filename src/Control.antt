-- ===== src/Control.antt =====
-- pkg/controller/control: `Validate` follows util.go, `Create` service.go and replicaset.go.
pub mod Validate
pub mod Create
pub mod Requests
pub mod Within

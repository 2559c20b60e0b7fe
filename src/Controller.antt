-- ===== src/Controller.antt =====
-- The reconciler (internal/controller/kubenova_controller.go). Cluster is what it assumes of the
-- Kubernetes client, Action the monad of its methods; the other children hold the methods.
pub mod Cluster
pub mod Action
pub mod Compare
pub mod Status
pub mod Ensure
pub mod Nodes
pub mod Resources
pub mod Workloads
pub mod Components
pub mod Reconcile

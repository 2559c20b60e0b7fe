-- ===== src/Controller/Reconcile/FramePass.antt =====
-- A pass leaves the object in memory alone but for its status
-- (internal/controller/kubenova_controller.go).
use kube_nova_operator.Controller.Cluster.{Cluster}

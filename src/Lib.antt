-- ===== src/Lib.antt =====
-- A verification of the Kube-Nova operator, a Kubernetes operator that deploys the Kube-Nova
-- platform from one custom resource.
--
-- The program. A user writes a KubeNova (api/v1/kubenova_types.go). For each change the reconciler
-- (internal/controller/kubenova_controller.go) reads it, has it validated
-- (internal/validator/validator.go), has the objects built that it asks for (internal/builder), and
-- creates or updates them through the client of controller-runtime; then it reads back how many
-- replicas are ready and writes the phase into the status. The builders and the validator are pure;
-- all state is the API server's, and the copy of the KubeNova that a pass holds in memory.
--
-- The files. Prelude holds what the parts share: integers and their print, Go's maps as association
-- lists with their laws, errors as values. Kube has the records of the Kubernetes objects, with the
-- fields that the operator names. Api is api/v1/kubenova_types.go: Spec and Status its types, Methods
-- and Endpoints its methods. Validator is the validator, and Validator.Sound what it accepts.
-- Builder is internal/builder: Checksum (common.go), Rbac (rbac.go), Secret (secret.go), ConfigMaps
-- (configmap.go), Service (service.go), Web (web.go) and Web.Nginx (nginx.go). Controller is the
-- reconciler: Cluster the outside as a parameter, Action the monad of its methods, Compare
-- (deploymentSpecEqual and its helpers), Status (setStatusPhase, updateStatusWithRetry), Ensure (the
-- pattern get, create or update), Nodes (getNodeIP, getWebNodePort), Resources (reconcileNamespace,
-- reconcileRBAC, reconcileSecret, reconcileConfigMaps), Workloads (reconcileServices, reconcileWeb),
-- Components (checkComponentStatus, updateAccessInfo) and Reconcile (Reconcile, reconcileDelete,
-- reconcileValidation). Manager is the program entry (cmd/main.go) with SetupWithManager: Flags the command
-- line, Options the options of the servers, Start main itself. A function keeps its name, in the spelling get_node_ip for getNodeIP. Tests
-- has a configuration, a small API server, and each theorem at them.
--
-- The outside. The API server, the clock, the pause, and the calls of controllerutil, meta and
-- errors are fields of the record Cluster. A call takes the world and returns an answer and the next
-- world, of which nothing is assumed: other writers may act in between. What a theorem needs of it is
-- a named hypothesis, which the server of Tests satisfies. SHA-256 and the equality of quantities
-- are parameters too, and so is the order in which a Go map is visited.
--
-- The state. A method is an Action: it runs on a Session, which is the world and the KubeNova in
-- memory, and ends with a value, an error or a panic. The panics of the source that are modelled are the
-- dereference of a replica count in checkComponentStatus, the write into its nil map of component
-- states, and in updateAccessInfo the dereference of the access information and the write into its nil
-- map of endpoints; the guards that make the maps are definitions of their own. Action.Rules,
-- Action.Ensures, Action.Total, Action.Runs and Action.Sure have one rule for each way to build a method.
--
-- Loops. All loops are over lists, except the three rounds of updateStatusWithRetry, which recurse
-- on the rounds that are left, three at the start as in the source; that they suffice is a theorem.
-- Numbers of the specification are integers without wrap-around, since the code compares and prints
-- them and does no arithmetic on them. Times are natural numbers.
--
-- The whole. Controller.Reconcile.Realised puts the stages together: each stage is shown to leave
-- stored what it writes (Controller.Ensure, Controller.Workloads), and no later one to undo it; the
-- hypotheses on the API server are the record ServerLaws. Of a Deployment this speaks of what the
-- operator compares, StoredAs: the API server may fill in the rest, and the comparison does not see
-- the sources of the volumes. Controller.Reconcile.NilMaps has that the guards exclude the nil maps. Controller.Reconcile.Kept has the same for any relation that
-- the calls of a pass keep.
--
-- Histories. Controller.Reconcile.Guard.Reach has the histories of one object: passes of Reconcile and
-- steps of other writers, in any order.
--
-- Not modelled: the generated deep copies and the registration of the API group (calls of
-- apimachinery), tests, manifests, log lines and the logger, and the pointer helpers of common.go. Of
-- Go's flag package the model has what the program uses. Phases and component states are data types,
-- since the code writes and compares only the named constants.
pub mod Prelude
pub mod Kube
pub mod Api
pub mod Validator
pub mod Builder
pub mod Controller
pub mod Manager
pub mod Tests

-- ===== src/Reconciler.antt =====
-- internal/controller/workbenches_controller.go
pub mod Cluster
pub mod Namespaces
pub mod Deployments
pub mod Status
pub mod Ready
pub mod Ingress
pub mod ImageStreams
pub mod Loop
pub mod Watches

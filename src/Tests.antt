-- ===== src/Tests.antt =====
-- Runs of the model at concrete objects, and the theorems at concrete data.
mod Fixtures
mod Connection
mod HardwareProfile
mod Tls
mod Paths
mod Watches
mod Probes
mod Merge
mod Status
mod Cluster
mod Reconciler
mod PlatformConfig

-- ===== src/Tls.antt =====
-- internal/webhook/tls: which provider issues the certificates of the webhooks (detect.go), and the
-- objects that this needs in the cluster (ensure.go).
pub mod Detect
pub mod Owner
pub mod Client
pub mod Ensure

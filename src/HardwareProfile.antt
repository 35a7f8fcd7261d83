-- ===== src/HardwareProfile.antt =====
-- internal/webhook/hardwareprofile/mutating.go: the webhook that applies a HardwareProfile to a
-- Notebook: resource requests, dynamic resource claims, and its scheduling.
pub mod Metadata
pub mod Tolerations
pub mod NodeSelector
pub mod Claims
pub mod NotebookClaims
pub mod Injector
pub mod Resources
pub mod Apply
pub mod Removal
pub mod OldObject
pub mod Containers
pub mod Webhook

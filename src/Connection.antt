-- ===== src/Connection.antt =====
-- internal/webhook/notebook/mutating.go: the webhook that injects the connection secrets of the
-- annotation opendatahub.io/connections into the first container of a Notebook.
pub mod Reference
pub mod Annotation
pub mod Actions
pub mod EnvFrom
pub mod Checks
pub mod Webhook

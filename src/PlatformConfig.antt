-- ===== src/PlatformConfig.antt =====
-- internal/platformconfig/config.go: `Distribution` models the distribution and the platform version
-- that the platform puts into the ConfigMap odh-workbenches-config, `Releases` the platform's entry of
-- the releases. `Predicate` is internal/controller/platform_config_predicate.go.
pub mod Distribution
pub mod Releases
pub mod Predicate

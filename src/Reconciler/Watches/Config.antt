-- ===== src/Reconciler/Watches/Config.antt =====
-- No change of the ConfigMap that a reconcile reads is lost on the way to the reconciler.
use workbenches_operator.Prelude.{
  String, ◌==◌, eq_refl, ◌≡◌, Bool-cases, inl, inr, true, contains, not,
}
use workbenches_operator.Errors.{Result, ok, err}
use workbenches_operator.Api.{Workbenches, workbenches_instance_name}
use workbenches_operator.Platform.{default_applications_namespace, self_managed_rhoai}
use workbenches_operator.PlatformConfig.Distribution.{config_map_name}
use workbenches_operator.PlatformConfig.Predicate.{
  ConfigMap, config_map, update, config_changed, platform_config_value, matches, value_changed,
}
use workbenches_operator.Reconciler.Cluster.{Cluster}
use workbenches_operator.Reconciler.Namespaces.{
  Settings, configured_applications_namespace, resolve_operand_namespace,
  platform_config_watch_namespaces,
}
use workbenches_operator.Reconciler.Watches.{
  map_platform_config_to_workbenches, map_config_map, instance_request,
}

-- The operands' namespace is watched, whatever the platform is.
pub contains-resolve_operand_namespace :
    (settings : Settings) (platform : String)
    → contains
        (resolve_operand_namespace settings platform)
        (platform_config_watch_namespaces settings)
      ≡ true
unfolding resolve_operand_namespace platform_config_watch_namespaces default_applications_namespace
contains-resolve_operand_namespace settings platform =
    elim (Bool-cases (configured_applications_namespace settings == "")) [
      | inl unset ↦ elim (Bool-cases (platform == self_managed_rhoai)) [
        | inl managed ↦ rw (unset, managed)
        | inr other ↦ rw (unset, other)
      ]
      | inr set ↦ rw (set, eq_refl (configured_applications_namespace settings))
    ]

-- What is stored has this platform, if it can be read.
abbrev pub HasPlatform : String → Result Workbenches → Type 0
HasPlatform platform (err e) = Unit
HasPlatform platform (ok wb) = wb.spec.platform ≡ platform

map_config_map-instance :
    (settings : Settings) (cm : ConfigMap) (platform : String) (found : Result Workbenches)
    → HasPlatform platform found
    → cm.namespace ≡ resolve_operand_namespace settings platform
    → map_config_map settings cm found ≡ instance_request
unfolding map_config_map
map_config_map-instance settings cm platform (err e) stored there =
    rw (there, contains-resolve_operand_namespace settings platform)
map_config_map-instance settings cm platform (ok wb) stored there =
    rw (stored, there, eq_refl (resolve_operand_namespace settings platform))

-- What becomes of an update of the ConfigMap.
pub record Heard {S : Type 0} (cluster : Cluster S) (settings : Settings) (s : S)
    (old new : ConfigMap) : Type 0 where
  -- it is passed on exactly if the operator's value changes
  pub passed :
      config_changed
        (platform_config_watch_namespaces settings)
        (update (config_map old) (config_map new))
      ≡ not (platform_config_value old == platform_config_value new)
  -- and then requests a reconcile of the object
  pub requested :
      map_platform_config_to_workbenches cluster settings (config_map new) s ≡ instance_request

-- If the Workbenches object has a given platform or cannot be read, an update of the
-- configuration's ConfigMap in the operands' namespace of that platform passes the predicate of the
-- watch exactly if the operator's value of it changes, and is mapped to a request for the object.
pub map_platform_config_to_workbenches-Heard :
    {S : Type 0} (cluster : Cluster S) (settings : Settings) (s : S) (platform : String)
    → HasPlatform platform (cluster.get_workbenches s workbenches_instance_name)
    → (old new : ConfigMap) → new.name ≡ config_map_name
    → new.namespace ≡ resolve_operand_namespace settings platform
    → Heard cluster settings s old new
unfolding config_changed matches value_changed map_platform_config_to_workbenches
map_platform_config_to_workbenches-Heard cluster settings s platform stored old new named there =
    record {
      passed = rw (named, there, contains-resolve_operand_namespace settings platform);
      requested = rw named (map_config_map-instance settings new platform _ stored there);
    }

-- ===== src/PlatformConfig/Predicate.antt =====
-- internal/controller/platform_config_predicate.go: which events of ConfigMaps call the reconciler.
pub mod Dropped
use workbenches_operator.Prelude.{
  String, ◌<>◌, ◌==◌, Bool, true, false, not, Option, none, some, List, contains, or_default,
  if◌then◌else◌,
}
use workbenches_operator.Prelude.Text.{trim_space}
use workbenches_operator.Dict.{StringMap, lookup}
use workbenches_operator.PlatformConfig.Distribution.{
  config_map_name, distribution_name_key, distribution_version_key, version_data_key,
}

-- An object of the events: a ConfigMap with its data, or one of another type.
pub record ConfigMap : Type 0 where
  pub name : String
  pub namespace : String
  pub values : Option StringMap

pub data Object : Type 0 where
  config_map : ConfigMap → Object
  other_object : Object

pub data Event : Type 0 where
  create : Object → Event
  -- the old object and the new one
  update : Object → Object → Event
  delete : Object → Event
  generic : Object → Event

abbrev pub trimmed : String → StringMap → String
trimmed key values = trim_space (or_default "" (lookup key values))

unfoldable pub platform_config_value : ConfigMap → String
platform_config_value cm = elim cm.values [
  | none ↦ ""
  | some values ↦
      trimmed distribution_name_key values
      <> ("\0"
          <> (trimmed distribution_version_key values <> ("\0" <> trimmed version_data_key values)))
]

unfoldable pub matches : List String → Object → Bool
matches namespaces other_object = false
matches namespaces (config_map cm) =
    if cm.name == config_map_name then contains cm.namespace namespaces else false

unfoldable pub value_changed : Object → Object → Bool
unfolding platform_config_value
value_changed (config_map old) (config_map new) =
    not (platform_config_value old == platform_config_value new)
value_changed _ _ = true

-- `Create`, `Update`, `Delete` and `Generic`.
unfoldable pub config_changed : List String → Event → Bool
unfolding matches value_changed
config_changed namespaces (create object) = matches namespaces object
config_changed namespaces (update old new) =
    if matches namespaces new then value_changed old new else false
config_changed namespaces (delete object) = matches namespaces object
config_changed namespaces (generic object) = false

-- ===== src/Reconciler/Watches.antt =====
-- The watches of internal/controller/workbenches_controller.go: which events of other objects call the
-- reconciler. A request is the name of the object to reconcile, which has no namespace.
pub mod Availability
pub mod Config
use workbenches_operator.Prelude.{
  String, ◌==◌, Bool, true, false, not, ◌||◌, Option, none, some, List, [], ◌∷◌, contains,
  if◌then◌else◌,
}
use workbenches_operator.Errors.{Error, Result, ok, err}
use workbenches_operator.Dict.{StringMap}
use workbenches_operator.Metadata.{
  component_label_key, part_of_label_key, component_label_value, label_true, label_value,
}
use workbenches_operator.Api.{Workbenches, workbenches_instance_name}
use workbenches_operator.PlatformConfig.Distribution.{config_map_name}
use workbenches_operator.PlatformConfig.Predicate.{ConfigMap, Object, config_map, other_object}
use workbenches_operator.Reconciler.Cluster.{Deployment, Cluster}
use workbenches_operator.Reconciler.Namespaces.{
  Settings, resolve_operand_namespace, platform_config_watch_namespaces,
}
use workbenches_operator.Reconciler.Deployments.{deployment_desired_replicas}
use workbenches_operator.Reconciler.Ingress.{ne_int}

-- An object that the reconciler owns: a Deployment, or one of another type with its labels.
pub data Operand : Type 0 where
  deployment : Deployment → Operand
  other_operand : StringMap → Operand

pub data OperandEvent : Type 0 where
  created : Operand → OperandEvent
  -- the old object and the new one
  updated : Operand → Operand → OperandEvent
  deleted : Operand → OperandEvent
  generic_event : OperandEvent

abbrev pub operand_labels : Operand → StringMap
operand_labels (deployment d) = d.labels
operand_labels (other_operand labels) = labels

abbrev pub has_component_label : StringMap → Bool
has_component_label labels = label_value component_label_key labels == label_true

-- The comparison at the end of `Update`.
unfoldable pub replicas_changed : Operand → Operand → Bool
replicas_changed (deployment old) (deployment new) =
    ne_int old.ready_replicas new.ready_replicas
    || ne_int old.available_replicas new.available_replicas
    || ne_int old.observed_generation new.observed_generation
    || ne_int old.updated_replicas new.updated_replicas
    || ne_int old.replicas new.replicas
    || ne_int (deployment_desired_replicas old) (deployment_desired_replicas new)
replicas_changed _ _ = true

abbrev same_bool : Bool → Bool → Bool
same_bool true b = b
same_bool false b = not b

unfoldable pub availability_updated : Operand → Operand → Bool
unfolding replicas_changed
availability_updated old new =
    let has_old = has_component_label (operand_labels old) in
    let has_new = has_component_label (operand_labels new) in
    if not (same_bool has_old has_new)
    then true
    else if not has_new
    then false
    else replicas_changed old new

-- `Create`, `Update`, `Delete` and `Generic` of `deploymentAvailabilityChangedPredicate`.
unfoldable pub availability_changed : OperandEvent → Bool
unfolding availability_updated
availability_changed (created object) = has_component_label (operand_labels object)
availability_changed (updated old new) = availability_updated old new
availability_changed (deleted object) = has_component_label (operand_labels object)
availability_changed generic_event = false

-- The labels of an object, which may be nil.
unfoldable pub is_managed_part_of_label : Option StringMap → Bool
is_managed_part_of_label none = false
is_managed_part_of_label (some labels) =
    label_value part_of_label_key labels == component_label_value

abbrev pub instance_request : List String
instance_request = workbenches_instance_name ∷ []

unfoldable pub map_image_stream_to_workbenches : Option StringMap → List String
map_image_stream_to_workbenches labels = instance_request

-- From the error of the mapping of image streams, and the test of the error.
unfoldable pub should_watch_image_streams : (Error → Bool) → Option Error → Result Bool
should_watch_image_streams is_no_match_error none = ok true
should_watch_image_streams is_no_match_error (some e) =
    if is_no_match_error e then ok false else err e

-- From the object that is stored.
unfoldable pub map_config_map : Settings → ConfigMap → Result Workbenches → List String
map_config_map settings cm (err e) =
    if contains cm.namespace (platform_config_watch_namespaces settings)
    then instance_request
    else []
map_config_map settings cm (ok wb) =
    if not (cm.namespace == resolve_operand_namespace settings wb.spec.platform)
    then []
    else instance_request

unfoldable pub map_platform_config_to_workbenches :
    {S : Type 0} → Cluster S → Settings → Object → S → List String
unfolding map_config_map
map_platform_config_to_workbenches cluster settings other_object s = []
map_platform_config_to_workbenches cluster settings (config_map cm) s =
    if not (cm.name == config_map_name)
    then []
    else map_config_map settings cm (cluster.get_workbenches s workbenches_instance_name)

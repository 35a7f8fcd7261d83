-- ===== src/Tests/Watches.antt =====
-- Runs of the watches, and their theorems at concrete data.
use workbenches_operator.Prelude.{String, ◌≡◌, refl, true, false, none, some, List, [], ◌∷◌, keep}
use workbenches_operator.Prelude.Text.{trim_space}
use workbenches_operator.Json.{pos}
use workbenches_operator.Integer.{eq_int}
use workbenches_operator.Errors.{not_found, is_not_found, ok}
use workbenches_operator.Dict.{lookup}
use workbenches_operator.Platform.{default_applications_namespace, valid_applications_namespace}
use workbenches_operator.PlatformConfig.Predicate.{ConfigMap, config_map}
use workbenches_operator.Reconciler.Cluster.{Deployment}
use workbenches_operator.Reconciler.Deployments.{deployments_availability}
use workbenches_operator.Reconciler.Namespaces.{resolve_operand_namespace}
use workbenches_operator.Reconciler.Watches.{
  deployment, other_operand, created, updated, deleted, generic_event, availability_changed,
  is_managed_part_of_label, map_image_stream_to_workbenches, should_watch_image_streams,
  map_platform_config_to_workbenches,
}
use workbenches_operator.Reconciler.Watches.Availability.{
  labelled, availability_changed-deployments_availability,
}
use workbenches_operator.Reconciler.Watches.Config.{Heard, map_platform_config_to_workbenches-Heard}
use workbenches_operator.Tests.Cluster.{format, controller, cluster, env, start}

-- A listed deployment, and the same one after a change of its annotations.
abbrev running : Deployment
running = record (controller "odh-notebook-controller") {
  labels = ("app.opendatahub.io/workbenches", "true") ∷ [];
}

abbrev annotated : Deployment
annotated = record running { template_annotations = [] }

abbrev ready_again : Deployment
ready_again = record running { ready_replicas = pos 0 }

dropped : availability_changed (updated (deployment running) (deployment annotated)) ≡ false
unfolding availability_changed lookup eq_int
dropped = refl

availability_changed-deployments_availability_example :
    deployments_availability format (keep labelled (ready_again ∷ running ∷ []))
    ≡ deployments_availability format (keep labelled (ready_again ∷ annotated ∷ []))
availability_changed-deployments_availability_example =
    availability_changed-deployments_availability format running annotated refl refl dropped
      (ready_again ∷ []) []

passed_on : availability_changed (updated (deployment running) (deployment ready_again)) ≡ true
unfolding availability_changed lookup eq_int
passed_on = refl

abbrev labels_lost : List (String × String)
labels_lost = []

unlabelled : availability_changed (updated (deployment running) (other_operand labels_lost)) ≡ true
unfolding availability_changed lookup
unlabelled = refl

created_without : availability_changed (created (other_operand labels_lost)) ≡ false
unfolding availability_changed lookup
created_without = refl

deleted_with : availability_changed (deleted (deployment running)) ≡ true
unfolding availability_changed lookup
deleted_with = refl

ignored : availability_changed generic_event ≡ false
unfolding availability_changed
ignored = refl

managed_stream :
    is_managed_part_of_label (some (("app.kubernetes.io/part-of", "workbenches") ∷ [])) ≡ true
unfolding is_managed_part_of_label lookup
managed_stream = refl

requests_instance : map_image_stream_to_workbenches none ≡ "default-workbenches" ∷ []
unfolding map_image_stream_to_workbenches
requests_instance = refl

no_image_streams : should_watch_image_streams is_not_found (some (not_found "no match")) ≡ ok false
unfolding should_watch_image_streams is_not_found
no_image_streams = refl

-- The ConfigMap in the namespace of Open Data Hub, and that of the other platform.
abbrev configuration : String → ConfigMap
configuration namespace = record {
  name = "odh-workbenches-config";
  namespace = namespace;
  values = start.config;
}

elsewhere :
    map_platform_config_to_workbenches cluster env.settings
      (config_map (configuration "redhat-ods-applications"))
      start
    ≡ []
unfolding map_platform_config_to_workbenches resolve_operand_namespace trim_space
    valid_applications_namespace default_applications_namespace
elsewhere = refl

placed : "opendatahub" ≡ resolve_operand_namespace env.settings "OpenDataHub"
unfolding resolve_operand_namespace trim_space valid_applications_namespace
    default_applications_namespace
placed = refl

map_platform_config_to_workbenches-Heard_example :
    Heard cluster env.settings start
      (record (configuration "opendatahub") { values = none })
      (configuration "opendatahub")
map_platform_config_to_workbenches-Heard_example =
    map_platform_config_to_workbenches-Heard cluster env.settings start "OpenDataHub" refl
      (record (configuration "opendatahub") { values = none }) (configuration "opendatahub") refl
      placed

-- ===== src/Reconciler/Namespaces.antt =====
-- The namespaces of the operands: their names, and that they exist with the operator's label.
pub mod Labels
use workbenches_operator.Prelude.{
  String, ◌<>◌, ◌==◌, Bool, true, false, not, ◌&&◌, Option, none, some, List, [], ◌∷◌, or_default,
  if◌then◌else◌,
}
use workbenches_operator.Errors.{failure, is_not_found, Result, ok, err, wrap}
use workbenches_operator.Json.{pos}
use workbenches_operator.Phase.{gt}
use workbenches_operator.Format.{Format}
use workbenches_operator.Dict.{StringMap, insert}
use workbenches_operator.Metadata.{owned_namespace_label, label_true, label_value}
use workbenches_operator.Platform.{
  is_valid, section_title, valid_applications_namespace, default_applications_namespace,
  default_legacy_workbench_namespace, default_applications_namespace_odh,
  default_applications_namespace_rhoai, open_data_hub, self_managed_rhoai,
}
use workbenches_operator.Api.{Workbenches, WorkbenchesSpec}
use workbenches_operator.Tls.Client.{wrap_run}
use workbenches_operator.Reconciler.Cluster.{Cluster}

-- What the reconciler is set up with: APPLICATIONS_NAMESPACE, and the check of a DNS label.
pub record Settings : Type 0 where
  pub applications_namespace : String
  pub label_errors : String → List String

abbrev pub configured_applications_namespace : Settings → String
configured_applications_namespace settings =
    valid_applications_namespace settings.label_errors settings.applications_namespace

unfoldable pub resolve_operand_namespace : Settings → String → String
resolve_operand_namespace settings platform_type =
    if configured_applications_namespace settings == ""
    then default_applications_namespace platform_type
    else configured_applications_namespace settings

unfoldable pub platform_config_watch_namespaces : Settings → List String
platform_config_watch_namespaces settings =
    if configured_applications_namespace settings == ""
    then default_applications_namespace_odh ∷ default_applications_namespace_rhoai ∷ []
    else configured_applications_namespace settings ∷ []

unfoldable pub resolve_legacy_workbench_namespace : WorkbenchesSpec → String
resolve_legacy_workbench_namespace spec =
    if spec.workbench_namespace == ""
    then default_legacy_workbench_namespace spec.platform
    else spec.workbench_namespace

unfoldable pub set_status_namespaces : Workbenches → String → Workbenches
set_status_namespaces wb apps_namespace = record wb {
  status = record wb.status {
    applications_namespace = apps_namespace;
    workbench_namespace = wb.spec.workbench_namespace;
  };
}

abbrev bool_text : Bool → String
bool_text true = "true"
bool_text false = "false"

unfoldable pub compute_kustomize_params : WorkbenchesSpec → StringMap
compute_kustomize_params spec =
    ("section-title", section_title spec.platform)
    ∷ ("mlflow-enabled", bool_text spec.mlflow_enabled)
    ∷ ("gateway-url", spec.gateway_domain)
    ∷ []

abbrev validate_platform : Format → String → Result (Unit {0})
validate_platform format platform =
    if not (platform == "") && not (is_valid platform)
    then err (
        failure (
          "unsupported platform "
          <> (format.quote platform
              <> (", must be one of: " <> (open_data_hub <> (", " <> self_managed_rhoai))))))
    else ok tt

unfoldable pub validate_spec : Format → WorkbenchesSpec → Result (Unit {0})
validate_spec format spec = elim (spec.odh_notebook_controller_probe) [
  | none ↦ validate_platform format spec.platform
  | some probe ↦
      if gt (pos 1) probe.timeout_seconds
      then err (
          failure (
            "odhNotebookControllerProbe.timeoutSeconds must be at least 1 second, got "
            <> format.show_int probe.timeout_seconds))
      else validate_platform format spec.platform
]

module _ {S : Type 0} (cluster : Cluster S) where
  -- `ensureGeneratedNamespace` where the namespace has these labels.
  label_namespace : String → StringMap → S → S × Result (Unit {0})
  label_namespace name labels s =
      if label_value owned_namespace_label labels == label_true
      then (s, ok tt)
      else wrap_run ("failed to update namespace " <> (name <> " labels"))
          (cluster.update_namespace s name (insert owned_namespace_label label_true labels))

  ensure_from : String → Result (Option StringMap) → S → S × Result (Unit {0})
  unfolding label_namespace
  ensure_from name (err e) s =
      if is_not_found e
      then wrap_run ("failed to create namespace " <> name)
          (cluster.create_namespace s name ((owned_namespace_label, label_true) ∷ []))
      else (s, err (wrap ("failed to get namespace " <> name) e))
  ensure_from name (ok labels) s = label_namespace name (or_default [] labels) s

  unfoldable pub ensure_generated_namespace : String → S → S × Result (Unit {0})
  unfolding ensure_from
  ensure_generated_namespace name s = ensure_from name (cluster.get_namespace s name) s

  ensure_legacy : String → String → S × Result (Unit {0}) → S × Result (Unit {0})
  ensure_legacy legacy apps (s, err e) = (s, err (wrap "applications namespace" e))
  ensure_legacy legacy apps (s, ok _) =
      if legacy == apps
      then (s, ok tt)
      else wrap_run "legacy workbench namespace" (ensure_generated_namespace legacy s)

  unfoldable pub configure_dependencies : Settings → WorkbenchesSpec → S → S × Result (Unit {0})
  unfolding ensure_legacy
  configure_dependencies settings spec s =
      let apps = resolve_operand_namespace settings spec.platform in
      ensure_legacy (resolve_legacy_workbench_namespace spec) apps
        (ensure_generated_namespace apps s)

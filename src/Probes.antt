-- ===== src/Probes.antt =====
-- internal/controller/probes.go: the timeout of the probes in the settings of the notebook controller.
pub mod Settings
use workbenches_operator.Prelude.{
  String, ◌==◌, Bool, ◌&&◌, Option, none, some, List, [], ◌∷◌, ◌++◌, if◌then◌else◌, ◌<>◌,
}
use workbenches_operator.Errors.{Result, ok, err, wrap_err, ◌>>=◌}
use workbenches_operator.Json.{str, obj, Fields, end, field}
use workbenches_operator.Format.{Format}
use workbenches_operator.Unstructured.{Unstructured, FieldPath}
use workbenches_operator.Api.{OdhNotebookControllerProbeSpec}

abbrev pub notebook_controller_settings_config_map : String
notebook_controller_settings_config_map = "notebook-controller-setting-config"

abbrev pub workbench_probe_timeout_key : String
workbench_probe_timeout_key = "WORKBENCH_PROBE_TIMEOUT_SECONDS"

abbrev pub kubernetes_default_probe_timeout : String
kubernetes_default_probe_timeout = "1"

abbrev pub timeout_path : FieldPath
timeout_path = "data" ∷ workbench_probe_timeout_key ∷ []

unfoldable pub probe_timeout : Format → Option OdhNotebookControllerProbeSpec → String
probe_timeout format none = kubernetes_default_probe_timeout
probe_timeout format (some probes) = format.show_int probes.timeout_seconds

unfoldable pub is_settings : Unstructured → String → Fields → Bool
is_settings u namespace object =
    u.get_api_version object == "v1"
    && u.get_kind object == "ConfigMap"
    && u.get_name object == notebook_controller_settings_config_map
    && u.get_namespace object == namespace

-- The object behind the others where the settings are not among them.
abbrev pub settings_object : String → String → Fields
settings_object timeout namespace = field "apiVersion" (str "v1") (
    field "kind" (str "ConfigMap") (
      field "metadata"
        (obj (
          field "name" (str notebook_controller_settings_config_map)
            (field "namespace" (str namespace) end)))
        (field "data" (obj (field workbench_probe_timeout_key (str timeout) end)) end)))

-- The loop over the objects: it ends at the first one that is the settings.
unfoldable pub set_timeout : Unstructured → String → String → List Fields → Result (List Fields)
set_timeout u timeout namespace [] = ok (settings_object timeout namespace ∷ [])
set_timeout u timeout namespace (object ∷ objects) =
    let rest = set_timeout u timeout namespace objects in
    if is_settings u namespace object
    then (do
      object' ←
          wrap_err ("setting " <> workbench_probe_timeout_key)
            (u.set_nested_field object (str timeout) timeout_path)
      ok (object' ∷ objects))
    else (do objects' ← rest; ok (object ∷ objects'))

unfoldable pub configure_workbench_probes :
    Unstructured
    → Format
    → List Fields
    → Option OdhNotebookControllerProbeSpec
    → String
    → Result (List Fields)
unfolding set_timeout probe_timeout
configure_workbench_probes u format objects probes namespace =
    set_timeout u (probe_timeout format probes) namespace objects

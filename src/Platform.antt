-- ===== src/Platform.antt =====
-- internal/platform/platform.go: the platform types and the namespaces that they stand for.
pub mod Namespace
use workbenches_operator.Prelude.{
  String, ◌==◌, Bool, true, false, not, ◌&&◌, ◌||◌, List, if◌then◌else◌, is_empty,
}
use workbenches_operator.Prelude.Text.{trim_space}

abbrev pub open_data_hub : String
open_data_hub = "OpenDataHub"

abbrev pub self_managed_rhoai : String
self_managed_rhoai = "SelfManagedRhoai"

abbrev pub default_applications_namespace_odh : String
default_applications_namespace_odh = "opendatahub"

abbrev pub default_applications_namespace_rhoai : String
default_applications_namespace_rhoai = "redhat-ods-applications"

abbrev pub legacy_workbench_namespace_odh : String
legacy_workbench_namespace_odh = default_applications_namespace_odh

abbrev pub legacy_workbench_namespace_rhoai : String
legacy_workbench_namespace_rhoai = "rhods-notebooks"

unfoldable pub is_valid : String → Bool
is_valid platform_type = platform_type == open_data_hub || platform_type == self_managed_rhoai

-- The map of titles, and the title of Open Data Hub where a type has none.
unfoldable pub section_title : String → String
section_title platform_type =
    if platform_type == self_managed_rhoai
    then "OpenShift Self Managed Services"
    else "OpenShift Open Data Hub"

-- The errors of `validation.IsDNS1123Label` are an argument.
unfoldable pub valid_applications_namespace : (String → List String) → String → String
valid_applications_namespace label_errors name =
    let trimmed = trim_space name in
    if not (trimmed == "") && is_empty (label_errors trimmed) then trimmed else ""

unfoldable pub default_applications_namespace : String → String
default_applications_namespace platform_type =
    if platform_type == self_managed_rhoai
    then default_applications_namespace_rhoai
    else default_applications_namespace_odh

unfoldable pub default_legacy_workbench_namespace : String → String
default_legacy_workbench_namespace platform_type =
    if platform_type == self_managed_rhoai
    then legacy_workbench_namespace_rhoai
    else legacy_workbench_namespace_odh

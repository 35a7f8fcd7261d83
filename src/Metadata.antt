-- ===== src/Metadata.antt =====
-- internal/metadata: the annotations and labels that the webhooks and the reconciler read, and
-- `getAnnotation`.
use workbenches_operator.Prelude.{String, none, some, or_default}
use workbenches_operator.Json.{Fields}
use workbenches_operator.Dict.{lookup, StringMap}
use workbenches_operator.Unstructured.{Unstructured}

abbrev pub connection_annotation : String
connection_annotation = "opendatahub.io/connections"

abbrev pub hardware_profile_name_annotation : String
hardware_profile_name_annotation = "opendatahub.io/hardware-profile-name"

abbrev pub hardware_profile_namespace_annotation : String
hardware_profile_namespace_annotation = "opendatahub.io/hardware-profile-namespace"

-- A nil map and a missing key both give the empty text.
unfoldable pub get_annotation : Unstructured → Fields → String → String
get_annotation u object key = elim (u.get_annotations object) [
  | none ↦ ""
  | some annotations ↦ or_default "" (lookup key annotations)
]

-- internal/metadata/labels.go, and the annotation of the ingress contract.
abbrev pub owned_namespace_label : String
owned_namespace_label = "opendatahub.io/generated-namespace"

abbrev pub component_label_key : String
component_label_key = "app.opendatahub.io/workbenches"

abbrev pub part_of_label_key : String
part_of_label_key = "app.kubernetes.io/part-of"

abbrev pub component_label_value : String
component_label_value = "workbenches"

abbrev pub label_true : String
label_true = "true"

abbrev pub component_name_label_key : String
component_name_label_key = "component.opendatahub.io/name"

abbrev pub ingress_contract_annotation_key : String
ingress_contract_annotation_key = "opendatahub.io/ingress-contract"

-- The value under a key of labels or annotations; a nil map and a missing key give an empty text.
abbrev pub label_value : String → StringMap → String
label_value key labels = or_default "" (lookup key labels)

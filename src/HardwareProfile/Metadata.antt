-- ===== src/HardwareProfile/Metadata.antt =====
-- `setAnnotation`, `removeAnnotation`, `getLabel`, `setLabel`, `removeLabel`, and the field paths.
use workbenches_operator.Prelude.{String, none, some, [], ◌∷◌, or_default}
use workbenches_operator.Json.{Fields}
use workbenches_operator.Dict.{lookup, insert, remove}
use workbenches_operator.Unstructured.{Unstructured, FieldPath}

abbrev pub containers_path : FieldPath
containers_path = "spec" ∷ "template" ∷ "spec" ∷ "containers" ∷ []

abbrev pub node_selector_path : FieldPath
node_selector_path = "spec" ∷ "template" ∷ "spec" ∷ "nodeSelector" ∷ []

abbrev pub tolerations_path : FieldPath
tolerations_path = "spec" ∷ "template" ∷ "spec" ∷ "tolerations" ∷ []

abbrev pub resource_claims_path : FieldPath
resource_claims_path = "spec" ∷ "template" ∷ "spec" ∷ "resourceClaims" ∷ []

abbrev pub kueue_queue_name_label : String
kueue_queue_name_label = "kueue.x-k8s.io/queue-name"

abbrev pub dra_claim_name : String
dra_claim_name = "hwp-dra"

module _ (u : Unstructured) where
  unfoldable pub set_annotation : Fields → String → String → Fields
  set_annotation object key value =
      u.set_annotations object (insert key value (or_default [] (u.get_annotations object)))

  unfoldable pub remove_annotation : Fields → String → Fields
  remove_annotation object key = elim (u.get_annotations object) [
    | none ↦ object
    | some annotations ↦ u.set_annotations object (remove key annotations)
  ]

  unfoldable pub get_label : Fields → String → String
  get_label object key = elim (u.get_labels object) [
    | none ↦ ""
    | some labels ↦ or_default "" (lookup key labels)
  ]

  unfoldable pub set_label : Fields → String → String → Fields
  set_label object key value =
      u.set_labels object (insert key value (or_default [] (u.get_labels object)))

  unfoldable pub remove_label : Fields → String → Fields
  remove_label object key = elim (u.get_labels object) [
    | none ↦ object
    | some labels ↦ u.set_labels object (remove key labels)
  ]

-- ===== src/Unstructured.antt =====
-- The functions of k8s.io/apimachinery's package unstructured that the operator calls, over the map
-- `Object` of an Unstructured. They are not part of the repository, so they are an interface: the
-- clients take it as an argument, and the laws that a proof relies on as `IsLawful`.
pub mod Reference
use workbenches_operator.Prelude.{String, Option, none, List, Bool}
use workbenches_operator.Errors.{Result, ok, err}
use workbenches_operator.Json.{Value, Fields}
use workbenches_operator.Dict.{StringMap}

abbrev pub FieldPath : Type 0
FieldPath = List String

-- A field that is not there is `ok none`; `err` is a field of another type than the one asked for, or
-- one that is no map on the way.
pub record Unstructured : Type 0 where
  pub nested_slice : Fields → FieldPath → Result (Option (List Value))
  pub nested_string : Fields → FieldPath → Result (Option String)
  pub nested_string_map : Fields → FieldPath → Result (Option StringMap)
  pub nested_map : Fields → FieldPath → Result (Option Fields)
  pub nested_field : Fields → FieldPath → Result (Option Value)
  pub set_nested_slice : Fields → List Value → FieldPath → Result Fields
  pub set_nested_string_map : Fields → StringMap → FieldPath → Result Fields
  pub set_nested_map : Fields → Fields → FieldPath → Result Fields
  pub set_nested_field : Fields → Value → FieldPath → Result Fields
  pub remove_nested_field : Fields → FieldPath → Fields
  pub get_name : Fields → String
  pub get_namespace : Fields → String
  pub get_kind : Fields → String
  pub get_api_version : Fields → String
  pub get_uid : Fields → String
  -- whether the deletion timestamp is nil or zero
  pub deletion_timestamp_is_zero : Fields → Bool
  -- `none` is a nil map
  pub get_annotations : Fields → Option StringMap
  pub set_annotations : Fields → StringMap → Fields
  pub get_labels : Fields → Option StringMap
  pub set_labels : Fields → StringMap → Fields

-- `value, found, _ := unstructured.Nested…`: an error counts as not found.
abbrev pub found_value {ℓ} : {A : Type ℓ} → Result (Option A) → Option A
found_value (ok o) = o
found_value (err e) = none

-- ===== src/HardwareProfile/Tolerations.antt =====
-- `TolerationKey`, `mergeTolerations` and `removeHWPTolerations`.
pub mod Laws
use workbenches_operator.Prelude.{
  String, ◌<>◌, Bool, true, false, Option, none, some, List, [], ◌∷◌, ◌++◌, contains, or_default,
  is_empty,
}
use workbenches_operator.Errors.{Result, ok, err, wrap_err, ◌>>=◌, wrap}
use workbenches_operator.Json.{Value, Fields, get, as_map, as_string}
use workbenches_operator.Unstructured.{Unstructured, FieldPath, found_value}

-- `s, _ := m[k].(string)`
abbrev pub text_field : String → Fields → String
text_field k m = elim (get k m) [ none ↦ "" | some v ↦ or_default "" (as_string v) ]

-- The formatting verb %v for a value.
module _ (show : Value → String) where
  abbrev seconds_text : Option Value → String
  seconds_text none = ""
  seconds_text (some v) = show v

  unfoldable pub toleration_key : Fields → String
  toleration_key tol =
      text_field "key" tol
      <> ":"
      <> text_field "operator" tol
      <> ":"
      <> text_field "value" tol
      <> ":"
      <> text_field "effect" tol
      <> ":"
      <> seconds_text (get "tolerationSeconds" tol)

  -- The keys of the map `hwpTolKeys`: those of the tolerations that are maps.
  unfoldable pub toleration_keys : List Value → List String
  toleration_keys [] = []
  toleration_keys (tol ∷ tols) =
      let rest = toleration_keys tols in
      elim (as_map tol) [ none ↦ rest | some m ↦ toleration_key m ∷ rest ]

  -- The existing tolerations that are maps with none of the keys; other values are left out.
  unfoldable pub without_keys : List String → List Value → List Value
  without_keys ks [] = []
  without_keys ks (tol ∷ tols) =
      let rest = without_keys ks tols in
      elim (as_map tol) [
        | none ↦ rest
        | some m ↦ elim (contains (toleration_key m) ks) [ true ↦ rest | false ↦ tol ∷ rest ]
      ]

  -- The result of `mergeTolerations` for the existing tolerations that it read.
  unfoldable pub merged_tolerations : List Value → List Value → List Value
  merged_tolerations hwp existing = hwp ++ without_keys (toleration_keys hwp) existing

  -- What `removeHWPTolerations` leaves.
  unfoldable pub remaining_tolerations : List Value → List Value → List Value
  remaining_tolerations hwp existing = without_keys (toleration_keys hwp) existing

  module _ (u : Unstructured) where
    unfoldable pub merge_tolerations : Fields → FieldPath → List Value → Result (List Value)
    merge_tolerations object path hwp = do
      existing ← wrap_err "failed to get existing tolerations" (u.nested_slice object path)
      ok (merged_tolerations hwp (or_default [] existing))

    -- The object with the field set to what remains, or removed if nothing does.
    store_remaining : Fields → FieldPath → List Value → Result Fields
    store_remaining object path [] = ok (u.remove_nested_field object path)
    store_remaining object path (tol ∷ tols) = u.set_nested_slice object (tol ∷ tols) path

    remove_existing : Fields → FieldPath → List Value → List Value → Result Fields
    unfolding store_remaining
    remove_existing object path hwp [] = ok object
    remove_existing object path hwp (tol ∷ tols) =
        store_remaining object path (remaining_tolerations hwp (tol ∷ tols))

    unfoldable pub remove_hwp_tolerations : Fields → FieldPath → List Value → Result Fields
    unfolding remove_existing
    remove_hwp_tolerations object path hwp = do
      existing ← u.nested_slice object path
      remove_existing object path hwp (or_default [] existing)

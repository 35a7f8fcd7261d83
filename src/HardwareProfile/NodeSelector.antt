-- ===== src/HardwareProfile/NodeSelector.antt =====
-- `mergeNodeSelector` and `removeHWPNodeSelector`. The profile's selector is a list of entries in the
-- order in which the loop over the map meets them.
pub mod Laws
use workbenches_operator.Prelude.{
  String, ◌<>◌, ◌==◌, Bool, true, false, Option, none, some, List, [], ◌∷◌, ◌++◌, or_default,
  if◌then◌else◌,
}
use workbenches_operator.Errors.{Result, ok, err, wrap_err, ◌>>=◌, wrap}
use workbenches_operator.Json.{Fields}
use workbenches_operator.Dict.{StringMap, lookup, insert, remove}
use workbenches_operator.Unstructured.{Unstructured, FieldPath}

abbrev overwritten : String → String → String → String → String
overwritten k existing name v =
    "nodeSelector key '" <> k <> "' has value '" <> existing
    <> "' which will be overwritten by HardwareProfile '" <> name <> "' which has value '" <> v
    <> "'"

abbrev warnings_for : String → String → String → Option String → List String
warnings_for name k v none = []
warnings_for name k v (some w) = if w == v then [] else overwritten k w name v ∷ []

-- The loop: the entries into `merged`, and the warnings about what `existing` had.
unfoldable pub merge_entries : StringMap → StringMap → StringMap
merge_entries [] merged = merged
merge_entries ((k, v) ∷ hwp) merged = merge_entries hwp (insert k v merged)

unfoldable pub merge_warnings : String → StringMap → StringMap → List String
merge_warnings name [] existing = []
merge_warnings name ((k, v) ∷ hwp) existing =
    warnings_for name k v (lookup k existing) ++ merge_warnings name hwp existing

-- One round of the loop of `removeHWPNodeSelector`: an entry with the profile's value goes.
unfoldable pub remove_entry : String → String → StringMap → StringMap
remove_entry k v existing = elim (lookup k existing) [
  | none ↦ existing
  | some w ↦ if w == v then remove k existing else existing
]

unfoldable pub remove_entries : StringMap → StringMap → StringMap
remove_entries [] existing = existing
remove_entries ((k, v) ∷ hwp) existing = remove_entries hwp (remove_entry k v existing)

module _ (u : Unstructured) where
  unfoldable pub merge_node_selector :
      Fields → FieldPath → StringMap → String → Result (StringMap × List String)
  merge_node_selector object path hwp name = do
    existing ← wrap_err "failed to get existing nodeSelector" (u.nested_string_map object path)
    ok (
      merge_entries hwp (or_default [] existing),
      merge_warnings name hwp (or_default [] existing),
    )

  store_selector : Fields → FieldPath → StringMap → Result Fields
  store_selector object path [] = ok (u.remove_nested_field object path)
  store_selector object path (e ∷ es) = u.set_nested_string_map object (e ∷ es) path

  remove_existing : Fields → FieldPath → StringMap → StringMap → Result Fields
  unfolding store_selector
  remove_existing object path hwp [] = ok object
  remove_existing object path hwp (e ∷ es) =
      store_selector object path (remove_entries hwp (e ∷ es))

  unfoldable pub remove_hwp_node_selector : Fields → FieldPath → StringMap → Result Fields
  unfolding remove_existing
  remove_hwp_node_selector object path hwp = do
    existing ← u.nested_string_map object path
    remove_existing object path hwp (or_default [] existing)

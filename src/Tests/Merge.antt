-- ===== src/Tests/Merge.antt =====
-- A run of the merge of containers, and its theorem at concrete data.
use workbenches_operator.Prelude.{String, ◌≡◌, refl, List, [], ◌∷◌}
use workbenches_operator.Errors.{ok}
use workbenches_operator.Json.{
  Value, str, obj, end, field, get, put, delete, as_map, as_string, is_empty_map,
}
use workbenches_operator.Dict.{Dict, lookup, insert}
use workbenches_operator.Merge.{
  add_resources, container_resources_by_name, apply_resources, apply_container_resources,
  container_name, with_resources,
}
use workbenches_operator.Merge.Resources.{AllMerged, apply_container_resources-AllMerged}

abbrev memory : String → Value
memory size = obj (field "limits" (obj (field "memory" (str size) end)) end)

abbrev container_with : String → Value → Value
container_with name resources = obj (field "name" (str name) (field "resources" resources end))

-- The live Deployment limits the manager, has taken the proxy's resources away, and a sidecar has none.
abbrev live : List Value
live =
    container_with "manager" (memory "2Gi")
    ∷ container_with "proxy" (obj end)
    ∷ obj (field "name" (str "sidecar") end)
    ∷ []

abbrev by_name : Dict Value
by_name = ("manager", memory "2Gi") ∷ ("proxy", obj end) ∷ ("sidecar", obj end) ∷ []

collected : container_resources_by_name live ≡ ok by_name
unfolding container_resources_by_name as_map container_name get as_string add_resources insert
collected = refl

abbrev rendered : List Value
rendered =
    container_with "manager" (memory "1Gi")
    ∷ container_with "proxy" (memory "1Gi")
    ∷ container_with "sidecar" (memory "1Gi")
    ∷ container_with "new" (memory "1Gi")
    ∷ []

abbrev merged : List Value
merged =
    container_with "manager" (memory "2Gi")
    ∷ obj (field "name" (str "proxy") end)
    ∷ obj (field "name" (str "sidecar") end)
    ∷ container_with "new" (memory "1Gi")
    ∷ []

merge_run : apply_container_resources by_name rendered ≡ ok merged
unfolding apply_container_resources apply_resources as_map container_name get as_string lookup
    with_resources is_empty_map put delete
merge_run = refl

apply_container_resources-AllMerged_example : AllMerged live rendered merged
apply_container_resources-AllMerged_example =
    apply_container_resources-AllMerged live by_name collected rendered merged merge_run

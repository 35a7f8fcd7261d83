-- ===== src/Merge.antt =====
-- internal/controller/merge_deployments.go: the fields of a live Deployment that are copied onto the
-- rendered one before it is applied.
pub mod Resources
use workbenches_operator.Prelude.{
  String, ◌<>◌, Option, none, some, List, [], ◌∷◌, or_default, is_empty, if◌then◌else◌,
}
use workbenches_operator.Errors.{Error, failure, Result, ok, err, ◌>>=◌, wrap_err, wrap}
use workbenches_operator.Json.{
  Value, null, obj, Fields, end, get, put, delete, is_empty_map, as_map, as_string, as_slice, slice,
}
use workbenches_operator.Dict.{Dict, lookup, insert}
use workbenches_operator.Unstructured.{Unstructured, FieldPath}

abbrev pub deployment_containers_path : FieldPath
deployment_containers_path = "spec" ∷ "template" ∷ "spec" ∷ "containers" ∷ []

abbrev pub deployment_replicas_path : FieldPath
deployment_replicas_path = "spec" ∷ "replicas" ∷ []

-- The value of the field where it is, as the containers are changed in place.
unfoldable pub in_place : FieldPath → Value → Fields → Fields
in_place [] v m = m
in_place (k ∷ []) v m = put k v m
in_place (k ∷ j ∷ path) v m = elim (get k m) [
  | none ↦ m
  | some w ↦ elim (as_map w) [ none ↦ m | some m' ↦ put k (obj (in_place (j ∷ path) v m')) m ]
]

-- `name, isString := container["name"].(string)`
unfoldable pub container_name : Fields → Option String
container_name m = elim (get "name" m) [ none ↦ none | some v ↦ as_string v ]

abbrev add_named : Option String → Fields → Dict Value → Dict Value
add_named none m found = found
add_named (some name) m found = insert name (or_default (obj end) (get "resources" m)) found

-- The loop of `containerResourcesByName`.
unfoldable pub add_resources : List Value → Dict Value → Result (Dict Value)
add_resources [] found = ok found
add_resources (c ∷ cs) found = elim (as_map c) [
  | none ↦ err (failure "source container entry is not a map")
  | some m ↦ add_resources cs (add_named (container_name m) m found)
]

unfoldable pub container_resources_by_name : List Value → Result (Dict Value)
container_resources_by_name cs = add_resources cs []

-- A target container with the resources of the source's container.
unfoldable pub with_resources : Fields → Value → Result Value
with_resources m resources = elim (as_map resources) [
  | none ↦ err (failure "source container resources field is not a map")
  | some r ↦
      if is_empty_map r
      then ok (obj (delete "resources" m))
      else ok (obj (put "resources" resources m))
]

abbrev found_resources : Fields → Option Value → Result Value
found_resources m none = ok (obj m)
found_resources m (some resources) = with_resources m resources

-- A round of the loop of `applyContainerResources`.
unfoldable pub apply_resources : Dict Value → Value → Result Value
apply_resources by_name c = elim (as_map c) [
  | none ↦ err (failure "target container entry is not a map")
  | some m ↦ elim (container_name m) [
    | none ↦ ok (obj m)
    | some name ↦ found_resources m (lookup name by_name)
  ]
]

unfoldable pub apply_container_resources : Dict Value → List Value → Result (List Value)
apply_container_resources by_name [] = ok []
apply_container_resources by_name (c ∷ cs) = do
  d ← apply_resources by_name c
  ds ← apply_container_resources by_name cs
  ok (d ∷ ds)

abbrev slice_of : String → Option Value → Result (List Value)
slice_of side none = ok []
slice_of side (some null) = ok []
slice_of side (some v) = elim (as_slice v) [
  | none ↦ err (failure (side <> " containers field is not a slice"))
  | some cs ↦ ok cs
]

module _ (u : Unstructured) where
  unfoldable pub nested_container_slice : Fields → String → Result (List Value)
  nested_container_slice object side = do
    raw ← wrap_err (side <> " containers path") (u.nested_field object deployment_containers_path)
    slice_of side raw

  -- The containers are those of the target, not copies, so a target with none stays as it is.
  unfoldable pub merge_deployment_container_resources : Fields → Fields → Result Fields
  merge_deployment_container_resources source target = do
    source_containers ← nested_container_slice source "source"
    target_containers ← nested_container_slice target "target"
    by_name ← container_resources_by_name source_containers
    merged ← apply_container_resources by_name target_containers
    ok (
        if is_empty merged
        then target
        else in_place deployment_containers_path (slice merged) target)

  copy_replicas : Fields → Option Value → Result Fields
  copy_replicas target none = ok (u.remove_nested_field target deployment_replicas_path)
  copy_replicas target (some v) =
      wrap_err "set target replicas" (u.set_nested_field target v deployment_replicas_path)

  unfoldable pub merge_deployment_replicas : Fields → Fields → Result Fields
  unfolding copy_replicas
  merge_deployment_replicas source target = do
    replicas ← wrap_err "source replicas path" (u.nested_field source deployment_replicas_path)
    copy_replicas target replicas

  unfoldable pub merge_deployments : Fields → Fields → Result Fields
  merge_deployments source target = do
    merged ← merge_deployment_container_resources source target
    merge_deployment_replicas source merged

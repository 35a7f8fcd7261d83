-- ===== src/HardwareProfile/NotebookClaims.antt =====
-- The functions that change the claims of a Notebook: `removePodResourceClaim`,
-- `setContainerResourceClaims`, `removeContainerResourceClaims`, `removeDRAFromNotebook`, and
-- `getOrCreateNestedMap`.
use workbenches_operator.Prelude.{
  ℕ, String, ◌<>◌, Option, none, some, List, [], ◌∷◌, or_default, get_elem?, set,
}
use workbenches_operator.Errors.{failure, Result, ok, err, wrap_err, ◌>>=◌}
use workbenches_operator.Json.{Value, obj, Fields, end, get, put, as_map}
use workbenches_operator.Unstructured.{Unstructured, found_value}
use workbenches_operator.HardwareProfile.Metadata.{
  containers_path, resource_claims_path, dra_claim_name,
}
use workbenches_operator.HardwareProfile.Claims.{
  filter_out_claim, main_container_index, claims_of, with_claim, without_claim,
}

module _ (u : Unstructured) where
  unfoldable pub get_or_create_nested_map : Fields → String → Result Fields
  get_or_create_nested_map object name = do
    found ←
        wrap_err ("failed to get nested map for field " <> name) (u.nested_map object (name ∷ []))
    ok (or_default end found)

  -- The list that is left, stored or, if it is empty, removed; a failure to store it is ignored.
  store_claims : Fields → List Value → Fields
  store_claims object [] = u.remove_nested_field object resource_claims_path
  store_claims object (c ∷ cs) = elim (u.set_nested_slice object (c ∷ cs) resource_claims_path) [
    | ok object' ↦ object'
    | err e ↦ object
  ]

  filter_stored : Fields → String → List Value → Fields
  unfolding store_claims
  filter_stored object name [] = object
  filter_stored object name (c ∷ cs) = store_claims object (filter_out_claim (c ∷ cs) name)

  unfoldable pub remove_pod_resource_claim : Fields → String → Fields
  unfolding filter_stored
  remove_pod_resource_claim object name =
      filter_stored object name
        (or_default [] (found_value (u.nested_slice object resource_claims_path)))

  -- The main container with the claim among its resources.
  unfoldable pub container_with_claim : String → Value → Result Value
  container_with_claim name container = elim (as_map container) [
    | none ↦ err (failure "container is not a map[string]any")
    | some m ↦ do
      resources ← get_or_create_nested_map m "resources"
      ok (obj (put "resources" (obj (with_claim name resources)) m))
  ]

  set_claim_at : Fields → List Value → String → Option ℕ → Result Fields
  set_claim_at object containers name none = ok object
  set_claim_at object containers name (some i) = elim (get_elem? containers i) [
    | none ↦ ok object
    | some container ↦ do
      container' ← container_with_claim name container
      u.set_nested_slice object (set containers i container') containers_path
  ]

  unfoldable pub set_container_resource_claims : Fields → String → Result Fields
  unfolding set_claim_at
  set_container_resource_claims object name = do
    found ← u.nested_slice object containers_path
    let containers = or_default [] found
    set_claim_at object containers name (main_container_index containers (u.get_name object))

  -- The container without the claim, or `none` where the code returns early.
  unfoldable pub container_without_claim : String → Value → Option Value
  container_without_claim name container = elim (as_map container) [
    | none ↦ none
    | some m ↦ elim (get "resources" m) [
      | none ↦ none
      | some raw ↦ elim (as_map raw) [
        | none ↦ none
        | some resources ↦ elim (claims_of resources) [
          | none ↦ none
          | some [] ↦ none
          | some (c ∷ cs) ↦
              some (obj (put "resources" (obj (without_claim name (c ∷ cs) resources)) m))
        ]
      ]
    ]
  ]

  store_container : Fields → List Value → ℕ → Option Value → Fields
  store_container object containers i none = object
  store_container object containers i (some container) =
      elim (u.set_nested_slice object (set containers i container) containers_path) [
        | ok object' ↦ object'
        | err e ↦ object
      ]

  remove_claim_at : Fields → List Value → String → Option ℕ → Fields
  unfolding store_container
  remove_claim_at object containers name none = object
  remove_claim_at object containers name (some i) = elim (get_elem? containers i) [
    | none ↦ object
    | some container ↦ store_container object containers i (container_without_claim name container)
  ]

  unfoldable pub remove_container_resource_claims : Fields → String → Fields
  unfolding remove_claim_at
  remove_container_resource_claims object name =
      let containers = or_default [] (found_value (u.nested_slice object containers_path)) in
      remove_claim_at object containers name (main_container_index containers (u.get_name object))

  unfoldable pub remove_dra_from_notebook : Fields → Fields
  remove_dra_from_notebook object =
      remove_container_resource_claims (remove_pod_resource_claim object dra_claim_name)
        dra_claim_name

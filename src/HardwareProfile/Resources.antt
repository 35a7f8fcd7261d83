-- ===== src/HardwareProfile/Resources.antt =====
-- `parseQuantityValue`, `applyIdentifiersToContainer` and `applyResourcesToNotebookContainer`.
pub mod Laws
use workbenches_operator.Prelude.{
  ℕ, String, ◌<>◌, ◌==◌, Bool, true, false, Option, none, some, List, [], ◌∷◌, or_default,
  if◌then◌else◌, get_elem?, set, is_empty,
}
use workbenches_operator.Errors.{Error, failure, Result, ok, err, wrap_err, ◌>>=◌, wrap}
use workbenches_operator.Json.{
  Value, null, int, float, str, obj, Fields, end, field, get, put, delete, as_map, slice,
}
use workbenches_operator.Unstructured.{Unstructured, found_value}
use workbenches_operator.HardwareProfile.Injector.{Injector}
use workbenches_operator.HardwareProfile.Metadata.{containers_path, dra_claim_name}
use workbenches_operator.HardwareProfile.Claims.{
  main_container_index, preserve_user_resource_claims,
}
use workbenches_operator.HardwareProfile.NotebookClaims.{get_or_create_nested_map}

-- An interface that is nil: no value, or a JSON null.
abbrev not_nil : Option Value → Option Value
not_nil (some null) = none
not_nil o = o

-- The maps `requests` and `limits`.
pub record Amounts : Type 0 where
  pub requests : Fields
  pub limits : Fields

-- `if _, exists := m[k]; !exists { m[k] = v }`
abbrev pub put_new : String → Value → Fields → Fields
put_new k v m = elim (get k m) [ none ↦ put k v m | some w ↦ m ]

abbrev copy_limit : String → Option Value → Fields → Fields
copy_limit k none limits = limits
copy_limit k (some v) limits = put_new k v limits

-- The two writes for an identifier and its quantity: a limit is the request that stands there then.
unfoldable pub add_amount : String → String → Amounts → Amounts
add_amount k quantity amounts =
    let requests = put_new k (str quantity) amounts.requests in
    record { requests = requests; limits = copy_limit k (get k requests) amounts.limits }

module _ (i : Injector) where
  open i use {unstructured as u}

  unfoldable pub parse_quantity_value : Value → Result String
  parse_quantity_value (str s) = i.parse_quantity s
  parse_quantity_value (int n) = ok (i.new_quantity n)
  parse_quantity_value (float bits) = i.parse_quantity (i.format_float bits)
  parse_quantity_value v = i.parse_quantity (i.show_value v)

  abbrev identifier_of : Fields → String
  identifier_of m = or_default "" (found_value (u.nested_string m ("identifier" ∷ [])))

  abbrev default_count : Fields → Option Value
  default_count m = not_nil (found_value (u.nested_field m ("defaultCount" ∷ [])))

  count_amount : String → Option Value → Result (Option (String × String))
  count_amount k none = ok none
  count_amount k (some count) = do
    quantity ←
        wrap_err ("failed to convert resource quantity for " <> k) (parse_quantity_value count)
    ok (some (k, quantity))

  -- What a round of the loop reads from an identifier: its name and quantity, nothing where the round
  -- is skipped, or an error.
  unfoldable pub identifier_amount : Value → Result (Option (String × String))
  unfolding count_amount
  identifier_amount id = elim (as_map id) [
    | none ↦ ok none
    | some m ↦
        if identifier_of m == "" then ok none else count_amount (identifier_of m) (default_count m)
  ]

  add_optional : Option (String × String) → Amounts → Amounts
  add_optional none amounts = amounts
  add_optional (some (k, quantity)) amounts = add_amount k quantity amounts

  unfoldable pub add_amounts : List Value → Amounts → Result Amounts
  unfolding add_optional
  add_amounts [] amounts = ok amounts
  add_amounts (id ∷ ids) amounts = do
    amount ← identifier_amount id
    add_amounts ids (add_optional amount amounts)

  unfoldable pub apply_identifiers_to_container : Fields → List Value → Result Fields
  apply_identifiers_to_container container ids = do
    resources ← get_or_create_nested_map u container "resources"
    requests ← get_or_create_nested_map u resources "requests"
    limits ← get_or_create_nested_map u resources "limits"
    amounts ← add_amounts ids (record { requests = requests; limits = limits })
    ok (
        put "resources"
          (obj
            (put "limits" (obj amounts.limits) (put "requests" (obj amounts.requests) resources)))
          container)

  -- The container with its resources cleared but for the user's claims.
  unfoldable pub clear_resources : Fields → Fields
  clear_resources container = elim (preserve_user_resource_claims container dra_claim_name) [
    | [] ↦ delete "resources" container
    | c ∷ cs ↦
        put "resources" (obj (field "claims" (slice (c ∷ cs)) end)) (delete "resources" container)
  ]

  unfoldable pub container_with_resources : Bool → List Value → Value → Result Value
  container_with_resources profile_changed ids container = elim (as_map container) [
    | none ↦ err (failure "container is not a map[string]any")
    | some m ↦ do
      m' ← apply_identifiers_to_container (if profile_changed then clear_resources m else m) ids
      ok (obj m')
  ]

  apply_resources_at : Fields → List Value → Bool → List Value → Option ℕ → Result Fields
  apply_resources_at notebook ids profile_changed containers none = ok notebook
  apply_resources_at notebook ids profile_changed containers (some n) =
      elim (get_elem? containers n) [
        | none ↦ ok notebook
        | some container ↦ do
          container' ← container_with_resources profile_changed ids container
          u.set_nested_slice notebook (set containers n container') containers_path
      ]

  unfoldable pub apply_resources_to_notebook_container : List Value → Fields → Bool → Result Fields
  unfolding apply_resources_at
  apply_resources_to_notebook_container ids notebook profile_changed = do
    found ← u.nested_slice notebook containers_path
    let containers = or_default [] found
    apply_resources_at notebook ids profile_changed containers
        (main_container_index containers (u.get_name notebook))

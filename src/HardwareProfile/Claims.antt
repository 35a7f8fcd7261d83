-- ===== src/HardwareProfile/Claims.antt =====
-- The claims of dynamic resource allocation: the pod's list resourceClaims and the list
-- resources.claims of the main container, in which the webhook manages the entry named hwp-dra.
pub mod Laws
use workbenches_operator.Prelude.{
  ℕ, zero, suc, String, ◌<>◌, ◌==◌, Bool, true, false, Option, none, some, List, [], ◌∷◌, ◌++◌,
  or_default, if◌then◌else◌, is_empty, get_elem?, set,
}
use workbenches_operator.Errors.{
  Error, failure, is_not_found, Result, ok, err, wrap_err, ◌>>=◌, wrap,
}
use workbenches_operator.Json.{
  Value, str, obj, Fields, end, field, get, put, delete, as_map, as_slice, slice,
}
use workbenches_operator.Unstructured.{Unstructured, found_value}
use workbenches_operator.HardwareProfile.Metadata.{
  containers_path, resource_claims_path, dra_claim_name,
}
use workbenches_operator.HardwareProfile.Tolerations.{text_field}

-- Whether `m["name"]` is the name, for an entry that is a map.
abbrev pub is_named : String → Value → Bool
is_named name v = elim (as_map v) [ none ↦ false | some m ↦ text_field "name" m == name ]

-- `filterOutClaim`
unfoldable pub filter_out_claim : List Value → String → List Value
filter_out_claim [] name = []
filter_out_claim (claim ∷ claims) name =
    let rest = filter_out_claim claims name in
    elim (is_named name claim) [ true ↦ rest | false ↦ claim ∷ rest ]

-- `notebookMainContainerIndex`; -1 is `none`.
unfoldable pub index_named : String → ℕ → List Value → Option ℕ
index_named name i [] = none
index_named name i (c ∷ cs) =
    let rest = index_named name (suc i) cs in
    elim (is_named name c) [ true ↦ some i | false ↦ rest ]

unfoldable pub main_container_index : List Value → String → Option ℕ
main_container_index (c ∷ []) name = some 0
main_container_index cs name = index_named name 0 cs

-- A list that is not there, or that is no slice, is nil.
abbrev pub claims_of : Fields → Option (List Value)
claims_of resources = elim (get "claims" resources) [ none ↦ none | some v ↦ as_slice v ]

-- `preserveUserResourceClaims`
unfoldable pub preserve_user_resource_claims : Fields → String → List Value
preserve_user_resource_claims container name = elim (get "resources" container) [
  | none ↦ []
  | some raw ↦ elim (as_map raw) [
    | none ↦ []
    | some resources ↦ filter_out_claim (or_default [] (claims_of resources)) name
  ]
]

abbrev pub claim_entry : String → Value
claim_entry name = obj (field "name" (str name) end)

abbrev pub template_claim : String → Value
template_claim template =
    obj (field "name" (str dra_claim_name) (field "resourceClaimTemplateName" (str template) end))

-- `resources.claims` with the entry of the webhook at its end.
unfoldable pub with_claim : String → Fields → Fields
with_claim name resources =
    put "claims"
      (slice
        (filter_out_claim (or_default [] (claims_of resources)) name ++ (claim_entry name ∷ [])))
      resources

-- `resources.claims` without the entry; the list goes if it gets empty.
unfoldable pub without_claim : String → List Value → Fields → Fields
without_claim name claims resources = elim (filter_out_claim claims name) [
  | [] ↦ delete "claims" resources
  | c ∷ cs ↦ put "claims" (slice (c ∷ cs)) resources
]

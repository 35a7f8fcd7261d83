-- ===== src/Conditions.antt =====
-- The conditions of a status: the functions of apimachinery's package meta are an interface, and the
-- types and reasons are those of internal/controller/workbenches_controller.go.
pub mod Reference
use workbenches_operator.Prelude.{
  String, ◌==◌, eq_iff, ◌≡◌, ◌≢◌, refl, sym, ap, ◌∙◌, Bool, true, false, Option, none, some, List,
  [], ◌∷◌, arith, Bool-cases, inl, inr, if◌then◌else◌,
}
use workbenches_operator.Api.{
  Condition, ConditionStatus, condition_true, condition_false, condition_unknown,
}

pub record Conditions : Type 0 where
  pub set_status_condition : List Condition → Condition → List Condition
  pub find_status_condition : List Condition → String → Option Condition
  pub is_status_condition_true : List Condition → String → Bool

abbrev pub holds : ConditionStatus → Bool
holds condition_true = true
holds condition_false = false
holds condition_unknown = false

abbrev pub present_and_true : Option Condition → Bool
present_and_true none = false
present_and_true (some c) = holds c.status

-- A condition that is set is found under its type, and the others stay; a condition is found by a
-- search from the front of the list.
pub record IsLawful (meta : Conditions) : Type 0 where
  pub find-set :
      (conditions : List Condition) (c : Condition)
      → meta.find_status_condition (meta.set_status_condition conditions c) c.type_name ≡ some c
  pub find-set_other :
      (conditions : List Condition) (c : Condition) (type_name : String)
      → (c.type_name == type_name) ≡ false
      → meta.find_status_condition (meta.set_status_condition conditions c) type_name
        ≡ meta.find_status_condition conditions type_name
  pub is_true-find :
      (conditions : List Condition) (type_name : String)
      → meta.is_status_condition_true conditions type_name
        ≡ present_and_true (meta.find_status_condition conditions type_name)
  pub find-nil : (type_name : String) → meta.find_status_condition [] type_name ≡ none
  pub find-cons :
      (c : Condition) (conditions : List Condition) (type_name : String)
      → meta.find_status_condition (c ∷ conditions) type_name ≡ (
          if c.type_name == type_name
          then some c
          else meta.find_status_condition conditions type_name)

abbrev pub type_ready : String
type_ready = "Ready"

abbrev pub type_provisioning_succeeded : String
type_provisioning_succeeded = "ProvisioningSucceeded"

abbrev pub type_degraded : String
type_degraded = "Degraded"

abbrev pub type_deployments_available : String
type_deployments_available = "DeploymentsAvailable"

abbrev pub type_release_metadata_available : String
type_release_metadata_available = "ReleaseMetadataAvailable"

abbrev pub type_image_streams_available : String
type_image_streams_available = "ImageStreamsAvailable"

abbrev pub type_workbenches_v2_ready : String
type_workbenches_v2_ready = "WorkbenchesV2Ready"

abbrev pub type_ingress_contract_ready : String
type_ingress_contract_ready = "IngressContractReady"

abbrev pub reason_unknown : String
reason_unknown = "Unknown"

abbrev pub reason_available : String
reason_available = "Available"

-- The reason of a condition that another controller set may be empty.
abbrev pub sanitized : Condition → Condition
sanitized c = record {
  type_name = c.type_name;
  status = c.status;
  reason = if c.reason == "" then reason_unknown else c.reason;
  message = c.message;
  observed_generation = c.observed_generation;
}

unfoldable pub sanitize_conditions : List Condition → List Condition
sanitize_conditions [] = []
sanitize_conditions (c ∷ conditions) = sanitized c ∷ sanitize_conditions conditions

abbrev pub map_found : Option Condition → Option Condition
map_found none = none
map_found (some c) = some (sanitized c)

pub find-sanitize_conditions :
    (meta : Conditions)
    → IsLawful meta
    → (conditions : List Condition) (type_name : String)
    → meta.find_status_condition (sanitize_conditions conditions) type_name
      ≡ map_found (meta.find_status_condition conditions type_name)
unfolding sanitize_conditions
find-sanitize_conditions meta lawful [] type_name = rw (lawful.find-nil type_name)
find-sanitize_conditions meta lawful (c ∷ conditions) type_name =
    elim (Bool-cases (c.type_name == type_name)) [
      | inl here ↦ rw (
        lawful.find-cons (sanitized c) (sanitize_conditions conditions) type_name,
        lawful.find-cons c conditions type_name,
        here,
      )
      | inr later ↦
          rw
            (
              lawful.find-cons (sanitized c) (sanitize_conditions conditions) type_name,
              lawful.find-cons c conditions type_name,
              later,
            )
            (find-sanitize_conditions meta lawful conditions type_name)
    ]

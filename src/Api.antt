-- ===== src/Api.antt =====
-- api/v1alpha1/workbenches_types.go: the custom resource Workbenches. A pointer that may be nil is an
-- Option, an int64 or int32 is a ℤ: the operator compares these numbers and does no arithmetic.
-- `Condition` is metav1.Condition without its time stamp.
use workbenches_operator.Prelude.{String, ◌==◌, Bool, false, Option, none, some, List}
use workbenches_operator.Json.{ℤ}
use workbenches_operator.Phase.{Phase}

abbrev pub workbenches_instance_name : String
workbenches_instance_name = "default-workbenches"

abbrev pub management_state_managed : String
management_state_managed = "Managed"

abbrev pub management_state_removed : String
management_state_removed = "Removed"

abbrev pub ingress_contract_version_v1 : String
ingress_contract_version_v1 = "v1"

abbrev pub ingress_contract_config_map_key : String
ingress_contract_config_map_key = "contract"

pub record WorkbenchesV2Spec : Type 0 where
  pub management_state : String

pub record Ingress : Type 0 where
  pub name : String
  pub gateway_name : String
  pub gateway_namespace : String
  pub hostname : String
  pub is_default : Bool

pub record OdhNotebookControllerProbeSpec : Type 0 where
  pub timeout_seconds : ℤ

pub record IngressContractSpec : Type 0 where
  pub version : String
  pub source_generation : ℤ

pub record WorkbenchesSpec : Type 0 where
  pub management_state : String
  pub workbench_namespace : String
  pub gateway_domain : String
  pub ingresses : List Ingress
  pub ingress_contract : Option IngressContractSpec
  pub platform : String
  pub mlflow_enabled : Bool
  pub odh_notebook_controller_probe : Option OdhNotebookControllerProbeSpec
  pub workbenches_v2 : Option WorkbenchesV2Spec

-- `IsWorkbenchesV2Managed`
unfoldable pub is_workbenches_v2_managed : WorkbenchesSpec → Bool
is_workbenches_v2_managed spec = elim spec.workbenches_v2 [
  | none ↦ false
  | some v2 ↦ v2.management_state == management_state_managed
]

pub record ComponentRelease : Type 0 where
  pub name : String
  pub version : String
  pub repo_url : String

pub record Distribution : Type 0 where
  pub name : String
  pub version : String

pub record IngressContractStatus : Type 0 where
  pub version : String
  pub source_generation : ℤ
  pub deployment_generation : ℤ

pub data ConditionStatus : Type 0 where
  condition_true condition_false condition_unknown : ConditionStatus

pub record Condition : Type 0 where
  pub type_name : String
  pub status : ConditionStatus
  pub reason : String
  pub message : String
  pub observed_generation : ℤ

pub record WorkbenchesStatus : Type 0 where
  pub conditions : List Condition
  pub releases : List ComponentRelease
  pub observed_generation : ℤ
  pub distribution : Distribution
  -- `none` is the empty text, before the first reconcile
  pub phase : Option Phase
  pub applications_namespace : String
  pub workbench_namespace : String
  pub ingress_contract : IngressContractStatus

pub record Workbenches : Type 0 where
  pub name : String
  pub generation : ℤ
  pub deletion_timestamp_is_zero : Bool
  pub finalizers : List String
  pub spec : WorkbenchesSpec
  pub status : WorkbenchesStatus

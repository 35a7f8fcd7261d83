-- ===== src/Tests/Cluster.antt =====
-- A small cluster that the runs of the reconciler use.
use workbenches_operator.Prelude.{
  String, ◌<>◌, ◌==◌, true, false, Option, none, some, List, [], ◌∷◌, if◌then◌else◌,
}
use workbenches_operator.Errors.{not_found, failure, Result, ok, err}
use workbenches_operator.Json.{pos}
use workbenches_operator.Format.{Format}
use workbenches_operator.Dict.{Dict, StringMap, lookup, insert}
use workbenches_operator.Phase.{initializing}
use workbenches_operator.Conditions.Reference.{reference}
use workbenches_operator.Api.{
  Workbenches, WorkbenchesSpec, WorkbenchesStatus, IngressContractSpec, Condition, condition_true,
}
use workbenches_operator.Reconciler.Cluster.{Cluster, Operands, Deployment, no_api}
use workbenches_operator.Reconciler.Ingress.{ContractFormat}
use workbenches_operator.Reconciler.Loop.{Environment, workbenches_finalizer}

pub record State : Type 0 where
  pub object : Workbenches
  pub config : Option StringMap
  pub contract : Option StringMap
  pub namespaces : Dict StringMap
  pub deployments : List Deployment

abbrev pub namespace_labels : Option StringMap → Result (Option StringMap)
namespace_labels none = err (not_found "no such namespace")
namespace_labels (some labels) = ok (some labels)

-- The server sets its own label.
abbrev pub put_namespace : State → String → StringMap → State
put_namespace s name labels = record s {
  namespaces = insert name (insert "kubernetes.io/metadata.name" name labels) s.namespaces;
}

abbrev pub cluster : Cluster State
cluster = record {
  get_workbenches = λ s name. ok s.object;
  update_workbenches = λ s wb. (record s { object = wb }, ok wb);
  update_status = λ s wb. (record s { object = wb }, ok wb);
  get_config_map =
      λ s namespace name. ok (if name == "odh-workbenches-config" then s.config else s.contract);
  get_namespace = λ s name. namespace_labels (lookup name s.namespaces);
  create_namespace = λ s name labels. (put_namespace s name labels, ok tt);
  update_namespace = λ s name labels. (put_namespace s name labels, ok tt);
  list_deployments = λ s namespace. ok s.deployments;
  list_image_streams = λ s namespace. no_api;
}

abbrev pub operands : Operands State
operands = record {
  render_and_apply = λ s wb params namespace platform. (s, ok tt);
  cleanup_managed_resources = λ s namespace. (record s { deployments = [] }, ok tt);
  workbenches_v2_manifests_exist = λ s. false;
  collect_workbenches_releases = ok [];
}

abbrev pub format : Format
format = record { quote = λ s. "\"" <> s <> "\""; show_int = λ n. "7" }

abbrev pub v1 : IngressContractSpec
v1 = record { version = "v1"; source_generation = pos 7 }

abbrev pub contracts : ContractFormat
contracts = record {
  parse = λ raw. if raw == "v1 at 7" then ok v1 else err (failure "no contract");
  show = λ c. c.version;
}

abbrev pub env : Environment State
env = record {
  meta = reference;
  format = format;
  contracts = contracts;
  cut = λ text n. "";
  trim_dots = λ text. text;
  cluster = cluster;
  operands = operands;
  settings = record { applications_namespace = ""; label_errors = λ name. [] };
}

-- A notebook controller that runs the contract v1 of generation 7.
abbrev pub controller : String → Deployment
controller name = record {
  name = name;
  namespace = "opendatahub";
  labels = ("component.opendatahub.io/name", name) ∷ [];
  generation = pos 4;
  spec_replicas = some (pos 1);
  template_annotations = ("opendatahub.io/ingress-contract", "v1:7") ∷ [];
  observed_generation = pos 4;
  replicas = pos 1;
  updated_replicas = pos 1;
  ready_replicas = pos 1;
  available_replicas = pos 1;
}

abbrev pub spec : WorkbenchesSpec
spec = record {
  management_state = "Managed";
  workbench_namespace = "";
  gateway_domain = "";
  ingresses = [];
  ingress_contract = some v1;
  platform = "OpenDataHub";
  mlflow_enabled = false;
  odh_notebook_controller_probe = none;
  workbenches_v2 = none;
}

abbrev pub provisioned : Condition
provisioned = record {
  type_name = "ProvisioningSucceeded";
  status = condition_true;
  reason = "Provisioned";
  message = "";
  observed_generation = pos 2;
}

abbrev pub status : WorkbenchesStatus
status = record {
  conditions = provisioned ∷ [];
  releases = [];
  observed_generation = pos 1;
  distribution = record { name = ""; version = "" };
  phase = some initializing;
  applications_namespace = "";
  workbench_namespace = "";
  ingress_contract = record {
    version = "";
    source_generation = pos 0;
    deployment_generation = pos 0;
  };
}

abbrev pub object : Workbenches
object = record {
  name = "default-workbenches";
  generation = pos 2;
  deletion_timestamp_is_zero = true;
  finalizers = "other" ∷ workbenches_finalizer ∷ [];
  spec = spec;
  status = status;
}

abbrev pub start : State
start = record {
  object = object;
  config = some (
      ("distribution.name", "OpenDataHub")
      ∷ ("distribution.version", " 3.5.1 ")
      ∷ ("platformVersion", "3.5.1")
      ∷ []);
  contract = some (("contract", "v1 at 7") ∷ []);
  namespaces = [];
  deployments = controller "odh-notebook-controller" ∷ controller "kf-notebook-controller" ∷ [];
}

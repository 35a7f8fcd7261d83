-- ===== src/Reconciler/Ingress.antt =====
-- internal/controller/ingress_contract.go: the contract that the notebook controllers have taken over.
pub mod Rollout
pub mod Evidence
use workbenches_operator.Prelude.{
  ℕ, String, ◌<>◌, ◌==◌, Bool, true, false, not, ◌&&◌, ◌||◌, Option, none, some, List, [], ◌∷◌,
  contains, or_default, is_some, if◌then◌else◌,
}
use workbenches_operator.Errors.{Error, message, Result, ok, err, wrap, wrap_err, ◌>>=◌}
use workbenches_operator.Json.{ℤ, pos, Value, str, Fields, end, put}
use workbenches_operator.Integer.{eq_int}
use workbenches_operator.Phase.{gt}
use workbenches_operator.Format.{Format}
use workbenches_operator.Dict.{StringMap, lookup}
use workbenches_operator.Unstructured.{Unstructured, FieldPath}
use workbenches_operator.Metadata.{
  component_name_label_key, ingress_contract_annotation_key, label_value,
}
use workbenches_operator.Conditions.{Conditions, type_ingress_contract_ready}
use workbenches_operator.Api.{
  Workbenches, WorkbenchesStatus, WorkbenchesSpec, IngressContractSpec, IngressContractStatus,
  condition_true, condition_false, ingress_contract_config_map_key,
}
use workbenches_operator.Reconciler.Cluster.{Deployment, Cluster}
use workbenches_operator.Reconciler.Namespaces.{Settings, resolve_operand_namespace}
use workbenches_operator.Reconciler.Deployments.{
  deployment_desired_replicas, deployment_title, scaled_to_zero,
}
use workbenches_operator.Reconciler.Status.{set_condition}

abbrev pub notebook_controller_config_map : String
notebook_controller_config_map = "odh-notebook-controller-config"

abbrev pub notebook_controller_component_names : List String
notebook_controller_component_names = "odh-notebook-controller" ∷ "kf-notebook-controller" ∷ []

unfoldable pub ingress_contract_stamp : Format → IngressContractSpec → String
ingress_contract_stamp format contract =
    contract.version <> (":" <> format.show_int contract.source_generation)

unfoldable pub is_notebook_controller_deployment : StringMap → Bool
is_notebook_controller_deployment labels = elim (lookup component_name_label_key labels) [
  | none ↦ false
  | some name ↦ contains name notebook_controller_component_names
]

abbrev annotations_path : FieldPath
annotations_path = "spec" ∷ "template" ∷ "metadata" ∷ "annotations" ∷ []

abbrev deployment_of : Unstructured → Fields → String
deployment_of u object = "deployment " <> (u.get_namespace object <> ("/" <> u.get_name object))

-- The stamp on the pod template of one object.
unfoldable pub stamp_object : Unstructured → String → Fields → Result Fields
stamp_object u stamp object =
    if not (u.get_kind object == "Deployment")
      || not (is_notebook_controller_deployment (or_default [] (u.get_labels object)))
    then ok object
    else do
      annotations ←
          wrap_err ("failed to read pod template annotations for " <> deployment_of u object)
            (u.nested_map object annotations_path)
      wrap_err ("failed to set pod template annotations for " <> deployment_of u object) (
          u.set_nested_map object
            (put ingress_contract_annotation_key (str stamp) (or_default end annotations))
            annotations_path)

stamp_objects : Unstructured → String → List Fields → Result (List Fields)
unfolding stamp_object
stamp_objects u stamp [] = ok []
stamp_objects u stamp (object ∷ objects) = do
  object' ← stamp_object u stamp object
  rest ← stamp_objects u stamp objects
  ok (object' ∷ rest)

unfoldable pub stamp_ingress_contract :
    Unstructured → Format → List Fields → Option IngressContractSpec → Result (List Fields)
unfolding stamp_objects
stamp_ingress_contract u format objects none = ok objects
stamp_ingress_contract u format objects (some contract) =
    stamp_objects u (ingress_contract_stamp format contract) objects

abbrev stamped : String → Deployment → Bool
stamped stamp d = elim (lookup ingress_contract_annotation_key d.template_annotations) [
  | none ↦ false
  | some value ↦ value == stamp
]

-- x != y
abbrev pub ne_int : ℤ → ℤ → Bool
ne_int x y = not (eq_int x y)

abbrev in_progress : Deployment → Bool
in_progress d =
    gt (deployment_desired_replicas d) d.updated_replicas
    || gt (deployment_desired_replicas d) d.ready_replicas
    || ne_int d.replicas (deployment_desired_replicas d)

-- Why a deployment does not run the contract, `none` if it does.
unfoldable pub rollout_fault : Format → String → Deployment → Option String
rollout_fault format stamp d =
    let desired = format.show_int (deployment_desired_replicas d) in
    if scaled_to_zero d
    then some (deployment_title d <> " is scaled to zero")
    else if not (stamped stamp d)
    then some (deployment_title d <> " is not yet carrying the projected ingress contract")
    else if gt d.generation d.observed_generation
    then some (
        deployment_title d
        <> (" rollout not observed by controller (generation "
            <> (format.show_int d.generation
                <> (", observed " <> (format.show_int d.observed_generation <> ")")))))
    else if in_progress d
    then some (
        deployment_title d
        <> (" rollout in progress ("
            <> (format.show_int d.updated_replicas
                <> ("/"
                    <> (desired
                        <> (" updated, "
                            <> (format.show_int d.ready_replicas
                                <> ("/"
                                    <> (desired
                                        <> (" ready, "
                                            <> (format.show_int d.replicas <> " total)")))))))))))
    else none

-- What the loop over the deployments finds: a message, or the generation and the component names.
pub data LoopResult : Type 0 where
  incomplete : String → LoopResult
  rolled : ℤ → List String → LoopResult

abbrev pub max_int : ℤ → ℤ → ℤ
max_int x y = if gt x y then x else y

unfoldable pub rollout_round : Format → String → Deployment → ℤ → List String → LoopResult
unfolding rollout_fault
rollout_round format stamp d generation seen = elim (rollout_fault format stamp d) [
  | some text ↦ incomplete text
  | none ↦
      rolled (max_int d.generation generation)
        (label_value component_name_label_key d.labels ∷ seen)
]

unfoldable pub rollout_loop : Format → String → List Deployment → ℤ → List String → LoopResult
unfolding rollout_round is_notebook_controller_deployment
rollout_loop format stamp [] generation seen = rolled generation seen
rollout_loop format stamp (d ∷ ds) generation seen =
    let skipped = rollout_loop format stamp ds generation seen in
    if not (is_notebook_controller_deployment d.labels)
    then skipped
    else elim (rollout_round format stamp d generation seen) [
      | incomplete text ↦ incomplete text
      | rolled generation' seen' ↦ rollout_loop format stamp ds generation' seen'
    ]

missing_component : List String → List String → Option String
missing_component [] seen = none
missing_component (name ∷ names) seen =
    let rest = missing_component names seen in if contains name seen then rest else some name

-- The generation, or the message.
pub data Generation : Type 0 where
  pending_rollout : String → Generation
  complete_rollout : ℤ → Generation

rollout_end : LoopResult → Generation
unfolding missing_component
rollout_end (incomplete text) = pending_rollout text
rollout_end (rolled generation seen) =
    elim (missing_component notebook_controller_component_names seen) [
      | some name ↦
          pending_rollout ("no notebook controller deployment found for component " <> name)
      | none ↦ complete_rollout generation
    ]

listed_rollout : Format → IngressContractSpec → Result (List Deployment) → Generation
unfolding rollout_loop rollout_end
listed_rollout format contract (err e) =
    pending_rollout ("failed to list deployments: " <> message e)
listed_rollout format contract (ok ds) =
    rollout_end (rollout_loop format (ingress_contract_stamp format contract) ds (pos 0) [])

abbrev no_evidence : IngressContractStatus
no_evidence = record { version = ""; source_generation = pos 0; deployment_generation = pos 0 }

abbrev pub same_contract : IngressContractSpec → IngressContractSpec → Bool
same_contract a b = a.version == b.version && eq_int a.source_generation b.source_generation

-- json.Unmarshal of a contract, and %+v of it.
pub record ContractFormat : Type 0 where
  pub parse : String → Result IngressContractSpec
  pub show : IngressContractSpec → String

parsed_contract : ContractFormat → IngressContractSpec → Result IngressContractSpec → Option String
parsed_contract contracts wanted (err e) = some (
    "contract data in "
    <> (notebook_controller_config_map <> (" ConfigMap is malformed: " <> message e)))
parsed_contract contracts wanted (ok observed) =
    if same_contract observed wanted
    then none
    else some (
        "projected contract "
        <> (contracts.show observed <> (" does not match spec " <> contracts.show wanted)))

contract_of : Format → ContractFormat → IngressContractSpec → Option String → Option String
unfolding parsed_contract
contract_of format contracts wanted none = some (
    "contract key "
    <> (format.quote ingress_contract_config_map_key
        <> (" missing from " <> (notebook_controller_config_map <> " ConfigMap"))))
contract_of format contracts wanted (some raw) =
    parsed_contract contracts wanted (contracts.parse raw)

-- `observeIngressContract`, the message where there is one: else the contract that is observed is the
-- wanted one.
unfoldable pub observe_ingress_contract :
    Format → ContractFormat → IngressContractSpec → Result (Option StringMap) → Option String
unfolding contract_of
observe_ingress_contract format contracts wanted (err e) =
    some ("failed to read " <> (notebook_controller_config_map <> (" ConfigMap: " <> message e)))
observe_ingress_contract format contracts wanted (ok values) =
    contract_of format contracts wanted
      (lookup ingress_contract_config_map_key (or_default [] values))

abbrev with_contract : IngressContractStatus → Workbenches → Workbenches
with_contract contract wb = record wb { status = record wb.status { ingress_contract = contract } }

module _ (meta : Conditions) (format : Format) where
  -- After the projection is confirmed.
  rollout_status : IngressContractSpec → Generation → Workbenches → Workbenches
  rollout_status wanted (pending_rollout text) wb =
      set_condition meta type_ingress_contract_ready condition_false "IngressContractRolloutPending"
        text
        (with_contract
          (record {
            version = wanted.version;
            source_generation = wanted.source_generation;
            deployment_generation = pos 0;
          })
          wb)
  rollout_status wanted (complete_rollout generation) wb =
      set_condition meta type_ingress_contract_ready condition_true "IngressContractReady"
        ("ingress contract "
          <> (wanted.version
              <> (" (sourceGeneration "
                  <> (format.show_int wanted.source_generation
                      <> ") projected and operand rollout complete"))))
        (with_contract
          (record {
            version = wanted.version;
            source_generation = wanted.source_generation;
            deployment_generation = generation;
          })
          wb)

  projection_status : IngressContractSpec → Option String → Generation → Workbenches → Workbenches
  unfolding rollout_status
  projection_status wanted (some text) rollout wb =
      set_condition meta type_ingress_contract_ready condition_false
        "IngressContractProjectionPending" text (with_contract no_evidence wb)
  projection_status wanted none rollout wb = rollout_status wanted rollout wb

  module _ {S : Type 0} (cluster : Cluster S) (settings : Settings)
      (contracts : ContractFormat) where
    wanted_status : Option IngressContractSpec → Workbenches → S → Workbenches
    unfolding projection_status listed_rollout observe_ingress_contract
    wanted_status none wb s =
        set_condition meta type_ingress_contract_ready condition_false "IngressContractNotProjected"
          "spec.ingressContract is not set" (with_contract no_evidence wb)
    wanted_status (some wanted) wb s =
        let namespace = resolve_operand_namespace settings wb.spec.platform in
        projection_status wanted
          (observe_ingress_contract format contracts wanted
            (cluster.get_config_map s namespace notebook_controller_config_map))
          (listed_rollout format wanted (cluster.list_deployments s namespace)) wb

    unfoldable pub sync_ingress_contract_status : Workbenches → S → Workbenches
    unfolding wanted_status
    sync_ingress_contract_status wb s = wanted_status wb.spec.ingress_contract wb s

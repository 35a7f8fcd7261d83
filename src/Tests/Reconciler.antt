-- ===== src/Tests/Reconciler.antt =====
-- Runs of the reconciler, and its theorems at concrete data.
use workbenches_operator.Phase.{compute_phase, gt}
use workbenches_operator.Prelude.Text.{trim_space}
use workbenches_operator.PlatformConfig.Releases.{
  get_platform_release, set_platform_release, merge_component_releases, handshake_complete,
  handshake_required,
}
use workbenches_operator.Reconciler.Status.{
  set_condition, set_deployment_condition, populate_releases, set_provisioned, record_distribution,
  records_version, record_platform_version, reconciled_platform_version,
}
use workbenches_operator.Integer.{eq_int}
use workbenches_operator.Reconciler.Deployments.{
  check_deployments, check_workspaces_controller_deployment, deployments_availability,
}
use workbenches_operator.PlatformConfig.Distribution.{
  read_desired_distribution, read_platform_version, resolve_desired_distribution,
  is_distribution_empty, distribution_aligned,
}
use workbenches_operator.Platform.{
  is_valid, valid_applications_namespace, default_applications_namespace,
  default_legacy_workbench_namespace, section_title,
}
use workbenches_operator.Prelude.{
  String, ◌==◌, ◌≡◌, refl, sym, ap, ◌∙◌, eq_refl, true, false, none, some, List, [], ◌∷◌,
}
use workbenches_operator.Errors.{Error, failure, Result, ok, err, is_not_found, message}
use workbenches_operator.Json.{pos}
use workbenches_operator.Dict.{Dict, StringMap, lookup, insert}
use workbenches_operator.Dict.Laws.{lookup-insert}
use workbenches_operator.Conditions.{type_ready, type_ingress_contract_ready, sanitize_conditions}
use workbenches_operator.Conditions.Reference.{reference, reference-IsLawful}
use workbenches_operator.Api.{Workbenches, Distribution, is_workbenches_v2_managed}
use workbenches_operator.Reconciler.Cluster.{done}
use workbenches_operator.Reconciler.Namespaces.{
  set_status_namespaces, ensure_generated_namespace, validate_spec, resolve_operand_namespace,
  configure_dependencies, resolve_legacy_workbench_namespace, compute_kustomize_params,
}
use workbenches_operator.Reconciler.Namespaces.Labels.{
  IsLawful, Prepared, configure_dependencies-Prepared, Stored, server_label,
}
use workbenches_operator.Reconciler.Ready.{
  Earlier, settle, set_ready_condition, append_image_stream_warning_to_ready, observe,
}
use workbenches_operator.Reconciler.Ready.Evidence.{Evidence, settle-Evidence}
use workbenches_operator.Reconciler.Ready.Upgrade.{
  view, view-settle, settle-Advance, settle_twice-ready,
}
use workbenches_operator.Reconciler.Ready.Machine.{next, Advance}
use workbenches_operator.Reconciler.Ingress.{
  sync_ingress_contract_status, ingress_contract_stamp, is_notebook_controller_deployment,
}
use workbenches_operator.Reconciler.Ingress.Evidence as Ingress
use workbenches_operator.Reconciler.ImageStreams.{
  image_stream_warning, sync_image_streams_available,
}
use workbenches_operator.Reconciler.ImageStreams.Bounds.{Warning, image_stream_warning-Warning}
use workbenches_operator.Reconciler.Loop.{
  reconcile_managed, reconcile_delete, operand_namespace, resolved_distribution, requeues,
  observed_status, set_workbenches_v2_condition, report, set_error_status,
}
use workbenches_operator.Reconciler.Loop.Done.{KeepsStatus, Completed, reconcile_managed-Completed}
use workbenches_operator.Reconciler.Loop.Failure.{Reported, reconcile_managed-Reported}
use workbenches_operator.Reconciler.Loop.Finalizer.{Released, reconcile_delete-Released}
use workbenches_operator.Tests.Cluster.{
  State, cluster, env, format, contracts, object, start, put_namespace, namespace_labels, status,
  spec,
}

keeps : KeepsStatus cluster
keeps s s' wb answer h = cc

ends : reconcile_managed env object start ≡ ((reconcile_managed env object start).0, done)
unfolding reconcile_managed resolved_distribution requeues observed_status
    set_workbenches_v2_condition report set_error_status validate_spec resolve_operand_namespace
    set_status_namespaces configure_dependencies ensure_generated_namespace
    resolve_legacy_workbench_namespace compute_kustomize_params is_valid
    valid_applications_namespace default_applications_namespace default_legacy_workbench_namespace
    section_title lookup insert is_not_found message read_desired_distribution read_platform_version
    resolve_desired_distribution is_distribution_empty check_deployments
    check_workspaces_controller_deployment deployments_availability sync_ingress_contract_status
    ingress_contract_stamp is_notebook_controller_deployment sync_image_streams_available eq_int
    is_workbenches_v2_managed set_condition set_deployment_condition populate_releases
    set_provisioned record_distribution records_version record_platform_version
    reconciled_platform_version settle set_ready_condition append_image_stream_warning_to_ready
    observe get_platform_release set_platform_release merge_component_releases handshake_complete
    handshake_required distribution_aligned trim_space sanitize_conditions reference compute_phase
    gt
ends = refl

reconcile_managed-Completed_example :
    Completed env
      (set_status_namespaces object (operand_namespace env object))
      start
      (reconcile_managed env object start).0
reconcile_managed-Completed_example =
    reconcile_managed-Completed env reference-IsLawful keeps object start
      (reconcile_managed env object start).0 ends

abbrev desired : Distribution
desired = record { name = "OpenDataHub"; version = "3.5.1" }

abbrev earlier : Earlier
earlier = record { previous_observed_generation = pos 1; generation = pos 2; was_ready = false }

abbrev unchanged : String → String
unchanged text = text

says_ready :
    reference.is_status_condition_true
      (settle reference format unchanged earlier true "" desired "3.5.1" object).status.conditions
      type_ready
    ≡ true
unfolding set_condition set_deployment_condition populate_releases set_provisioned
    record_distribution records_version record_platform_version reconciled_platform_version settle
    set_ready_condition append_image_stream_warning_to_ready observe get_platform_release
    set_platform_release merge_component_releases handshake_complete handshake_required
    distribution_aligned trim_space sanitize_conditions reference compute_phase gt
says_ready = refl

settle-Evidence_example :
    Evidence true desired "3.5.1"
      (settle reference format unchanged earlier true "" desired "3.5.1" object)
settle-Evidence_example =
    (settle-Evidence reference reference-IsLawful format unchanged earlier true "" desired "3.5.1"
        object).0
      says_ready

view-settle_example :
    view reference (settle reference format unchanged earlier true "" desired "3.5.1" object)
    ≡ next true "3.5.1" (view reference object)
unfolding reference handshake_required trim_space
view-settle_example =
    view-settle reference reference-IsLawful format desired "3.5.1" refl refl unchanged earlier true
      "" object refl refl

settle-Advance_example :
    Advance "3.5.1"
      (view reference object)
      (view reference (settle reference format unchanged earlier true "" desired "3.5.1" object))
unfolding reference handshake_required trim_space
settle-Advance_example =
    settle-Advance reference reference-IsLawful format desired "3.5.1" refl refl refl unchanged
      earlier true "" object refl

-- An object with an older version, which the first of two reconciles announces.
abbrev upgraded : Workbenches
upgraded = record object {
  status = record status {
    releases = record { name = "platform"; version = "3.4.0"; repo_url = "" } ∷ [];
  };
}

still_provisioned :
    reference.is_status_condition_true
      (settle reference format unchanged earlier true "" desired "3.5.1" upgraded).status.conditions
      "ProvisioningSucceeded"
    ≡ true
unfolding set_condition set_deployment_condition populate_releases set_provisioned
    record_distribution records_version record_platform_version reconciled_platform_version settle
    set_ready_condition append_image_stream_warning_to_ready observe get_platform_release
    set_platform_release merge_component_releases handshake_complete handshake_required
    distribution_aligned trim_space sanitize_conditions reference compute_phase gt
still_provisioned = refl

settle_twice-ready_example :
    reference.is_status_condition_true
      (settle reference format unchanged earlier true "" desired "3.5.1" (
        settle reference format unchanged earlier true "" desired "3.5.1"
          upgraded)).status.conditions
      type_ready
    ≡ true
unfolding reference handshake_required trim_space
settle_twice-ready_example =
    settle_twice-ready reference reference-IsLawful format desired "3.5.1" refl refl refl refl
      unchanged earlier earlier "" upgraded
      (settle reference format unchanged earlier true "" desired "3.5.1" upgraded) refl
      still_provisioned refl

says_contract_ready :
    reference.is_status_condition_true
      (sync_ingress_contract_status reference format cluster env.settings contracts object
        start).status.conditions
      type_ingress_contract_ready
    ≡ true
unfolding reconcile_managed resolved_distribution requeues observed_status
    set_workbenches_v2_condition report set_error_status validate_spec resolve_operand_namespace
    set_status_namespaces configure_dependencies ensure_generated_namespace
    resolve_legacy_workbench_namespace compute_kustomize_params is_valid
    valid_applications_namespace default_applications_namespace default_legacy_workbench_namespace
    section_title lookup insert is_not_found message read_desired_distribution read_platform_version
    resolve_desired_distribution is_distribution_empty check_deployments
    check_workspaces_controller_deployment deployments_availability sync_ingress_contract_status
    ingress_contract_stamp is_notebook_controller_deployment sync_image_streams_available eq_int
    is_workbenches_v2_managed set_condition set_deployment_condition populate_releases
    set_provisioned record_distribution records_version record_platform_version
    reconciled_platform_version settle set_ready_condition append_image_stream_warning_to_ready
    observe get_platform_release set_platform_release merge_component_releases handshake_complete
    handshake_required distribution_aligned trim_space sanitize_conditions reference compute_phase
    gt
says_contract_ready = refl

sync_ingress_contract_status-Evidence_example :
    Ingress.Evidence format cluster env.settings contracts start object
      (sync_ingress_contract_status reference format cluster env.settings contracts object start)
sync_ingress_contract_status-Evidence_example =
    Ingress.sync_ingress_contract_status-Evidence reference reference-IsLawful format cluster
      env.settings contracts object start says_contract_ready

-- A spec that is not valid.
abbrev misspelt : Workbenches
misspelt = record object { spec = record spec { platform = "Plain" } }

abbrev unsupported : Error
unsupported =
    failure "unsupported platform \"Plain\", must be one of: OpenDataHub, SelfManagedRhoai"

refuses : reconcile_managed env misspelt start ≡ (
  (reconcile_managed env misspelt start).0,
  record { requeue_after = 0; error = some unsupported },
)
unfolding reconcile_managed resolved_distribution requeues observed_status
    set_workbenches_v2_condition report set_error_status validate_spec resolve_operand_namespace
    set_status_namespaces configure_dependencies ensure_generated_namespace
    resolve_legacy_workbench_namespace compute_kustomize_params is_valid
    valid_applications_namespace default_applications_namespace default_legacy_workbench_namespace
    section_title lookup insert is_not_found message read_desired_distribution read_platform_version
    resolve_desired_distribution is_distribution_empty check_deployments
    check_workspaces_controller_deployment deployments_availability sync_ingress_contract_status
    ingress_contract_stamp is_notebook_controller_deployment sync_image_streams_available eq_int
    is_workbenches_v2_managed set_condition set_deployment_condition populate_releases
    set_provisioned record_distribution records_version record_platform_version
    reconciled_platform_version settle set_ready_condition append_image_stream_warning_to_ready
    observe get_platform_release set_platform_release merge_component_releases handshake_complete
    handshake_required distribution_aligned trim_space sanitize_conditions reference compute_phase
    gt
refuses = refl

reconcile_managed-Reported_example :
    Reported env (reconcile_managed env misspelt start).0 unsupported
reconcile_managed-Reported_example =
    reconcile_managed-Reported env reference-IsLawful misspelt start
      (reconcile_managed env misspelt start).0 unsupported refuses

reconcile_delete-Released_example :
    ((reconcile_delete env object start).1.error ≡ none
      → Released env object start (reconcile_delete env object start).0)
    × ((s' : State) (e : Error)
        → env.operands.cleanup_managed_resources start (operand_namespace env object) ≡ (s', err e)
        → reconcile_delete env object start ≡ (s', record { requeue_after = 0; error = some e }))
reconcile_delete-Released_example = reconcile_delete-Released env object start refl

abbrev failed_tags : List String
failed_tags = "a:1 (x)" ∷ "b:2 (y)" ∷ []

image_stream_warning-Warning_example :
    Warning format failed_tags (image_stream_warning (λ text n. "") format failed_tags)
image_stream_warning-Warning_example =
    image_stream_warning-Warning (λ text n. "") format failed_tags

read_back :
    (name : String) (labels : StringMap) (namespaces : Dict StringMap)
    → namespace_labels (lookup name (insert name labels namespaces)) ≡ ok (some labels)
read_back name labels namespaces = rw (lookup-insert name name labels namespaces, eq_refl name)

left_alone :
    (name other : String) (labels : StringMap) (namespaces : Dict StringMap)
    → (name == other) ≡ false
    → namespace_labels (lookup other (insert name labels namespaces))
      ≡ namespace_labels (lookup other namespaces)
left_alone name other labels namespaces apart =
    rw (lookup-insert name other labels namespaces, apart)

here :
    (s s' : State) (name : String) (labels : StringMap)
    → ◌≡◌ {A = State × Result (Unit {0})} (put_namespace s name labels, ok tt) (s', ok tt)
    → Stored labels (namespace_labels (lookup name s'.namespaces))
here s s' name labels h = record {
  stored = some (insert server_label name labels);
  present =
      sym (ap (λ (p : State × Result (Unit {0})). namespace_labels (lookup name p.0.namespaces)) h)
      ∙ read_back name (insert server_label name labels) s.namespaces;
  kept = λ key value apart sent. rw (lookup-insert, apart) sent;
}

elsewhere :
    (s s' : State) (name other : String) (labels : StringMap)
    → ◌≡◌ {A = State × Result (Unit {0})} (put_namespace s name labels, ok tt) (s', ok tt)
    → (name == other) ≡ false
    → namespace_labels (lookup other s'.namespaces) ≡ namespace_labels (lookup other s.namespaces)
elsewhere s s' name other labels h apart =
    sym (ap (λ (p : State × Result (Unit {0})). namespace_labels (lookup other p.0.namespaces)) h)
    ∙ left_alone name other (insert server_label name labels) s.namespaces apart

cluster-IsLawful : IsLawful cluster
cluster-IsLawful = record {
  get-create = λ s s' name labels h. here s s' name labels h;
  get-update = λ s s' name labels h. here s s' name labels h;
  get-create_other = λ s s' name other labels h apart. elsewhere s s' name other labels h apart;
  get-update_other = λ s s' name other labels h apart. elsewhere s s' name other labels h apart;
}

prepares :
    configure_dependencies cluster env.settings spec start
    ≡ ((configure_dependencies cluster env.settings spec start).0, ok tt)
unfolding resolve_operand_namespace configure_dependencies ensure_generated_namespace
    resolve_legacy_workbench_namespace valid_applications_namespace default_applications_namespace
    default_legacy_workbench_namespace lookup insert is_not_found trim_space
prepares = refl

configure_dependencies-Prepared_example :
    Prepared cluster cluster-IsLawful
      (resolve_operand_namespace env.settings spec.platform)
      (resolve_legacy_workbench_namespace spec)
      start
      (configure_dependencies cluster env.settings spec start).0
configure_dependencies-Prepared_example =
    configure_dependencies-Prepared cluster cluster-IsLawful env.settings spec start
      (configure_dependencies cluster env.settings spec start).0 prepares

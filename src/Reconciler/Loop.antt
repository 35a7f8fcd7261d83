-- ===== src/Reconciler/Loop.antt =====
-- `Reconcile` and the reconciles of an object that is managed, removed or deleted. A reconcile takes the
-- state of the cluster and returns it with its outcome.
pub mod Done
pub mod Failure
pub mod Finalizer
use workbenches_operator.Prelude.{
  ℕ, String, ◌<>◌, ◌==◌, Bool, true, false, not, ◌&&◌, ◌||◌, Option, none, some, List, [], ◌∷◌,
  ◌++◌, keep, contains, is_some, if◌then◌else◌,
}
use workbenches_operator.Errors.{Error, is_not_found, Result, ok, err, wrap}
use workbenches_operator.Json.{ℤ, pos}
use workbenches_operator.Format.{Format}
use workbenches_operator.Dict.{StringMap}
use workbenches_operator.Phase.{pending, PhaseContext, compute_phase, is_zero}
use workbenches_operator.Conditions.{
  Conditions, sanitize_conditions, type_ready, type_provisioning_succeeded,
  type_workbenches_v2_ready, type_ingress_contract_ready, reason_available,
}
use workbenches_operator.Api.{
  Workbenches, WorkbenchesStatus, WorkbenchesSpec, Distribution, ConditionStatus, condition_true,
  condition_false, management_state_removed, is_workbenches_v2_managed,
}
use workbenches_operator.PlatformConfig.Distribution.{
  read_desired_distribution, read_platform_version, resolve_desired_distribution,
  distribution_aligned, distribution_empty,
}
use workbenches_operator.PlatformConfig.Releases.{handshake_complete, handshake_required}
use workbenches_operator.Reconciler.Cluster.{Cluster, Operands, Outcome, requeue_delay, done}
use workbenches_operator.Reconciler.Namespaces.{
  Settings, resolve_operand_namespace, set_status_namespaces, validate_spec, configure_dependencies,
  compute_kustomize_params,
}
use workbenches_operator.Reconciler.Deployments.{
  check_deployments, check_workspaces_controller_deployment,
}
use workbenches_operator.Reconciler.Status.{
  with_conditions, set_condition, set_deployment_condition, populate_releases, set_provisioned,
}
use workbenches_operator.Reconciler.Ready.{Earlier, settle, error_status}
use workbenches_operator.Reconciler.Ingress.{ContractFormat, sync_ingress_contract_status}
use workbenches_operator.Reconciler.ImageStreams.{sync_image_streams_available}

abbrev pub workbenches_finalizer : String
workbenches_finalizer = "components.platform.opendatahub.io/workbenches-cleanup"

-- What is not part of the operator, and its settings.
pub record Environment (S : Type 0) : Type 0 where
  pub meta : Conditions
  pub format : Format
  pub contracts : ContractFormat
  -- text[:n]
  pub cut : String → ℕ → String
  -- strings.TrimRight(text, ".")
  pub trim_dots : String → String
  pub cluster : Cluster S
  pub operands : Operands S
  pub settings : Settings

abbrev failed : {S : Type 0} → S → Error → S × Outcome
failed s e = (s, record { requeue_after = 0; error = some e })

module _ {S : Type 0} (env : Environment S) where
  open env use {meta, format, contracts, cut, trim_dots, cluster, operands, settings}

  abbrev pub operand_namespace : Workbenches → String
  operand_namespace wb = resolve_operand_namespace settings wb.spec.platform

  unfoldable pub set_error_status : String → Error → Workbenches → S → S × Outcome
  set_error_status reason e wb s =
      failed (cluster.update_status s (error_status meta format reason e wb)).0 e

  finalizer_updated : S × Result Workbenches → S × Outcome
  finalizer_updated (s, ok wb) = (s, done)
  finalizer_updated (s, err e) = failed s (wrap "failed to remove finalizer" e)

  abbrev is_other : String → Bool
  is_other finalizer = not (finalizer == workbenches_finalizer)

  abbrev without_finalizer : Workbenches → Workbenches
  without_finalizer wb = record wb { finalizers = keep is_other wb.finalizers }

  cleaned_up : Workbenches → S × Result (Unit {0}) → S × Outcome
  unfolding finalizer_updated
  cleaned_up wb (s, err e) = failed s e
  cleaned_up wb (s, ok _) = finalizer_updated (cluster.update_workbenches s (without_finalizer wb))

  unfoldable pub reconcile_delete : Workbenches → S → S × Outcome
  unfolding cleaned_up
  reconcile_delete wb s =
      if contains workbenches_finalizer wb.finalizers
      then cleaned_up wb (operands.cleanup_managed_resources s (operand_namespace wb))
      else (s, done)

  abbrev removed_condition : String → Workbenches → Workbenches
  removed_condition type_name =
      set_condition meta type_name condition_false management_state_removed
        "Workbenches component has been removed"

  abbrev removed_context : PhaseContext
  removed_context = record {
    previous_observed_generation = pos 0;
    generation = pos 0;
    was_ready = false;
    is_ready = false;
    is_degraded = false;
    is_failed = false;
    removed = true;
    provisioning_succeeded = false;
  }

  -- The status after the clean-up.
  unfoldable pub removed_status : Workbenches → Workbenches
  removed_status wb =
      let marked = removed_condition type_ingress_contract_ready (
        removed_condition type_workbenches_v2_ready
          (removed_condition type_provisioning_succeeded (removed_condition type_ready wb))) in
      record marked {
        status = record marked.status {
          phase = some (compute_phase removed_context);
          releases = [];
          distribution = distribution_empty;
          ingress_contract = record {
            version = "";
            source_generation = pos 0;
            deployment_generation = pos 0;
          };
          observed_generation = wb.generation;
          conditions = sanitize_conditions marked.status.conditions;
        };
      }

  status_updated : S × Result Workbenches → S × Outcome
  status_updated (s, ok wb) = (s, done)
  status_updated (s, err e) = failed s e

  removed_cleaned : Workbenches → S × Result (Unit {0}) → S × Outcome
  unfolding status_updated
  removed_cleaned wb (s, err e) = set_error_status "CleanupFailed" e wb s
  removed_cleaned wb (s, ok _) = status_updated (cluster.update_status s (removed_status wb))

  unfoldable pub reconcile_removed : Workbenches → S → S × Outcome
  unfolding removed_cleaned
  reconcile_removed wb s =
      let namespace = operand_namespace wb in
      removed_cleaned (set_status_namespaces wb namespace)
        (operands.cleanup_managed_resources s namespace)

  -- `setWorkbenchesV2Condition`
  unfoldable pub set_workbenches_v2_condition : Workbenches → S → Workbenches
  set_workbenches_v2_condition wb s =
      let (ready, text) = check_workspaces_controller_deployment format cluster settings wb s in
      if not (is_workbenches_v2_managed wb.spec)
      then set_condition meta type_workbenches_v2_ready condition_false management_state_removed
          "workbenches-v2 submodule is not enabled" wb
      else if not (operands.workbenches_v2_manifests_exist s)
      then set_condition meta type_workbenches_v2_ready condition_false "ManifestsNotAvailable"
          "workbenches-v2 manifests are not available in this operator build" wb
      else if not ready
      then set_condition meta type_workbenches_v2_ready condition_false "Unavailable" text wb
      else set_condition meta type_workbenches_v2_ready condition_true reason_available
          "workspaces-controller deployment is available" wb

  unfoldable pub resolved_distribution : Workbenches → S → Result Distribution
  resolved_distribution wb s =
      elim (read_desired_distribution format (cluster.get_config_map s) (operand_namespace wb)) [
        | err e ↦ err e
        | ok desired ↦ ok (resolve_desired_distribution desired wb.spec.platform "")
      ]

  -- Whether the request is tried again although nothing failed.
  unfoldable pub requeues : Bool → Distribution → String → Workbenches → Bool
  requeues deployments_ready desired platform_version wb =
      not deployments_ready
      || (is_some wb.spec.ingress_contract
          && not (meta.is_status_condition_true wb.status.conditions type_ingress_contract_ready))
      || not (distribution_aligned desired wb.status.distribution)
      || (handshake_required desired
          && not (handshake_complete platform_version wb.status.releases))

  -- After the status was written: what the server answered is read on.
  finished : Bool → Distribution → String → S × Result Workbenches → S × Outcome
  unfolding requeues
  finished deployments_ready desired platform_version (s, err e) =
      (s, record { requeue_after = requeue_delay; error = some e })
  finished deployments_ready desired platform_version (s, ok wb) =
      if requeues deployments_ready desired platform_version wb
      then (s, record { requeue_after = requeue_delay; error = none })
      else (s, done)

  -- The status before the image streams.
  unfoldable pub observed_status : Bool → String → Workbenches → S → Workbenches
  observed_status deployments_ready text wb s =
      set_workbenches_v2_condition
        (sync_ingress_contract_status meta format cluster settings contracts
          (set_deployment_condition meta deployments_ready text (
            set_provisioned meta (populate_releases meta operands.collect_workbenches_releases wb)))
          s)
        s

  streams_synced :
      Earlier
      → Bool
      → String
      → Distribution
      → String
      → S
      → Workbenches
      → Result Workbenches
      → S × Outcome
  unfolding finished
  streams_synced earlier deployments_ready text desired platform_version s wb (err e) =
      set_error_status "ImageStreamsStatusFailed" e wb s
  streams_synced earlier deployments_ready text desired platform_version s wb (ok wb') =
      finished deployments_ready desired platform_version (
        cluster.update_status s (
          settle meta format trim_dots earlier deployments_ready text desired platform_version wb'))

  -- From the applied operands to the written status.
  unfoldable pub report : Earlier → Distribution → String → Workbenches → S → S × Outcome
  unfolding streams_synced
  report earlier desired platform_version wb s =
      let (deployments_ready, text) = check_deployments format cluster settings wb s in
      let observed = observed_status deployments_ready text wb s in
      streams_synced earlier deployments_ready text desired platform_version s observed
        (sync_image_streams_available cut meta format cluster observed (operand_namespace wb) s)

  applied : Earlier → Distribution → String → Workbenches → S × Result (Unit {0}) → S × Outcome
  unfolding report
  applied earlier desired platform_version wb (s, err e) =
      set_error_status "ManifestApplyFailed" e wb s
  applied earlier desired platform_version wb (s, ok _) =
      report earlier desired platform_version wb s

  configured : Earlier → Distribution → String → Workbenches → S × Result (Unit {0}) → S × Outcome
  unfolding applied
  configured earlier desired platform_version wb (s, err e) =
      set_error_status "ConfigureDependenciesFailed" e wb s
  configured earlier desired platform_version wb (s, ok _) =
      applied earlier desired platform_version wb (
        operands.render_and_apply s wb (compute_kustomize_params wb.spec) (operand_namespace wb)
          wb.spec.platform)

  with_version : Earlier → Distribution → Workbenches → S → Result String → S × Outcome
  unfolding configured
  with_version earlier desired wb s (err e) = set_error_status "PlatformVersionReadFailed" e wb s
  with_version earlier desired wb s (ok platform_version) =
      configured earlier desired platform_version wb
        (configure_dependencies cluster settings wb.spec s)

  with_distribution : Earlier → Workbenches → S → Result Distribution → S × Outcome
  unfolding with_version
  with_distribution earlier wb s (err e) = set_error_status "PlatformConfigReadFailed" e wb s
  with_distribution earlier wb s (ok desired) =
      with_version earlier desired wb s
        (read_platform_version (cluster.get_config_map s) (operand_namespace wb))

  with_spec : Earlier → Workbenches → S → Result (Unit {0}) → S × Outcome
  unfolding with_distribution resolved_distribution
  with_spec earlier wb s (err e) = set_error_status "InvalidSpec" e wb s
  with_spec earlier wb s (ok _) = with_distribution earlier wb s (resolved_distribution wb s)

  pending_written : S × Result Workbenches → S × Outcome
  pending_written (s, err e) = (s, record { requeue_after = requeue_delay; error = some e })
  pending_written (s, ok wb) = (s, record { requeue_after = 1; error = none })

  abbrev pub is_first : Workbenches → Bool
  is_first wb = not (is_some wb.status.phase) && is_zero wb.status.observed_generation

  abbrev pending_status : Workbenches → Workbenches
  pending_status wb = record wb {
    status = record wb.status {
      phase = some pending;
      conditions = sanitize_conditions wb.status.conditions;
    };
  }

  abbrev pub earlier_of : Workbenches → Earlier
  earlier_of wb = record {
    previous_observed_generation = wb.status.observed_generation;
    generation = wb.generation;
    was_ready = meta.is_status_condition_true wb.status.conditions type_ready;
  }

  unfoldable pub reconcile_managed : Workbenches → S → S × Outcome
  unfolding pending_written with_spec
  reconcile_managed wb s =
      if is_first wb
      then pending_written (cluster.update_status s (pending_status wb))
      else with_spec (earlier_of wb) (set_status_namespaces wb (operand_namespace wb)) s
          (validate_spec format wb.spec)

  by_state : Workbenches → S → S × Outcome
  unfolding reconcile_removed reconcile_managed
  by_state wb s =
      if wb.spec.management_state == management_state_removed
      then reconcile_removed wb s
      else reconcile_managed wb s

  finalizer_added : S × Result Workbenches → S × Outcome
  unfolding by_state
  finalizer_added (s, err e) = failed s (wrap "failed to add finalizer" e)
  finalizer_added (s, ok wb) = by_state wb s

  abbrev with_finalizer : Workbenches → Workbenches
  with_finalizer wb = record wb { finalizers = wb.finalizers ++ (workbenches_finalizer ∷ []) }

  reconcile_object : S → Result Workbenches → S × Outcome
  unfolding finalizer_added reconcile_delete
  reconcile_object s (err e) = if is_not_found e then (s, done) else failed s e
  reconcile_object s (ok wb) =
      if not wb.deletion_timestamp_is_zero
      then reconcile_delete wb s
      else if contains workbenches_finalizer wb.finalizers
      then by_state wb s
      else finalizer_added (cluster.update_workbenches s (with_finalizer wb))

  unfoldable pub reconcile : String → S → S × Outcome
  unfolding reconcile_object
  reconcile name s = reconcile_object s (cluster.get_workbenches s name)

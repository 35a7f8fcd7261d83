-- ===== src/Reconciler/Ready.antt =====
-- `setReadyCondition`, the end of a reconcile, and the status of one that failed.
pub mod Gate
pub mod Evidence
pub mod Phases
pub mod Machine
pub mod Upgrade
use workbenches_operator.Prelude.{
  ℕ, String, ◌<>◌, ◌==◌, Bool, true, false, not, ◌&&◌, ◌||◌, Option, none, some, List, [], ◌∷◌,
  is_some, if◌then◌else◌,
}
use workbenches_operator.Errors.{Error, message, Result, ok, err}
use workbenches_operator.Format.{Format}
use workbenches_operator.Json.{ℤ, pos}
use workbenches_operator.Phase.{Phase, PhaseContext, compute_phase}
use workbenches_operator.Conditions.{
  Conditions, sanitize_conditions, type_ready, type_provisioning_succeeded, type_degraded,
  type_ingress_contract_ready, type_image_streams_available,
}
use workbenches_operator.Api.{
  Workbenches, WorkbenchesStatus, Condition, ConditionStatus, condition_true, condition_false,
  Distribution, IngressContractStatus,
}
use workbenches_operator.PlatformConfig.Distribution.{distribution_aligned}
use workbenches_operator.PlatformConfig.Releases.{handshake_complete, handshake_required}
use workbenches_operator.Reconciler.Status.{
  set_condition, with_conditions, record_distribution, record_platform_version,
  reconciled_platform_version,
}

-- What is known before the status changes.
pub record Earlier : Type 0 where
  pub previous_observed_generation : ℤ
  pub generation : ℤ
  pub was_ready : Bool

module _ (meta : Conditions) (format : Format) where
  abbrev not_degraded : Workbenches → Workbenches
  not_degraded =
      set_condition meta type_degraded condition_false "NotDegraded"
        "Workbenches component is operating normally"

  abbrev pub handshake_settled : Distribution → String → Workbenches → Bool
  handshake_settled desired platform_version wb =
      not (handshake_required desired) || handshake_complete platform_version wb.status.releases

  abbrev pub is_ready : Bool → Distribution → String → Workbenches → Bool
  is_ready deployments_ready desired platform_version wb =
      deployments_ready
      && distribution_aligned desired wb.status.distribution
      && handshake_settled desired platform_version wb

  abbrev set_ready : Workbenches → Workbenches
  set_ready wb = not_degraded (
      set_condition meta type_ready condition_true "ReconcileSuccess"
        "Workbenches component is ready" wb)

  set_not_ready : String → String → Workbenches → Workbenches
  unfolding set_condition
  set_not_ready reason text = set_condition meta type_ready condition_false reason text

  abbrev alignment_message : Distribution → Distribution → String
  alignment_message desired current =
      "Waiting for distribution alignment: desired "
      <> (desired.name
          <> ("/"
              <> (desired.version <> (", current " <> (current.name <> ("/" <> current.version))))))

  abbrev version_message : String → String → String
  version_message platform_version reconciled =
      if platform_version == ""
      then "waiting for platform version from odh-workbenches-config"
      else "platform upgrade in progress: reconciled "
        <> (format.quote reconciled <> (", target " <> format.quote platform_version))

  -- The last part: a component that was ready and whose deployments are not is degraded.
  abbrev degrade : Bool → Bool → String → Workbenches → Workbenches
  degrade deployments_ready was_ready deploy_message wb =
      if not deployments_ready && was_ready
      then set_condition meta type_degraded condition_true "DeploymentsNotReady" deploy_message wb
      else wb

  -- Where the component is not ready.
  set_pending : Bool → String → Bool → Distribution → String → String → Workbenches → Workbenches
  unfolding set_not_ready
  set_pending false deploy_message was_ready desired platform_version reconciled wb =
      degrade false was_ready deploy_message (
        set_not_ready "DeploymentsNotReady"
          (if deploy_message == ""
            then "Waiting for deployments to become available"
            else deploy_message)
          wb)
  set_pending true deploy_message was_ready desired platform_version reconciled wb =
      degrade true was_ready deploy_message (
        if not (distribution_aligned desired wb.status.distribution)
        then set_not_ready "DistributionNotAligned"
            (alignment_message desired wb.status.distribution) wb
        else if handshake_required desired && not (handshake_settled desired platform_version wb)
        then set_not_ready "PlatformVersionPending" (version_message platform_version reconciled)
            (not_degraded wb)
        else set_not_ready "DeploymentsNotReady"
            (if deploy_message == ""
              then "Waiting for deployments to become available"
              else deploy_message)
            wb)

  unfoldable pub set_ready_condition :
      Bool → String → Bool → Distribution → String → String → Workbenches → Workbenches
  unfolding set_pending
  set_ready_condition deployments_ready deploy_message was_ready desired platform_version reconciled
        wb =
      if is_ready deployments_ready desired platform_version wb
      then set_ready wb
      else set_pending deployments_ready deploy_message was_ready desired platform_version
          reconciled wb

  -- strings.TrimRight with "." is an argument.
  unfoldable pub warned : (String → String) → String → String → String
  warned trim_dots ready_message warning =
      if ready_message == "" then warning else trim_dots ready_message <> (". " <> warning)

  abbrev is_false : ConditionStatus → Bool
  is_false condition_false = true
  is_false _ = false

  append_warning :
      (String → String) → Option Condition → Option Condition → Workbenches → Workbenches
  unfolding warned
  append_warning trim_dots none ready wb = wb
  append_warning trim_dots (some streams) none wb = wb
  append_warning trim_dots (some streams) (some ready) wb =
      if not (is_false streams.status) || streams.message == ""
      then wb
      else with_conditions wb (
          meta.set_status_condition wb.status.conditions (record {
            type_name = ready.type_name;
            status = ready.status;
            reason = ready.reason;
            message = warned trim_dots ready.message streams.message;
            observed_generation = ready.observed_generation;
          }))

  unfoldable pub append_image_stream_warning_to_ready :
      (String → String) → Workbenches → Workbenches
  unfolding append_warning
  append_image_stream_warning_to_ready trim_dots wb =
      append_warning trim_dots
        (meta.find_status_condition wb.status.conditions type_image_streams_available)
        (meta.find_status_condition wb.status.conditions type_ready) wb

  -- The phase from the conditions, and the generation.
  unfoldable pub observe : Earlier → Workbenches → Workbenches
  observe earlier wb =
      let conditions = wb.status.conditions in
      record wb {
        status = record wb.status {
          observed_generation = wb.generation;
          phase = some (
              compute_phase (record {
                previous_observed_generation = earlier.previous_observed_generation;
                generation = earlier.generation;
                was_ready = earlier.was_ready;
                is_ready = meta.is_status_condition_true conditions type_ready;
                is_degraded = meta.is_status_condition_true conditions type_degraded;
                is_failed = false;
                removed = false;
                provisioning_succeeded =
                    meta.is_status_condition_true conditions type_provisioning_succeeded;
              }));
          conditions = sanitize_conditions conditions;
        };
      }

  -- From the recording of the distribution to the end of the status.
  unfoldable pub settle :
      (String → String)
      → Earlier
      → Bool
      → String
      → Distribution
      → String
      → Workbenches
      → Workbenches
  settle trim_dots earlier deployments_ready deploy_message desired platform_version wb =
      let aligned = record_distribution meta deployments_ready desired wb in
      observe earlier (
        append_image_stream_warning_to_ready trim_dots (
          set_ready_condition deployments_ready deploy_message earlier.was_ready desired
            platform_version
            (reconciled_platform_version meta deployments_ready desired platform_version aligned)
            (record_platform_version meta deployments_ready desired platform_version aligned)))

  abbrev no_contract : IngressContractStatus
  no_contract = record { version = ""; source_generation = pos 0; deployment_generation = pos 0 }

  abbrev failed_context : PhaseContext
  failed_context = record {
    previous_observed_generation = pos 0;
    generation = pos 0;
    was_ready = false;
    is_ready = false;
    is_degraded = false;
    is_failed = true;
    removed = false;
    provisioning_succeeded = false;
  }

  abbrev fail_phase : Workbenches → Workbenches
  fail_phase wb = record wb {
    status = record wb.status {
      phase = some (compute_phase failed_context);
      observed_generation = wb.generation;
      ingress_contract = no_contract;
    };
  }

  -- The status that `setErrorStatus` writes.
  unfoldable pub error_status : String → Error → Workbenches → Workbenches
  error_status reason e wb =
      let failed =
        set_condition meta type_ingress_contract_ready condition_false
          "IngressContractEvidenceStale" (message e)
          (fail_phase (set_condition meta type_ready condition_false reason (message e) wb)) in
      with_conditions failed (sanitize_conditions failed.status.conditions)

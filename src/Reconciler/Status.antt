-- ===== src/Reconciler/Status.antt =====
-- The conditions, releases and distribution of the status after the operands are applied.
pub mod Find
pub mod Records
use workbenches_operator.Prelude.{
  ℕ, String, ◌<>◌, ◌==◌, Bool, true, false, not, ◌&&◌, ◌||◌, Option, none, some, List, [], ◌∷◌,
  if◌then◌else◌,
}
use workbenches_operator.Errors.{Error, message, Result, ok, err, wrap}
use workbenches_operator.Format.{Format}
use workbenches_operator.Json.{ℤ}
use workbenches_operator.Phase.{Phase, PhaseContext, compute_phase}
use workbenches_operator.Conditions.{
  Conditions, sanitize_conditions, reason_available, type_ready, type_provisioning_succeeded,
  type_degraded, type_deployments_available, type_release_metadata_available,
}
use workbenches_operator.Api.{
  Workbenches, WorkbenchesStatus, Condition, ConditionStatus, condition_true, condition_false,
  ComponentRelease, Distribution, IngressContractStatus,
}
use workbenches_operator.PlatformConfig.Distribution.{distribution_aligned}
use workbenches_operator.PlatformConfig.Releases.{
  get_platform_release, set_platform_release, merge_component_releases, handshake_complete,
  handshake_required,
}

abbrev pub with_conditions : Workbenches → List Condition → Workbenches
with_conditions wb conditions = record wb { status = record wb.status { conditions = conditions } }

module _ (meta : Conditions) where
  -- `meta.SetStatusCondition` on the status, at the generation of the object.
  unfoldable pub set_condition :
      String → ConditionStatus → String → String → Workbenches → Workbenches
  set_condition type_name status reason message wb = with_conditions wb (
      meta.set_status_condition wb.status.conditions (record {
        type_name = type_name;
        status = status;
        reason = reason;
        message = message;
        observed_generation = wb.generation;
      }))

  unfoldable pub set_deployment_condition : Bool → String → Workbenches → Workbenches
  unfolding set_condition
  set_deployment_condition true message =
      set_condition type_deployments_available condition_true reason_available
        "All deployments are available"
  set_deployment_condition false message =
      set_condition type_deployments_available condition_false "Unavailable" message

  abbrev with_releases : Workbenches → List ComponentRelease → Workbenches
  with_releases wb releases = record wb { status = record wb.status { releases = releases } }

  -- `populateReleases` and the condition on its error.
  unfoldable pub populate_releases : Result (List ComponentRelease) → Workbenches → Workbenches
  unfolding set_condition
  populate_releases (err e) wb =
      set_condition type_release_metadata_available condition_false "ReleaseMetadataFailed"
        (message (wrap "collecting component releases" e))
        (with_releases wb (merge_component_releases [] (get_platform_release wb.status.releases)))
  populate_releases (ok components) wb =
      set_condition type_release_metadata_available condition_true reason_available
        "Component release metadata is available"
        (with_releases wb
          (merge_component_releases components (get_platform_release wb.status.releases)))

  unfoldable pub set_provisioned : Workbenches → Workbenches
  unfolding set_condition
  set_provisioned =
      set_condition type_provisioning_succeeded condition_true "Provisioned"
        "Workbenches manifests have been provisioned"

  -- The distribution is taken over once the deployments run.
  unfoldable pub record_distribution : Bool → Distribution → Workbenches → Workbenches
  record_distribution deployments_ready desired wb =
      if deployments_ready
        && meta.is_status_condition_true wb.status.conditions type_provisioning_succeeded
        && not (distribution_aligned desired wb.status.distribution)
      then record wb { status = record wb.status { distribution = desired } }
      else wb

  abbrev pub reason_is : String → Option Condition → Bool
  reason_is reason none = false
  reason_is reason (some c) = c.reason == reason

  abbrev pub was_platform_version_pending : Workbenches → Bool
  was_platform_version_pending wb =
      reason_is "PlatformVersionPending"
        (meta.find_status_condition wb.status.conditions type_ready)

  abbrev pub current_platform_version : Workbenches → String
  current_platform_version wb = (get_platform_release wb.status.releases).version

  -- Whether the platform's version is recorded in this reconcile.
  unfoldable pub records_version : Bool → Distribution → String → Workbenches → Bool
  records_version deployments_ready desired platform_version wb =
      deployments_ready
      && not (platform_version == "")
      && not (current_platform_version wb == platform_version)
      && (current_platform_version wb == ""
          || was_platform_version_pending wb
          || not (handshake_required desired))

  unfoldable pub record_platform_version : Bool → Distribution → String → Workbenches → Workbenches
  unfolding records_version
  record_platform_version deployments_ready desired platform_version wb =
      if records_version deployments_ready desired platform_version wb
      then with_releases wb (set_platform_release wb.status.releases platform_version)
      else wb

  unfoldable pub reconciled_platform_version : Bool → Distribution → String → Workbenches → String
  unfolding records_version
  reconciled_platform_version deployments_ready desired platform_version wb =
      if records_version deployments_ready desired platform_version wb
      then platform_version
      else current_platform_version wb

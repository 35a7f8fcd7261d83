-- ===== src/Reconciler/Status/Records.antt =====
-- What recording the distribution and the platform's version changes of the status, and what not.
use workbenches_operator.Prelude.{
  String, ◌==◌, eq_refl, ◌≡◌, refl, ◌∙◌, Bool, true, false, not, ◌&&◌, arith, Bool-cases, inl, inr,
  if◌then◌else◌,
}
use workbenches_operator.Prelude.Text.{trim_space}
use workbenches_operator.Api.{Workbenches, Distribution}
use workbenches_operator.Conditions.{Conditions, type_provisioning_succeeded}
use workbenches_operator.PlatformConfig.Distribution.{distribution_aligned}
use workbenches_operator.PlatformConfig.Releases.Handshake.{get-set_platform_release}
use workbenches_operator.Reconciler.Status.{
  record_distribution, records_version, record_platform_version, current_platform_version,
}

-- Nothing but the distribution and the releases differs.
pub record SameConditions (before after : Workbenches) : Type 0 where
  pub conditions : after.status.conditions ≡ before.status.conditions
  pub releases : after.status.releases ≡ before.status.releases

module _ (meta : Conditions) where
  pub record_distribution-same :
      (deployments_ready : Bool) (desired : Distribution) (wb : Workbenches)
      → SameConditions wb (record_distribution meta deployments_ready desired wb)
  unfolding record_distribution
  record_distribution-same deployments_ready desired wb =
      elim (Bool-cases (
        deployments_ready
        && meta.is_status_condition_true wb.status.conditions type_provisioning_succeeded
        && not (distribution_aligned desired wb.status.distribution))) [
          | inl changed ↦ rw changed (record { conditions = refl; releases = refl })
          | inr kept ↦ rw kept (record { conditions = refl; releases = refl })
        ]

  aligned_self :
      (desired : Distribution)
      → (desired.name == "") ≡ false
      → distribution_aligned desired desired ≡ true
  unfolding distribution_aligned
  aligned_self desired named = rw (named, eq_refl desired.name, eq_refl desired.version)

  pub record_distribution-aligned :
      (desired : Distribution) (wb : Workbenches)
      → (desired.name == "") ≡ false
      → meta.is_status_condition_true wb.status.conditions type_provisioning_succeeded ≡ true
      → distribution_aligned desired (record_distribution meta true desired wb).status.distribution
        ≡ true
  unfolding record_distribution
  record_distribution-aligned desired wb named provisioned =
      elim (Bool-cases (distribution_aligned desired wb.status.distribution)) [
        | inl same ↦ rw (provisioned, same) same
        | inr apart ↦ rw (provisioned, apart) (aligned_self desired named)
      ]

  pub record_platform_version-distribution :
      (deployments_ready : Bool) (desired : Distribution) (target : String) (wb : Workbenches)
      → (record_platform_version meta deployments_ready desired target wb).status.distribution
        ≡ wb.status.distribution
  unfolding record_platform_version
  record_platform_version-distribution deployments_ready desired target wb =
      elim (Bool-cases (records_version meta deployments_ready desired target wb)) [
        | inl new ↦ rw new
        | inr old ↦ rw old
      ]

  recorded_nonempty :
      (deployments_ready : Bool) (desired : Distribution) (target : String) (wb : Workbenches)
      → records_version meta deployments_ready desired target wb ≡ true
      → (target == "") ≡ false
  unfolding records_version
  recorded_nonempty deployments_ready desired target wb h = ground arith

  pub current-record_platform_version :
      (deployments_ready : Bool) (desired : Distribution) (target : String) (wb : Workbenches)
      → trim_space target ≡ target
      → current_platform_version meta
          (record_platform_version meta deployments_ready desired target wb)
        ≡ (if records_version meta deployments_ready desired target wb
            then target
            else current_platform_version meta wb)
  unfolding record_platform_version
  current-record_platform_version deployments_ready desired target wb trimmed =
      elim (Bool-cases (records_version meta deployments_ready desired target wb)) [
        | inl new ↦
            let set : (trim_space target == "") ≡ false =
              rw trimmed (recorded_nonempty deployments_ready desired target wb new) in
            rw new (get-set_platform_release wb.status.releases target set ∙ trimmed)
        | inr old ↦ rw old
      ]

-- ===== src/Reconciler/Ready/Upgrade.antt =====
-- The status follows the abstract state machine of the handshake over the reconciles.
use workbenches_operator.Prelude.{
  String, ◌==◌, ◌≡◌, refl, sym, ap, ◌∙◌, Bool, true, false, if◌then◌else◌, subst,
}
use workbenches_operator.Prelude.Text.{trim_space}
use workbenches_operator.Format.{Format}
use workbenches_operator.Api.{Workbenches, Distribution}
use workbenches_operator.Conditions.{Conditions, IsLawful, type_ready, type_provisioning_succeeded}
use workbenches_operator.PlatformConfig.Distribution.{distribution_aligned}
use workbenches_operator.PlatformConfig.Releases.{handshake_complete, handshake_required}
use workbenches_operator.Reconciler.Status.{
  record_distribution, records_version, record_platform_version, current_platform_version,
  was_platform_version_pending,
}
use workbenches_operator.Reconciler.Status.Records
use workbenches_operator.Reconciler.Ready.{Earlier, handshake_settled, settle}
use workbenches_operator.Reconciler.Ready.Evidence.{Judged-true, accepts-verdict}
use workbenches_operator.Reconciler.Ready.Gate.{Judged, Verdict, verdict, settle-Judged}
use workbenches_operator.Reconciler.Ready.Machine.{
  Handshake, next, says_pending, advanced, next-advanced, reaches_target, Advance, next-Advance,
}

abbrev pub view : Conditions → Workbenches → Handshake
view meta wb = record {
  recorded = current_platform_version meta wb;
  announced = was_platform_version_pending meta wb;
}

module _ (meta : Conditions) (lawful : IsLawful meta) (format : Format) where
  -- What the status says after a reconcile, from the verdict on it.
  view-Judged :
      (v : Verdict) (before after : Workbenches)
      → Judged meta v before after
      → view meta after
        ≡ record { recorded = current_platform_version meta before; announced = says_pending v }
  view-Judged v before after j = rw (j.releases, j.ready_found, j.ready_reason)

  module _ (desired : Distribution) (target : String) (required : handshake_required desired ≡ true)
      (trimmed : trim_space target ≡ target) where
    -- The version that is recorded, in the terms of the machine.
    current_lem :
        (deployments_ready : Bool) (wb : Workbenches)
        → let aligned = record_distribution meta deployments_ready desired wb in
          current_platform_version meta
            (record_platform_version meta deployments_ready desired target aligned)
          ≡ advanced deployments_ready target (view meta wb)
    unfolding records_version
    current_lem deployments_ready wb =
        let aligned = record_distribution meta deployments_ready desired wb in
        let same = Records.record_distribution-same meta deployments_ready desired wb in
        Records.current-record_platform_version meta deployments_ready desired target aligned
          trimmed
        ∙ rw (same.releases, same.conditions, required)

    settled_lem :
        (wb : Workbenches)
        → handshake_settled meta format desired target wb
          ≡ (if target == "" then false else current_platform_version meta wb == target)
    unfolding handshake_complete
    settled_lem wb = rw (required, trimmed)

    aligned_lem :
        (deployments_ready : Bool) (wb : Workbenches)
        → (desired.name == "") ≡ false
        → meta.is_status_condition_true wb.status.conditions type_provisioning_succeeded ≡ true
        → let aligned = record_distribution meta deployments_ready desired wb in
          (settled : Bool)
          → verdict deployments_ready
              (distribution_aligned desired
                (record_platform_version meta deployments_ready desired target
                  aligned).status.distribution)
              true
              settled
            ≡ verdict deployments_ready deployments_ready true settled
    aligned_lem false wb named provisioned settled = refl
    aligned_lem true wb named provisioned settled =
        let aligned = record_distribution meta true desired wb in
        rw (
          Records.record_platform_version-distribution meta true desired target aligned,
          Records.record_distribution-aligned meta desired wb named provisioned,
        )

    -- If the handshake on a version is required, the operands are provisioned, the desired
    -- distribution has a name, and the target has no spaces around it, then a reconcile changes the
    -- recorded version and whether Ready says that a version is pending exactly as the abstract
    -- machine does.
    pub view-settle :
        (trim_dots : String → String) (earlier : Earlier) (deployments_ready : Bool) (text : String)
        (wb : Workbenches)
        → (desired.name == "") ≡ false
        → meta.is_status_condition_true wb.status.conditions type_provisioning_succeeded ≡ true
        → view meta (settle meta format trim_dots earlier deployments_ready text desired target wb)
          ≡ next deployments_ready target (view meta wb)
    view-settle trim_dots earlier deployments_ready text wb named provisioned =
        let aligned = record_distribution meta deployments_ready desired wb in
        let recorded = record_platform_version meta deployments_ready desired target aligned in
        view-Judged _ recorded _ (
          settle-Judged meta lawful format trim_dots earlier deployments_ready text desired target
            wb)
        ∙ rw (settled_lem recorded, current_lem deployments_ready wb, required)
            (ap
              (λ v. record {
                recorded = advanced deployments_ready target (view meta wb);
                announced = says_pending v;
              })
              (aligned_lem deployments_ready wb named provisioned (
                if target == ""
                then false
                else advanced deployments_ready target (view meta wb) == target)))
        ∙ sym (next-advanced deployments_ready target (view meta wb))

module _ (meta : Conditions) (lawful : IsLawful meta) (format : Format) where
  -- If the handshake on a version is required, the target is not blank and has no spaces around it,
  -- the desired distribution has a name, the operands are provisioned, and the deployments are
  -- available in two reconciles, between which the recorded version and whether Ready says that a
  -- version is pending stay, then Ready is True after the second one, whatever was recorded before.
  pub settle_twice-ready :
      (desired : Distribution) (target : String)
      → handshake_required desired ≡ true
      → trim_space target ≡ target
      → (target == "") ≡ false
      → (desired.name == "") ≡ false
      → (trim_dots : String → String) (earlier later : Earlier) (text : String)
        (wb wb' : Workbenches)
      → meta.is_status_condition_true wb.status.conditions type_provisioning_succeeded ≡ true
      → meta.is_status_condition_true wb'.status.conditions type_provisioning_succeeded ≡ true
      → view meta wb' ≡ view meta (settle meta format trim_dots earlier true text desired target wb)
      → meta.is_status_condition_true
          (settle meta format trim_dots later true text desired target wb').status.conditions
          type_ready
        ≡ true
  settle_twice-ready desired target required trimmed set named trim_dots earlier later text wb wb' p
        p' same =
      let aligned = record_distribution meta true desired wb' in
      let recorded = record_platform_version meta true desired target aligned in
      Judged-true meta lawful format
        (settle-Judged meta lawful format trim_dots later true text desired target wb')
      ∙ accepts-verdict true (distribution_aligned desired recorded.status.distribution)
          (handshake_required desired) (handshake_settled meta format desired target recorded)
      ∙ rw
          (
            Records.record_platform_version-distribution meta true desired target aligned,
            Records.record_distribution-aligned meta desired wb' named p',
            settled_lem meta lawful format desired target required trimmed recorded,
            current_lem meta lawful format desired target required trimmed true wb',
          )
          (ap (λ h. if target == "" then false else advanced true target h == target)
              (same
                ∙ view-settle meta lawful format desired target required trimmed trim_dots earlier
                    true text wb named p)
            ∙ reaches_target target (view meta wb) set)

  -- If the handshake on a version is required, the operands are provisioned, the desired
  -- distribution has a name and the target has no spaces around it, then a reconcile leaves the
  -- recorded platform version, or replaces it by the target, which is not blank; this only if none
  -- was recorded, or if Ready said before that a version is pending.
  pub settle-Advance :
      (desired : Distribution) (target : String)
      → handshake_required desired ≡ true
      → trim_space target ≡ target
      → (desired.name == "") ≡ false
      → (trim_dots : String → String) (earlier : Earlier) (deployments_ready : Bool) (text : String)
        (wb : Workbenches)
      → meta.is_status_condition_true wb.status.conditions type_provisioning_succeeded ≡ true
      → Advance target (view meta wb) (
          view meta (settle meta format trim_dots earlier deployments_ready text desired target wb))
  settle-Advance desired target required trimmed named trim_dots earlier deployments_ready text wb
        p =
      subst (λ h. Advance target (view meta wb) h)
        (sym (
          view-settle meta lawful format desired target required trimmed trim_dots earlier
            deployments_ready text wb named p))
        (next-Advance deployments_ready target (view meta wb))

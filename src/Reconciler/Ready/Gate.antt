-- ===== src/Reconciler/Ready/Gate.antt =====
-- When the condition Ready is True, and the phase Ready.
use workbenches_operator.Prelude.{
  String, ◌==◌, ◌≡◌, refl, sym, ap, ◌∙◌, Bool, true, false, not, ◌&&◌, Option, none, some,
  Bool-cases, inl, inr, if◌then◌else◌, subst, false≢true,
}
use workbenches_operator.Format.{Format}
use workbenches_operator.Api.{
  Workbenches, Condition, ConditionStatus, condition_true, condition_false, Distribution,
}
use workbenches_operator.Conditions.{
  Conditions, IsLawful, type_ready, type_degraded, type_image_streams_available, sanitized,
  find-sanitize_conditions, map_found, reason_unknown,
}
use workbenches_operator.PlatformConfig.Distribution.{distribution_aligned}
use workbenches_operator.PlatformConfig.Releases.{handshake_complete, handshake_required}
use workbenches_operator.Reconciler.Status.{set_condition, with_conditions}
use workbenches_operator.Reconciler.Status.Find.{
  found, found-set_condition, found-set_condition_other, made,
}
use workbenches_operator.Reconciler.Ready.{
  set_ready_condition, set_ready, set_not_ready, degrade, append_image_stream_warning_to_ready,
  append_warning, not_degraded, Earlier, handshake_settled, observe, version_message, warned,
  settle, record_distribution, record_platform_version, reconciled_platform_version,
}

abbrev pub bool_status : Bool → ConditionStatus
bool_status b = if b then condition_true else condition_false

-- What a reconcile that does not fail finds.
pub data Verdict : Type 0 where
  reconciled_verdict : Verdict
  no_deployments : Verdict
  not_aligned : Verdict
  version_pending : Verdict

abbrev pub accepts : Verdict → Bool
accepts reconciled_verdict = true
accepts no_deployments = false
accepts not_aligned = false
accepts version_pending = false

abbrev pub reason_of : Verdict → String
reason_of reconciled_verdict = "ReconcileSuccess"
reason_of no_deployments = "DeploymentsNotReady"
reason_of not_aligned = "DistributionNotAligned"
reason_of version_pending = "PlatformVersionPending"

-- From whether the deployments run, the distribution is aligned, and the handshake is required and
-- settled.
abbrev pub verdict : Bool → Bool → Bool → Bool → Verdict
verdict deployments_ready aligned required settled =
    if deployments_ready && aligned && settled
    then reconciled_verdict
    else if not deployments_ready
    then no_deployments
    else if not aligned
    then not_aligned
    else if required && not settled
    then version_pending
    else no_deployments

-- The condition Ready has the status and reason of the verdict, and the releases and the distribution are as before.
pub record Judged (meta : Conditions) (v : Verdict) (before after : Workbenches) : Type 0 where
  pub condition : Condition
  pub ready_found : found meta after type_ready ≡ some condition
  pub ready_type : condition.type_name ≡ type_ready
  pub ready_status : condition.status ≡ bool_status (accepts v)
  pub ready_reason : condition.reason ≡ reason_of v
  pub distribution : after.status.distribution ≡ before.status.distribution
  pub releases : after.status.releases ≡ before.status.releases

abbrev with_message : String → Condition → Condition
with_message text c = record {
  type_name = c.type_name;
  status = c.status;
  reason = c.reason;
  message = text;
  observed_generation = c.observed_generation;
}

module _ (meta : Conditions) (lawful : IsLawful meta) where
  Judged-set :
      (v : Verdict) (text : String) (wb : Workbenches)
      → Judged meta v wb
          (set_condition meta type_ready (bool_status (accepts v)) (reason_of v) text wb)
  unfolding set_condition
  Judged-set v text wb = record {
    condition = made type_ready (bool_status (accepts v)) (reason_of v) text wb;
    ready_found =
        found-set_condition meta lawful type_ready (bool_status (accepts v)) (reason_of v) text wb;
    ready_type = refl;
    ready_status = refl;
    ready_reason = refl;
    distribution = refl;
    releases = refl;
  }

  Judged-set_other :
      (v : Verdict) (type_name : String) (status : ConditionStatus) (reason text : String)
      (before after : Workbenches)
      → (type_name == type_ready) ≡ false
      → Judged meta v before after
      → Judged meta v before (set_condition meta type_name status reason text after)
  unfolding set_condition
  Judged-set_other v type_name status reason text before after apart j = record {
    condition = j.condition;
    ready_found =
        found-set_condition_other meta lawful type_name type_ready status reason text after apart
        ∙ j.ready_found;
    ready_type = j.ready_type;
    ready_status = j.ready_status;
    ready_reason = j.ready_reason;
    distribution = j.distribution;
    releases = j.releases;
  }

  module _ (format : Format) where
    set_ready-Judged :
        (wb : Workbenches) → Judged meta reconciled_verdict wb (set_ready meta format wb)
    set_ready-Judged wb =
        Judged-set_other reconciled_verdict type_degraded condition_false "NotDegraded"
          "Workbenches component is operating normally" wb _ refl
          (Judged-set reconciled_verdict "Workbenches component is ready" wb)

    set_not_ready-Judged :
        (v : Verdict) (text : String) (wb : Workbenches)
        → accepts v ≡ false
        → Judged meta v wb (set_not_ready meta format (reason_of v) text wb)
    unfolding set_not_ready
    set_not_ready-Judged reconciled_verdict text wb h = absurd (false≢true (sym h))
    set_not_ready-Judged no_deployments text wb h = Judged-set no_deployments text wb
    set_not_ready-Judged not_aligned text wb h = Judged-set not_aligned text wb
    set_not_ready-Judged version_pending text wb h = Judged-set version_pending text wb

    degrade-Judged :
        (v : Verdict) (deployments_ready was_ready : Bool) (text : String)
        (before after : Workbenches)
        → Judged meta v before after
        → Judged meta v before (degrade meta format deployments_ready was_ready text after)
    degrade-Judged v deployments_ready was_ready text before after j =
        elim (Bool-cases (not deployments_ready && was_ready)) [
          | inl degraded ↦ rw degraded (
              Judged-set_other v type_degraded condition_true "DeploymentsNotReady" text before
                after refl j)
          | inr kept ↦ rw kept j
        ]

    Judged-before :
        (before after : Workbenches)
        → Judged meta version_pending (not_degraded meta format before) after
        → Judged meta version_pending before after
    unfolding set_condition
    Judged-before before after j = record {
      condition = j.condition;
      ready_found = j.ready_found;
      ready_type = j.ready_type;
      ready_status = j.ready_status;
      ready_reason = j.ready_reason;
      distribution = j.distribution;
      releases = j.releases;
    }

    -- The verdict on the status before the condition is set.
    abbrev pub verdict_on : Bool → Distribution → String → Workbenches → Verdict
    verdict_on deployments_ready desired platform_version wb =
        verdict deployments_ready (distribution_aligned desired wb.status.distribution)
          (handshake_required desired) (handshake_settled meta format desired platform_version wb)

    set_ready_condition-Judged :
        (deployments_ready : Bool) (text : String) (was_ready : Bool) (desired : Distribution)
        (platform_version reconciled : String) (wb : Workbenches)
        → Judged meta (verdict_on deployments_ready desired platform_version wb) wb (
            set_ready_condition meta format deployments_ready text was_ready desired
              platform_version reconciled wb)
    unfolding set_ready_condition
    set_ready_condition-Judged false text was_ready desired platform_version reconciled wb =
        degrade-Judged no_deployments false was_ready text wb _
          (set_not_ready-Judged no_deployments _ wb refl)
    set_ready_condition-Judged true text was_ready desired platform_version reconciled wb =
        elim (Bool-cases (distribution_aligned desired wb.status.distribution)) [
          | inr apart ↦ rw apart (
              degrade-Judged not_aligned true was_ready text wb _
                (set_not_ready-Judged not_aligned _ wb refl))
          | inl aligned ↦ elim (Bool-cases (handshake_required desired)) [
            | inr free ↦ rw (aligned, free) (set_ready-Judged wb)
            | inl required ↦
                elim (Bool-cases (handshake_complete platform_version wb.status.releases)) [
                  | inl complete ↦ rw (aligned, required, complete) (set_ready-Judged wb)
                  | inr incomplete ↦
                      rw (aligned, required, incomplete)
                        (degrade-Judged version_pending true was_ready text wb _ (
                          Judged-before wb _ (
                            set_not_ready-Judged version_pending
                              (version_message meta format platform_version reconciled)
                              (not_degraded meta format wb) refl)))
                ]
          ]
        ]

    warn-Judged :
        (v : Verdict) (text : String) (quiet : Bool) (before after : Workbenches)
        → (j : Judged meta v before after)
        → Judged meta v before (
            if quiet
            then after
            else with_conditions after
                (meta.set_status_condition after.status.conditions (with_message text j.condition)))
    warn-Judged v text true before after j = j
    warn-Judged v text false before after j = record {
      condition = with_message text j.condition;
      ready_found =
          subst
            (λ t.
              meta.find_status_condition
                (meta.set_status_condition after.status.conditions (with_message text j.condition))
                t
              ≡ some (with_message text j.condition))
            j.ready_type (lawful.find-set after.status.conditions (with_message text j.condition));
      ready_type = j.ready_type;
      ready_status = j.ready_status;
      ready_reason = j.ready_reason;
      distribution = j.distribution;
      releases = j.releases;
    }

    append_warning-Judged :
        (v : Verdict) (trim_dots : String → String) (streams : Option Condition)
        (before after : Workbenches)
        → Judged meta v before after
        → Judged meta v before
            (append_warning meta format trim_dots streams (found meta after type_ready) after)
    unfolding append_warning
    append_warning-Judged v trim_dots none before after j = j
    append_warning-Judged v trim_dots (some streams) before after j = rw j.ready_found (
        warn-Judged v (warned meta format trim_dots j.condition.message streams.message) _ before
          after j)

    append_image_stream_warning_to_ready-Judged :
        (v : Verdict) (trim_dots : String → String) (before after : Workbenches)
        → Judged meta v before after
        → Judged meta v before (append_image_stream_warning_to_ready meta format trim_dots after)
    unfolding append_image_stream_warning_to_ready
    append_image_stream_warning_to_ready-Judged v trim_dots before after j =
        append_warning-Judged v trim_dots (found meta after type_image_streams_available) before
          after j

    reason_kept :
        (v : Verdict) → (if reason_of v == "" then reason_unknown else reason_of v) ≡ reason_of v
    reason_kept reconciled_verdict = refl
    reason_kept no_deployments = refl
    reason_kept not_aligned = refl
    reason_kept version_pending = refl

    observe-Judged :
        (v : Verdict) (earlier : Earlier) (before after : Workbenches)
        → Judged meta v before after
        → Judged meta v before (observe meta format earlier after)
    unfolding observe
    observe-Judged v earlier before after j = record {
      condition = sanitized j.condition;
      ready_found =
          find-sanitize_conditions meta lawful after.status.conditions type_ready
          ∙ ap map_found j.ready_found;
      ready_type = j.ready_type;
      ready_status = j.ready_status;
      ready_reason = rw j.ready_reason (reason_kept v);
      distribution = j.distribution;
      releases = j.releases;
    }

    pub settle-Judged :
        (trim_dots : String → String) (earlier : Earlier) (deployments_ready : Bool) (text : String)
        (desired : Distribution) (platform_version : String) (wb : Workbenches)
        → let aligned = record_distribution meta deployments_ready desired wb in
          let recorded =
            record_platform_version meta deployments_ready desired platform_version aligned in
          Judged meta (verdict_on deployments_ready desired platform_version recorded) recorded (
            settle meta format trim_dots earlier deployments_ready text desired platform_version wb)
    unfolding settle
    settle-Judged trim_dots earlier deployments_ready text desired platform_version wb =
        let aligned = record_distribution meta deployments_ready desired wb in
        let recorded =
          record_platform_version meta deployments_ready desired platform_version aligned in
        observe-Judged _ earlier recorded _ (
          append_image_stream_warning_to_ready-Judged _ trim_dots recorded _ (
            set_ready_condition-Judged deployments_ready text earlier.was_ready desired
              platform_version
              (reconciled_platform_version meta deployments_ready desired platform_version aligned)
              recorded))

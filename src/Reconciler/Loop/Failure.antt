-- ===== src/Reconciler/Loop/Failure.antt =====
-- What a reconcile that fails leaves in the status.
use workbenches_operator.Prelude.{
  ℕ, String, ◌==◌, ◌≡◌, refl, sym, ap, ◌∙◌, Bool, true, false, none, some, List, [], ◌∷◌, All,
  contains, arith, Bool-cases, inl, inr, if◌then◌else◌,
}
use workbenches_operator.Errors.{Error, message, Result, ok, err}
use workbenches_operator.Json.{pos}
use workbenches_operator.Phase.{failed as failed_phase, compute_phase}
use workbenches_operator.Api.{Workbenches, Condition, condition_false, Distribution}
use workbenches_operator.Conditions.{
  Conditions, IsLawful, sanitize_conditions, reason_unknown, find-sanitize_conditions, map_found,
  type_ready, type_ingress_contract_ready,
}
use workbenches_operator.Reconciler.Cluster.{Outcome, requeue_delay}
use workbenches_operator.Reconciler.Status.{set_condition}
use workbenches_operator.Reconciler.Status.Find.{found, made}
use workbenches_operator.Reconciler.Ready.{Earlier, error_status}
use workbenches_operator.Reconciler.Loop.{
  Environment, set_error_status, requeues, finished, streams_synced, report, applied, configured,
  with_version, with_distribution, with_spec, pending_written, is_first, pending_status, earlier_of,
  reconcile_managed, operand_namespace, set_status_namespaces, settle,
}
use workbenches_operator.Format.{Format}

named : (reason : String) → ((if reason == "" then reason_unknown else reason) == "") ≡ false
named reason = elim (Bool-cases (reason == "")) [ inl blank ↦ rw blank | inr set ↦ rw (set, set) ]

sanitized-nonempty :
    (conditions : List Condition)
    → All (λ c. (c.reason == "") ≡ false) (sanitize_conditions conditions)
unfolding sanitize_conditions
sanitized-nonempty [] = tt
sanitized-nonempty (c ∷ cs) = (named c.reason, sanitized-nonempty cs)

-- The evidence is taken back: neither Ready nor the ingress contract is claimed.
pub record Withdrawn (meta : Conditions) (reason : String) (e : Error) (before after : Workbenches)
    : Type 0 where
  pub ready :
      found meta after type_ready ≡ some (made type_ready condition_false reason (message e) before)
  pub contract_ready :
      found meta after type_ingress_contract_ready
      ≡ some (
          made type_ingress_contract_ready condition_false "IngressContractEvidenceStale"
            (message e)
            before)
  pub contract :
      after.status.ingress_contract
      ≡ record { version = ""; source_generation = pos 0; deployment_generation = pos 0 }
  pub phase : after.status.phase ≡ some failed_phase
  pub generation : after.status.observed_generation ≡ before.generation
  pub reasons : All (λ c. (c.reason == "") ≡ false) after.status.conditions

module _ (meta : Conditions) (lawful : IsLawful meta) (format : Format) where
  pub error_status-Withdrawn :
      (reason : String) (e : Error) (wb : Workbenches)
      → (reason == "") ≡ false
      → Withdrawn meta reason e wb (error_status meta format reason e wb)
  unfolding error_status set_condition compute_phase
  error_status-Withdrawn reason e wb set =
      let ready = made type_ready condition_false reason (message e) wb in
      let stale =
        made type_ingress_contract_ready condition_false "IngressContractEvidenceStale" (message e)
          wb in
      let first = meta.set_status_condition wb.status.conditions ready in
      let both = meta.set_status_condition first stale in
      record {
        ready =
            find-sanitize_conditions meta lawful both type_ready
            ∙ ap map_found (
                lawful.find-set_other first stale type_ready refl
                ∙ lawful.find-set wb.status.conditions ready)
            ∙ rw set;
        contract_ready =
            find-sanitize_conditions meta lawful both type_ingress_contract_ready
            ∙ ap map_found (lawful.find-set first stale);
        contract = refl;
        phase = refl;
        generation = refl;
        reasons = sanitized-nonempty both;
      }

abbrev reasons : List String
reasons =
    "InvalidSpec" ∷ "PlatformConfigReadFailed" ∷ "PlatformVersionReadFailed"
    ∷ "ConfigureDependenciesFailed" ∷ "ManifestApplyFailed" ∷ "ImageStreamsStatusFailed" ∷ []

module _ {S : Type 0} (env : Environment S) where
  open env use {meta, format, cluster, trim_dots}

  -- The end of a reconcile that failed before its status was written: the last call is the write of a
  -- status that takes the evidence back.
  pub record Reported (end : S) (e : Error) : Type 0 where
    pub reason : String
    pub listed : contains reason reasons ≡ true
    pub object : Workbenches
    pub status : Workbenches
    pub at : S
    pub written : end ≡ (cluster.update_status at status).0
    pub withdrawn : Withdrawn meta reason e object status

  abbrev failure : S → Error → S × Outcome
  failure s e = (s, record { requeue_after = 0; error = some e })

  waits :
      (s end : S) (e e' : Error)
      → ◌≡◌ {A = S × Outcome}
          (s, record { requeue_after = requeue_delay; error = some e' })
          (failure end e)
      → ⊥
  waits s end e e' h =
      let bad : requeue_delay ≡ 0 = ap (λ (p : S × Outcome). p.1.requeue_after) h in
      absurd (omega (arith, bad))

  works :
      (s end : S) (n : ℕ) (e : Error)
      → ◌≡◌ {A = S × Outcome} (s, record { requeue_after = n; error = none }) (failure end e)
      → ⊥
  works s end n e h = let bad : none ≡ some e = ap (λ (p : S × Outcome). p.1.error) h in cc bad

  finished-works :
      (deployments_ready : Bool) (desired : Distribution) (platform_version : String)
      (p : S × Result Workbenches) (end : S) (e : Error)
      → finished env deployments_ready desired platform_version p ≡ failure end e
      → ⊥
  unfolding finished
  finished-works deployments_ready desired platform_version (s, err e') end e h = waits s end e e' h
  finished-works deployments_ready desired platform_version (s, ok wb) end e h =
      elim (Bool-cases (requeues env deployments_ready desired platform_version wb)) [
        | inl again ↦ works s end requeue_delay e (rw again at h)
        | inr settled ↦ works s end 0 e (rw settled at h)
      ]

  module _ (lawful : IsLawful meta) where
    set_error_status-Reported :
        (reason : String) (e' : Error) (wb : Workbenches) (s end : S) (e : Error)
        → contains reason reasons ≡ true
        → (reason == "") ≡ false
        → set_error_status env reason e' wb s ≡ failure end e
        → Reported end e
    unfolding set_error_status
    set_error_status-Reported reason e' wb s end e listed set h =
        let same : e' ≡ e = cc in
        record {
          reason = reason;
          listed = listed;
          object = wb;
          status = error_status meta format reason e wb;
          at = s;
          written = sym (ap (λ (p : S × Outcome). p.0) (rw same at h));
          withdrawn = error_status-Withdrawn meta lawful format reason e wb set;
        }

    streams_synced-Reported :
        (earlier : Earlier) (deployments_ready : Bool) (text : String) (desired : Distribution)
        (platform_version : String) (s : S) (observed : Workbenches) (streams : Result Workbenches)
        (end : S) (e : Error)
        → streams_synced env earlier deployments_ready text desired platform_version s observed
            streams
          ≡ failure end e
        → Reported end e
    unfolding streams_synced
    streams_synced-Reported earlier deployments_ready text desired platform_version s observed
          (err e') end e h =
        set_error_status-Reported "ImageStreamsStatusFailed" e' observed s end e refl refl h
    streams_synced-Reported earlier deployments_ready text desired platform_version s observed
          (ok streamed) end e h =
        absurd (
          finished-works deployments_ready desired platform_version
            (cluster.update_status s (
              settle meta format trim_dots earlier deployments_ready text desired platform_version
                streamed))
            end e h)

    applied-Reported :
        (earlier : Earlier) (desired : Distribution) (platform_version : String) (wb : Workbenches)
        (p : S × Result (Unit {0})) (end : S) (e : Error)
        → applied env earlier desired platform_version wb p ≡ failure end e
        → Reported end e
    unfolding applied report
    applied-Reported earlier desired platform_version wb (s, err e') end e h =
        set_error_status-Reported "ManifestApplyFailed" e' wb s end e refl refl h
    applied-Reported earlier desired platform_version wb (s, ok _) end e h =
        streams_synced-Reported earlier _ _ desired platform_version s _ _ end e h

    configured-Reported :
        (earlier : Earlier) (desired : Distribution) (platform_version : String) (wb : Workbenches)
        (p : S × Result (Unit {0})) (end : S) (e : Error)
        → configured env earlier desired platform_version wb p ≡ failure end e
        → Reported end e
    unfolding configured
    configured-Reported earlier desired platform_version wb (s, err e') end e h =
        set_error_status-Reported "ConfigureDependenciesFailed" e' wb s end e refl refl h
    configured-Reported earlier desired platform_version wb (s, ok _) end e h =
        applied-Reported earlier desired platform_version wb _ end e h

    with_version-Reported :
        (earlier : Earlier) (desired : Distribution) (wb : Workbenches) (s : S)
        (answer : Result String) (end : S) (e : Error)
        → with_version env earlier desired wb s answer ≡ failure end e
        → Reported end e
    unfolding with_version
    with_version-Reported earlier desired wb s (err e') end e h =
        set_error_status-Reported "PlatformVersionReadFailed" e' wb s end e refl refl h
    with_version-Reported earlier desired wb s (ok version) end e h =
        configured-Reported earlier desired version wb _ end e h

    with_distribution-Reported :
        (earlier : Earlier) (wb : Workbenches) (s : S) (answer : Result Distribution) (end : S)
        (e : Error)
        → with_distribution env earlier wb s answer ≡ failure end e
        → Reported end e
    unfolding with_distribution
    with_distribution-Reported earlier wb s (err e') end e h =
        set_error_status-Reported "PlatformConfigReadFailed" e' wb s end e refl refl h
    with_distribution-Reported earlier wb s (ok desired) end e h =
        with_version-Reported earlier desired wb s _ end e h

    with_spec-Reported :
        (earlier : Earlier) (wb : Workbenches) (s : S) (answer : Result (Unit {0})) (end : S)
        (e : Error)
        → with_spec env earlier wb s answer ≡ failure end e
        → Reported end e
    unfolding with_spec
    with_spec-Reported earlier wb s (err e') end e h =
        set_error_status-Reported "InvalidSpec" e' wb s end e refl refl h
    with_spec-Reported earlier wb s (ok _) end e h =
        with_distribution-Reported earlier wb s _ end e h

    pending-works :
        (p : S × Result Workbenches) (end : S) (e : Error)
        → pending_written env p ≡ failure end e
        → ⊥
    unfolding pending_written
    pending-works (s, err e') end e h = waits s end e e' h
    pending-works (s, ok wb) end e h = works s end 1 e h

    -- If a reconcile of a managed object returns an error and no time after which it is tried
    -- again, its last call was the write of a status with one of six reasons and this error's
    -- message, in which Ready and IngressContractReady are False, the contract's evidence is
    -- cleared, the phase is Failed, and every condition has a reason.
    pub reconcile_managed-Reported :
        (wb : Workbenches) (s end : S) (e : Error)
        → reconcile_managed env wb s ≡ (end, record { requeue_after = 0; error = some e })
        → Reported end e
    unfolding reconcile_managed
    reconcile_managed-Reported wb s end e h = elim (Bool-cases (is_first env wb)) [
      | inl first ↦
          absurd
            (pending-works (cluster.update_status s (pending_status env wb)) end e (rw first at h))
      | inr later ↦
          with_spec-Reported (earlier_of env wb)
            (set_status_namespaces wb (operand_namespace env wb)) s _ end e (rw later at h)
    ]

-- ===== src/Reconciler/Loop/Done.antt =====
-- A reconcile of a managed object that ends without an error and is not tried again.
use workbenches_operator.Prelude.{
  ℕ, String, ◌≡◌, refl, ap, Bool, true, false, false≢true, none, some, arith, Bool-cases, inl, inr,
}
use workbenches_operator.Errors.{Error, Result, ok, err}
use workbenches_operator.Api.{Workbenches, Distribution}
use workbenches_operator.Conditions.{IsLawful, type_ready}
use workbenches_operator.PlatformConfig.Distribution.{read_platform_version}
use workbenches_operator.Reconciler.Cluster.{Cluster, Outcome, requeue_delay, done}
use workbenches_operator.Reconciler.Deployments.{check_deployments}
use workbenches_operator.Reconciler.Namespaces.{
  set_status_namespaces, configure_dependencies, compute_kustomize_params,
}
use workbenches_operator.Reconciler.Ready.{Earlier, settle, is_ready}
use workbenches_operator.Reconciler.Ready.Evidence.{
  Evidence, settle-Evidence, is_ready-Evidence, Evidence-cong,
}
use workbenches_operator.Reconciler.Loop.{
  Environment, operand_namespace, set_error_status, resolved_distribution, requeues, finished,
  streams_synced, report, applied, configured, with_version, with_distribution, with_spec,
  pending_written, is_first, pending_status, earlier_of, reconcile_managed,
}

-- The answer to an update of the status has the status that was sent.
abbrev pub KeepsStatus : {S : Type 0} → Cluster S → Type 0
KeepsStatus {S} cluster =
    (s s' : S) (wb answer : Workbenches)
    → cluster.update_status s wb ≡ (s', ok answer)
    → answer.status ≡ wb.status

module _ {S : Type 0} (env : Environment S) where
  open env use {meta, format, cluster, trim_dots}

  -- The writes before the status: the dependencies are prepared, and then the operands applied.
  pub record Applied (wb : Workbenches) (s applied_state : S) : Type 0 where
    pub configured_state : S
    pub configured_ok :
        configure_dependencies cluster env.settings wb.spec s ≡ (configured_state, ok tt)
    pub applied_ok :
        env.operands.render_and_apply configured_state wb
          (compute_kustomize_params wb.spec)
          (operand_namespace env wb)
          wb.spec.platform
        ≡ (applied_state, ok tt)

  -- The last write of the reconcile: the status that says Ready, for deployments that were available
  -- in the state after the operands were applied.
  pub record Completed (wb : Workbenches) (s end : S) : Type 0 where
    pub applied_state : S
    pub applied : Applied wb s applied_state
    pub desired : Distribution
    pub platform_version : String
    pub text : String
    pub earlier : Earlier
    pub before : Workbenches
    pub answer : Workbenches
    pub distribution_read : resolved_distribution env wb s ≡ ok desired
    pub version_read :
        read_platform_version (cluster.get_config_map s) (operand_namespace env wb)
        ≡ ok platform_version
    pub available : check_deployments format cluster env.settings wb applied_state ≡ (true, text)
    pub written :
        cluster.update_status applied_state
          (settle meta format trim_dots earlier true text desired platform_version before)
        ≡ (end, ok answer)
    pub evidence : Evidence true desired platform_version answer
    pub ready : meta.is_status_condition_true answer.status.conditions type_ready ≡ true

  fails :
      (reason : String) (e : Error) (wb : Workbenches) (s end : S)
      → set_error_status env reason e wb s ≡ (end, done)
      → ⊥
  unfolding set_error_status
  fails reason e wb s end h =
      let bad : some e ≡ none = ap (λ (p : S × Outcome). p.1.error) h in cc bad

  settled-ready :
      (deployments_ready : Bool) (desired : Distribution) (platform_version : String)
      (wb : Workbenches)
      → requeues env deployments_ready desired platform_version wb ≡ false
      → is_ready meta format deployments_ready desired platform_version wb ≡ true
  unfolding requeues
  settled-ready deployments_ready desired platform_version wb h = ground (arith, h)

  requeued_ne_done :
      (s end : S)
      → ◌≡◌ {A = S × Outcome}
          (s, record { requeue_after = requeue_delay; error = none })
          (end, done)
      → ⊥
  requeued_ne_done s end h =
      let bad : requeue_delay ≡ 0 = ap (λ (p : S × Outcome). p.1.requeue_after) h in
      absurd (omega (arith, bad))

  errored :
      (s end : S) (n : ℕ) (e : Error)
      → ◌≡◌ {A = S × Outcome} (s, record { requeue_after = n; error = some e }) (end, done)
      → ⊥
  errored s end n e h = let bad : some e ≡ none = ap (λ (p : S × Outcome). p.1.error) h in cc bad

  -- The end of a reconcile that is not tried again.
  finished-done :
      (deployments_ready : Bool) (desired : Distribution) (platform_version : String)
      (p : S × Result Workbenches) (end : S)
      → finished env deployments_ready desired platform_version p ≡ (end, done)
      → (answer : Workbenches) × (p ≡ (end, ok answer))
        × (is_ready meta format deployments_ready desired platform_version answer ≡ true)
  unfolding finished
  finished-done deployments_ready desired platform_version (s, err e) end h =
      absurd (errored s end requeue_delay e h)
  finished-done deployments_ready desired platform_version (s, ok wb) end h =
      elim (Bool-cases (requeues env deployments_ready desired platform_version wb)) [
        | inl again ↦ absurd (requeued_ne_done s end (rw again at h))
        | inr settled ↦
            let same : s ≡ end = ap (λ (p : S × Outcome). p.0) (rw settled at h) in
            (wb, rw same, settled-ready deployments_ready desired platform_version wb settled)
      ]

  module _ (lawful : IsLawful meta) (keeps : KeepsStatus cluster) where
    -- What is stored is ready, if it has the evidence.
    stored_ready :
        (earlier : Earlier) (text : String) (desired : Distribution) (platform_version : String)
        (before answer : Workbenches)
        → answer.status
          ≡ (settle meta format trim_dots earlier true text desired platform_version before).status
        → Evidence true desired platform_version answer
        → meta.is_status_condition_true answer.status.conditions type_ready ≡ true
    stored_ready earlier text desired platform_version before answer same evidence = rw same (
        (settle-Evidence meta lawful format trim_dots earlier true text desired platform_version
            before).1
          (Evidence-cong true desired platform_version answer
            (settle meta format trim_dots earlier true text desired platform_version before) same
            evidence))

    streams_synced-done :
        (wb : Workbenches) (start : S) (earlier : Earlier) (deployments_ready : Bool)
        (text : String) (desired : Distribution) (platform_version : String) (s : S)
        (observed : Workbenches) (streams : Result Workbenches) (end : S)
        → resolved_distribution env wb start ≡ ok desired
        → read_platform_version (cluster.get_config_map start) (operand_namespace env wb)
          ≡ ok platform_version
        → Applied wb start s
        → check_deployments format cluster env.settings wb s ≡ (deployments_ready, text)
        → streams_synced env earlier deployments_ready text desired platform_version s observed
            streams
          ≡ (end, done)
        → Completed wb start end
    unfolding streams_synced
    streams_synced-done wb start earlier deployments_ready text desired platform_version s observed
          (err e) end d v a c h =
        absurd (fails "ImageStreamsStatusFailed" e observed s end h)
    streams_synced-done wb start earlier false text desired platform_version s observed
          (ok streamed) end d v a c h =
        let (answer, written, ready) =
          finished-done false desired platform_version
            (cluster.update_status s
              (settle meta format trim_dots earlier false text desired platform_version streamed))
            end h in
        absurd (false≢true ready)
    streams_synced-done wb start earlier true text desired platform_version s observed (ok streamed)
          end d v a c h =
        let settled =
          settle meta format trim_dots earlier true text desired platform_version streamed in
        let (answer, written, ready) =
          finished-done true desired platform_version (cluster.update_status s settled) end h in
        let evidence = is_ready-Evidence meta format true desired platform_version answer ready in
        record {
          applied_state = s;
          applied = a;
          desired = desired;
          platform_version = platform_version;
          text = text;
          earlier = earlier;
          before = streamed;
          answer = answer;
          distribution_read = d;
          version_read = v;
          available = c;
          written = written;
          evidence = evidence;
          ready =
              stored_ready earlier text desired platform_version streamed answer
                (keeps s end settled answer written) evidence;
        }

    applied-done :
        (wb : Workbenches) (start : S) (earlier : Earlier) (desired : Distribution)
        (platform_version : String) (p : S × Result (Unit {0})) (end : S)
        → resolved_distribution env wb start ≡ ok desired
        → read_platform_version (cluster.get_config_map start) (operand_namespace env wb)
          ≡ ok platform_version
        → (configured_state : S)
        → configure_dependencies cluster env.settings wb.spec start ≡ (configured_state, ok tt)
        → env.operands.render_and_apply configured_state wb
            (compute_kustomize_params wb.spec)
            (operand_namespace env wb)
            wb.spec.platform
          ≡ p
        → applied env earlier desired platform_version wb p ≡ (end, done)
        → Completed wb start end
    unfolding applied report
    applied-done wb start earlier desired platform_version (s, err e) end d v before c a h =
        absurd (fails "ManifestApplyFailed" e wb s end h)
    applied-done wb start earlier desired platform_version (s, ok _) end d v before c a h =
        streams_synced-done wb start earlier _ _ desired platform_version s _ _ end d v
          (record { configured_state = before; configured_ok = c; applied_ok = a }) refl h

    configured-done :
        (wb : Workbenches) (start : S) (earlier : Earlier) (desired : Distribution)
        (platform_version : String) (p : S × Result (Unit {0})) (end : S)
        → resolved_distribution env wb start ≡ ok desired
        → read_platform_version (cluster.get_config_map start) (operand_namespace env wb)
          ≡ ok platform_version
        → configure_dependencies cluster env.settings wb.spec start ≡ p
        → configured env earlier desired platform_version wb p ≡ (end, done)
        → Completed wb start end
    unfolding configured
    configured-done wb start earlier desired platform_version (s, err e) end d v c h =
        absurd (fails "ConfigureDependenciesFailed" e wb s end h)
    configured-done wb start earlier desired platform_version (s, ok _) end d v c h =
        applied-done wb start earlier desired platform_version _ end d v s c refl h

    with_version-done :
        (wb : Workbenches) (start : S) (earlier : Earlier) (desired : Distribution)
        (answer : Result String) (end : S)
        → resolved_distribution env wb start ≡ ok desired
        → read_platform_version (cluster.get_config_map start) (operand_namespace env wb) ≡ answer
        → with_version env earlier desired wb start answer ≡ (end, done)
        → Completed wb start end
    unfolding with_version
    with_version-done wb start earlier desired (err e) end d v h =
        absurd (fails "PlatformVersionReadFailed" e wb start end h)
    with_version-done wb start earlier desired (ok platform_version) end d v h =
        configured-done wb start earlier desired platform_version _ end d v refl h

    with_distribution-done :
        (wb : Workbenches) (start : S) (earlier : Earlier) (answer : Result Distribution) (end : S)
        → resolved_distribution env wb start ≡ answer
        → with_distribution env earlier wb start answer ≡ (end, done)
        → Completed wb start end
    unfolding with_distribution
    with_distribution-done wb start earlier (err e) end d h =
        absurd (fails "PlatformConfigReadFailed" e wb start end h)
    with_distribution-done wb start earlier (ok desired) end d h =
        with_version-done wb start earlier desired _ end d refl h

    with_spec-done :
        (wb : Workbenches) (start : S) (earlier : Earlier) (answer : Result (Unit {0})) (end : S)
        → with_spec env earlier wb start answer ≡ (end, done)
        → Completed wb start end
    unfolding with_spec
    with_spec-done wb start earlier (err e) end h = absurd (fails "InvalidSpec" e wb start end h)
    with_spec-done wb start earlier (ok _) end h =
        with_distribution-done wb start earlier _ end refl h

    pending-done : (p : S × Result Workbenches) (end : S) → pending_written env p ≡ (end, done) → ⊥
    unfolding pending_written
    pending-done (s, err e) end h = errored s end requeue_delay e h
    pending-done (s, ok wb) end h =
        let bad : ◌≡◌ {A = ℕ} 1 0 = ap (λ (p : S × Outcome). p.1.requeue_after) h in
        absurd (omega (arith, bad))

    -- If the server keeps the status that it is sent, a reconcile of a managed object that ends
    -- without an error and is not tried again has read the desired distribution and the platform's
    -- version, has prepared the dependencies and then rendered and applied the operands, both
    -- without an error, has found the deployments available in the state that this left, and has
    -- then stored a status with the evidence for them, in which the condition Ready is True.
    pub reconcile_managed-Completed :
        (wb : Workbenches) (s end : S)
        → reconcile_managed env wb s ≡ (end, done)
        → Completed (set_status_namespaces wb (operand_namespace env wb)) s end
    unfolding reconcile_managed
    reconcile_managed-Completed wb s end h = elim (Bool-cases (is_first env wb)) [
      | inl first ↦
          absurd
            (pending-done (cluster.update_status s (pending_status env wb)) end (rw first at h))
      | inr later ↦
          with_spec-done (set_status_namespaces wb (operand_namespace env wb)) s (earlier_of env wb)
            _ end (rw later at h)
    ]

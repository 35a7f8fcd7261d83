-- ===== src/Reconciler/Watches/Availability.antt =====
-- The updates of deployments that the predicate drops do not change what the status says of them.
use workbenches_operator.Prelude.{
  arith, ◌≡◌, refl, sym, ap, ◌∙◌, Bool, true, false, List, [], ◌∷◌, ◌++◌, keep, if◌then◌else◌,
  keep-append, false≢true,
}
use workbenches_operator.Json.{ℤ}
use workbenches_operator.Integer.{eq_int_iff}
use workbenches_operator.Format.{Format}
use workbenches_operator.Reconciler.Cluster.{Deployment}
use workbenches_operator.Reconciler.Deployments.{
  deployment_desired_replicas, all_available, deployments_availability,
}
use workbenches_operator.Reconciler.Ingress.{ne_int}
use workbenches_operator.Reconciler.Watches.{
  deployment, updated, has_component_label, replicas_changed, availability_updated,
  availability_changed,
}

-- The deployments that are listed are those with the component's label.
abbrev pub labelled : Deployment → Bool
labelled d = has_component_label d.labels

same_int : (x y : ℤ) → ne_int x y ≡ false → x ≡ y
same_int x y h = (eq_int_iff x y).0 (ground arith)

-- The fields that the checks read agree.
record Alike (old new : Deployment) : Type 0 where
  ready : old.ready_replicas ≡ new.ready_replicas
  observed : old.observed_generation ≡ new.observed_generation
  changed : old.updated_replicas ≡ new.updated_replicas
  total : old.replicas ≡ new.replicas
  desired : deployment_desired_replicas old ≡ deployment_desired_replicas new

replicas_changed-Alike :
    (old new : Deployment)
    → replicas_changed (deployment old) (deployment new) ≡ false
    → Alike old new
unfolding replicas_changed
replicas_changed-Alike old new h = record {
  ready = same_int old.ready_replicas new.ready_replicas (ground arith);
  observed = same_int old.observed_generation new.observed_generation (ground arith);
  changed = same_int old.updated_replicas new.updated_replicas (ground arith);
  total = same_int old.replicas new.replicas (ground arith);
  desired =
      same_int (deployment_desired_replicas old) (deployment_desired_replicas new) (ground arith);
}

kept_first :
    (d : Deployment) (ds : List Deployment) (has : Bool)
    → labelled d ≡ has
    → keep labelled (d ∷ ds) ≡ (if has then d ∷ keep labelled ds else keep labelled ds)
kept_first d ds true h = ground arith
kept_first d ds false h = ground arith

module _ (format : Format) (old new : Deployment) (named : old.name ≡ new.name)
    (placed : old.namespace ≡ new.namespace) where
  all_available_cong :
      Alike old new
      → (before after : List Deployment)
      → all_available format (before ++ (old ∷ after))
        ≡ all_available format (before ++ (new ∷ after))
  unfolding all_available
  all_available_cong alike [] after = rw (alike.desired, alike.ready, named, placed)
  all_available_cong alike (d ∷ before) after = rw (all_available_cong alike before after)

  deployments_availability_cong :
      Alike old new
      → (before after : List Deployment)
      → deployments_availability format (before ++ (old ∷ after))
        ≡ deployments_availability format (before ++ (new ∷ after))
  unfolding deployments_availability
  deployments_availability_cong alike [] after = all_available_cong alike [] after
  deployments_availability_cong alike (d ∷ before) after =
      all_available_cong alike (d ∷ before) after

  kept_lem :
      (before after : List Deployment) (d : Deployment) (has : Bool)
      → labelled d ≡ has
      → keep labelled (before ++ (d ∷ after))
        ≡ keep labelled before ++ (if has then d ∷ keep labelled after else keep labelled after)
  kept_lem before after d has h =
      keep-append labelled before (d ∷ after)
      ∙ ap (λ ds. keep labelled before ++ ds) (kept_first d after has h)

  kept_cong :
      (before after : List Deployment) (has_old has_new : Bool)
      → labelled old ≡ has_old
      → labelled new ≡ has_new
      → availability_changed (updated (deployment old) (deployment new)) ≡ false
      → deployments_availability format (keep labelled (before ++ (old ∷ after)))
        ≡ deployments_availability format (keep labelled (before ++ (new ∷ after)))
  unfolding availability_changed availability_updated
  kept_cong before after true true o n h =
      rw (kept_lem before after old true o, kept_lem before after new true n)
        (deployments_availability_cong (replicas_changed-Alike old new (rw (o, n) at h))
          (keep labelled before) (keep labelled after))
  kept_cong before after false false o n h =
      rw (kept_lem before after old false o, kept_lem before after new false n)
  kept_cong before after true false o n h = absurd (false≢true (sym (rw (o, n) at h)))
  kept_cong before after false true o n h = absurd (false≢true (sym (rw (o, n) at h)))

  -- If the predicate drops the update of a Deployment, which keeps its name and namespace, the
  -- deployments with the component's label are as available, with the same message, before it as
  -- after it, whatever other deployments there are.
  pub availability_changed-deployments_availability :
      availability_changed (updated (deployment old) (deployment new)) ≡ false
      → (before after : List Deployment)
      → deployments_availability format (keep labelled (before ++ (old ∷ after)))
        ≡ deployments_availability format (keep labelled (before ++ (new ∷ after)))
  availability_changed-deployments_availability h before after =
      kept_cong before after (labelled old) (labelled new) refl refl h

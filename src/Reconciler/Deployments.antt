-- ===== src/Reconciler/Deployments.antt =====
-- Whether the deployments of the component are available.
use workbenches_operator.Prelude.{
  String, ◌<>◌, ◌==◌, Bool, true, false, List, [], ◌∷◌, keep, or_default, if◌then◌else◌,
}
use workbenches_operator.Errors.{message, Result, ok, err}
use workbenches_operator.Json.{ℤ, pos}
use workbenches_operator.Phase.{gt}
use workbenches_operator.Format.{Format}
use workbenches_operator.Api.{Workbenches}
use workbenches_operator.Reconciler.Cluster.{Deployment, Cluster}
use workbenches_operator.Reconciler.Namespaces.{Settings, resolve_operand_namespace}

abbrev pub deployment_desired_replicas : Deployment → ℤ
deployment_desired_replicas d = or_default (pos 1) d.spec_replicas

abbrev pub scaled_to_zero : Deployment → Bool
scaled_to_zero d = gt (pos 1) (deployment_desired_replicas d)

abbrev pub deployment_title : Deployment → String
deployment_title d = "deployment " <> (d.namespace <> ("/" <> d.name))

module _ (format : Format) where
  abbrev pub not_ready_message : Deployment → String
  not_ready_message d =
      deployment_title d
      <> (" has "
          <> (format.show_int d.ready_replicas
              <> ("/" <> (format.show_int (deployment_desired_replicas d) <> " ready replicas"))))

  -- The loop of `deploymentsAvailability`.
  unfoldable pub all_available : List Deployment → Bool × String
  all_available [] = (true, "")
  all_available (d ∷ ds) =
      let rest = all_available ds in
      if scaled_to_zero d
      then (false, deployment_title d <> " is scaled to zero")
      else if gt (deployment_desired_replicas d) d.ready_replicas
      then (false, not_ready_message d)
      else rest

  unfoldable pub deployments_availability : List Deployment → Bool × String
  unfolding all_available
  deployments_availability [] = (false, "no notebook controller deployments found")
  deployments_availability (d ∷ ds) = all_available (d ∷ ds)

  listed_availability : Result (List Deployment) → Bool × String
  unfolding deployments_availability
  listed_availability (err e) = (false, "failed to list deployments: " <> message e)
  listed_availability (ok ds) = deployments_availability ds

  abbrev pub workspaces_controller_deployment_name : String
  workspaces_controller_deployment_name = "workspaces-controller"

  workspaces_of : List Deployment → Bool × String
  unfolding deployments_availability
  workspaces_of [] = (false, "workspaces-controller deployment not found")
  workspaces_of (d ∷ ds) = deployments_availability (d ∷ ds)

  workspaces_availability : Result (List Deployment) → Bool × String
  unfolding workspaces_of
  workspaces_availability (err e) = (false, "failed to list deployments: " <> message e)
  workspaces_availability (ok ds) = workspaces_of (keep (λ d. d.name == "workspaces-controller") ds)

  module _ {S : Type 0} (cluster : Cluster S) (settings : Settings) where
    unfoldable pub check_deployments : Workbenches → S → Bool × String
    unfolding listed_availability
    check_deployments wb s =
        listed_availability
          (cluster.list_deployments s (resolve_operand_namespace settings wb.spec.platform))

    unfoldable pub check_workspaces_controller_deployment : Workbenches → S → Bool × String
    unfolding workspaces_availability
    check_workspaces_controller_deployment wb s =
        workspaces_availability
          (cluster.list_deployments s (resolve_operand_namespace settings wb.spec.platform))

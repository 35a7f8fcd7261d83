-- ===== src/Reconciler/Ingress/Evidence.antt =====
-- From the condition IngressContractReady to the ConfigMap and the deployments.
use workbenches_operator.Prelude.{
  String, eq_iff, ◌≡◌, refl, sym, ap, ◌∙◌, true, false≢true, Option, none, some, List, [], contains,
  or_default, arith, Bool-cases, Option-cases, inl, inr, ◌⊎◌,
}
use workbenches_operator.Errors.{Result, ok, err, Result-cases}
use workbenches_operator.Json.{ℤ, pos}
use workbenches_operator.Integer.{eq_int_iff}
use workbenches_operator.Format.{Format}
use workbenches_operator.Dict.{StringMap, lookup}
use workbenches_operator.Conditions.{Conditions, IsLawful, type_ingress_contract_ready}
use workbenches_operator.Api.{
  Workbenches, IngressContractSpec, ConditionStatus, condition_false,
  ingress_contract_config_map_key,
}
use workbenches_operator.Reconciler.Cluster.{Deployment, Cluster}
use workbenches_operator.Reconciler.Namespaces.{Settings, resolve_operand_namespace}
use workbenches_operator.Reconciler.Status.{set_condition}
use workbenches_operator.Reconciler.Status.Find.{is_true-set_condition}
use workbenches_operator.Reconciler.Ingress.Rollout.{
  AllRolledOut, controller_names, rollout_loop-Found,
}
use workbenches_operator.Reconciler.Ingress.{
  notebook_controller_config_map, ingress_contract_stamp, rollout_loop, LoopResult, rolled,
  incomplete, Generation, complete_rollout, pending_rollout, rollout_end, listed_rollout,
  missing_component, same_contract, ContractFormat, observe_ingress_contract, rollout_status,
  projection_status, wanted_status, sync_ingress_contract_status, set_condition,
  notebook_controller_component_names,
}

-- The ConfigMap's data hold a text that parses to the contract.
pub record IsProjected (contracts : ContractFormat) (wanted : IngressContractSpec)
    (answer : Result (Option StringMap)) : Type 0 where
  pub values : Option StringMap
  pub raw : String
  pub answered : answer ≡ ok values
  pub has_key : lookup ingress_contract_config_map_key (or_default [] values) ≡ some raw
  pub parsed : contracts.parse raw ≡ ok wanted

same_contract_lem : (a b : IngressContractSpec) → same_contract a b ≡ true → a ≡ b
same_contract_lem a b h =
    let versions : a.version ≡ b.version = ground (arith, h, eq_iff a.version b.version) in
    let generations : a.source_generation ≡ b.source_generation =
      ground (arith, h, eq_int_iff a.source_generation b.source_generation) in
    λ i. record { version = versions i; source_generation = generations i }

-- Every notebook controller runs the contract, and both components have one.
pub record IsServed (format : Format) (wanted : IngressContractSpec) (generation : ℤ)
    (answer : Result (List Deployment)) : Type 0 where
  pub deployments : List Deployment
  pub answered : answer ≡ ok deployments
  pub all : AllRolledOut (ingress_contract_stamp format wanted) generation deployments
  pub has_odh : contains "odh-notebook-controller" (controller_names deployments) ≡ true
  pub has_kf : contains "kf-notebook-controller" (controller_names deployments) ≡ true

observe-IsProjected :
    (format : Format) (contracts : ContractFormat) (wanted : IngressContractSpec)
    (answer : Result (Option StringMap))
    → observe_ingress_contract format contracts wanted answer ≡ none
    → IsProjected contracts wanted answer
unfolding observe_ingress_contract
observe-IsProjected format contracts wanted (err e) h = absurd (cc h)
observe-IsProjected format contracts wanted (ok values) h =
    elim (Option-cases (lookup ingress_contract_config_map_key (or_default [] values))) [
      | inl missing ↦ absurd (cc (rw missing at h))
      | inr (raw, found) ↦ elim (Result-cases (contracts.parse raw)) [
        | inl (e, bad) ↦ absurd (cc (rw (found, bad) at h))
        | inr (observed, good) ↦ elim (Bool-cases (same_contract observed wanted)) [
          | inr apart ↦ absurd (cc (rw (found, good, apart) at h))
          | inl same ↦ record {
            values = values;
            raw = raw;
            answered = refl;
            has_key = found;
            parsed = good ∙ ap (λ c. ok c) (same_contract_lem observed wanted same);
          }
        ]
      ]
    ]

-- What is not missing was seen.
seen_components :
    (seen : List String)
    → missing_component notebook_controller_component_names seen ≡ none
    → (contains "odh-notebook-controller" seen ≡ true)
      × (contains "kf-notebook-controller" seen ≡ true)
unfolding missing_component
seen_components seen h = (ground (arith, h), ground (arith, h))

from_seen :
    (name : String) (names : List String)
    → (contains name [] ≡ true) ⊎ (contains name names ≡ true)
    → contains name names ≡ true
from_seen name names (inl h) = absurd (false≢true h)
from_seen name names (inr h) = h

end-IsServed :
    (format : Format) (wanted : IngressContractSpec) (ds : List Deployment) (generation : ℤ)
    (r : LoopResult)
    → rollout_loop format (ingress_contract_stamp format wanted) ds (pos 0) [] ≡ r
    → rollout_end r ≡ complete_rollout generation
    → IsServed format wanted generation (ok ds)
unfolding rollout_end
end-IsServed format wanted ds generation (incomplete text) loop h = absurd (cc h)
end-IsServed format wanted ds generation (rolled end seen) loop h =
    let found =
      rollout_loop-Found format (ingress_contract_stamp format wanted) ds (pos 0) [] end seen
        loop in
    elim (Option-cases (missing_component notebook_controller_component_names seen)) [
      | inr (name, missing) ↦ absurd (cc (rw (missing, rollout_end) at h))
      | inl complete ↦
          let same : end ≡ generation = cc (rw (complete, rollout_end) at h) in
          let both = seen_components seen complete in
          rw (← same) (record {
            deployments = ds;
            answered = refl;
            all = found.all;
            has_odh =
                from_seen "odh-notebook-controller" (controller_names ds)
                  (found.names "odh-notebook-controller" both.0);
            has_kf =
                from_seen "kf-notebook-controller" (controller_names ds)
                  (found.names "kf-notebook-controller" both.1);
          })
    ]

listed_rollout-IsServed :
    (format : Format) (wanted : IngressContractSpec) (answer : Result (List Deployment))
    (generation : ℤ)
    → listed_rollout format wanted answer ≡ complete_rollout generation
    → IsServed format wanted generation answer
unfolding listed_rollout
listed_rollout-IsServed format wanted (err e) generation h = absurd (cc h)
listed_rollout-IsServed format wanted (ok ds) generation h =
    end-IsServed format wanted ds generation
      (rollout_loop format (ingress_contract_stamp format wanted) ds (pos 0) []) refl h

-- The contract of the spec is projected and served, and the status says so.
pub record Evidence {S : Type 0} (format : Format) (cluster : Cluster S) (settings : Settings)
    (contracts : ContractFormat) (s : S) (before after : Workbenches) : Type 0 where
  pub wanted : IngressContractSpec
  pub generation : ℤ
  pub has_wanted : before.spec.ingress_contract ≡ some wanted
  pub projected : IsProjected contracts wanted (
      cluster.get_config_map s
        (resolve_operand_namespace settings before.spec.platform)
        notebook_controller_config_map)
  pub served :
      IsServed format wanted generation
        (cluster.list_deployments s (resolve_operand_namespace settings before.spec.platform))
  pub reported : after.status.ingress_contract ≡ record {
    version = wanted.version;
    source_generation = wanted.source_generation;
    deployment_generation = generation;
  }

module _ {S : Type 0} (meta : Conditions) (lawful : IsLawful meta) (format : Format)
    (cluster : Cluster S) (settings : Settings) (contracts : ContractFormat) where
  refuted :
      (reason text : String) (wb : Workbenches)
      → meta.is_status_condition_true
          (set_condition meta type_ingress_contract_ready condition_false reason text
            wb).status.conditions
          type_ingress_contract_ready
        ≡ true
      → ⊥
  refuted reason text wb h = false≢true (
      sym (
        is_true-set_condition meta lawful type_ingress_contract_ready condition_false reason text
          wb)
      ∙ h)

  contract-set_condition :
      (type_name : String) (status : ConditionStatus) (reason text : String) (wb : Workbenches)
      → (set_condition meta type_name status reason text wb).status.ingress_contract
        ≡ wb.status.ingress_contract
  unfolding set_condition
  contract-set_condition type_name status reason text wb = refl

  projection-Evidence :
      (wb : Workbenches) (s : S) (wanted : IngressContractSpec)
      → wb.spec.ingress_contract ≡ some wanted
      → (projection : Option String) (rollout : Generation)
      → observe_ingress_contract format contracts wanted (
          cluster.get_config_map s
            (resolve_operand_namespace settings wb.spec.platform)
            notebook_controller_config_map)
        ≡ projection
      → listed_rollout format wanted
          (cluster.list_deployments s (resolve_operand_namespace settings wb.spec.platform))
        ≡ rollout
      → meta.is_status_condition_true
          (projection_status meta format wanted projection rollout wb).status.conditions
          type_ingress_contract_ready
        ≡ true
      → Evidence format cluster settings contracts s wb
          (projection_status meta format wanted projection rollout wb)
  unfolding projection_status rollout_status
  projection-Evidence wb s wanted spec (some text) rollout o l h =
      absurd (refuted "IngressContractProjectionPending" text _ h)
  projection-Evidence wb s wanted spec none (pending_rollout text) o l h =
      absurd (refuted "IngressContractRolloutPending" text _ h)
  projection-Evidence wb s wanted spec none (complete_rollout generation) o l h = record {
    wanted = wanted;
    generation = generation;
    has_wanted = spec;
    projected = observe-IsProjected format contracts wanted _ o;
    served = listed_rollout-IsServed format wanted _ generation l;
    reported = contract-set_condition _ _ _ _ _;
  }

  spec-Evidence :
      (spec : Option IngressContractSpec) (wb : Workbenches) (s : S)
      → wb.spec.ingress_contract ≡ spec
      → meta.is_status_condition_true
          (wanted_status meta format cluster settings contracts spec wb s).status.conditions
          type_ingress_contract_ready
        ≡ true
      → Evidence format cluster settings contracts s wb
          (wanted_status meta format cluster settings contracts spec wb s)
  unfolding wanted_status
  spec-Evidence none wb s spec h =
      absurd (refuted "IngressContractNotProjected" "spec.ingressContract is not set" _ h)
  spec-Evidence (some wanted) wb s spec h = projection-Evidence wb s wanted spec _ _ refl refl h

  -- If the condition IngressContractReady is True after a synchronization, the spec has a contract,
  -- the ConfigMap holds it, every listed notebook controller runs it with exactly its desired
  -- replicas, both components have such a controller, and the status reports the contract with a
  -- generation that no controller exceeds.
  pub sync_ingress_contract_status-Evidence :
      (wb : Workbenches) (s : S)
      → let after = sync_ingress_contract_status meta format cluster settings contracts wb s in
        meta.is_status_condition_true after.status.conditions type_ingress_contract_ready ≡ true
        → Evidence format cluster settings contracts s wb after
  unfolding sync_ingress_contract_status
  sync_ingress_contract_status-Evidence wb s h = spec-Evidence wb.spec.ingress_contract wb s refl h

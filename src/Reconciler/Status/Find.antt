-- ===== src/Reconciler/Status/Find.antt =====
-- Reading a condition after one was set.
use workbenches_operator.Prelude.{String, ◌==◌, ◌≡◌, ap, ◌∙◌, false, Option, some}
use workbenches_operator.Api.{Workbenches, Condition, ConditionStatus}
use workbenches_operator.Conditions.{Conditions, IsLawful, holds, present_and_true}
use workbenches_operator.Reconciler.Status.{set_condition}

abbrev pub found : Conditions → Workbenches → String → Option Condition
found meta wb type_name = meta.find_status_condition wb.status.conditions type_name

abbrev pub made : String → ConditionStatus → String → String → Workbenches → Condition
made type_name status reason message wb = record {
  type_name = type_name;
  status = status;
  reason = reason;
  message = message;
  observed_generation = wb.generation;
}

module _ (meta : Conditions) (lawful : IsLawful meta) where
  pub found-set_condition :
      (type_name : String) (status : ConditionStatus) (reason message : String) (wb : Workbenches)
      → found meta (set_condition meta type_name status reason message wb) type_name
        ≡ some (made type_name status reason message wb)
  unfolding set_condition
  found-set_condition type_name status reason message wb =
      lawful.find-set wb.status.conditions (made type_name status reason message wb)

  pub found-set_condition_other :
      (type_name other : String) (status : ConditionStatus) (reason message : String)
      (wb : Workbenches)
      → (type_name == other) ≡ false
      → found meta (set_condition meta type_name status reason message wb) other
        ≡ found meta wb other
  unfolding set_condition
  found-set_condition_other type_name other status reason message wb apart =
      lawful.find-set_other wb.status.conditions (made type_name status reason message wb) other
        apart

  pub is_true-set_condition :
      (type_name : String) (status : ConditionStatus) (reason message : String) (wb : Workbenches)
      → meta.is_status_condition_true
          (set_condition meta type_name status reason message wb).status.conditions
          type_name
        ≡ holds status
  is_true-set_condition type_name status reason message wb =
      lawful.is_true-find _ type_name
      ∙ ap present_and_true (found-set_condition type_name status reason message wb)

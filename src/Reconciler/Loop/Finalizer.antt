-- ===== src/Reconciler/Loop/Finalizer.antt =====
-- The finalizer is taken away only after the clean-up.
use workbenches_operator.Prelude.{
  String, ◌==◌, eq_iff, ◌≡◌, refl, true, false, not, none, some, List, [], ◌∷◌, keep, contains,
  arith, if◌then◌else◌,
}
use workbenches_operator.Errors.{Error, Result, ok, err}
use workbenches_operator.Api.{Workbenches}
use workbenches_operator.Reconciler.Loop.{
  Environment, operand_namespace, workbenches_finalizer, without_finalizer, cleaned_up,
  finalizer_updated, reconcile_delete,
}

-- The other finalizers stay, and the operator's is gone.
contains-keep :
    (name : String) (finalizers : List String)
    → contains name (keep (λ f. not (f == workbenches_finalizer)) finalizers)
      ≡ (if name == workbenches_finalizer then false else contains name finalizers)
contains-keep name [] = ground arith
contains-keep name (f ∷ fs) = ground (
  arith,
  contains-keep name fs,
  eq_iff f workbenches_finalizer,
  eq_iff f name,
  eq_iff name workbenches_finalizer,
)

module _ {S : Type 0} (env : Environment S) where
  open env use {cluster, operands}

  -- What a deletion without an error has done, in this order.
  pub record Released (wb : Workbenches) (s end : S) : Type 0 where
    pub cleaned : S
    pub sent : Workbenches
    pub answer : Workbenches
    pub cleanup : operands.cleanup_managed_resources s (operand_namespace env wb) ≡ (cleaned, ok tt)
    pub update : cluster.update_workbenches cleaned sent ≡ (end, ok answer)
    pub finalizers :
        (name : String)
        → contains name sent.finalizers
          ≡ (if name == workbenches_finalizer then false else contains name wb.finalizers)

  updated-Released :
      (wb : Workbenches) (s cleaned end : S) (p : S × Result Workbenches)
      → operands.cleanup_managed_resources s (operand_namespace env wb) ≡ (cleaned, ok tt)
      → cluster.update_workbenches cleaned (without_finalizer env wb) ≡ p
      → (finalizer_updated env p).1.error ≡ none
      → (finalizer_updated env p).0 ≡ end
      → Released wb s end
  unfolding finalizer_updated
  updated-Released wb s cleaned end (s', err e) c u h same = absurd (cc h)
  updated-Released wb s cleaned end (s', ok answer) c u h same = rw (← same) (record {
    cleaned = cleaned;
    sent = without_finalizer env wb;
    answer = answer;
    cleanup = c;
    update = u;
    finalizers = λ name. contains-keep name wb.finalizers;
  })

  cleaned-Released :
      (wb : Workbenches) (s : S) (p : S × Result (Unit {0}))
      → operands.cleanup_managed_resources s (operand_namespace env wb) ≡ p
      → (cleaned_up env wb p).1.error ≡ none
      → Released wb s (cleaned_up env wb p).0
  unfolding cleaned_up
  cleaned-Released wb s (s', err e) c h = absurd (cc h)
  cleaned-Released wb s (s', ok _) c h =
      updated-Released wb s s' _ (cluster.update_workbenches s' (without_finalizer env wb)) c refl h
        refl

  -- If the deletion of an object with the operator's finalizer ends without an error, the operands
  -- were cleaned up first, and then the object was stored without this finalizer and with every
  -- other one; if the clean-up fails, nothing else is called, and its error is returned.
  pub reconcile_delete-Released :
      (wb : Workbenches) (s : S)
      → contains workbenches_finalizer wb.finalizers ≡ true
      → ((reconcile_delete env wb s).1.error ≡ none → Released wb s (reconcile_delete env wb s).0)
        × ((s' : S) (e : Error)
            → operands.cleanup_managed_resources s (operand_namespace env wb) ≡ (s', err e)
            → reconcile_delete env wb s ≡ (s', record { requeue_after = 0; error = some e }))
  unfolding reconcile_delete
  reconcile_delete-Released wb s has = rw has (
    cleaned-Released wb s (operands.cleanup_managed_resources s (operand_namespace env wb)) refl,
    (λ s' e failure. rw failure),
  )

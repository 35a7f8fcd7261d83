-- ===== src/Reconciler/Ingress/Rollout.antt =====
-- What the condition IngressContractReady is evidence of.
use workbenches_operator.Prelude.{
  String, ◌==◌, eq_iff, ◌≡◌, sym, ap, ◌∙◌, true, false, false≢true, Option, none, some, List, [],
  ◌∷◌, arith, contains, Bool-cases, Option-cases, inl, inr, if◌then◌else◌, ◌⊎◌,
}
use workbenches_operator.Json.{ℤ, pos}
use workbenches_operator.Integer.{eq_int_iff, gt_irrefl, gt_asym, le_trans}
use workbenches_operator.Phase.{gt}
use workbenches_operator.Format.{Format}
use workbenches_operator.Dict.{lookup}
use workbenches_operator.Metadata.{
  component_name_label_key, ingress_contract_annotation_key, label_value,
}
use workbenches_operator.Reconciler.Cluster.{Deployment}
use workbenches_operator.Reconciler.Deployments.{deployment_desired_replicas}
use workbenches_operator.Reconciler.Ingress.{
  is_notebook_controller_deployment, rollout_fault, stamped, max_int, rollout_loop, rolled,
}

-- x ≤ y
abbrev pub IsAtMost : ℤ → ℤ → Type 0
IsAtMost x y = gt x y ≡ false

-- A deployment that runs the contract with this stamp: it is not scaled to zero, its template has the
-- stamp, its controller has seen its generation, and exactly the desired replicas run, all updated and
-- ready.
pub record IsRolledOut (stamp : String) (d : Deployment) : Type 0 where
  pub scaled : IsAtMost (pos 1) (deployment_desired_replicas d)
  pub has_stamp : lookup ingress_contract_annotation_key d.template_annotations ≡ some stamp
  pub observed : IsAtMost d.generation d.observed_generation
  pub updated : IsAtMost (deployment_desired_replicas d) d.updated_replicas
  pub available : IsAtMost (deployment_desired_replicas d) d.ready_replicas
  pub exact : d.replicas ≡ deployment_desired_replicas d

found_stamp :
    (stamp : String) (found : Option String)
    → (elim found [ none ↦ false | some value ↦ value == stamp ]) ≡ true
    → found ≡ some stamp
found_stamp stamp none h = absurd (false≢true h)
found_stamp stamp (some value) h = ap (λ t. some t) ((eq_iff value stamp).0 h)

stamped_lem :
    (stamp : String) (d : Deployment)
    → stamped stamp d ≡ true
    → lookup ingress_contract_annotation_key d.template_annotations ≡ some stamp
stamped_lem stamp d h =
    found_stamp stamp (lookup ingress_contract_annotation_key d.template_annotations) h

rollout_fault-IsRolledOut :
    (format : Format) (stamp : String) (d : Deployment)
    → rollout_fault format stamp d ≡ none
    → IsRolledOut stamp d
unfolding rollout_fault
rollout_fault-IsRolledOut format stamp d h = record {
  scaled = ground (arith, h);
  has_stamp = stamped_lem stamp d (ground (arith, h));
  observed = ground (arith, h);
  updated = ground (arith, h);
  available = ground (arith, h);
  exact = (eq_int_iff d.replicas (deployment_desired_replicas d)).0 (ground (arith, h));
}

-- The notebook controllers among the deployments run the contract at a generation of at most this one.
abbrev pub AllRolledOut : String → ℤ → List Deployment → Type 0
AllRolledOut stamp generation [] = Unit
AllRolledOut stamp generation (d ∷ ds) =
    (is_notebook_controller_deployment d.labels ≡ true
      → IsRolledOut stamp d × IsAtMost d.generation generation)
    × AllRolledOut stamp generation ds

AllRolledOut-weaken :
    (stamp : String) (x y : ℤ) (ds : List Deployment)
    → IsAtMost x y
    → AllRolledOut stamp x ds
    → AllRolledOut stamp y ds
AllRolledOut-weaken stamp x y [] h all = tt
AllRolledOut-weaken stamp x y (d ∷ ds) h all = (
  (λ c. ((all.0 c).0, le_trans d.generation x y (all.0 c).1 h)),
  AllRolledOut-weaken stamp x y ds h all.1,
)

IsAtMost-max : (x y : ℤ) → IsAtMost x (max_int x y) × IsAtMost y (max_int x y)
IsAtMost-max x y = elim (Bool-cases (gt x y)) [
  | inl above ↦ rw above (gt_irrefl x, gt_asym x y above)
  | inr below ↦ rw below (below, gt_irrefl y)
]

-- The component names of the notebook controllers among the deployments.
abbrev pub controller_names : List Deployment → List String
controller_names [] = []
controller_names (d ∷ ds) =
    let rest = controller_names ds in
    if is_notebook_controller_deployment d.labels
    then label_value component_name_label_key d.labels ∷ rest
    else rest

-- What the loop has found at its end.
pub record Found (stamp : String) (ds : List Deployment) (start : ℤ) (seen : List String) (end : ℤ)
    (seen' : List String) : Type 0 where
  pub all : AllRolledOut stamp end ds
  pub grows : IsAtMost start end
  pub names :
      (name : String)
      → contains name seen' ≡ true
      → (contains name seen ≡ true) ⊎ (contains name (controller_names ds) ≡ true)

regroup :
    (name label : String) (seen names : List String)
    → (contains name (label ∷ seen) ≡ true) ⊎ (contains name names ≡ true)
    → (contains name seen ≡ true) ⊎ (contains name (label ∷ names) ≡ true)
regroup name label seen names h = ground arith

skip :
    (format : Format) (stamp : String) (d : Deployment) (ds : List Deployment) (start : ℤ)
    (seen : List String) (end : ℤ) (seen' : List String)
    → is_notebook_controller_deployment d.labels ≡ false
    → Found stamp ds start seen end seen'
    → Found stamp (d ∷ ds) start seen end seen'
skip format stamp d ds start seen end seen' other f = record {
  all = ((λ controller. absurd (false≢true (sym other ∙ controller))), f.all);
  grows = f.grows;
  names = λ name n. rw other (f.names name n);
}

join :
    (stamp : String) (d : Deployment) (ds : List Deployment) (start : ℤ) (seen : List String)
    (end : ℤ) (seen' : List String)
    → is_notebook_controller_deployment d.labels ≡ true
    → IsRolledOut stamp d
    → Found stamp ds
        (max_int d.generation start)
        (label_value component_name_label_key d.labels ∷ seen)
        end
        seen'
    → Found stamp (d ∷ ds) start seen end seen'
join stamp d ds start seen end seen' controller rolled_out f =
    let bounds = IsAtMost-max d.generation start in
    record {
      all = (
        (λ _.
            (rolled_out, le_trans d.generation (max_int d.generation start) end bounds.0 f.grows)),
        f.all,
      );
      grows = le_trans start (max_int d.generation start) end bounds.1 f.grows;
      names = λ name n. rw controller (
          regroup name (label_value component_name_label_key d.labels) seen (controller_names ds)
            (f.names name n));
    }

pub rollout_loop-Found :
    (format : Format) (stamp : String) (ds : List Deployment) (start : ℤ) (seen : List String)
    (end : ℤ) (seen' : List String)
    → rollout_loop format stamp ds start seen ≡ rolled end seen'
    → Found stamp ds start seen end seen'
unfolding rollout_loop
rollout_loop-Found format stamp [] start seen end seen' h =
    let same_end : start ≡ end = cc h in
    let same_seen : seen ≡ seen' = cc h in
    rw (← same_end, ← same_seen)
      (record { all = tt; grows = gt_irrefl start; names = λ name n. inl n })
rollout_loop-Found format stamp (d ∷ ds) start seen end seen' h =
    elim (Bool-cases (is_notebook_controller_deployment d.labels)) [
      | inr other ↦
          skip format stamp d ds start seen end seen' other
            (rollout_loop-Found format stamp ds start seen end seen' (rw other at h))
      | inl controller ↦ elim (Option-cases (rollout_fault format stamp d)) [
        | inr (text, bad) ↦ absurd (cc (rw (controller, bad) at h))
        | inl good ↦
            join stamp d ds start seen end seen' controller
              (rollout_fault-IsRolledOut format stamp d good)
              (rollout_loop-Found format stamp ds (max_int d.generation start)
                (label_value component_name_label_key d.labels ∷ seen) end seen'
                (rw (controller, good) at h))
      ]
    ]

-- ===== src/Reconciler/Namespaces/Labels.antt =====
-- The namespaces exist with the operator's label.
use workbenches_operator.Prelude.{
  String, ◌<>◌, ◌==◌, eq_iff, ◌≡◌, refl, ap, ◌∙◌, false, Option, some, [], ◌∷◌, or_default,
  Bool-cases, inl, inr,
}
use workbenches_operator.Errors.{is_not_found, wrap, Result, ok, err}
use workbenches_operator.Dict.{StringMap, lookup, insert}
use workbenches_operator.Dict.Laws.{lookup-insert}
use workbenches_operator.Metadata.{owned_namespace_label, label_true, label_value}
use workbenches_operator.Api.{WorkbenchesSpec}
use workbenches_operator.Tls.Client.{wrap_run-eq-ok}
use workbenches_operator.Reconciler.Cluster.{Cluster}
use workbenches_operator.Reconciler.Namespaces.{
  Settings, resolve_operand_namespace, resolve_legacy_workbench_namespace,
  ensure_generated_namespace, ensure_from, label_namespace, ensure_legacy, configure_dependencies,
}

-- The label that the server sets to the name of the namespace.
abbrev pub server_label : String
server_label = "kubernetes.io/metadata.name"

-- The labels that are stored: those of the write but for the server's own, and others.
pub record Stored (sent : StringMap) (answer : Result (Option StringMap)) : Type 0 where
  pub stored : Option StringMap
  pub present : answer ≡ ok stored
  pub kept :
      (key value : String)
      → (server_label == key) ≡ false
      → lookup key sent ≡ some value
      → lookup key (or_default [] stored) ≡ some value

-- After a write of a namespace that succeeds the namespace is there with the labels of the write, and
-- perhaps with labels that the server adds; the other namespaces are left alone.
pub record IsLawful {S : Type 0} (cluster : Cluster S) : Type 0 where
  pub get-create :
      (s s' : S) (name : String) (labels : StringMap)
      → cluster.create_namespace s name labels ≡ (s', ok tt)
      → Stored labels (cluster.get_namespace s' name)
  pub get-update :
      (s s' : S) (name : String) (labels : StringMap)
      → cluster.update_namespace s name labels ≡ (s', ok tt)
      → Stored labels (cluster.get_namespace s' name)
  pub get-create_other :
      (s s' : S) (name other : String) (labels : StringMap)
      → cluster.create_namespace s name labels ≡ (s', ok tt)
      → (name == other) ≡ false
      → cluster.get_namespace s' other ≡ cluster.get_namespace s other
  pub get-update_other :
      (s s' : S) (name other : String) (labels : StringMap)
      → cluster.update_namespace s name labels ≡ (s', ok tt)
      → (name == other) ≡ false
      → cluster.get_namespace s' other ≡ cluster.get_namespace s other

-- The namespace is there with the label.
pub record IsOwned {S : Type 0} (cluster : Cluster S) (name : String) (s : S) : Type 0 where
  pub labels : Option StringMap
  pub present : cluster.get_namespace s name ≡ ok labels
  pub owned : label_value owned_namespace_label (or_default [] labels) ≡ label_true

-- What one namespace's ensuring does.
pub record Ensured {S : Type 0} (cluster : Cluster S) (name : String) (s s' : S) : Type 0 where
  pub is_owned : IsOwned cluster name s'
  pub others :
      (other : String)
      → (name == other) ≡ false
      → cluster.get_namespace s' other ≡ cluster.get_namespace s other

owned_insert :
    (labels : StringMap)
    → lookup owned_namespace_label (insert owned_namespace_label label_true labels)
      ≡ some label_true
owned_insert labels = lookup-insert owned_namespace_label owned_namespace_label label_true labels

owned_new :
    lookup owned_namespace_label ((owned_namespace_label, label_true) ∷ []) ≡ some label_true
unfolding lookup
owned_new = refl

Stored-IsOwned :
    {S : Type 0} (cluster : Cluster S) (name : String) (labels : StringMap) (s : S)
    → lookup owned_namespace_label labels ≡ some label_true
    → Stored labels (cluster.get_namespace s name)
    → IsOwned cluster name s
Stored-IsOwned cluster name labels s owned stored = record {
  labels = stored.stored;
  present = stored.present;
  owned =
      ap (λ (o : Option String). or_default "" o)
        (stored.kept owned_namespace_label label_true refl owned);
}

module _ {S : Type 0} (cluster : Cluster S) (lawful : IsLawful cluster) where
  updated-Ensured :
      (name : String) (labels : StringMap) (s s' : S)
      → lookup owned_namespace_label labels ≡ some label_true
      → cluster.update_namespace s name labels ≡ (s', ok tt)
      → Ensured cluster name s s'
  updated-Ensured name labels s s' owned h = record {
    is_owned = Stored-IsOwned cluster name labels s' owned (lawful.get-update s s' name labels h);
    others = λ other apart. lawful.get-update_other s s' name other labels h apart;
  }

  created-Ensured :
      (name : String) (s s' : S)
      → cluster.create_namespace s name ((owned_namespace_label, label_true) ∷ []) ≡ (s', ok tt)
      → Ensured cluster name s s'
  created-Ensured name s s' h = record {
    is_owned =
        Stored-IsOwned cluster name ((owned_namespace_label, label_true) ∷ []) s' owned_new
          (lawful.get-create s s' name ((owned_namespace_label, label_true) ∷ []) h);
    others = λ other apart.
        lawful.get-create_other s s' name other ((owned_namespace_label, label_true) ∷ []) h apart;
  }

  kept :
      (name : String) (s s' : S)
      → cluster.get_namespace s' name ≡ cluster.get_namespace s name
      → IsOwned cluster name s
      → IsOwned cluster name s'
  kept name s s' same o = record { labels = o.labels; present = same ∙ o.present; owned = o.owned }

  label_namespace-Ensured :
      (name : String) (labels : Option StringMap) (s s' : S)
      → cluster.get_namespace s name ≡ ok labels
      → label_namespace cluster name (or_default [] labels) s ≡ (s', ok tt)
      → Ensured cluster name s s'
  unfolding label_namespace
  label_namespace-Ensured name labels s s' present h =
      elim (Bool-cases (label_value owned_namespace_label (or_default [] labels) == label_true)) [
        | inl labelled ↦
            let same : s ≡ s' = ap (λ (p : S × Result (Unit {0})). p.0) (rw labelled at h) in
            rw (← same) (record {
              is_owned = record {
                labels = labels;
                present = present;
                owned =
                    (eq_iff (label_value owned_namespace_label (or_default [] labels)) label_true).0
                      labelled;
              };
              others = λ other apart. refl;
            })
        | inr other ↦
            updated-Ensured name (insert owned_namespace_label label_true (or_default [] labels)) s
              s' (owned_insert (or_default [] labels)) (wrap_run-eq-ok _ _ (rw other at h))
      ]

  ensure_from-Ensured :
      (name : String) (answer : Result (Option StringMap)) (s s' : S)
      → cluster.get_namespace s name ≡ answer
      → ensure_from cluster name answer s ≡ (s', ok tt)
      → Ensured cluster name s s'
  unfolding ensure_from
  ensure_from-Ensured name (ok labels) s s' present h =
      label_namespace-Ensured name labels s s' present h
  ensure_from-Ensured name (err e) s s' present h = elim (Bool-cases (is_not_found e)) [
    | inl missing ↦ created-Ensured name s s' (wrap_run-eq-ok _ _ (rw missing at h))
    | inr other ↦
        let bad : err (wrap ("failed to get namespace " <> name) e) ≡ ok tt =
          ap (λ (p : S × Result (Unit {0})). p.1) (rw other at h) in
        cc bad
  ]

  pub ensure_generated_namespace-Ensured :
      (name : String) (s s' : S)
      → ensure_generated_namespace cluster name s ≡ (s', ok tt)
      → Ensured cluster name s s'
  unfolding ensure_generated_namespace
  ensure_generated_namespace-Ensured name s s' h =
      ensure_from-Ensured name (cluster.get_namespace s name) s s' refl h

  -- Both namespaces, and that no third one changes.
  pub record Prepared (apps legacy : String) (s s' : S) : Type 0 where
    pub apps_owned : IsOwned cluster apps s'
    pub legacy_owned : IsOwned cluster legacy s'
    pub others :
        (other : String)
        → (apps == other) ≡ false
        → (legacy == other) ≡ false
        → cluster.get_namespace s' other ≡ cluster.get_namespace s other

  legacy-Prepared :
      (apps legacy : String) (s : S) (p : S × Result (Unit {0})) (s' : S)
      → ensure_generated_namespace cluster apps s ≡ p
      → ensure_legacy cluster legacy apps p ≡ (s', ok tt)
      → Prepared apps legacy s s'
  unfolding ensure_legacy
  legacy-Prepared apps legacy s (s1, err e) s' first h =
      let bad : err (wrap "applications namespace" e) ≡ ok tt =
        ap (λ (p : S × Result (Unit {0})). p.1) h in
      cc bad
  legacy-Prepared apps legacy s (s1, ok _) s' first h =
      let ensured = ensure_generated_namespace-Ensured apps s s1 first in
      elim (Bool-cases (legacy == apps)) [
        | inl same ↦
            let names : legacy ≡ apps = (eq_iff legacy apps).0 same in
            let states : s1 ≡ s' = ap (λ (p : S × Result (Unit {0})). p.0) (rw same at h) in
            rw (names, ← states)
              (record {
                apps_owned = ensured.is_owned;
                legacy_owned = ensured.is_owned;
                others = λ other a l. ensured.others other a;
              })
        | inr apart ↦
            let second =
              ensure_generated_namespace-Ensured legacy s1 s'
                (wrap_run-eq-ok "legacy workbench namespace" _ (rw apart at h)) in
            record {
              apps_owned = kept apps s1 s' (second.others apps apart) ensured.is_owned;
              legacy_owned = second.is_owned;
              others = λ other a l. second.others other l ∙ ensured.others other a;
            }
      ]

  -- If a write of a namespace stores its labels, perhaps with others, but for the label
  -- kubernetes.io/metadata.name, which the server sets, and leaves the other namespaces alone: if
  -- the preparation of the dependencies succeeds, the operands' namespace and the legacy one exist
  -- with the operator's label, and every other namespace is as it was.
  pub configure_dependencies-Prepared :
      (settings : Settings) (spec : WorkbenchesSpec) (s s' : S)
      → configure_dependencies cluster settings spec s ≡ (s', ok tt)
      → Prepared
          (resolve_operand_namespace settings spec.platform)
          (resolve_legacy_workbench_namespace spec)
          s
          s'
  unfolding configure_dependencies
  configure_dependencies-Prepared settings spec s s' h =
      legacy-Prepared (resolve_operand_namespace settings spec.platform)
        (resolve_legacy_workbench_namespace spec) s _ s' refl h

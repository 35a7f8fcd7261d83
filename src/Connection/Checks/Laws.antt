-- ===== src/Connection/Checks/Laws.antt =====
-- When the two checks find nothing.
use workbenches_operator.Prelude.{
  String, ◌==◌, eq_iff, ◌≡◌, refl, ap, ◌∙◌, ◌↔◌, Bool, true, false, List, [], ◌∷◌, arith, All,
  Bool-cases, inl, inr, if◌then◌else◌,
}
use workbenches_operator.Errors.{
  is_not_found, Result, ok, err, wrap_err, ok-injective, >>=-eq-ok, wrap_err-eq-ok,
}
use workbenches_operator.Connection.Reference.{SecretReference}
use workbenches_operator.Connection.Checks.{
  Cluster, secret_review, missing_of, secret_missing, list_if, check_secret_exists,
  check_user_has_permission, check_secrets,
}

list_if-nil :
    (bad : Bool) (ref : SecretReference) (rest : List String)
    → list_if bad ref rest ≡ []
    → (bad ≡ false) × (rest ≡ [])
list_if-nil true ref rest h = absurd (cc h)
list_if-nil false ref rest h = (refl, h)

missing_of-false : (r : Result (Unit {0})) → missing_of r ≡ ok false → r ≡ ok tt
missing_of-false (ok tt) h = refl
missing_of-false (err e) h = elim (Bool-cases (is_not_found e)) [
  | inl gone ↦ absurd (cc (rw gone at h))
  | inr other ↦ absurd (cc (rw other at h))
]

granted :
    (text : String) (asked : Result Bool) (permitted : Bool)
    → wrap_err text asked ≡ ok permitted
    → (if permitted then false else true) ≡ false
    → asked ≡ ok true
granted text asked true e h = wrap_err-eq-ok text asked e
granted text asked false e h = absurd (cc h)

module _ (cluster : Cluster) (namespace user : String) (groups : List String) where
  pub record Exists (ref : SecretReference) : Type 0 where
    pub in_namespace : ref.namespace ≡ namespace
    pub found : cluster.get_secret ref.namespace ref.name ≡ ok tt

  -- The secret is in the Notebook's namespace, it exists, and the user may get it.
  pub record Authorized (ref : SecretReference) : Type 0 where
    pub exists : Exists ref
    pub permitted :
        cluster.create_review (record {
          user = user;
          groups = groups;
          resource_attributes = record {
            namespace = ref.namespace;
            verb = "get";
            group = "";
            version = "v1";
            resource = "secrets";
            name = ref.name;
          };
        })
        ≡ ok true

  secret_missing-Exists :
      (ref : SecretReference) → secret_missing cluster namespace ref ≡ ok false → Exists ref
  unfolding secret_missing
  secret_missing-Exists ref h = elim (Bool-cases (ref.namespace == namespace)) [
    | inl same ↦ record {
      in_namespace = (eq_iff ref.namespace namespace).0 same;
      found = missing_of-false (cluster.get_secret ref.namespace ref.name) (rw same at h);
    }
    | inr other ↦ absurd (cc (rw other at h))
  ]

  check_secret_exists-Exists :
      (refs : List SecretReference)
      → check_secret_exists cluster namespace refs ≡ ok []
      → All Exists refs
  unfolding check_secret_exists
  check_secret_exists-Exists [] h = tt
  check_secret_exists-Exists (ref ∷ refs) h =
      let (missing, e, more) = >>=-eq-ok (secret_missing cluster namespace ref) _ h in
      let (rest, e', last) = >>=-eq-ok (check_secret_exists cluster namespace refs) _ more in
      let (fine, none_left) = list_if-nil missing ref rest (ok-injective last) in
      (
        secret_missing-Exists ref (e ∙ ap ok fine),
        check_secret_exists-Exists refs (e' ∙ ap ok none_left),
      )

  All-Authorized :
      (refs : List SecretReference)
      → All Exists refs
      → check_user_has_permission cluster user groups refs ≡ ok []
      → All Authorized refs
  unfolding check_user_has_permission
  All-Authorized [] ex h = tt
  All-Authorized (ref ∷ refs) ex h =
      let asked = cluster.create_review (secret_review user groups ref) in
      let (permitted, e, more) =
        >>=-eq-ok (wrap_err "failed to create SubjectAccessReview" asked) _ h in
      let (rest, e', last) =
        >>=-eq-ok (check_user_has_permission cluster user groups refs) _ more in
      let (fine, none_left) = list_if-nil _ ref rest (ok-injective last) in
      (
        record {
          exists = ex.0;
          permitted = granted "failed to create SubjectAccessReview" asked permitted e fine;
        },
        All-Authorized refs ex.1 (e' ∙ ap ok none_left),
      )

  -- When both checks find nothing, every reference is authorized.
  pub check_secrets-Authorized :
      (refs : List SecretReference)
      → check_secrets cluster namespace user groups refs ≡ ok ([], [])
      → All Authorized refs
  unfolding check_secrets
  check_secrets-Authorized refs h =
      let found = check_secret_exists cluster namespace refs in
      let asked = check_user_has_permission cluster user groups refs in
      let (missing, e, more) = >>=-eq-ok (wrap_err "failed to check secret exists" found) _ h in
      let (forbidden, e', last) =
        >>=-eq-ok (wrap_err "failed to check user has permission" asked) _ more in
      let both : (missing ≡ []) × (forbidden ≡ []) = ground arith in
      All-Authorized refs
        (check_secret_exists-Exists refs
          (wrap_err-eq-ok "failed to check secret exists" found e ∙ ap ok both.0))
        (wrap_err-eq-ok "failed to check user has permission" asked e' ∙ ap ok both.1)

  check_secret_exists_nil :
      (refs : List SecretReference)
      → All Authorized refs
      → check_secret_exists cluster namespace refs ≡ ok []
  unfolding check_secret_exists secret_missing
  check_secret_exists_nil [] all = refl
  check_secret_exists_nil (ref ∷ refs) all =
      let same : (ref.namespace == namespace) ≡ true =
        (eq_iff ref.namespace namespace).1 all.0.exists.in_namespace in
      rw (same, all.0.exists.found, check_secret_exists_nil refs all.1)

  check_user_has_permission_nil :
      (refs : List SecretReference)
      → All Authorized refs
      → check_user_has_permission cluster user groups refs ≡ ok []
  unfolding check_user_has_permission
  check_user_has_permission_nil [] all = refl
  check_user_has_permission_nil (ref ∷ refs) all =
      rw (all.0.permitted, check_user_has_permission_nil refs all.1)

  pub check_secrets_of_Authorized :
      (refs : List SecretReference)
      → All Authorized refs
      → check_secrets cluster namespace user groups refs ≡ ok ([], [])
  unfolding check_secrets
  check_secrets_of_Authorized refs all =
      rw (check_secret_exists_nil refs all, check_user_has_permission_nil refs all)

  -- Both checks find nothing exactly when every reference is a secret of the Notebook's namespace that
  -- exists and that the user may get.
  pub check_secrets-Authorized_iff :
      (refs : List SecretReference)
      → (check_secrets cluster namespace user groups refs ≡ ok ([], [])) ↔ All Authorized refs
  check_secrets-Authorized_iff refs =
      (check_secrets-Authorized refs, check_secrets_of_Authorized refs)

-- ===== src/Tls/Ensure.antt =====
-- ensure.go: `Ensure`, what it calls, and `Configure`.
pub mod Settled
use workbenches_operator.Prelude.{
  String, ◌<>◌, ◌==◌, Bool, true, false, Option, none, some, List, [], ◌∷◌, or_default,
  if◌then◌else◌,
}
use workbenches_operator.Prelude.Text.{trim_space}
use workbenches_operator.Errors.{
  Error, failure, is_not_found, is_already_exists, Result, ok, err, wrap,
}
use workbenches_operator.Json.{Fields, end, field, str, obj, slice}
use workbenches_operator.Dict.{lookup, insert}
use workbenches_operator.Tls.Detect.{Provider, open_shift, cert_manager, no_provider, detect}
use workbenches_operator.Tls.Owner.{OwnerReference, upsert_owner_reference, owner_ref_matches}
use workbenches_operator.Tls.Client.{
  Key, service, webhook_configuration, cluster_issuer, certificate, Object, Client, and_then,
  wrap_run,
}

pub record Names : Type 0 where
  pub namespace : String
  pub service_name : String
  pub cert_secret : String
  pub certificate_name : String
  pub issuer_name : String
  pub mutating_webhook_name : String

abbrev unresolved : Error
unresolved =
    failure
      "unable to resolve operator namespace: set OPERATOR_NAMESPACE or POD_NAMESPACE, or run in-cluster with a service account namespace file"

abbrev from_environment : String → String → Result String
from_environment operator_namespace pod_namespace =
    if operator_namespace == ""
    then (if pod_namespace == "" then err unresolved else ok pod_namespace)
    else ok operator_namespace

-- `resolveNamespace`, from the file of the service account, `none` if it cannot be read, and the two
-- variables of the environment, empty if they are not set.
unfoldable pub resolve_namespace : Option String → String → String → Result String
resolve_namespace none operator_namespace pod_namespace =
    from_environment operator_namespace pod_namespace
resolve_namespace (some text) operator_namespace pod_namespace =
    if trim_space text == ""
    then from_environment operator_namespace pod_namespace
    else ok (trim_space text)

-- `DefaultNames`
unfoldable pub default_names : Result String → Result Names
default_names (err e) = err e
default_names (ok namespace) = ok (record {
  namespace = namespace;
  service_name = "workbenches-operator-webhook-service";
  cert_secret = "workbenches-operator-controller-webhook-cert";
  certificate_name = "workbenches-operator-webhook-cert";
  issuer_name = "workbenches-operator-selfsigned-issuer";
  mutating_webhook_name = "workbenches-operator-mutating-webhook-configuration";
})

abbrev pub serving_cert_annotation : String
serving_cert_annotation = "service.beta.openshift.io/serving-cert-secret-name"

abbrev pub inject_ca_bundle_annotation : String
inject_ca_bundle_annotation = "service.beta.openshift.io/inject-cabundle"

abbrev pub inject_ca_from_annotation : String
inject_ca_from_annotation = "cert-manager.io/inject-ca-from"

-- `Annotations != nil && Annotations[key] == value`
abbrev pub has_annotation : String → String → Object → Bool
has_annotation key value object = elim object.annotations [
  | none ↦ false
  | some m ↦ or_default "" (lookup key m) == value
]

abbrev pub annotate : String → String → Object → Object
annotate key value object = record {
  name = object.name;
  uid = object.uid;
  annotations = some (insert key value (or_default [] object.annotations));
  owner_references = object.owner_references;
  spec = object.spec;
}

abbrev pub own : List OwnerReference → Object → Object
own refs object = record {
  name = object.name;
  uid = object.uid;
  annotations = object.annotations;
  owner_references = refs;
  spec = object.spec;
}

abbrev issuer_spec : Fields
issuer_spec = field "selfSigned" (obj end) end

abbrev certificate_spec : Names → Fields
certificate_spec names =
    field "dnsNames"
      (slice (
        str (names.service_name <> "." <> names.namespace <> ".svc")
        ∷ str (names.service_name <> "." <> names.namespace <> ".svc.cluster.local")
        ∷ []))
      (field "secretName" (str names.cert_secret) (
        field "issuerRef"
          (obj (
            field "group" (str "cert-manager.io")
              (field "kind" (str "ClusterIssuer") (field "name" (str names.issuer_name) end))))
          end))

abbrev fresh : String → Fields → Option OwnerReference → Object
fresh name spec none = record {
  name = name;
  uid = "";
  annotations = none;
  owner_references = [];
  spec = spec;
}
fresh name spec (some owner) = record {
  name = name;
  uid = "";
  annotations = none;
  owner_references = owner ∷ [];
  spec = spec;
}

module _ {S : Type 0} (client : Client S) where
  -- `patchServiceAnnotation` and `patchMWCAnnotation`, for an object that the errors name `what`.
  unfoldable pub patch_annotation : String → Key → String → String → S → S × Result (Unit {0})
  patch_annotation what key k value s = elim (client.get s key) [
    | err e ↦ if is_not_found e then (s, ok tt) else (s, err (wrap ("get " <> what) e))
    | ok object ↦
        if has_annotation k value object
        then (s, ok tt)
        else wrap_run ("patch " <> what <> " annotations")
            (client.patch s key object (annotate k value object))
  ]

  unfoldable pub patch_service_annotation :
      String → String → String → String → S → S × Result (Unit {0})
  patch_service_annotation namespace name =
      patch_annotation ("Service " <> namespace <> "/" <> name) (service namespace name)

  unfoldable pub patch_mwc_annotation : String → String → String → S → S × Result (Unit {0})
  patch_mwc_annotation name =
      patch_annotation ("MutatingWebhookConfiguration " <> name) (webhook_configuration name)

  -- The reference to an owner of a kind; `none` where the owner is not there.
  unfoldable pub owner_ref : String → String → String → Key → S → Result (Option OwnerReference)
  owner_ref api_version kind name key s = elim (client.get s key) [
    | err e ↦
        if is_not_found e
        then ok none
        else err (wrap ("get " <> kind <> " " <> name <> " for owner ref") e)
    | ok object ↦ ok (
        some (record {
          api_version = api_version;
          kind = kind;
          name = object.name;
          uid = object.uid;
          controller = some true;
          block_owner_deletion = some true;
        }))
  ]

  unfoldable pub mutating_webhook_owner_ref : String → S → Result (Option OwnerReference)
  mutating_webhook_owner_ref name =
      owner_ref "admissionregistration.k8s.io/v1" "MutatingWebhookConfiguration" name
        (webhook_configuration name)

  unfoldable pub cluster_issuer_owner_ref : String → S → Result (Option OwnerReference)
  cluster_issuer_owner_ref name =
      owner_ref "cert-manager.io/v1" "ClusterIssuer" name (cluster_issuer name)

  -- `reconcileOwnerReference`, with what `resolve` answered.
  unfoldable pub reconcile_owner_reference :
      String → Key → Object → Result (Option OwnerReference) → S → S × Result (Unit {0})
  reconcile_owner_reference kind key object (err e) s = (s, err e)
  reconcile_owner_reference kind key object (ok none) s = (s, ok tt)
  reconcile_owner_reference kind key object (ok (some owner)) s =
      if owner_ref_matches object.owner_references owner
      then (s, ok tt)
      else wrap_run ("patch " <> kind <> "/" <> object.name <> " owner references") (
          client.patch s key object
            (own (upsert_owner_reference object.owner_references owner) object))

  -- After the creation: where another replica was faster, the owner is reconciled.
  created :
      String
      → String
      → Key
      → (S → Result (Option OwnerReference))
      → S × Result (Unit {0})
      → S × Result (Unit {0})
  created kind what key resolve (s, ok _) = (s, ok tt)
  created kind what key resolve (s, err e) =
      if is_already_exists e
      then (elim (client.get s key) [
        | err e' ↦ (s, err (wrap ("get " <> what <> " after AlreadyExists") e'))
        | ok existing ↦ reconcile_owner_reference kind key existing (resolve s) s
      ])
      else (s, err (wrap ("create " <> what) e))

  create_owned :
      String
      → String
      → Key
      → (S → Result (Option OwnerReference))
      → String
      → Fields
      → Result (Option OwnerReference)
      → S
      → S × Result (Unit {0})
  unfolding created
  create_owned kind what key resolve name spec (err e) s = (s, err e)
  create_owned kind what key resolve name spec (ok owner) s =
      created kind what key resolve (client.create s key (fresh name spec owner))

  -- `ensureClusterIssuer` and `ensureCertificate`: an object is created, or its owner reconciled.
  unfoldable pub ensure_owned :
      String
      → String
      → Key
      → (S → Result (Option OwnerReference))
      → String
      → Fields
      → S
      → S × Result (Unit {0})
  unfolding create_owned
  ensure_owned kind what key resolve name spec s = elim (client.get s key) [
    | ok object ↦ reconcile_owner_reference kind key object (resolve s) s
    | err e ↦
        if is_not_found e
        then create_owned kind what key resolve name spec (resolve s) s
        else (s, err (wrap ("get " <> what) e))
  ]

  unfoldable pub ensure_cluster_issuer : Names → S → S × Result (Unit {0})
  ensure_cluster_issuer names =
      ensure_owned "ClusterIssuer" ("ClusterIssuer " <> names.issuer_name)
        (cluster_issuer names.issuer_name) (mutating_webhook_owner_ref names.mutating_webhook_name)
        names.issuer_name issuer_spec

  unfoldable pub ensure_certificate : Names → S → S × Result (Unit {0})
  ensure_certificate names =
      ensure_owned "Certificate"
        ("Certificate " <> names.namespace <> "/" <> names.certificate_name)
        (certificate names.namespace names.certificate_name)
        (cluster_issuer_owner_ref names.issuer_name) names.certificate_name (certificate_spec names)

  unfoldable pub ensure_open_shift : Names → S → S × Result (Unit {0})
  ensure_open_shift names s =
      and_then
        (patch_service_annotation names.namespace names.service_name serving_cert_annotation
          names.cert_secret s)
        (patch_mwc_annotation names.mutating_webhook_name inject_ca_bundle_annotation "true")

  unfoldable pub ensure_cert_manager : Names → S → S × Result (Unit {0})
  ensure_cert_manager names s =
      and_then (and_then (ensure_cluster_issuer names s) (ensure_certificate names)) (
        patch_mwc_annotation names.mutating_webhook_name inject_ca_from_annotation
          (names.namespace <> "/" <> names.certificate_name))

  deleted : String → S × Result (Unit {0}) → S × Result (Unit {0})
  deleted name (s, ok _) = (s, ok tt)
  deleted name (s, err e) =
      if is_not_found e
      then (s, ok tt)
      else (s, err (wrap ("delete MutatingWebhookConfiguration " <> name) e))

  unfoldable pub ensure_none : Names → S → S × Result (Unit {0})
  unfolding deleted
  ensure_none names s = elim (client.get s (webhook_configuration names.mutating_webhook_name)) [
    | err e ↦
        if is_not_found e
        then (s, ok tt)
        else (s, err (wrap ("get MutatingWebhookConfiguration " <> names.mutating_webhook_name) e))
    | ok object ↦
        deleted names.mutating_webhook_name
          (client.delete s (webhook_configuration names.mutating_webhook_name))
  ]

  unfoldable pub ensure : Provider → Names → S → S × Result (Unit {0})
  ensure open_shift = ensure_open_shift
  ensure cert_manager = ensure_cert_manager
  ensure no_provider = ensure_none

  abbrev enables : Provider → Bool
  enables no_provider = false
  enables _ = true

  ensured : Names → S → Result Provider → S × Result Bool
  ensured names s (err e) = (s, err e)
  ensured names s (ok provider) =
      and_then (ensure provider names s) (λ s'. (s', ok (enables provider)))

  named : Option (List String) → Option Error → S → Result Names → S × Result Bool
  unfolding ensured
  named groups e s (err e') = (s, err e')
  named groups e s (ok names) = ensured names s (detect groups e)

  -- `Configure`, with the answer of the discovery and the resolved namespace.
  unfoldable pub configure :
      Option (List String) → Option Error → Result String → S → S × Result Bool
  unfolding named
  configure groups e namespace s = named groups e s (default_names namespace)

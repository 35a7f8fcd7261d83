-- ===== src/Tests/Tls.antt =====
-- Runs of the detection and the ensuring of certificates, and their theorems at concrete data.
use workbenches_operator.Prelude.{
  String, ◌==◌, eq_iff, ◌≡◌, refl, sym, ap, ◌∙◌, Bool, true, false, none, some, List, [], ◌∷◌,
  if◌then◌else◌, Bool-cases, inl, inr,
}
use workbenches_operator.Errors.{failure, not_found, Result, ok, err, is_not_found}
use workbenches_operator.Json.{end}
use workbenches_operator.Tls.Detect.{open_shift, detect}
use workbenches_operator.Tls.Detect.Groups.{detect_lem}
use workbenches_operator.Tls.Owner.{OwnerReference, upsert_owner_reference, owner_ref_matches}
use workbenches_operator.Tls.Owner.Upsert.{others, upsert_owner_reference_lem}
use workbenches_operator.Tls.Client.{
  Key, service, webhook_configuration, cluster_issuer, certificate, Object, Client, IsLawful,
}
use workbenches_operator.Tls.Ensure.{
  Names, ensure, patch_annotation, patch_service_annotation, patch_mwc_annotation,
  ensure_open_shift, annotate, inject_ca_bundle_annotation,
}
use workbenches_operator.Tls.Ensure.Settled.{AllSettled, ensure-AllSettled}

detect_lem_example :
    detect
      (some ("apps" ∷ "cert-manager.io" ∷ "route.openshift.io" ∷ []))
      (some (failure "partial"))
    ≡ ok open_shift
detect_lem_example =
    detect_lem ("apps" ∷ "cert-manager.io" ∷ "route.openshift.io" ∷ []) (some (failure "partial"))

abbrev owner_with : String → String → OwnerReference
owner_with name uid = record {
  api_version = "v1";
  kind = "Config";
  name = name;
  uid = uid;
  controller = some true;
  block_owner_deletion = some true;
}

abbrev refs : List OwnerReference
refs = owner_with "old" "1" ∷ owner_with "mine" "2" ∷ []

upsert_owner_reference_lem_example :
    (owner_ref_matches (upsert_owner_reference refs (owner_with "mine" "3")) (owner_with "mine" "3")
      ≡ true)
    × (others (owner_with "mine" "3") (upsert_owner_reference refs (owner_with "mine" "3"))
        ≡ owner_with "old" "1" ∷ [])
    × (upsert_owner_reference
          (upsert_owner_reference refs (owner_with "mine" "3"))
          (owner_with "mine" "3")
        ≡ upsert_owner_reference refs (owner_with "mine" "3"))
upsert_owner_reference_lem_example = upsert_owner_reference_lem refs (owner_with "mine" "3")

-- A server with one object, the webhook configuration named hook.
abbrev is_hook : Key → Bool
is_hook (webhook_configuration name) = name == "hook"
is_hook _ = false

abbrev server : Client Object
server = record {
  get = λ s key. if is_hook key then ok s else err (not_found "absent");
  patch = λ s key original object.
      if is_hook key then (object, ok tt) else (s, err (not_found "absent"));
  create = λ s key object. (s, err (failure "forbidden"));
  delete = λ s key. (s, err (failure "forbidden"));
}

hook_unique : (key other : Key) → is_hook key ≡ true → is_hook other ≡ true → key ≡ other
hook_unique (webhook_configuration a) (webhook_configuration b) h k =
    ap webhook_configuration ((eq_iff a "hook").0 h ∙ sym ((eq_iff b "hook").0 k))
hook_unique (webhook_configuration a) (service _ _) h k = absurd (cc k)
hook_unique (webhook_configuration a) (cluster_issuer _) h k = absurd (cc k)
hook_unique (webhook_configuration a) (certificate _ _) h k = absurd (cc k)
hook_unique (service _ _) other h k = absurd (cc h)
hook_unique (cluster_issuer _) other h k = absurd (cc h)
hook_unique (certificate _ _) other h k = absurd (cc h)

server-IsLawful : IsLawful server
server-IsLawful = record {
  get-patch = λ s s' key original object found stored. elim (Bool-cases (is_hook key)) [
    | inl h ↦
        let same : ◌≡◌ {A = Object × Result (Unit {0})} (object, ok tt) (s', ok tt) =
          rw h at stored in
        rw h (ap (λ p. ok (p.0)) (sym same))
    | inr h ↦ absurd (cc (rw h at found))
  ];
  get-patch_other = λ s key other original object apart. elim (Bool-cases (is_hook key)) [
    | inl h ↦ elim (Bool-cases (is_hook other)) [
      | inl k ↦ absurd (apart (hook_unique key other h k))
      | inr k ↦ rw (h, k)
    ]
    | inr h ↦ rw h
  ];
}

abbrev hook : Object
hook = record { name = "hook"; uid = "7"; annotations = none; owner_references = []; spec = end }

abbrev names : Names
names = record {
  namespace = "ns";
  service_name = "svc";
  cert_secret = "cert";
  certificate_name = "c";
  issuer_name = "i";
  mutating_webhook_name = "hook";
}

ensured :
    ensure server open_shift names hook ≡ (annotate inject_ca_bundle_annotation "true" hook, ok tt)
unfolding ensure ensure_open_shift patch_service_annotation patch_annotation is_not_found
    patch_mwc_annotation
ensured = refl

ensure-AllSettled_example :
    AllSettled server names (annotate inject_ca_bundle_annotation "true" hook)
    × (ensure server open_shift names (annotate inject_ca_bundle_annotation "true" hook)
        ≡ (annotate inject_ca_bundle_annotation "true" hook, ok tt))
ensure-AllSettled_example =
    ensure-AllSettled server server-IsLawful names hook
      (annotate inject_ca_bundle_annotation "true" hook) ensured

-- ===== src/Tls/Ensure/Settled.antt =====
-- What a successful run for OpenShift leaves, and that a further run changes nothing.
use workbenches_operator.Prelude.{
  String, ◌<>◌, eq_refl, ◌≡◌, ◌≢◌, refl, ap, sym, subst, ◌∙◌, Bool, true, or_default, [],
  Bool-cases, inl, inr,
}
use workbenches_operator.Errors.{is_not_found, Result, ok, err, Result-cases}
use workbenches_operator.Dict.Laws.{lookup-insert}
use workbenches_operator.Tls.Detect.{open_shift}
use workbenches_operator.Tls.Client.{
  Key, service, webhook_configuration, Object, Client, IsLawful, and_then, wrap_run,
}
use workbenches_operator.Tls.Ensure.{
  Names, has_annotation, annotate, patch_annotation, patch_service_annotation, patch_mwc_annotation,
  ensure_open_shift, ensure, serving_cert_annotation, inject_ca_bundle_annotation,
}

has_annotation-annotate :
    (k v : String) (object : Object) → has_annotation k v (annotate k v object) ≡ true
has_annotation-annotate k v object =
    rw (lookup-insert k k v (or_default [] object.annotations), eq_refl k) (eq_refl v)

module _ {S : Type 0} (client : Client S) where
  abbrev pub settled_in : String → String → Result Object → Bool
  settled_in k v (err e) = is_not_found e
  settled_in k v (ok object) = has_annotation k v object

  -- The object has the annotation, or it is not there.
  abbrev pub settled : Key → String → String → S → Bool
  settled key k v s = settled_in k v (client.get s key)

  patch_annotation-settled :
      (what : String) (key : Key) (k v : String) (s : S)
      → settled key k v s ≡ true
      → patch_annotation client what key k v s ≡ (s, ok tt)
  unfolding patch_annotation
  patch_annotation-settled what key k v s h = elim (Result-cases (client.get s key)) [
    | inl (e, bad) ↦
        let absent : is_not_found e ≡ true = sym (ap (settled_in k v) bad) ∙ h in
        rw (bad, patch_annotation, absent)
    | inr (object, found) ↦
        let there : has_annotation k v object ≡ true = sym (ap (settled_in k v) found) ∙ h in
        rw (found, patch_annotation, there)
  ]

  wrap_run-eq-ok :
      (text : String) (run : S × Result (Unit {0})) (s : S)
      → wrap_run text run ≡ (s, ok tt)
      → run ≡ (s, ok tt)
  wrap_run-eq-ok text (t, ok tt) s h = h
  wrap_run-eq-ok text (t, err e) s h = absurd (cc h)

  settled_same :
      (key : Key) (k v : String) (s s' : S)
      → settled key k v s ≡ true
      → ◌≡◌ {A = S × Result (Unit {0})} (s, ok tt) (s', ok tt)
      → settled key k v s' ≡ true
  settled_same key k v s s' h e = subst (λ t. settled key k v t ≡ true) (ap (λ p. p.0) e) h

  settled-patch_annotation :
      IsLawful client
      → (what : String) (key : Key) (k v : String) (s s' : S)
      → patch_annotation client what key k v s ≡ (s', ok tt)
      → settled key k v s' ≡ true
  unfolding patch_annotation
  settled-patch_annotation lawful what key k v s s' h = elim (Result-cases (client.get s key)) [
    | inl (e, bad) ↦ elim (Bool-cases (is_not_found e)) [
      | inl absent ↦
          settled_same key k v s s' (ap (settled_in k v) bad ∙ absent)
            (rw (bad, patch_annotation, absent) at h)
      | inr other ↦ absurd (cc (rw (bad, patch_annotation, other) at h))
    ]
    | inr (object, found) ↦ elim (Bool-cases (has_annotation k v object)) [
      | inl there ↦
          settled_same key k v s s' (ap (settled_in k v) found ∙ there)
            (rw (found, patch_annotation, there) at h)
      | inr lacking ↦
          ap (settled_in k v) (
            lawful.get-patch s s' key object (annotate k v object) found (
              wrap_run-eq-ok ("patch " <> (what <> " annotations")) _ s'
                (rw (found, patch_annotation, lacking) at h)))
          ∙ has_annotation-annotate k v object
    ]
  ]

  settled_other :
      IsLawful client
      → (what : String) (key other : Key) (k v j w : String) (s : S) → key ≢ other
      → settled other j w ((patch_annotation client what key k v s).0) ≡ settled other j w s
  unfolding patch_annotation
  settled_other lawful what key other k v j w s apart = elim (Result-cases (client.get s key)) [
    | inl (e, bad) ↦ elim (Bool-cases (is_not_found e)) [
      | inl absent ↦ rw (bad, patch_annotation, absent)
      | inr broken ↦ rw (bad, patch_annotation, broken)
    ]
    | inr (object, found) ↦ elim (Bool-cases (has_annotation k v object)) [
      | inl there ↦ rw (found, patch_annotation, there)
      | inr lacking ↦
          rw (found, patch_annotation, lacking)
            (ap (settled_in j w)
              (lawful.get-patch_other s key other object (annotate k v object) apart))
    ]
  ]

  -- The Service and the webhook configuration each carry the annotation, or are not there.
  abbrev pub AllSettled : Names → S → Type 0
  AllSettled names s =
      (settled (service names.namespace names.service_name) serving_cert_annotation
          names.cert_secret s
        ≡ true)
      × (settled (webhook_configuration names.mutating_webhook_name) inject_ca_bundle_annotation
            "true" s
          ≡ true)

  and_then-eq-ok :
      (run : S × Result (Unit {0})) (next : S → S × Result (Unit {0})) (s : S)
      → and_then run next ≡ (s, ok tt)
      → (t : S) × (run ≡ (t, ok tt)) × (next t ≡ (s, ok tt))
  and_then-eq-ok (t, ok tt) next s h = (t, refl, h)
  and_then-eq-ok (t, err e) next s h = absurd (cc h)

  configuration_apart : (n a b : String) → webhook_configuration n ≢ service a b
  configuration_apart n a b e = absurd (cc e)

  ensure_open_shift-AllSettled :
      IsLawful client
      → (names : Names) (s s' : S) → ensure_open_shift client names s ≡ (s', ok tt)
      → AllSettled names s'
  unfolding ensure_open_shift patch_service_annotation patch_mwc_annotation
  ensure_open_shift-AllSettled lawful names s s' h =
      let (t, first, second) =
        and_then-eq-ok
          (patch_service_annotation client names.namespace names.service_name
            serving_cert_annotation names.cert_secret s)
          (patch_mwc_annotation client names.mutating_webhook_name inject_ca_bundle_annotation
            "true")
          s' h in
      let key = service names.namespace names.service_name in
      let kept =
        settled_other lawful _ (webhook_configuration names.mutating_webhook_name) key
          inject_ca_bundle_annotation "true" serving_cert_annotation names.cert_secret t
          (configuration_apart names.mutating_webhook_name names.namespace names.service_name) in
      (
        subst (λ u. settled key serving_cert_annotation names.cert_secret u ≡ true)
            (ap (λ run. run.0) second)
            (kept
              ∙ settled-patch_annotation lawful _ key serving_cert_annotation names.cert_secret s t
                  first),
        settled-patch_annotation lawful _ (webhook_configuration names.mutating_webhook_name)
            inject_ca_bundle_annotation "true" t s' second,
      )

  ensure_open_shift_settled :
      (names : Names) (s : S) → AllSettled names s → ensure_open_shift client names s ≡ (s, ok tt)
  unfolding ensure_open_shift patch_service_annotation patch_mwc_annotation
  ensure_open_shift_settled names s h =
      ap
        (λ run. and_then run (
          patch_mwc_annotation client names.mutating_webhook_name inject_ca_bundle_annotation
            "true"))
        (patch_annotation-settled _ (service names.namespace names.service_name)
          serving_cert_annotation names.cert_secret s h.0)
      ∙ patch_annotation-settled _ (webhook_configuration names.mutating_webhook_name)
          inject_ca_bundle_annotation "true" s h.1

  -- If the ensuring for OpenShift succeeds, the Service and the webhook configuration carry their
  -- annotations where they exist, and ensuring again succeeds in the same state, for an API server
  -- whose patches store the object and leave other objects alone.
  pub ensure-AllSettled :
      IsLawful client
      → (names : Names) (s s' : S) → ensure client open_shift names s ≡ (s', ok tt)
      → AllSettled names s' × (ensure client open_shift names s' ≡ (s', ok tt))
  unfolding ensure
  ensure-AllSettled lawful names s s' h =
      let done = ensure_open_shift-AllSettled lawful names s s' h in
      (done, ensure_open_shift_settled names s' done)

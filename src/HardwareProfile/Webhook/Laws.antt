-- ===== src/HardwareProfile/Webhook/Laws.antt =====
-- The errors of reading a profile, and the events.
use workbenches_operator.Prelude.{
  String, ◌≡◌, refl, true, ◌&&◌, Option, none, some, [], arith, ◌↔◌, sym, eq_iff, Option-cases, ◌∙◌,
  inl, inr,
}
use workbenches_operator.Errors.{Error, Result, ok, err, Result-cases}
use workbenches_operator.Json.{Fields}
use workbenches_operator.Metadata.{get_annotation, hardware_profile_name_annotation}
use workbenches_operator.Admission.{Request, is_update, is_allowed, Decoder}
use workbenches_operator.HardwareProfile.Injector.{Injector}
use workbenches_operator.HardwareProfile.OldObject.{
  profile_name, profile_namespace, is_stale_profile_reference, old_object,
}
use workbenches_operator.HardwareProfile.Containers.{
  maybe_emit_container_name_warning_event, maybe_emit_validation_error_event,
}
use workbenches_operator.HardwareProfile.Webhook.{
  handle_fetch_error, skip_profile, validated, fetched, perform_hardware_profile_injection,
  handle_object, decoded, decode_with, handle_profile, get_annotation,
}

module _ (i : Injector) (req : Request) where
  -- The object before the request had the name in its annotation; its namespace does not count.
  pub record NamedBefore (name : String) : Type 0 where
    pub bytes : String
    pub old : Fields
    pub raw : req.old_object ≡ some bytes
    pub read : i.encoding.unmarshal bytes ≡ ok old
    pub named : get_annotation i.unstructured old hardware_profile_name_annotation ≡ name

  stale-NamedBefore :
      (name : String) → is_stale_profile_reference i req name ≡ true → NamedBefore name
  unfolding is_stale_profile_reference old_object
  stale-NamedBefore name h = elim (Option-cases req.old_object) [
    | inl missing ↦ absurd (cc (rw (missing, is_stale_profile_reference, old_object) at h))
    | inr (bytes, raw) ↦ elim (Result-cases (i.encoding.unmarshal bytes)) [
      | inl (e, bad) ↦ absurd (cc (rw (raw, bad, is_stale_profile_reference, old_object) at h))
      | inr (old, read) ↦ record {
        bytes = bytes;
        old = old;
        raw = raw;
        read = read;
        named =
            (eq_iff (get_annotation i.unstructured old hardware_profile_name_annotation) name).0
              (rw (raw, read, is_stale_profile_reference, old_object) at h);
      }
    ]
  ]

  NamedBefore-stale :
      (name : String) → NamedBefore name → is_stale_profile_reference i req name ≡ true
  unfolding is_stale_profile_reference old_object
  NamedBefore-stale name n =
      rw (n.raw, n.read, is_stale_profile_reference, old_object)
        ((eq_iff (get_annotation i.unstructured n.old hardware_profile_name_annotation) name).1
          n.named)

  is_allowed-stale :
      (e : Error) (name namespace : String)
      → is_allowed (handle_fetch_error i req e name namespace)
        ≡ (is_update req.operation && is_stale_profile_reference i req name)
  unfolding handle_fetch_error
  is_allowed-stale e name namespace = ground arith

  -- Whatever error the reading of a profile gives, the request is admitted exactly if it is an
  -- update whose old object is there, can be read and has the profile's name in its annotation,
  -- whatever namespace of the profile it had.
  pub is_allowed-handle_fetch_error :
      (e : Error) (name namespace : String)
      → (is_allowed (handle_fetch_error i req e name namespace) ≡ true)
        ↔ ((is_update req.operation ≡ true) × NamedBefore name)
  is_allowed-handle_fetch_error e name namespace = (
    (λ h.
        let both = sym (is_allowed-stale e name namespace) ∙ h in
        (ground (arith, both), stale-NamedBefore name (ground (arith, both)))),
    (λ (p : (is_update req.operation ≡ true) × NamedBefore name).
        rw (is_allowed-stale e name namespace, p.0, NamedBefore-stale name p.1)),
  )

  module _ (dry : req.dry_run ≡ some true) where
    skip_profile_dry :
        (object : Fields) (name : String) (e : Error)
        → (skip_profile i req object name e).events ≡ []
    unfolding skip_profile maybe_emit_container_name_warning_event maybe_emit_validation_error_event
    skip_profile_dry object name e = ground arith

    validated_dry :
        (object : Fields) (name namespace : String) (hwp : Fields) (o : Option Error)
        → (validated i req object name namespace hwp o).events ≡ []
    unfolding validated
    validated_dry object name namespace hwp none = refl
    validated_dry object name namespace hwp (some e) = skip_profile_dry object name e

    fetched_dry :
        (object : Fields) (name namespace : String) (r : Result Fields)
        → (fetched i req object name namespace r).events ≡ []
    unfolding fetched
    fetched_dry object name namespace (err e) = refl
    fetched_dry object name namespace (ok hwp) = validated_dry _ name namespace hwp _

    perform_dry : (object : Fields) → (perform_hardware_profile_injection i req object).events ≡ []
    unfolding perform_hardware_profile_injection
    perform_dry object = ground (
      arith,
      fetched_dry object (profile_name i object) (profile_namespace i object)
          (i.get_profile (profile_namespace i object) (profile_name i object)),
    )

    handle_object_dry : (object : Fields) → (handle_object i req object).events ≡ []
    unfolding handle_object
    handle_object_dry object = ground (arith, perform_dry object)

    decoded_dry : (r : Result Fields) → (decoded i req r).events ≡ []
    unfolding decoded
    decoded_dry (err e) = refl
    decoded_dry (ok object) = handle_object_dry object

    decode_with_dry : (o : Option Decoder) → (decode_with i req o).events ≡ []
    unfolding decode_with
    decode_with_dry none = refl
    decode_with_dry (some d) = decoded_dry (d.decode req)

    -- A dry run creates no event.
    pub handle_profile_dry : (handle_profile i req).events ≡ []
    unfolding handle_profile
    handle_profile_dry = ground (arith, decode_with_dry i.decoder)

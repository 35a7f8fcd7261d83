-- ===== src/HardwareProfile/Webhook.antt =====
-- `Injector.Handle` and what it calls: the response and the events.
pub mod Laws
use workbenches_operator.Prelude.{
  String, ◌<>◌, ◌==◌, Bool, true, false, ◌&&◌, ◌||◌, Option, none, some, List, [], ◌∷◌, or_default,
  if◌then◌else◌,
}
use workbenches_operator.Errors.{Error, failure, message, is_not_found, Result, ok, err, wrap}
use workbenches_operator.Json.{Fields}
use workbenches_operator.Admission.{
  is_create, is_update, operation_name, Request, Response, allowed, denied, errored, patched,
  Decoder, bad_request, internal_server_error,
}
use workbenches_operator.Metadata.{get_annotation, hardware_profile_namespace_annotation}
use workbenches_operator.HardwareProfile.Injector.{Injector}
use workbenches_operator.HardwareProfile.Metadata.{set_annotation, remove_annotation}
use workbenches_operator.HardwareProfile.NotebookClaims.{remove_dra_from_notebook}
use workbenches_operator.HardwareProfile.Apply.{Applied, apply_hardware_profile_to_notebook}
use workbenches_operator.HardwareProfile.Removal.{remove_hwp_settings}
use workbenches_operator.HardwareProfile.OldObject.{
  OldObject, missing, malformed, parsed, old_object, profile_name, profile_namespace,
  is_profile_newly_added, detect_profile_change, is_stale_profile_reference,
}
use workbenches_operator.HardwareProfile.Containers.{
  Event, is_container_name_mismatch, validate_container_names,
  maybe_emit_container_name_warning_event, maybe_emit_validation_error_event,
}

pub record Outcome : Type 0 where
  pub response : Response
  pub events : List Event

abbrev pub quiet : Response → Outcome
quiet response = record { response = response; events = [] }

abbrev profile_in : String → String → String
profile_in name namespace =
    "hardware profile '" <> name <> "' not found in namespace '" <> namespace <> "'"

abbrev gone_warning : String → String → String
gone_warning name namespace =
    "Referenced hardware profile '" <> name <> "' in namespace '" <> namespace
    <> "' no longer exists. "
    <> "Profile settings were not applied. Remove or update the annotation to clear this warning."

abbrev fetch_warning : String → String → Error → String
fetch_warning name namespace e =
    "Failed to fetch hardware profile '"
    <> name
    <> "' from namespace '"
    <> namespace
    <> "': "
    <> message e
    <> ". Profile settings were not applied."

abbrev mismatch_warning : String → String → Error → String
mismatch_warning name expected e =
    "Hardware profile '"
    <> name
    <> "' was not applied: "
    <> message e
    <> ". To use this hardware profile, rename your container to '"
    <> expected
    <> "'. All hardware profile settings (identifiers, scheduling, etc.) are skipped."

abbrev structure_warning : String → Error → String
structure_warning name e =
    "Hardware profile '"
    <> name
    <> "' was not applied due to validation error: "
    <> message e
    <> ". All hardware profile settings are skipped. Please check your workload structure."

module _ (i : Injector) where
  open i use {unstructured as u}

  -- `handleFetchError`
  unfoldable pub handle_fetch_error : Request → Error → String → String → Response
  handle_fetch_error req e name namespace =
      let stale = is_update req.operation && is_stale_profile_reference i req name in
      if is_not_found e
      then if stale
        then allowed (profile_in name namespace <> "; allowing update with warning")
            (gone_warning name namespace ∷ [])
        else errored bad_request (failure (profile_in name namespace))
      else if stale
      then allowed
          ("failed to fetch hardware profile '" <> name <> "'; allowing update with warning")
          (fetch_warning name namespace e ∷ [])
      else errored internal_server_error (
          wrap
            ("failed to get hardware profile '" <> name <> "' from namespace '" <> namespace <> "'")
            e)

  -- The response to a removal: the clean-up where the old profile cannot be read.
  abbrev respond_unfetched : Request → Result String → Option Response
  respond_unfetched req (ok bytes) = some (patched req.object bytes [])
  respond_unfetched req (err e) = none

  unfoldable pub clean_up_unfetched : Request → Fields → Option Response
  clean_up_unfetched req object = respond_unfetched req (
      i.encoding.marshal (
        remove_annotation u (remove_dra_from_notebook u object)
          hardware_profile_namespace_annotation))

  abbrev respond_marshaled : Request → Result String → List String → Response
  respond_marshaled req (ok bytes) warnings = patched req.object bytes warnings
  respond_marshaled req (err e) warnings = errored internal_server_error e

  abbrev respond_removed : Request → Result Fields → Response
  respond_removed req (err e) = errored internal_server_error e
  respond_removed req (ok object) =
      respond_marshaled req
        (i.encoding.marshal (remove_annotation u object hardware_profile_namespace_annotation)) []

  clean_up : Request → Fields → Result Fields → Option Response
  clean_up req object (err e) = clean_up_unfetched req object
  clean_up req object (ok old_hwp) =
      some (respond_removed req (remove_hwp_settings i object old_hwp))

  removal_from : Request → Fields → OldObject → Option Response
  unfolding clean_up
  removal_from req object (parsed old) =
      if profile_name i old == ""
      then none
      else clean_up req object (i.get_profile (profile_namespace i old) (profile_name i old))
  removal_from req object _ = none

  -- `handleHWPRemoval`; nil is `none`.
  unfoldable pub handle_hwp_removal : Request → Fields → Option Response
  unfolding removal_from
  handle_hwp_removal req object = removal_from req object (old_object i req)

  -- The branch for a Notebook with no profile.
  unfoldable pub without_profile : Request → Fields → Response
  without_profile req object =
      let plain = allowed "No hardware profile annotation found" [] in
      if is_update req.operation then or_default plain (handle_hwp_removal req object) else plain

  -- The object with the namespace of its profile written down.
  unfoldable pub with_namespace : Fields → String → Fields
  with_namespace object namespace =
      if get_annotation u object hardware_profile_namespace_annotation == ""
      then set_annotation u object hardware_profile_namespace_annotation namespace
      else object

  abbrev respond_skipped : Request → String → Result String → Response
  respond_skipped req warning (ok bytes) = patched req.object bytes (warning ∷ [])
  respond_skipped req warning (err e) =
      allowed "Admitted but marshal failed after validation"
        (warning ∷ "Internal error: failed to marshal object" ∷ [])

  -- The branch for containers that fail the validation: the profile is not applied.
  unfoldable pub skip_profile : Request → Fields → String → Error → Outcome
  skip_profile req object name e =
      let dry_run = or_default false req.dry_run in
      let bytes = i.encoding.marshal object in
      if is_container_name_mismatch e
      then record {
        response = respond_skipped req (mismatch_warning name (u.get_name object) e) bytes;
        events =
            maybe_emit_container_name_warning_event i dry_run object e name (u.get_name object);
      }
      else record {
        response = respond_skipped req (structure_warning name e) bytes;
        events = maybe_emit_validation_error_event i dry_run object e name;
      }

  abbrev respond_applied : Request → Result Applied → Response
  respond_applied req (err e) = errored internal_server_error e
  respond_applied req (ok applied) =
      respond_marshaled req (i.encoding.marshal applied.notebook) applied.warnings

  unfoldable pub apply_profile : Request → Fields → String → String → Fields → Response
  apply_profile req object name namespace hwp = respond_applied req (
      apply_hardware_profile_to_notebook i object hwp (detect_profile_change i req name namespace)
        (is_create req.operation || is_profile_newly_added i req))

  validated : Request → Fields → String → String → Fields → Option Error → Outcome
  validated req object name namespace hwp none = quiet (apply_profile req object name namespace hwp)
  validated req object name namespace hwp (some e) = skip_profile req object name e

  fetched : Request → Fields → String → String → Result Fields → Outcome
  unfolding validated
  fetched req object name namespace (err e) = quiet (handle_fetch_error req e name namespace)
  fetched req object name namespace (ok hwp) =
      let object' = with_namespace object namespace in
      validated req object' name namespace hwp (validate_container_names i object')

  -- `performHardwareProfileInjection`
  unfoldable pub perform_hardware_profile_injection : Request → Fields → Outcome
  unfolding fetched
  perform_hardware_profile_injection req object =
      let name = profile_name i object in
      let namespace = profile_namespace i object in
      if name == ""
      then quiet (without_profile req object)
      else if namespace == ""
      then quiet (errored bad_request (failure "unable to determine hardware profile namespace"))
      else fetched req object name namespace (i.get_profile namespace name)

  handle_object : Request → Fields → Outcome
  handle_object req object =
      if u.deletion_timestamp_is_zero object
      then perform_hardware_profile_injection req object
      else quiet (allowed "Object marked for deletion, skipping hardware profile injection" [])

  decoded : Request → Result Fields → Outcome
  unfolding handle_object
  decoded req (err e) = quiet (errored bad_request (wrap "failed to decode object" e))
  decoded req (ok object) = handle_object req object

  decode_with : Request → Option Decoder → Outcome
  unfolding decoded
  decode_with req none =
      quiet (errored internal_server_error (failure "webhook decoder not initialized"))
  decode_with req (some d) = decoded req (d.decode req)

  -- `Handle`
  unfoldable pub handle_profile : Request → Outcome
  unfolding decode_with
  handle_profile req =
      if is_create req.operation || is_update req.operation
      then decode_with req i.decoder
      else quiet (
          allowed ("Operation " <> operation_name req.operation <> " on " <> req.kind <> " allowed")
            [])

-- ===== src/HardwareProfile/Containers.antt =====
-- `validateContainerNames`, `isContainerNameMismatch`, and the two warning events.
pub mod Laws
use workbenches_operator.Prelude.{
  String, ◌<>◌, ◌==◌, Bool, true, false, Option, none, some, List, [], ◌∷◌, ◌||◌, if◌then◌else◌, ℕ,
}
use workbenches_operator.Errors.{
  Error, not_found, already_exists, failure, sentinel, wrapped, message, Result, ok, err, wrap,
}
use workbenches_operator.Json.{Value, Fields}
use workbenches_operator.HardwareProfile.Injector.{Injector}
use workbenches_operator.HardwareProfile.Metadata.{containers_path}
use workbenches_operator.HardwareProfile.Claims.{is_named}

abbrev pub no_matching_container : Error
no_matching_container = sentinel "no matching main container found"

unfoldable pub any_named : String → List Value → Bool
any_named name [] = false
any_named name (c ∷ cs) = is_named name c || any_named name cs

unfoldable pub is_container_name_mismatch : Error → Bool
is_container_name_mismatch (sentinel s) = s == "no matching main container found"
is_container_name_mismatch (wrapped before e after) = is_container_name_mismatch e
is_container_name_mismatch (not_found s) = false
is_container_name_mismatch (already_exists s) = false
is_container_name_mismatch (failure s) = false

-- An event, without its time stamps.
pub record Event : Type 0 where
  pub generate_name : String
  pub namespace : String
  pub involved_kind : String
  pub involved_name : String
  pub involved_uid : String
  pub involved_api_version : String
  pub involved_namespace : String
  pub reason : String
  pub text : String
  pub source_component : String
  pub type_name : String
  pub count : ℕ

module _ (i : Injector) where
  open i use {unstructured as u}

  mismatch : Fields → Error
  mismatch object = wrapped "" no_matching_container (
      " in Notebook '"
      <> u.get_namespace object
      <> "/"
      <> u.get_name object
      <> "': expected container name '"
      <> u.get_name object
      <> "'")

  names_of : Fields → List Value → Option Error
  unfolding mismatch
  names_of object [] = none
  names_of object (c ∷ []) = none
  names_of object cs = if any_named (u.get_name object) cs then none else some (mismatch object)

  containers_error : Fields → Result (Option (List Value)) → Option Error
  unfolding names_of
  containers_error object (err e) = some (wrap "failed to access containers" e)
  containers_error object (ok none) = none
  containers_error object (ok (some cs)) = names_of object cs

  unfoldable pub validate_container_names : Fields → Option Error
  unfolding containers_error
  validate_container_names object = containers_error object (u.nested_slice object containers_path)

  abbrev event_for : Fields → String → String → Event
  event_for object reason text = record {
    generate_name = u.get_name object <> ".hwp-";
    namespace = u.get_namespace object;
    involved_kind = u.get_kind object;
    involved_name = u.get_name object;
    involved_uid = u.get_uid object;
    involved_api_version = u.get_api_version object;
    involved_namespace = u.get_namespace object;
    reason = reason;
    text = text;
    source_component = "hardwareprofile-webhook";
    type_name = "Warning";
    count = 1;
  }

  -- The events that are created: none in a dry run or with no event writer. A failure to create one
  -- is only logged.
  unfoldable pub emit : Bool → Event → List Event
  emit dry_run event = if dry_run then [] else if i.has_event_writer then event ∷ [] else []

  -- `maybeEmitContainerNameWarningEvent`
  unfoldable pub maybe_emit_container_name_warning_event :
      Bool → Fields → Error → String → String → List Event
  unfolding emit
  maybe_emit_container_name_warning_event dry_run object e hwp expected = emit dry_run (
      event_for object "ContainerNameMismatch" (
        "Hardware profile '"
        <> hwp
        <> "' settings not applied to this workload: "
        <> message e
        <> ". Rename container to '"
        <> expected
        <> "' to enable hardware profile injection."))

  -- `maybeEmitValidationErrorEvent`
  unfoldable pub maybe_emit_validation_error_event : Bool → Fields → Error → String → List Event
  unfolding emit
  maybe_emit_validation_error_event dry_run object e hwp = emit dry_run (
      event_for object "ValidationError" (
        "Hardware profile '"
        <> hwp
        <> "' was not applied due to validation error: "
        <> message e
        <> ". Check your workload structure."))

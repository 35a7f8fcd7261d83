-- ===== src/HardwareProfile/OldObject.antt =====
-- What the webhook reads from the old object of an update: `isProfileNewlyAdded`,
-- `detectProfileChange`, `isStaleProfileReference`.
use workbenches_operator.Prelude.{
  String, ◌==◌, Bool, true, false, not, ◌||◌, Option, none, some, if◌then◌else◌,
}
use workbenches_operator.Errors.{Result, ok, err}
use workbenches_operator.Json.{Fields}
use workbenches_operator.Admission.{Request, is_create}
use workbenches_operator.Metadata.{
  get_annotation, hardware_profile_name_annotation, hardware_profile_namespace_annotation,
}
use workbenches_operator.HardwareProfile.Injector.{Injector}

-- The old object: its bytes are nil, they do not parse, or it is there.
pub data OldObject : Type 0 where
  missing : OldObject
  malformed : OldObject
  parsed : Fields → OldObject

abbrev of_result : Result Fields → OldObject
of_result (ok object) = parsed object
of_result (err e) = malformed

abbrev of_bytes : (String → Result Fields) → Option String → OldObject
of_bytes unmarshal none = missing
of_bytes unmarshal (some bytes) = of_result (unmarshal bytes)

module _ (i : Injector) where
  open i use {unstructured as u}

  unfoldable pub old_object : Request → OldObject
  old_object req = of_bytes i.encoding.unmarshal req.old_object

  abbrev pub profile_name : Fields → String
  profile_name object = get_annotation u object hardware_profile_name_annotation

  -- The annotation of the namespace, or else the object's own namespace.
  unfoldable pub profile_namespace : Fields → String
  profile_namespace object =
      let annotated = get_annotation u object hardware_profile_namespace_annotation in
      if annotated == "" then u.get_namespace object else annotated

  abbrev newly_added : OldObject → Bool
  newly_added (parsed old) = profile_name old == ""
  newly_added _ = false

  unfoldable pub is_profile_newly_added : Request → Bool
  is_profile_newly_added req =
      if is_create req.operation then false else newly_added (old_object req)

  abbrev changed_from : String → String → OldObject → Bool
  changed_from name namespace (parsed old) =
      if profile_name old == ""
      then false
      else not (profile_name old == name) || not (profile_namespace old == namespace)
  changed_from name namespace _ = true

  unfoldable pub detect_profile_change : Request → String → String → Bool
  detect_profile_change req name namespace =
      if is_create req.operation then false else changed_from name namespace (old_object req)

  abbrev stale_in : String → OldObject → Bool
  stale_in name (parsed old) = profile_name old == name
  stale_in name _ = false

  unfoldable pub is_stale_profile_reference : Request → String → Bool
  is_stale_profile_reference req name = stale_in name (old_object req)

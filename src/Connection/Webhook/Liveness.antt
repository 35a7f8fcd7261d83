-- ===== src/Connection/Webhook/Liveness.antt =====
-- When the webhook patches.
use mathlib.Core.List.{append-nil}
use workbenches_operator.Prelude.{
  String, ◌==◌, ◌≡◌, refl, ap, ◌∙◌, true, false, Bool-cases, inl, inr, ◌&&◌, ◌||◌, some, List, [],
  ◌∷◌, ◌++◌, All, map, is_empty,
}
use workbenches_operator.Errors.{ok, ok-injective}
use workbenches_operator.Json.{Value, obj, Fields, put, as_map}
use workbenches_operator.Unstructured.{Unstructured}
use workbenches_operator.Admission.{Request, Decoder, allowed, patched, is_create, is_update}
use workbenches_operator.Metadata.{get_annotation, connection_annotation}
use workbenches_operator.Connection.Reference.{SecretReference}
use workbenches_operator.Connection.Annotation.{parse_connections_annotation}
use workbenches_operator.Connection.Actions.{update_refs, create_refs}
use workbenches_operator.Connection.EnvFrom.{handle_connection_secrets}
use workbenches_operator.Connection.Checks.Laws.{Authorized, check_secrets_of_Authorized}
use workbenches_operator.Connection.Webhook.Injection.{
  ReadsBack, env_of, changes_of, OldRefs, ReadsOld, OldRefs-ReadsOld,
  get_notebook_secret_refs-changes_of,
}
use workbenches_operator.Connection.Webhook.{
  NotebookWebhook, Validation, notebook_containers_path, env_value, inject_first,
  perform_connection_injection, validate_refs, validate_annotation, respond_injected,
  after_validation, handle_notebook, decode_and_handle, handle,
}
use workbenches_operator.Connection.Webhook.Safety.{Injected, handle-Injected}

-- Where the list of containers is read, it can be written.
pub record CanWrite (u : Unstructured) : Type 0 where
  pub set_nested_slice-ok :
      (object : Fields) (xs ys : List Value)
      → u.nested_slice object notebook_containers_path ≡ ok (some xs)
      → (object' : Fields) × (u.set_nested_slice object ys notebook_containers_path ≡ ok object')

is_empty-map : {A B : Type 0} (f : A → B) (xs : List A) → is_empty (map f xs) ≡ is_empty xs
is_empty-map f [] = refl
is_empty-map f (x ∷ xs) = refl

is_empty-changes_of :
    (w : NotebookWebhook) (d : Decoder) (req : Request) (old refs : List SecretReference)
    → ReadsOld w d req old
    → is_empty (changes_of req old refs) ≡ is_empty (refs ++ old)
unfolding update_refs create_refs
is_empty-changes_of w d req old refs h = elim (Bool-cases (is_update req.operation)) [
  | inl update ↦ rw update (is_empty-map _ (refs ++ old))
  | inr other ↦
      let nothing : [] ≡ old = ok-injective (rw other at h) in
      rw (other, ← nothing, append-nil) (is_empty-map _ refs)
]

module _ (w : NotebookWebhook) (req : Request) (d : Decoder) (nb : Fields)
    (old refs : List SecretReference) where
  abbrev validation : Validation
  validation = record {
    response = allowed "Connection permissions validated successfully" [];
    should_inject = true;
    refs = changes_of req old refs;
  }

  validate_refs-validation :
      All (Authorized w.cluster req.namespace req.username req.groups) refs
      → ReadsOld w d req old
      → validate_refs w d req refs ≡ validation
  unfolding validate_refs
  validate_refs-validation authorized old_read = rw (
    check_secrets_of_Authorized w.cluster req.namespace req.username req.groups refs authorized,
    get_notebook_secret_refs-changes_of w d req old refs old_read,
    validate_refs,
  )

  perform_connection_injection-ok :
      CanWrite w.unstructured
      → (container : Fields) (others : List Value)
      → w.unstructured.nested_slice nb notebook_containers_path ≡ ok (some (obj container ∷ others))
      → (object : Fields) × (perform_connection_injection w nb (changes_of req old refs)
          ≡ ok object)
  unfolding perform_connection_injection inject_first as_map
  perform_connection_injection-ok writes container others there =
      let env = handle_connection_secrets (changes_of req old refs) (env_of container) in
      let changed = obj (put "envFrom" (env_value env) container) in
      let (object, written) =
        writes.set_nested_slice-ok nb (obj container ∷ others) (changed ∷ others) there in
      (object, rw (there, perform_connection_injection, written))

module _ (w : NotebookWebhook) (req : Request) (reads : ReadsBack w.unstructured)
    (writes : CanWrite w.unstructured)
    (marshals : (object : Fields) → (bytes : String) × (w.encoding.marshal object ≡ ok bytes)) where
  after_validation-patched :
      (d : Decoder) (nb container : Fields) (others : List Value) (old refs : List SecretReference)
      → w.unstructured.nested_slice nb notebook_containers_path ≡ ok (some (obj container ∷ others))
      → ReadsOld w d req old
      → is_empty (refs ++ old) ≡ false
      → (bytes : String) × (after_validation w req nb (validation w req d nb old refs)
          ≡ patched req.object bytes [])
  unfolding after_validation respond_injected
  after_validation-patched d nb container others old refs there old_read some_ref =
      let (object, performed) =
        perform_connection_injection-ok w req d nb old refs writes container others there in
      let (bytes, marshaled) = marshals object in
      let changing = is_empty-changes_of w d req old refs old_read ∙ some_ref in
      (bytes, rw (changing, performed, respond_injected, marshaled))

  -- If containers that are read can be written and are then read back, and every object can be
  -- marshaled, then a creation or update of a Notebook that is decoded, is alive and has a first
  -- container, whose annotation is not blank in a creation and parses to references that are all
  -- authorized, is answered by a patch with the guarantees of a patch, where the old references are
  -- read and there is an old or a current one.
  pub handle-Injected_patched :
      (d : Decoder) (nb container : Fields) (others : List Value) (old refs : List SecretReference)
      → (is_create req.operation || is_update req.operation) ≡ true
      → w.decoder ≡ some d
      → d.decode req ≡ ok nb
      → w.unstructured.deletion_timestamp_is_zero nb ≡ true
      → w.unstructured.nested_slice nb notebook_containers_path ≡ ok (some (obj container ∷ others))
      → (is_create req.operation && get_annotation w.unstructured nb connection_annotation == "")
        ≡ false
      → parse_connections_annotation (get_annotation w.unstructured nb connection_annotation)
        ≡ ok refs
      → All (Authorized w.cluster req.namespace req.username req.groups) refs
      → OldRefs w d req old
      → is_empty (refs ++ old) ≡ false
      → (bytes : String) × (handle w req ≡ patched req.object bytes []) × Injected w req bytes
  unfolding handle decode_and_handle handle_notebook validate_annotation
  handle-Injected_patched d nb container others old refs write set decoded alive there named parsed
        authorized old_refs some_ref =
      let old_read = OldRefs-ReadsOld w d req old old_refs in
      let (bytes, injected) =
        after_validation-patched d nb container others old refs there old_read some_ref in
      let valid : validate_annotation w d req nb ≡ validation w req d nb old refs =
        rw (named, parsed, validate_annotation)
          (validate_refs-validation w req d nb old refs authorized old_read) in
      let answer : handle w req ≡ patched req.object bytes [] =
        rw (write, handle)
          (simp (set, decoded, decode_and_handle)
            (rw (alive, handle_notebook) (ap (after_validation w req nb) valid ∙ injected))) in
      (bytes, answer, handle-Injected w req reads answer)

-- ===== src/Connection/Webhook/Safety.antt =====
-- A patch is returned only when every connection secret is authorized.
use workbenches_operator.Prelude.{
  String, ◌<>◌, ◌==◌, ◌≡◌, refl, true, ◌&&◌, ◌||◌, some, List, [], arith, All, Bool-cases,
  Option-cases, inl, inr,
}
use workbenches_operator.Errors.{message, Result, ok, err, Result-cases}
use workbenches_operator.Json.{Fields}
use workbenches_operator.Admission.{Request, denied, patched, Decoder, is_create, is_update}
use workbenches_operator.Metadata.{get_annotation, connection_annotation}
use workbenches_operator.Connection.Reference.{SecretReference}
use workbenches_operator.Connection.Annotation.{parse_connections_annotation}
use workbenches_operator.Connection.Checks.{check_secrets}
use workbenches_operator.Connection.Checks.Laws.{Authorized, check_secrets-Authorized}
use workbenches_operator.Connection.Webhook.Injection.{
  ReadsBack, Injection, OldRefs, changes_of-get_notebook_secret_refs, ReadsOld-OldRefs,
  perform_connection_injection-Injection,
}
use workbenches_operator.Connection.Webhook.{
  NotebookWebhook, Validation, stop, perform_connection_injection, get_notebook_secret_refs,
  validate_refs, validate_annotation, respond_injected, after_validation, handle_notebook,
  decode_and_handle, handle,
}

-- What stands behind a patch: the decoded Notebook is not being deleted, its annotation parses to
-- references that are all authorized for the user of the request, and the patch is from the request's
-- bytes to those of a Notebook with these references instead of the old ones.
pub record Injected (w : NotebookWebhook) (req : Request) (bytes : String) : Type 0 where
  pub d : Decoder
  pub nb : Fields
  pub refs : List SecretReference
  pub old : List SecretReference
  pub object : Fields
  pub decoder_set : w.decoder ≡ some d
  pub decoded : d.decode req ≡ ok nb
  pub alive : w.unstructured.deletion_timestamp_is_zero nb ≡ true
  pub parsed :
      parse_connections_annotation (get_annotation w.unstructured nb connection_annotation)
      ≡ ok refs
  pub authorized : All (Authorized w.cluster req.namespace req.username req.groups) refs
  -- the references before an update, none before a creation
  pub old_read : OldRefs w d req old
  pub injection : Injection w.unstructured old refs nb object
  pub marshaled : w.encoding.marshal object ≡ ok bytes

module _ (w : NotebookWebhook) (req : Request) where
  -- A validation that says to inject.
  record Validated (d : Decoder) (nb : Fields) (v : Validation) : Type 0 where
    refs : List SecretReference
    parsed :
        parse_connections_annotation (get_annotation w.unstructured nb connection_annotation)
        ≡ ok refs
    authorized : All (Authorized w.cluster req.namespace req.username req.groups) refs
    changed : get_notebook_secret_refs w d req refs ≡ ok v.refs

  respond_injected-patched :
      (r : Result Fields) {original bytes : String} {warnings : List String}
      → respond_injected w req r ≡ patched original bytes warnings
      → (object : Fields) × (r ≡ ok object) × (w.encoding.marshal object ≡ ok bytes)
  unfolding respond_injected
  respond_injected-patched (err e) h = absurd (cc h)
  respond_injected-patched (ok object) h = (object, refl, ground arith)

  after_validation-patched :
      (nb : Fields) (v : Validation) {original bytes : String} {warnings : List String}
      → after_validation w req nb v ≡ patched original bytes warnings
      → (v.should_inject ≡ true)
        × (respond_injected w req (perform_connection_injection w nb v.refs)
            ≡ patched original bytes warnings)
  unfolding after_validation
  after_validation-patched nb v h = ground arith

  validate_refs-inject :
      (d : Decoder) (refs : List SecretReference)
      → (validate_refs w d req refs).should_inject ≡ true
      → (check_secrets w.cluster req.namespace req.username req.groups refs ≡ ok ([], []))
        × (get_notebook_secret_refs w d req refs ≡ ok (validate_refs w d req refs).refs)
  unfolding validate_refs
  validate_refs-inject d refs h = ground arith

  checked-Validated :
      (d : Decoder) (nb : Fields) (refs : List SecretReference)
      → parse_connections_annotation (get_annotation w.unstructured nb connection_annotation)
        ≡ ok refs
      → (validate_refs w d req refs).should_inject ≡ true
      → Validated d nb (validate_refs w d req refs)
  checked-Validated d nb refs p h =
      let (clean, changed) = validate_refs-inject d refs h in
      record {
        refs = refs;
        parsed = p;
        authorized =
            check_secrets-Authorized w.cluster req.namespace req.username req.groups refs clean;
        changed = changed;
      }

  validate_annotation-Validated :
      (d : Decoder) (nb : Fields)
      → (validate_annotation w d req nb).should_inject ≡ true
      → Validated d nb (validate_annotation w d req nb)
  unfolding validate_annotation
  validate_annotation-Validated d nb h =
      elim (Bool-cases (is_create req.operation && value == "")) [
        | inl blank ↦ absurd (cc (rw blank at h))
        | inr more ↦ rw more (go (parse_connections_annotation value) refl (rw more at h))
      ]
    where
      value : String
      value = get_annotation w.unstructured nb connection_annotation

      go :
          (r : Result (List SecretReference))
          → parse_connections_annotation value ≡ r
          → (elim r as (λ _. Validation) [
            | err e ↦ stop (denied ("failed to parse connections annotation: " <> message e))
            | ok refs ↦ validate_refs w d req refs
          ]).should_inject
            ≡ true
          → Validated d nb (elim r as (λ _. Validation) [
            | err e ↦ stop (denied ("failed to parse connections annotation: " <> message e))
            | ok refs ↦ validate_refs w d req refs
          ])
      go (err e) p i = absurd (cc i)
      go (ok refs) p i = checked-Validated d nb refs p i

  notebook-Injected :
      ReadsBack w.unstructured
      → (d : Decoder) (nb : Fields) {original bytes : String} {warnings : List String}
      → w.decoder ≡ some d
      → d.decode req ≡ ok nb
      → handle_notebook w d req nb ≡ patched original bytes warnings
      → Injected w req bytes
  unfolding handle_notebook
  notebook-Injected reads d nb set decoded h =
      elim (Bool-cases (w.unstructured.deletion_timestamp_is_zero nb)) [
        | inr dying ↦ absurd (cc (rw dying at h))
        | inl alive ↦
            let v = validate_annotation w d req nb in
            let (inject, patched_to) = after_validation-patched nb v (rw alive at h) in
            let (object, performed, marshaled) =
              respond_injected-patched (perform_connection_injection w nb v.refs) patched_to in
            let valid = validate_annotation-Validated d nb inject in
            let (old, old_read, same) =
              changes_of-get_notebook_secret_refs w d req valid.refs v.refs valid.changed in
            record {
              d = d;
              nb = nb;
              refs = valid.refs;
              old = old;
              object = object;
              decoder_set = set;
              decoded = decoded;
              alive = alive;
              parsed = valid.parsed;
              authorized = valid.authorized;
              old_read = ReadsOld-OldRefs w d req old old_read;
              injection =
                  perform_connection_injection-Injection w reads d req old valid.refs old_read nb
                    object (rw same performed);
              marshaled = marshaled;
            }
      ]

  decode_and_handle-Injected :
      ReadsBack w.unstructured
      → {original bytes : String} {warnings : List String}
      → decode_and_handle w req ≡ patched original bytes warnings
      → Injected w req bytes
  unfolding decode_and_handle
  decode_and_handle-Injected reads h = elim (Option-cases w.decoder) [
    | inl unset ↦ absurd (cc (rw (unset, decode_and_handle) at h))
    | inr (d, set) ↦ elim (Result-cases (d.decode req)) [
      | inl (e, bad) ↦ absurd (cc (rw (set, bad, decode_and_handle) at h))
      | inr (nb, decoded) ↦
          notebook-Injected reads d nb set decoded (rw (set, decoded, decode_and_handle) at h)
    ]
  ]

  -- For a package unstructured that reads written containers back: if the connection webhook
  -- answers a request with a patch, the decoded Notebook is not being deleted, its annotation
  -- parses to references that are all secrets of the Notebook's namespace which exist and which the
  -- user of the request may get, and the patched bytes are those of a Notebook whose first
  -- container has, for every secret, as many envFrom entries naming it as before and one for each
  -- of these references of it that is not among the old ones, less one for each old reference of it
  -- that is not among these, stopping at 0; every other field of this container and every other
  -- container is as it was.
  pub handle-Injected :
      ReadsBack w.unstructured
      → {original bytes : String} {warnings : List String}
      → handle w req ≡ patched original bytes warnings
      → Injected w req bytes
  unfolding handle
  handle-Injected reads h = elim (Bool-cases (is_create req.operation || is_update req.operation)) [
    | inl write ↦ decode_and_handle-Injected reads (rw write at h)
    | inr other ↦ absurd (cc (rw other at h))
  ]

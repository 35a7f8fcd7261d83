-- ===== src/Connection/Webhook.antt =====
-- `NotebookWebhook.Handle` and what it calls.
pub mod Injection
pub mod Safety
pub mod Liveness
use workbenches_operator.Prelude.{
  String, ◌<>◌, ◌==◌, Bool, true, false, not, ◌&&◌, ◌||◌, Option, none, some, List, [], ◌∷◌, ◌++◌,
  if◌then◌else◌, is_empty,
}
use workbenches_operator.Prelude.Text.{join}
use workbenches_operator.Errors.{Error, failure, message, Result, ok, err, ◌>>=◌, wrap, wrap_err}
use workbenches_operator.Json.{Value, arr, nil_arr, obj, Fields, get, put, as_map, to_list, slice}
use workbenches_operator.Unstructured.{Unstructured, FieldPath}
use workbenches_operator.Admission.{
  Operation, create, update, delete, connect, is_create, is_update, operation_name, Request,
  Response, allowed, denied, errored, patched, Decoder, Encoding, bad_request,
  internal_server_error, is_allowed,
}
use workbenches_operator.Metadata.{get_annotation, connection_annotation}
use workbenches_operator.Connection.Reference.{SecretReference}
use workbenches_operator.Connection.Annotation.{parse_connections_annotation}
use workbenches_operator.Connection.Actions.{NotebookSecretReference, update_refs, create_refs}
use workbenches_operator.Connection.EnvFrom.{handle_connection_secrets}
use workbenches_operator.Connection.Checks.{Cluster, check_secrets}

abbrev pub notebook_containers_path : FieldPath
notebook_containers_path = "spec" ∷ "template" ∷ "spec" ∷ "containers" ∷ []

-- `existingEnvFrom, _ := container["envFrom"].([]any)`: nil for all but a slice.
abbrev pub existing_env_from : Option Value → Option (List Value)
existing_env_from (some (arr xs)) = some (to_list xs)
existing_env_from _ = none

abbrev pub env_value : Option (List Value) → Value
env_value none = nil_arr
env_value (some xs) = slice xs

-- What a validation returns: the response, and the references if it says to inject.
pub record Validation : Type 0 where
  pub response : Response
  pub should_inject : Bool
  pub refs : List NotebookSecretReference

abbrev pub stop : Response → Validation
stop response = record { response = response; should_inject = false; refs = [] }

pub record NotebookWebhook : Type 0 where
  pub unstructured : Unstructured
  pub cluster : Cluster
  pub decoder : Option Decoder
  pub encoding : Encoding

-- `%s` of a slice of references.
abbrev show_refs : List SecretReference → String
show_refs [] = ""
show_refs (ref ∷ []) = "{" <> ref.name <> " " <> ref.namespace <> "}"
show_refs (ref ∷ next ∷ refs) =
    "{" <> ref.name <> " " <> ref.namespace <> "} " <> show_refs (next ∷ refs)

abbrev check_failed : List SecretReference → Error → Error
check_failed refs =
    wrap
      ("error verifying secret(s) exist/user has permissions for them [" <> show_refs refs <> "]")

abbrev invalid_secrets : List String → String
invalid_secrets invalid =
    "the following connection secret(s) are invalid — they may not exist, may be outside "
    <> "the Notebook's namespace, or you may lack permission to access them: "
    <> join ", " invalid

abbrev skipped : String
skipped =
    "Annotation '" <> connection_annotation <> "' not present or empty value, skipping validation"

abbrev no_injection : Request → String
no_injection req =
    "Connection annotation validation passed in namespace " <> req.namespace <> " for " <> req.kind
    <> ", no injection needed"

module _ (w : NotebookWebhook) where
  open w use {unstructured as u, cluster}

  inject_first : Fields → List Value → List NotebookSecretReference → Result Fields
  inject_first nb [] refs = err (failure "no containers found in notebook")
  inject_first nb (first ∷ others) refs = elim (as_map first) [
    | none ↦ err (failure "first container is not a map[string]interface{}")
    | some container ↦
        let env = handle_connection_secrets refs (existing_env_from (get "envFrom" container)) in
        wrap_err "failed to set containers array" (
          u.set_nested_slice nb (obj (put "envFrom" (env_value env) container) ∷ others)
            notebook_containers_path)
  ]

  unfoldable pub perform_connection_injection :
      Fields → List NotebookSecretReference → Result Fields
  unfolding inject_first
  perform_connection_injection nb refs = elim (u.nested_slice nb notebook_containers_path) [
    | err e ↦ err (wrap "failed to get containers array" e)
    | ok none ↦ err (failure "no containers found in notebook")
    | ok (some containers) ↦ inject_first nb containers refs
  ]

  -- `getOldConnectionSecrets`
  unfoldable pub get_old_connection_secrets : Decoder → Request → Result (List SecretReference)
  get_old_connection_secrets d req = do
    old ← wrap_err "failed to decode old notebook object" (d.decode_raw req.old_object)
    let value = get_annotation u old connection_annotation
    if value == ""
        then ok []
        else wrap_err "failed to parse old secret references" (parse_connections_annotation value)

  -- `getNotebookSecretRefs`: no references are a nil slice.
  unfoldable pub get_notebook_secret_refs :
      Decoder → Request → List SecretReference → Result (List NotebookSecretReference)
  get_notebook_secret_refs d req refs =
      if is_update req.operation
      then (do
        old ← wrap_err "failed to get old secret references" (get_old_connection_secrets d req)
        ok (update_refs old refs))
      else ok (create_refs refs)

  unfoldable pub validate_refs : Decoder → Request → List SecretReference → Validation
  validate_refs d req refs =
      elim (check_secrets cluster req.namespace req.username req.groups refs) [
        | err e ↦ stop (errored internal_server_error (check_failed refs e))
        | ok (missing, forbidden) ↦
            if is_empty missing && is_empty forbidden
            then (elim (get_notebook_secret_refs d req refs) [
              | err e ↦ stop (
                  errored internal_server_error (wrap "failed to get notebook secret references" e))
              | ok notebook_refs ↦ record {
                response = allowed "Connection permissions validated successfully" [];
                should_inject = true;
                refs = notebook_refs;
              }
            ])
            else stop (denied (invalid_secrets (missing ++ forbidden)))
      ]

  -- `validateNotebookConnectionAnnotation`
  unfoldable pub validate_annotation : Decoder → Request → Fields → Validation
  validate_annotation d req nb =
      let value = get_annotation u nb connection_annotation in
      if is_create req.operation && value == ""
      then stop (allowed skipped [])
      else (elim (parse_connections_annotation value) [
        | err e ↦ stop (denied ("failed to parse connections annotation: " <> message e))
        | ok refs ↦ validate_refs d req refs
      ])

  unfoldable pub respond_injected : Request → Result Fields → Response
  respond_injected req (err e) = errored internal_server_error e
  respond_injected req (ok object) = elim (w.encoding.marshal object) [
    | err e ↦ errored internal_server_error e
    | ok bytes ↦ patched req.object bytes []
  ]

  -- The rest of `Handle` after the validation.
  unfoldable pub after_validation : Request → Fields → Validation → Response
  after_validation req nb v =
      if is_allowed v.response
      then if not v.should_inject || is_empty v.refs
        then allowed (no_injection req) []
        else respond_injected req (perform_connection_injection nb v.refs)
      else v.response

  unfoldable pub handle_notebook : Decoder → Request → Fields → Response
  handle_notebook d req nb =
      if u.deletion_timestamp_is_zero nb
      then after_validation req nb (validate_annotation d req nb)
      else allowed "Object marked for deletion, skipping connection logic" []

  unfoldable pub decode_and_handle : Request → Response
  decode_and_handle req = elim w.decoder [
    | none ↦ errored internal_server_error (failure "webhook decoder not initialized")
    | some d ↦ elim (d.decode req) [
      | err e ↦ errored bad_request (wrap "failed to decode object" e)
      | ok nb ↦ handle_notebook d req nb
    ]
  ]

  unfoldable pub handle : Request → Response
  handle req =
      if is_create req.operation || is_update req.operation
      then decode_and_handle req
      else allowed
          ("Operation " <> operation_name req.operation <> " on " <> req.kind <> " allowed") []

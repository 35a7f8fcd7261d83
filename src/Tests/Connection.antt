-- ===== src/Tests/Connection.antt =====
-- Runs of the connection webhook, and its theorems at concrete data.
use workbenches_operator.Prelude.{
  String, ◌==◌, ◌&&◌, eq_iff, ◌≡◌, ◌≢◌, refl, false, not, Option, some, List, [], ◌∷◌,
  if◌then◌else◌, contains, keep, false≢true, sym, ◌∙◌, or_default, arith, All, inl,
}
use workbenches_operator.Prelude.Text.{split, trim_space, is_space, join}
use workbenches_operator.Errors.{failure, not_found, ok, err}
use workbenches_operator.Json.{
  Value, str, obj, Fields, end, field, get, put, as_map, as_string, as_slice, to_list, of_list,
}
use workbenches_operator.Dict.{lookup}
use workbenches_operator.Unstructured.Reference.{
  reference, entries_at, read, string_entries, typed, write, as_string_map, text_at, written,
}
use workbenches_operator.Admission.{patched}
use workbenches_operator.Metadata.{get_annotation, connection_annotation}
use workbenches_operator.Connection.Reference.{SecretReference, keys}
use workbenches_operator.Connection.Annotation.{
  parse_connections_annotation, parse_parts, parse_round, parse_part,
}
use workbenches_operator.Connection.Annotation.Sound.{
  IsAccepted, parse_connections_annotation-IsAccepted,
}
use workbenches_operator.Connection.Annotation.Complete.{
  part_keys, contains-parse_connections_annotation,
}
use workbenches_operator.Connection.Annotation.RoundTrip.{
  IsPlain, IsPlainRef, render, parse_connections_annotation-render,
}
use workbenches_operator.Connection.Actions.Laws.{lookup-determine_secret_actions}
use workbenches_operator.Connection.EnvFrom.Laws.{env_count}
use workbenches_operator.Connection.EnvFrom.Update.{env_count-update_refs, keep-update_refs}
use workbenches_operator.Connection.Checks.Laws.{Authorized, check_secrets-Authorized_iff}
use workbenches_operator.Connection.Webhook.Liveness.{handle-Injected_patched}
use workbenches_operator.Connection.Webhook.Safety.{Injected, handle-Injected}
use workbenches_operator.Connection.Actions.{
  determine_secret_actions, update_refs, create_refs, delete,
}
use workbenches_operator.Connection.EnvFrom.{
  handle_connection_secret, handle_connection_secrets, secret_entry, entry_names,
}
use workbenches_operator.Connection.Checks.{
  Cluster, check_secrets, check_secret_exists, check_user_has_permission,
}
use workbenches_operator.Connection.Webhook.{
  NotebookWebhook, get_notebook_secret_refs, validate_refs, validate_annotation, respond_injected,
  after_validation, handle_notebook, decode_and_handle, handle, perform_connection_injection,
}
use workbenches_operator.Tests.Paths.{reference-ReadsBack, reference-CanWrite}
use workbenches_operator.Tests.Fixtures.{notebook_with, creation, decoder_of, encoding_of}

abbrev secret_a : SecretReference
secret_a = record { name = "a"; namespace = "ns" }

abbrev secret_b : SecretReference
secret_b = record { name = "b"; namespace = "ns" }

abbrev connected : Fields
connected = notebook_with connection_annotation "ns/a, ns/b"

-- The secrets a and b of ns are there, and the user alice may get them.
abbrev cluster : Cluster
cluster = record {
  get_secret = λ namespace name.
      if name == "a" then ok tt else if name == "b" then ok tt else err (not_found name);
  create_review = λ review. ok (review.user == "alice" && review.resource_attributes.verb == "get");
}

abbrev webhook : NotebookWebhook
webhook = record {
  unstructured = reference;
  cluster = cluster;
  decoder = some (decoder_of connected);
  encoding = encoding_of connected;
}

parsed_two : parse_connections_annotation "ns/a, ns/b,ns/a" ≡ ok (secret_a ∷ secret_b ∷ [])
unfolding parse_connections_annotation trim_space parse_parts split parse_round parse_part
parsed_two = refl

refused_unknown :
    parse_connections_annotation "ns/a,b"
    ≡ err (failure "invalid secret reference format 'b' - expected 'namespace/name'")
unfolding parse_connections_annotation trim_space parse_parts split parse_round parse_part
refused_unknown = refl

patched_run : handle webhook creation ≡ patched "original" "current" []
unfolding handle decode_and_handle handle_notebook reference get as_map after_validation
    validate_annotation get_annotation as_string lookup parse_connections_annotation trim_space
    parse_parts split parse_round parse_part check_secret_exists check_secrets
    check_user_has_permission create_refs get_notebook_secret_refs perform_connection_injection
    handle_connection_secret handle_connection_secrets respond_injected validate_refs put as_slice
    of_list to_list entries_at read string_entries typed write as_string_map text_at written
patched_run = refl

Authorized-both : All (Authorized cluster "ns" "alice" ("users" ∷ [])) (secret_a ∷ secret_b ∷ [])
Authorized-both = (
  record { exists = record { in_namespace = refl; found = refl }; permitted = refl },
  (record { exists = record { in_namespace = refl; found = refl }; permitted = refl }, tt),
)

-- The marshaling of an object gives these bytes.
marshals : (object : Fields) → (bytes : String) × (webhook.encoding.marshal object ≡ ok bytes)
marshals object = ("current", refl)

handle-Injected_patched_example :
    (bytes : String) × (handle webhook creation ≡ patched "original" bytes [])
    × Injected webhook creation bytes
unfolding reference get as_map get_annotation as_string lookup parse_connections_annotation
    trim_space parse_parts split parse_round parse_part as_slice of_list to_list entries_at read
    string_entries typed as_string_map text_at
handle-Injected_patched_example =
    handle-Injected_patched webhook creation reference-ReadsBack reference-CanWrite marshals
      (decoder_of connected) connected (field "name" (str "nb") end) [] []
      (secret_a ∷ secret_b ∷ []) refl refl refl refl refl refl refl Authorized-both
      (inl (refl, refl)) refl

handle-Injected_example : Injected webhook creation "current"
handle-Injected_example = handle-Injected webhook creation reference-ReadsBack patched_run

IsPlain-a : IsPlain "a"
unfolding is_space
IsPlain-a = record { spaceless = (refl, tt); commaless = (refl, tt); slashless = (refl, tt) }

IsPlain-b : IsPlain "b"
unfolding is_space
IsPlain-b = record { spaceless = (refl, tt); commaless = (refl, tt); slashless = (refl, tt) }

IsPlain-ns : IsPlain "ns"
unfolding is_space
IsPlain-ns = record {
  spaceless = (refl, (refl, tt));
  commaless = (refl, (refl, tt));
  slashless = (refl, (refl, tt));
}

differ : {s t : String} → (s == t) ≡ false → s ≢ t
differ {s} {t} h e = false≢true (sym h ∙ (eq_iff s t).1 e)

plain_a : IsPlainRef secret_a
plain_a = record {
  named = record { has_name = differ refl; has_namespace = differ refl };
  namespace = IsPlain-ns;
  name = IsPlain-a;
}

plain_b : IsPlainRef secret_b
plain_b = record {
  named = record { has_name = differ refl; has_namespace = differ refl };
  namespace = IsPlain-ns;
  name = IsPlain-b;
}

parse_connections_annotation-render_example :
    parse_connections_annotation (render (secret_a ∷ secret_b ∷ [])) ≡ ok (secret_a ∷ secret_b ∷ [])
unfolding join
parse_connections_annotation-render_example =
    parse_connections_annotation-render (secret_a ∷ secret_b ∷ []) (plain_a, (plain_b, tt))
      (refl, (refl, tt)) (omega arith) (omega arith)

parse_connections_annotation-IsAccepted_example : IsAccepted (secret_a ∷ secret_b ∷ [])
parse_connections_annotation-IsAccepted_example =
    parse_connections_annotation-IsAccepted "ns/a, ns/b,ns/a" (secret_a ∷ secret_b ∷ []) parsed_two

contains-parse_connections_annotation_example :
    contains "ns/b" (keys (secret_a ∷ secret_b ∷ []))
    ≡ contains "ns/b" (part_keys (split b',' "ns/a, ns/b,ns/a"))
unfolding trim_space
contains-parse_connections_annotation_example =
    contains-parse_connections_annotation "ns/a, ns/b,ns/a" (secret_a ∷ secret_b ∷ []) "ns/b" refl
      parsed_two

lookup-determine_secret_actions_example :
    lookup "ns/a" (determine_secret_actions (secret_a ∷ []) (secret_b ∷ [])) ≡ some delete
lookup-determine_secret_actions_example =
    lookup-determine_secret_actions (secret_a ∷ []) (secret_b ∷ []) "ns/a"

-- The entries of a and of a config map, which name no other secret.
abbrev env : Option (List Value)
env =
    some (secret_entry "a" ∷ obj (field "configMapRef" (obj (field "name" (str "c") end)) end) ∷ [])

env_count-update_refs_example :
    env_count "a" (handle_connection_secrets (update_refs (secret_a ∷ []) (secret_b ∷ [])) env) ≡ 0
unfolding entry_names
env_count-update_refs_example = env_count-update_refs "a" (secret_a ∷ []) (secret_b ∷ []) env

keep-update_refs_example :
    keep
      (λ e. not (entry_names "a" e))
      (or_default [] (handle_connection_secrets (update_refs (secret_a ∷ []) []) env))
    ≡ keep (λ e. not (entry_names "a" e)) (or_default [] env)
keep-update_refs_example =
    keep-update_refs (λ e. not (entry_names "a" e)) (secret_a ∷ []) [] env tt
      ((λ e h. ground arith), tt)

check_secrets-Authorized_iff_example :
    check_secrets cluster "ns" "alice" ("users" ∷ []) (secret_a ∷ secret_b ∷ []) ≡ ok ([], [])
check_secrets-Authorized_iff_example =
    (check_secrets-Authorized_iff cluster "ns" "alice" ("users" ∷ []) (secret_a ∷ secret_b ∷ [])).1
      Authorized-both

-- ===== src/Connection/Annotation.antt =====
-- `parseConnectionsAnnotation`: a comma-separated list of namespace/name.
pub mod Sound
pub mod Complete
pub mod RoundTrip
use workbenches_operator.Prelude.{
  ℕ, String, ◌<>◌, ◌==◌, true, false, ◌||◌, Option, none, some, List, [], ◌∷◌, ◌++◌, leb, ltb,
  length, contains, if◌then◌else◌,
}
use workbenches_operator.Prelude.Text.{trim_space, split, byte_length}
use workbenches_operator.Errors.{Error, failure, Result, ok, err, ◌>>=◌}
use workbenches_operator.Connection.Reference.{SecretReference, secret_ref_key}

abbrev pub max_connection_annotation_length : ℕ
max_connection_annotation_length = 4096

abbrev pub max_connection_secrets : ℕ
max_connection_secrets = 32

abbrev invalid_format : String → Error
invalid_format part =
    failure ("invalid secret reference format '" <> part <> "' - expected 'namespace/name'")

abbrev empty_part : String → Error
empty_part part =
    failure ("invalid secret reference '" <> part <> "' - namespace and name cannot be empty")

-- The two halves of a part, trimmed.
checked_reference : String → String → String → Result (Option SecretReference)
checked_reference part namespace name =
    if namespace == "" || name == ""
    then err (empty_part part)
    else ok (some (record { name = name; namespace = namespace }))

secret_parts : String → List String → Result (Option SecretReference)
unfolding checked_reference
secret_parts part (namespace ∷ name ∷ []) =
    checked_reference part (trim_space namespace) (trim_space name)
secret_parts part _ = err (invalid_format part)

trimmed_part : String → Result (Option SecretReference)
unfolding secret_parts
trimmed_part part = if part == "" then ok none else secret_parts part (split b'/' part)

-- What a round of the loop makes of a part alone: nothing, a reference, or an error.
unfoldable pub parse_part : String → Result (Option SecretReference)
unfolding trimmed_part
parse_part part = trimmed_part (trim_space part)

-- The loop's variables: the keys in the map `seen`, and `secretRefs`.
pub record Found : Type 0 where
  pub seen : List String
  pub refs : List SecretReference

add_reference : SecretReference → Found → Result Found
add_reference ref found =
    if contains (secret_ref_key ref) found.seen
    then ok found
    else if leb max_connection_secrets (length found.refs)
    then err (failure "too many connection secrets (max 32)")
    else ok (record { seen = secret_ref_key ref ∷ found.seen; refs = found.refs ++ (ref ∷ []) })

add_optional : Option SecretReference → Found → Result Found
unfolding add_reference
add_optional none found = ok found
add_optional (some ref) found = add_reference ref found

-- One round of the loop.
unfoldable pub parse_round : String → Found → Result Found
unfolding add_optional
parse_round part found = do parsed ← parse_part part; add_optional parsed found

unfoldable pub parse_parts : List String → Found → Result (List SecretReference)
parse_parts [] found = ok found.refs
parse_parts (part ∷ parts) found = do next ← parse_round part found; parse_parts parts next

unfoldable pub parse_connections_annotation : String → Result (List SecretReference)
parse_connections_annotation value =
    if trim_space value == ""
    then ok []
    else if ltb max_connection_annotation_length (byte_length value)
    then err (failure "connections annotation exceeds 4096 bytes")
    else parse_parts (split b',' value) (record { seen = []; refs = [] })

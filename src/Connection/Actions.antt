-- ===== src/Connection/Actions.antt =====
-- `NotebookSecretReference`, `determineSecretActions`, and the list that `getNotebookSecretRefs` makes.
pub mod Laws
use workbenches_operator.Prelude.{
  String, Bool, true, false, Option, none, some, List, [], ◌∷◌, ◌++◌, map, contains, or_default,
  if◌then◌else◌,
}
use workbenches_operator.Dict.{Dict, lookup, insert}
use workbenches_operator.Connection.Reference.{SecretReference, secret_ref_key, keys}

-- The texts "create" and "delete", and the empty text that a map gives for a missing key.
pub data Action : Type 0 where
  create delete unset : Action

pub record NotebookSecretReference : Type 0 where
  pub secret : SecretReference
  pub action : Action

-- The loop over the current references. `oldSecretsMap` is used for its keys alone.
unfoldable pub mark_created : List String → List SecretReference → Dict Action → Dict Action
mark_created old_keys [] actions = actions
mark_created old_keys (ref ∷ refs) actions = mark_created old_keys refs (
    if contains (secret_ref_key ref) old_keys
    then actions
    else insert (secret_ref_key ref) create actions)

-- The second loop over the old references.
unfoldable pub mark_deleted : List String → List SecretReference → Dict Action → Dict Action
mark_deleted current_keys [] actions = actions
mark_deleted current_keys (ref ∷ refs) actions = mark_deleted current_keys refs (
    if contains (secret_ref_key ref) current_keys
    then actions
    else insert (secret_ref_key ref) delete actions)

unfoldable pub determine_secret_actions : List SecretReference → List SecretReference → Dict Action
determine_secret_actions old current =
    mark_deleted (keys current) old (mark_created (keys old) current [])

abbrev pub with_action : Dict Action → SecretReference → NotebookSecretReference
with_action actions ref = record {
  secret = ref;
  action = or_default unset (lookup (secret_ref_key ref) actions);
}

-- The references of an update, the current ones before the old ones.
unfoldable pub update_refs :
    List SecretReference → List SecretReference → List NotebookSecretReference
update_refs old current = map (with_action (determine_secret_actions old current)) (current ++ old)

-- The references of a creation.
unfoldable pub create_refs : List SecretReference → List NotebookSecretReference
create_refs current = map (λ ref. record { secret = ref; action = create }) current

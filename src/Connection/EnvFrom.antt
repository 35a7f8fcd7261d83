-- ===== src/Connection/EnvFrom.antt =====
-- `handleConnectionSecret`: adding a secret to the list envFrom of a container, or removing it.
pub mod Laws
pub mod Update
use workbenches_operator.Prelude.{
  String, ◌==◌, Bool, true, false, Option, none, some, List, [], ◌∷◌, ◌++◌, or_default,
}
use workbenches_operator.Json.{Value, str, obj, Fields, end, field, get, as_map}
use workbenches_operator.Connection.Actions.{Action, create, delete, unset, NotebookSecretReference}

-- The entry that is appended for a secret.
abbrev pub secret_entry : String → Value
secret_entry name = obj (field "secretRef" (obj (field "name" (str name) end)) end)

abbrev pub is_text : String → Option Value → Bool
is_text name (some (str s)) = s == name
is_text name _ = false

abbrev pub ref_named : String → Option Value → Bool
ref_named name none = false
ref_named name (some ref) = elim (as_map ref) [
  | none ↦ false
  | some m ↦ is_text name (get "name" m)
]

-- Whether the round of the loop for this entry removes it.
unfoldable pub entry_names : String → Value → Bool
unfolding get as_map
entry_names name entry = elim (as_map entry) [
  | none ↦ false
  | some m ↦ ref_named name (get "secretRef" m)
]

-- The loop over the entries, with its `break`.
unfoldable pub remove_first : String → List Value → List Value
remove_first name [] = []
remove_first name (entry ∷ entries) =
    let rest = remove_first name entries in
    elim (entry_names name entry) [ true ↦ entries | false ↦ entry ∷ rest ]

abbrev apply_action : Action → String → Option (List Value) → Option (List Value)
apply_action create name env = some (or_default [] env ++ (secret_entry name ∷ []))
apply_action delete name none = none
apply_action delete name (some env) = some (remove_first name env)
apply_action unset name env = env

-- `none` is a nil slice.
unfoldable pub handle_connection_secret :
    NotebookSecretReference → Option (List Value) → Option (List Value)
handle_connection_secret ref env = apply_action ref.action ref.secret.name env

-- The loop of `performConnectionInjection`.
unfoldable pub handle_connection_secrets :
    List NotebookSecretReference → Option (List Value) → Option (List Value)
handle_connection_secrets [] env = env
handle_connection_secrets (ref ∷ refs) env =
    handle_connection_secrets refs (handle_connection_secret ref env)

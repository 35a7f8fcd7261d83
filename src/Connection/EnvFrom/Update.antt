-- ===== src/Connection/EnvFrom/Update.antt =====
-- What an update's references make of the list envFrom.
use mathlib.Core.List.{map-append}
use workbenches_operator.Prelude.{
  ℕ, ◌+◌, ◌-◌, String, ◌==◌, ◌≡◌, refl, ap, ◌∙◌, Bool, true, false, not, ◌&&◌, Option, List, [],
  ◌∷◌, ◌++◌, map, arith, or_default, if◌then◌else◌, keep, contains, All, eq_refl,
}
use workbenches_operator.Json.{Value}
use workbenches_operator.Dict.{Dict, lookup}
use workbenches_operator.Connection.Reference.{SecretReference, secret_ref_key, keys}
use workbenches_operator.Connection.Actions.{
  Action, create, delete, unset, NotebookSecretReference, with_action, determine_secret_actions,
  update_refs,
}
use workbenches_operator.Connection.Actions.Laws.{lookup-determine_secret_actions}
use workbenches_operator.Connection.EnvFrom.{
  entry_names, handle_connection_secret, handle_connection_secrets,
}
use workbenches_operator.Connection.EnvFrom.Laws.{env_count, one_if, env_count-handle, keep-handle}

handle-append :
    (xs ys : List NotebookSecretReference) (env : Option (List Value))
    → handle_connection_secrets (xs ++ ys) env
      ≡ handle_connection_secrets ys (handle_connection_secrets xs env)
unfolding handle_connection_secrets
handle-append [] ys env = refl
handle-append (x ∷ xs) ys env = handle-append xs ys (handle_connection_secret x env)

-- The number of references of the name whose key is not among the others.
abbrev pub new_count : String → List String → List SecretReference → ℕ
new_count n others [] = 0
new_count n others (ref ∷ refs) =
    one_if (ref.name == n && not (contains (secret_ref_key ref) others)) + new_count n others refs

-- The action that a map gives to each of the references.
abbrev Gives : Dict Action → Action → List String → List SecretReference → Type 0
Gives actions a others refs =
    All
      (λ ref.
        or_default unset (lookup (secret_ref_key ref) actions)
        ≡ (if contains (secret_ref_key ref) others then unset else a))
      refs

env_count-created :
    (n : String) (actions : Dict Action) (others : List String) (refs : List SecretReference)
    (env : Option (List Value))
    → Gives actions create others refs
    → env_count n (handle_connection_secrets (map (with_action actions) refs) env)
      ≡ env_count n env + new_count n others refs
unfolding handle_connection_secrets
env_count-created n actions others [] env g = ground arith
env_count-created n actions others (ref ∷ refs) env g =
    let rest = handle_connection_secret (with_action actions ref) env in
    env_count-created n actions others refs rest g.1
    ∙ ground (arith, env_count-handle n (with_action actions ref) env, g.0)

env_count-deleted :
    (n : String) (actions : Dict Action) (others : List String) (refs : List SecretReference)
    (env : Option (List Value))
    → Gives actions delete others refs
    → env_count n (handle_connection_secrets (map (with_action actions) refs) env)
      ≡ env_count n env - new_count n others refs
unfolding handle_connection_secrets
env_count-deleted n actions others [] env g = ground arith
env_count-deleted n actions others (ref ∷ refs) env g =
    let rest = handle_connection_secret (with_action actions ref) env in
    env_count-deleted n actions others refs rest g.1
    ∙ ground (arith, env_count-handle n (with_action actions ref) env, g.0)

abbrev AllIn : List String → List SecretReference → Type 0
AllIn ks refs = All (λ ref. contains (secret_ref_key ref) ks ≡ true) refs

AllIn-cons :
    (k : String) (ks : List String) (refs : List SecretReference)
    → AllIn ks refs
    → AllIn (k ∷ ks) refs
AllIn-cons k ks [] h = tt
AllIn-cons k ks (ref ∷ refs) h = (ground arith, AllIn-cons k ks refs h.1)

AllIn-keys : (refs : List SecretReference) → AllIn (keys refs) refs
AllIn-keys [] = tt
AllIn-keys (ref ∷ refs) = (
  rw (eq_refl (secret_ref_key ref)),
  AllIn-cons (secret_ref_key ref) (keys refs) refs (AllIn-keys refs),
)

Gives-current :
    (old current refs : List SecretReference)
    → AllIn (keys current) refs
    → Gives (determine_secret_actions old current) create (keys old) refs
Gives-current old current [] h = tt
Gives-current old current (ref ∷ refs) h = (
  ground (arith, lookup-determine_secret_actions old current (secret_ref_key ref), h.0),
  Gives-current old current refs h.1,
)

Gives-old :
    (old current refs : List SecretReference)
    → AllIn (keys old) refs
    → Gives (determine_secret_actions old current) delete (keys current) refs
Gives-old old current [] h = tt
Gives-old old current (ref ∷ refs) h = (
  ground (arith, lookup-determine_secret_actions old current (secret_ref_key ref), h.0),
  Gives-old old current refs h.1,
)

-- An update adds an entry for each current reference that is not among the old ones, and then removes
-- one for each old reference that is not among the current ones: the number of entries that name a
-- secret changes by exactly that, and stops at 0.
pub env_count-update_refs :
    (n : String) (old current : List SecretReference) (env : Option (List Value))
    → env_count n (handle_connection_secrets (update_refs old current) env)
      ≡ env_count n env + new_count n (keys old) current - new_count n (keys current) old
unfolding update_refs
env_count-update_refs n old current env =
    let actions = determine_secret_actions old current in
    let added = handle_connection_secrets (map (with_action actions) current) env in
    rw (map-append, handle-append (map (with_action actions) current))
      (env_count-deleted n actions (keys current) old added
          (Gives-old old current old (AllIn-keys old))
        ∙ ap (λ k. k - new_count n (keys current) old)
            (env_count-created n actions (keys old) current env
              (Gives-current old current current (AllIn-keys current))))

-- No entry that names one of the references passes the test.
abbrev pub Avoids : (Value → Bool) → List SecretReference → Type 0
Avoids p refs = All (λ ref. (e : Value) → entry_names ref.name e ≡ true → p e ≡ false) refs

keep-handle_all :
    (p : Value → Bool) (actions : Dict Action) (refs : List SecretReference)
    (env : Option (List Value))
    → Avoids p refs
    → keep p (or_default [] (handle_connection_secrets (map (with_action actions) refs) env))
      ≡ keep p (or_default [] env)
unfolding handle_connection_secrets
keep-handle_all p actions [] env h = refl
keep-handle_all p actions (ref ∷ refs) env h =
    keep-handle_all p actions refs (handle_connection_secret (with_action actions ref) env) h.1
    ∙ keep-handle p (with_action actions ref) env h.0

-- Whatever entries name none of the old and current secrets stay, in their order.
pub keep-update_refs :
    (p : Value → Bool) (old current : List SecretReference) (env : Option (List Value))
    → Avoids p current
    → Avoids p old
    → keep p (or_default [] (handle_connection_secrets (update_refs old current) env))
      ≡ keep p (or_default [] env)
unfolding update_refs
keep-update_refs p old current env hc ho =
    let actions = determine_secret_actions old current in
    rw (map-append, handle-append (map (with_action actions) current))
      (keep-handle_all p actions old _ ho ∙ keep-handle_all p actions current env hc)

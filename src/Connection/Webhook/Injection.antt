-- ===== src/Connection/Webhook/Injection.antt =====
-- What the injection makes of the first container, from the references of a request.
use workbenches_operator.Prelude.{
  ◌+◌, ◌-◌, String, ◌==◌, ◌≡◌, refl, ap, ◌∙◌, Bool-cases, inl, inr, Option, none, some, List, [],
  ◌∷◌, arith, if◌then◌else◌, sym, ◌⊎◌, eq_iff, false, false≢true, ◌≢◌, true,
}
use workbenches_operator.Errors.{
  Result, ok, err, wrap_err, wrap_err-eq-ok, Result-cases, ok-injective, >>=-eq-ok,
}
use workbenches_operator.Json.{Value, obj, Fields, get, put, as_map, to_list-of_list, get-put}
use workbenches_operator.Unstructured.{Unstructured}
use workbenches_operator.Admission.{Request, Decoder, is_update}
use workbenches_operator.Connection.Reference.{SecretReference, keys}
use workbenches_operator.Metadata.{get_annotation, connection_annotation}
use workbenches_operator.Connection.Annotation.{parse_connections_annotation}
use workbenches_operator.Connection.Actions.{
  create, NotebookSecretReference, update_refs, create_refs,
}
use workbenches_operator.Connection.EnvFrom.{handle_connection_secret, handle_connection_secrets}
use workbenches_operator.Connection.EnvFrom.Laws.{env_count, env_count-handle}
use workbenches_operator.Connection.EnvFrom.Update.{new_count, env_count-update_refs}
use workbenches_operator.Connection.Webhook.{
  NotebookWebhook, notebook_containers_path, existing_env_from, env_value, inject_first,
  perform_connection_injection, get_old_connection_secrets, get_notebook_secret_refs, failure,
  false, true,
}

-- A slice that is written is read back.
pub record ReadsBack (u : Unstructured) : Type 0 where
  pub nested_slice-set :
      (object object' : Fields) (xs : List Value)
      → u.set_nested_slice object xs notebook_containers_path ≡ ok object'
      → u.nested_slice object' notebook_containers_path ≡ ok (some xs)

abbrev pub env_of : Fields → Option (List Value)
env_of container = existing_env_from (get "envFrom" container)

-- From the old and the current references: the number of entries for each secret of the first container
-- changes by the new references less the ones that are gone, and nothing else of the containers does.
pub record Injection (u : Unstructured) (old refs : List SecretReference) (nb object : Fields)
    : Type 0 where
  pub container : Fields
  pub container' : Fields
  pub others : List Value
  pub before : u.nested_slice nb notebook_containers_path ≡ ok (some (obj container ∷ others))
  pub after : u.nested_slice object notebook_containers_path ≡ ok (some (obj container' ∷ others))
  pub counted :
      (n : String)
      → env_count n (env_of container')
        ≡ env_count n (env_of container) + new_count n (keys old) refs - new_count n (keys refs) old
  pub kept :
      (key : String)
      → get key container'
        ≡ (if "envFrom" == key then some (env_value (env_of container')) else get key container)

env_count-created_all :
    (n : String) (refs : List SecretReference) (env : Option (List Value))
    → env_count n (handle_connection_secrets (create_refs refs) env)
      ≡ env_count n env + new_count n [] refs
unfolding handle_connection_secrets create_refs
env_count-created_all n [] env = ground arith
env_count-created_all n (ref ∷ refs) env =
    let change : NotebookSecretReference = record { secret = ref; action = create } in
    env_count-created_all n refs (handle_connection_secret change env)
    ∙ ground (arith, env_count-handle n change env)

existing-env_value : (env : Option (List Value)) → existing_env_from (some (env_value env)) ≡ env
existing-env_value none = refl
existing-env_value (some xs) = ap some (to_list-of_list xs)

-- The references of a request, from the old and the current ones.
abbrev pub changes_of :
    Request → List SecretReference → List SecretReference → List NotebookSecretReference
changes_of req old refs = if is_update req.operation then update_refs old refs else create_refs refs

abbrev pub ReadsOld : NotebookWebhook → Decoder → Request → List SecretReference → Type 0
ReadsOld w d req old =
    (if is_update req.operation then get_old_connection_secrets w d req else ok []) ≡ ok old

env_count-changes_of :
    (w : NotebookWebhook) (d : Decoder) (req : Request) (old refs : List SecretReference)
    → ReadsOld w d req old
    → (n : String) (env : Option (List Value))
    → env_count n (handle_connection_secrets (changes_of req old refs) env)
      ≡ env_count n env + new_count n (keys old) refs - new_count n (keys refs) old
env_count-changes_of w d req old refs h n env = elim (Bool-cases (is_update req.operation)) [
  | inl update ↦ rw update (env_count-update_refs n old refs env)
  | inr other ↦
      let nothing : [] ≡ old = ok-injective (rw other at h) in
      rw (other, ← nothing) (env_count-created_all n refs env ∙ ground arith)
]

-- The references that an annotation has; a blank one has none.
abbrev pub AnnotatedRefs : String → List SecretReference → Type 0
AnnotatedRefs value refs =
    ((value ≡ "") × (refs ≡ [])) ⊎ ((value ≢ "") × (parse_connections_annotation value ≡ ok refs))

-- The object before an update is decoded, and its annotation has the references.
pub record UpdatedFrom (w : NotebookWebhook) (d : Decoder) (req : Request)
    (old : List SecretReference) : Type 0 where
  pub object : Fields
  pub decoded : d.decode_raw req.old_object ≡ ok object
  pub annotated : AnnotatedRefs (get_annotation w.unstructured object connection_annotation) old

-- The references before a request: none before a creation.
abbrev pub OldRefs : NotebookWebhook → Decoder → Request → List SecretReference → Type 0
OldRefs w d req old =
    ((is_update req.operation ≡ false) × (old ≡ []))
    ⊎ ((is_update req.operation ≡ true) × UpdatedFrom w d req old)

module _ (w : NotebookWebhook) where
  pub get_notebook_secret_refs-changes_of :
      (d : Decoder) (req : Request) (old refs : List SecretReference)
      → ReadsOld w d req old
      → get_notebook_secret_refs w d req refs ≡ ok (changes_of req old refs)
  unfolding get_notebook_secret_refs
  get_notebook_secret_refs-changes_of d req old refs h =
      elim (Bool-cases (is_update req.operation)) [
        | inl update ↦ let read = rw update at h in rw (update, get_notebook_secret_refs, read)
        | inr other ↦ rw (other, get_notebook_secret_refs)
      ]

  pub changes_of-get_notebook_secret_refs :
      (d : Decoder) (req : Request) (refs : List SecretReference)
      (changes : List NotebookSecretReference)
      → get_notebook_secret_refs w d req refs ≡ ok changes
      → (old : List SecretReference) × ReadsOld w d req old × (changes_of req old refs ≡ changes)
  unfolding get_notebook_secret_refs
  changes_of-get_notebook_secret_refs d req refs changes h =
      elim (Bool-cases (is_update req.operation)) [
        | inl update ↦
            let (old, read, rest) =
              >>=-eq-ok
                (wrap_err "failed to get old secret references"
                  (get_old_connection_secrets w d req))
                _ (rw (update, get_notebook_secret_refs) at h) in
            (
              old,
              rw update (wrap_err-eq-ok "failed to get old secret references" _ read),
              rw update (ok-injective rest),
            )
        | inr other ↦
            ([], rw other, rw other (ok-injective (rw (other, get_notebook_secret_refs) at h)))
      ]

  annotated-read :
      (value : String) (old : List SecretReference)
      → (if value == ""
          then ok []
          else wrap_err "failed to parse old secret references"
              (parse_connections_annotation value))
        ≡ ok old
      → AnnotatedRefs value old
  annotated-read value old h = elim (Bool-cases (value == "")) [
    | inl blank ↦ inl ((eq_iff value "").0 blank, sym (ok-injective (rw blank at h)))
    | inr set ↦ inr (
      (λ same. false≢true (sym set ∙ (eq_iff value "").1 same)),
      wrap_err-eq-ok "failed to parse old secret references" _ (rw set at h),
    )
  ]

  read-annotated :
      (value : String) (old : List SecretReference)
      → AnnotatedRefs value old
      → (if value == ""
          then ok []
          else wrap_err "failed to parse old secret references"
              (parse_connections_annotation value))
        ≡ ok old
  read-annotated value old (inl p) = rw (p.0, p.1)
  read-annotated value old (inr p) = elim (Bool-cases (value == "")) [
    | inl blank ↦ absurd (p.0 ((eq_iff value "").0 blank))
    | inr set ↦ rw (set, p.1)
  ]

  pub ReadsOld-OldRefs :
      (d : Decoder) (req : Request) (old : List SecretReference)
      → ReadsOld w d req old
      → OldRefs w d req old
  unfolding get_old_connection_secrets
  ReadsOld-OldRefs d req old h = elim (Bool-cases (is_update req.operation)) [
    | inr other ↦ inl (other, sym (ok-injective (rw other at h)))
    | inl update ↦
        let (object, decoded, rest) =
          >>=-eq-ok (wrap_err "failed to decode old notebook object" (d.decode_raw req.old_object))
            _ (rw (update, get_old_connection_secrets) at h) in
        inr (
          update,
          record {
            object = object;
            decoded = wrap_err-eq-ok "failed to decode old notebook object" _ decoded;
            annotated = annotated-read _ old rest;
          },
        )
  ]

  pub OldRefs-ReadsOld :
      (d : Decoder) (req : Request) (old : List SecretReference)
      → OldRefs w d req old
      → ReadsOld w d req old
  unfolding get_old_connection_secrets
  OldRefs-ReadsOld d req old (inl p) = rw (p.0, p.1)
  OldRefs-ReadsOld d req old (inr p) =
      rw (p.0, get_old_connection_secrets, p.1.decoded) (read-annotated _ old p.1.annotated)

  module _ (reads : ReadsBack w.unstructured) (d : Decoder) (req : Request)
      (old refs : List SecretReference) (old_read : ReadsOld w d req old) (nb object : Fields) where
    first-Injection :
        (containers : List Value)
        → w.unstructured.nested_slice nb notebook_containers_path ≡ ok (some containers)
        → inject_first w nb containers (changes_of req old refs) ≡ ok object
        → Injection w.unstructured old refs nb object
    unfolding inject_first as_map
    first-Injection [] there h = absurd (cc h)
    first-Injection (obj container ∷ others) there h =
        let env = handle_connection_secrets (changes_of req old refs) (env_of container) in
        let changed = put "envFrom" (env_value env) container in
        let listed : env_of changed ≡ env = rw get-put (existing-env_value env) in
        record {
          container = container;
          container' = changed;
          others = others;
          before = there;
          after =
              reads.nested_slice-set nb object (obj changed ∷ others)
                (wrap_err-eq-ok "failed to set containers array" _ h);
          counted = λ n.
              ap (env_count n) listed
              ∙ env_count-changes_of w d req old refs old_read n (env_of container);
          kept = λ key. rw (listed, get-put);
        }
    first-Injection (first ∷ others) there h = absurd (cc h)

    pub perform_connection_injection-Injection :
        perform_connection_injection w nb (changes_of req old refs) ≡ ok object
        → Injection w.unstructured old refs nb object
    unfolding perform_connection_injection
    perform_connection_injection-Injection h =
        elim (Result-cases (w.unstructured.nested_slice nb notebook_containers_path)) [
          | inl (e, bad) ↦ absurd (cc (rw (bad, perform_connection_injection) at h))
          | inr (found, read) ↦ go found read (rw (read, perform_connection_injection) at h)
        ]
      where
        go :
            (found : Option (List Value))
            → w.unstructured.nested_slice nb notebook_containers_path ≡ ok found
            → (elim found as (λ _. Result Fields) [
              | none ↦ err (failure "no containers found in notebook")
              | some containers ↦ inject_first w nb containers (changes_of req old refs)
            ])
              ≡ ok object
            → Injection w.unstructured old refs nb object
        go none read h = absurd (cc h)
        go (some containers) read h = first-Injection containers read h

-- ===== src/Probes/Settings.antt =====
-- After the configuration the settings have the timeout, and no other object changes.
use workbenches_operator.Prelude.{
  String, ◌≡◌, refl, sym, ap, ◌∙◌, Bool, Bool-cases, inl, inr, true, false, not, Option, none, some,
  List, [], ◌∷◌, keep, arith, if◌then◌else◌, subst,
}
use workbenches_operator.Errors.{Result, ok, err, wrap_err, ok-injective, ◌>>=◌, ok-injective}
use workbenches_operator.Json.{str, Fields}
use workbenches_operator.Format.{Format}
use workbenches_operator.Unstructured.{Unstructured}
use workbenches_operator.Api.{OdhNotebookControllerProbeSpec}
use workbenches_operator.Probes.{
  timeout_path, probe_timeout, is_settings, settings_object, set_timeout,
  configure_workbench_probes,
}

-- What the fields of an object are read as after a write of a text under data.
pub record IsLawful (u : Unstructured) : Type 0 where
  pub nested_string-set :
      (object object' : Fields) (text : String)
      → u.set_nested_field object (str text) timeout_path ≡ ok object'
      → u.nested_string object' timeout_path ≡ ok (some text)
  pub is_settings-set :
      (object object' : Fields) (text namespace : String)
      → u.set_nested_field object (str text) timeout_path ≡ ok object'
      → is_settings u namespace object' ≡ is_settings u namespace object
  pub is_settings-new :
      (text namespace : String) → is_settings u namespace (settings_object text namespace) ≡ true
  pub nested_string-new :
      (text namespace : String)
      → u.nested_string (settings_object text namespace) timeout_path ≡ ok (some text)

-- The first settings among the objects.
unfoldable pub find_settings : Unstructured → String → List Fields → Option Fields
find_settings u namespace [] = none
find_settings u namespace (object ∷ objects) =
    let rest = find_settings u namespace objects in
    if is_settings u namespace object then some object else rest

abbrev pub others : Unstructured → String → List Fields → List Fields
others u namespace objects = keep (λ object. not (is_settings u namespace object)) objects

pub record Configured (u : Unstructured) (timeout namespace : String) (before after : List Fields)
    : Type 0 where
  pub settings : Fields
  pub found : find_settings u namespace after ≡ some settings
  pub set : u.nested_string settings timeout_path ≡ ok (some timeout)
  pub kept : others u namespace after ≡ others u namespace before

others_first :
    (u : Unstructured) (namespace : String) (object : Fields) (objects : List Fields) (is : Bool)
    → is_settings u namespace object ≡ is
    → others u namespace (object ∷ objects)
      ≡ (if is then others u namespace objects else object ∷ others u namespace objects)
others_first u namespace object objects true h = ground arith
others_first u namespace object objects false h = ground arith

module _ (u : Unstructured) (lawful : IsLawful u) (timeout namespace : String) where
  here-Configured :
      (object object' : Fields) (objects : List Fields)
      → is_settings u namespace object ≡ true
      → u.set_nested_field object (str timeout) timeout_path ≡ ok object'
      → Configured u timeout namespace (object ∷ objects) (object' ∷ objects)
  unfolding find_settings
  here-Configured object object' objects is h =
      let is' : is_settings u namespace object' ≡ true =
        lawful.is_settings-set object object' timeout namespace h ∙ is in
      record {
        settings = object';
        found = rw is';
        set = lawful.nested_string-set object object' timeout h;
        kept =
            others_first u namespace object' objects true is'
            ∙ sym (others_first u namespace object objects true is);
      }

  later-Configured :
      (object : Fields) (before after : List Fields)
      → is_settings u namespace object ≡ false
      → Configured u timeout namespace before after
      → Configured u timeout namespace (object ∷ before) (object ∷ after)
  unfolding find_settings
  later-Configured object before after isnt c = record {
    settings = c.settings;
    found = rw isnt c.found;
    set = c.set;
    kept =
        others_first u namespace object after false isnt
        ∙ ap (λ objects. object ∷ objects) c.kept
        ∙ sym (others_first u namespace object before false isnt);
  }

  set-Configured :
      (object : Fields) (objects after : List Fields) (r : Result Fields)
      → is_settings u namespace object ≡ true
      → u.set_nested_field object (str timeout) timeout_path ≡ r
      → (wrap_err "setting WORKBENCH_PROBE_TIMEOUT_SECONDS" r
          >>= (λ object'. ok (object' ∷ objects)))
        ≡ ok after
      → Configured u timeout namespace (object ∷ objects) after
  set-Configured object objects after (err e) is h k = absurd (cc k)
  set-Configured object objects after (ok object') is h k =
      subst (λ result. Configured u timeout namespace (object ∷ objects) result) (ok-injective k)
        (here-Configured object object' objects is h)

  rest-Configured :
      (object : Fields) (objects after : List Fields) (r : Result (List Fields))
      → is_settings u namespace object ≡ false
      → ((objects' : List Fields)
          → r ≡ ok objects'
          → Configured u timeout namespace objects objects')
      → (r >>= (λ objects'. ok (object ∷ objects'))) ≡ ok after
      → Configured u timeout namespace (object ∷ objects) after
  rest-Configured object objects after (err e) isnt rest k = absurd (cc k)
  rest-Configured object objects after (ok objects') isnt rest k =
      subst (λ result. Configured u timeout namespace (object ∷ objects) result) (ok-injective k)
        (later-Configured object objects objects' isnt (rest objects' refl))

  set_timeout-Configured :
      (objects after : List Fields)
      → set_timeout u timeout namespace objects ≡ ok after
      → Configured u timeout namespace objects after
  unfolding set_timeout find_settings
  set_timeout-Configured [] after h =
      subst (λ result. Configured u timeout namespace [] result) (ok-injective h)
        (record {
          settings = settings_object timeout namespace;
          found = rw (lawful.is_settings-new timeout namespace);
          set = lawful.nested_string-new timeout namespace;
          kept =
              others_first u namespace (settings_object timeout namespace) [] true
                (lawful.is_settings-new timeout namespace);
        })
  set_timeout-Configured (object ∷ objects) after h =
      let rest = set_timeout-Configured objects in
      elim (Bool-cases (is_settings u namespace object)) [
        | inl is ↦ set-Configured object objects after _ is refl (rw is at h)
        | inr isnt ↦ rest-Configured object objects after _ isnt rest (rw isnt at h)
      ]

-- For a package unstructured in which a written text is read back and leaves the object's kind,
-- version, name and namespace alone: if the configuration succeeds, the first ConfigMap with the
-- name of the settings in the namespace has the timeout, and the objects that are not such a
-- ConfigMap are as they were, in their order.
pub configure_workbench_probes-Configured :
    (u : Unstructured)
    → IsLawful u
    → (format : Format) (objects after : List Fields)
      (probes : Option OdhNotebookControllerProbeSpec) (namespace : String)
    → configure_workbench_probes u format objects probes namespace ≡ ok after
    → Configured u (probe_timeout format probes) namespace objects after
unfolding configure_workbench_probes
configure_workbench_probes-Configured u lawful format objects after probes namespace h =
    set_timeout-Configured u lawful (probe_timeout format probes) namespace objects after h

-- ===== src/Tests/Probes.antt =====
-- Runs of the settings of the probes, and their theorem at concrete data.
use workbenches_operator.Prelude.{
  String, ◌==◌, eq_refl, ◌≡◌, refl, sym, false, Option, none, some, List, [], ◌∷◌,
}
use workbenches_operator.Errors.{ok, ok-injective}
use workbenches_operator.Json.{
  Value, str, obj, Fields, end, field, get, put, as_map, as_string, get-put, get-put_self,
}
use workbenches_operator.Unstructured.Reference.{reference, read, write, typed, text_at}
use workbenches_operator.Probes.{
  timeout_path, workbench_probe_timeout_key, probe_timeout, is_settings, settings_object,
  configure_workbench_probes,
}
use workbenches_operator.Probes.Settings.{
  IsLawful, Configured, configure_workbench_probes-Configured,
}
use workbenches_operator.Tests.Cluster.{format}

-- A write under data puts a map there, and leaves the other fields.
record Written (text : String) (object object' : Fields) : Type 0 where
  inner : Fields
  is_put : object' ≡ put "data" (obj (put workbench_probe_timeout_key (str text) inner)) object

inner_put :
    (text : String) (object object' : Fields) (found : Option Value)
    → get "data" object ≡ found
    → write timeout_path (str text) object ≡ ok object'
    → Written text object object'
unfolding write as_map
inner_put text object object' none g h = record {
  inner = end;
  is_put = sym (ok-injective (rw (g, write) at h));
}
inner_put text object object' (some (obj inner)) g h = record {
  inner = inner;
  is_put = sym (ok-injective (rw (g, write, as_map) at h));
}
inner_put text object object' (some v) g h = absurd (cc (rw (g, write, as_map) at h))

read_other :
    (text key : String) (path : List String) (object object' : Fields)
    → Written text object object'
    → ("data" == key) ≡ false
    → read (key ∷ path) object' ≡ read (key ∷ path) object
unfolding read
read_other text key [] object object' w other = rw (w.is_put, get-put, other)
read_other text key (j ∷ path) object object' w other = rw (w.is_put, read, get-put, other)

read_put :
    (text : String) (object object' : Fields)
    → Written text object object'
    → reference.nested_string object' timeout_path ≡ ok (some text)
unfolding reference read typed as_map as_string
read_put text object object' w = rw (w.is_put, read, get-put_self, get-put_self)

settings_put :
    (text namespace : String) (object object' : Fields)
    → Written text object object'
    → is_settings reference namespace object' ≡ is_settings reference namespace object
unfolding reference typed is_settings text_at
settings_put text namespace object object' w = rw (
  read_other text "apiVersion" [] object object' w refl,
  read_other text "kind" [] object object' w refl,
  read_other text "metadata" ("name" ∷ []) object object' w refl,
  read_other text "metadata" ("namespace" ∷ []) object object' w refl,
)

reference-IsLawful : IsLawful reference
unfolding reference read typed is_settings text_at get as_map as_string
reference-IsLawful = record {
  nested_string-set = λ object object' text h.
      read_put text object object' (inner_put text object object' _ refl h);
  is_settings-set = λ object object' text namespace h.
      settings_put text namespace object object' (inner_put text object object' _ refl h);
  is_settings-new = λ text namespace. eq_refl namespace;
  nested_string-new = λ text namespace. refl;
}

-- A Service and the settings of another namespace, before settings with a timeout.
abbrev objects : List Fields
objects =
    field "kind" (str "Service") end
    ∷ settings_object "7" "elsewhere"
    ∷ settings_object "7" "opendatahub"
    ∷ []

configured :
    configure_workbench_probes reference format objects none "opendatahub"
    ≡ ok (
        field "kind" (str "Service") end
        ∷ settings_object "7" "elsewhere"
        ∷ settings_object "1" "opendatahub"
        ∷ [])
unfolding configure_workbench_probes reference is_settings get as_string as_map put
configured = refl

configure_workbench_probes-Configured_example : Configured reference "1" "opendatahub" objects (
    field "kind" (str "Service") end
    ∷ settings_object "7" "elsewhere"
    ∷ settings_object "1" "opendatahub"
    ∷ [])
unfolding probe_timeout
configure_workbench_probes-Configured_example =
    configure_workbench_probes-Configured reference reference-IsLawful format objects _ none
      "opendatahub" configured

-- ===== src/Tests/Fixtures.antt =====
-- A Notebook, a cluster and codecs that the witnesses and tests use.
use workbenches_operator.Prelude.{String, none, [], ◌∷◌}
use workbenches_operator.Errors.{ok}
use workbenches_operator.Json.{Value, str, obj, Fields, end, field, slice}
use workbenches_operator.Admission.{create, Request, Decoder, Encoding}

abbrev pub container_named : String → Value
container_named name = obj (field "name" (str name) end)

-- A Notebook of the namespace ns with an annotation and one container.
abbrev pub notebook_with : String → String → Fields
notebook_with key value = field "kind" (str "Notebook") (
    field "metadata"
      (obj (
        field "name" (str "nb") (
          field "namespace" (str "ns")
            (field "annotations" (obj (field key (str value) end)) end))))
      (field "spec"
        (obj (
          field "template"
            (obj
              (field "spec" (obj (field "containers" (slice (container_named "nb" ∷ [])) end)) end))
            end))
        end))

abbrev pub creation : Request
creation = record {
  operation = create;
  kind = "Notebook";
  name = "nb";
  namespace = "ns";
  username = "alice";
  groups = "users" ∷ [];
  object = "original";
  old_object = none;
  dry_run = none;
}

abbrev pub decoder_of : Fields → Decoder
decoder_of nb = record { decode = λ req. ok nb; decode_raw = λ bytes. ok nb }

abbrev pub encoding_of : Fields → Encoding
encoding_of nb = record { unmarshal = λ bytes. ok nb; marshal = λ object. ok "current" }

-- ===== src/HardwareProfile/Injector.antt =====
-- `Injector`: the API server, the validations and the conversions that the webhook calls. What stands
-- outside the repository is a field, so that every theorem holds for whatever it answers.
use workbenches_operator.Prelude.{ℕ, String, Bool, Option, List}
use workbenches_operator.Errors.{Result}
use workbenches_operator.Json.{ℤ, Value, Fields}
use workbenches_operator.Unstructured.{Unstructured}
use workbenches_operator.Admission.{Decoder, Encoding}

pub record Injector : Type 0 where
  pub unstructured : Unstructured
  pub encoding : Encoding
  pub decoder : Option Decoder
  -- whether `EventWriter` is set
  pub has_event_writer : Bool
  -- `Client.Get` of a HardwareProfile and of a ResourceClaimTemplate, by namespace and name
  pub get_profile : String → String → Result Fields
  pub get_claim_template : String → String → Result (Unit {0})
  -- the errors of `validation.IsDNS1123Subdomain` and `validation.IsValidLabelValue`
  pub dns1123_subdomain_errors : String → List String
  pub label_value_errors : String → List String
  -- package resource: a quantity is what its method String gives for it
  pub parse_quantity : String → Result String
  pub new_quantity : ℤ → String
  -- `strconv.FormatFloat(v, 'f', -1, 64)`, and the verbs %v and %q of package fmt
  pub format_float : ℕ → String
  pub show_value : Value → String
  pub quote : String → String

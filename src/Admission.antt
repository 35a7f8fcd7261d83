-- ===== src/Admission.antt =====
-- Admission requests and responses, and the codecs of a webhook.
use workbenches_operator.Prelude.{ℕ, String, Bool, true, false, Option, List}
use workbenches_operator.Errors.{Error, Result}
use workbenches_operator.Json.{Fields}

pub data Operation : Type 0 where
  create update delete connect : Operation

abbrev pub is_create : Operation → Bool
is_create create = true
is_create _ = false

abbrev pub is_update : Operation → Bool
is_update update = true
is_update _ = false

abbrev pub operation_name : Operation → String
operation_name create = "CREATE"
operation_name update = "UPDATE"
operation_name delete = "DELETE"
operation_name connect = "CONNECT"

pub record Request : Type 0 where
  pub operation : Operation
  pub kind : String
  pub name : String
  pub namespace : String
  pub username : String
  pub groups : List String
  -- the bytes of the object, and of the old one unless they are nil
  pub object : String
  pub old_object : Option String
  pub dry_run : Option Bool

-- What a handler returns: `admission.Allowed`, `Denied`, `Errored`, each with its arguments and
-- warnings, or `admission.PatchResponseFromRaw` of the original and the current bytes.
pub data Response : Type 0 where
  allowed : String → List String → Response
  denied : String → Response
  errored : ℕ → Error → Response
  patched : String → String → List String → Response

-- admission.Decoder; nil bytes are `none`.
pub record Decoder : Type 0 where
  pub decode : Request → Result Fields
  pub decode_raw : Option String → Result Fields

-- json.Unmarshal into an Unstructured, and json.Marshal of one.
pub record Encoding : Type 0 where
  pub unmarshal : String → Result Fields
  pub marshal : Fields → Result String

abbrev pub bad_request : ℕ
bad_request = 400

abbrev pub internal_server_error : ℕ
internal_server_error = 500

-- Response.Allowed of the responses that a handler makes itself.
abbrev pub is_allowed : Response → Bool
is_allowed (allowed text warnings) = true
is_allowed (denied text) = false
is_allowed (errored code e) = false
is_allowed (patched original current warnings) = true

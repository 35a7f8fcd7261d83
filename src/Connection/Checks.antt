-- ===== src/Connection/Checks.antt =====
-- `checkSecretExists`, `checkUserHasPermission` and the function that makes both checks.
pub mod Laws
use workbenches_operator.Prelude.{String, ◌==◌, Bool, true, false, List, [], ◌∷◌, if◌then◌else◌}
use workbenches_operator.Errors.{Error, is_not_found, Result, ok, err, ◌>>=◌, wrap, wrap_err}
use workbenches_operator.Connection.Reference.{SecretReference, secret_ref_key}

-- authorizationv1.ResourceAttributes
pub record ResourceAttributes : Type 0 where
  pub namespace : String
  pub verb : String
  pub group : String
  pub version : String
  pub resource : String
  pub name : String

-- The specification of an authorizationv1.SubjectAccessReview.
pub record SubjectAccessReview : Type 0 where
  pub user : String
  pub groups : List String
  pub resource_attributes : ResourceAttributes

-- Whether the user may get the secret.
abbrev pub secret_review : String → List String → SecretReference → SubjectAccessReview
secret_review user groups ref = record {
  user = user;
  groups = groups;
  resource_attributes = record {
    namespace = ref.namespace;
    verb = "get";
    group = "";
    version = "v1";
    resource = "secrets";
    name = ref.name;
  };
}

-- The two calls of the API server. A request reads each secret and asks about each one at most once,
-- so their answers are functions of the arguments.
pub record Cluster : Type 0 where
  -- `APIReader.Get` of the Secret of a namespace and a name
  pub get_secret : String → String → Result (Unit {0})
  -- `Client.Create` of a SubjectAccessReview: its `Status.Allowed`
  pub create_review : SubjectAccessReview → Result Bool

-- What the reading of a secret says: only a NotFound error makes it missing.
abbrev pub missing_of : Result (Unit {0}) → Result Bool
missing_of (ok _) = ok false
missing_of (err e) =
    if is_not_found e then ok true else err (wrap "failed to check if secret exists" e)

abbrev pub list_if : Bool → SecretReference → List String → List String
list_if bad ref rest = if bad then secret_ref_key ref ∷ rest else rest

module _ (cluster : Cluster) where
  -- Whether a round of the loop adds the reference to the errors.
  secret_missing : String → SecretReference → Result Bool
  secret_missing namespace ref =
      if ref.namespace == namespace
      then missing_of (cluster.get_secret ref.namespace ref.name)
      else ok true

  unfoldable pub check_secret_exists : String → List SecretReference → Result (List String)
  unfolding secret_missing
  check_secret_exists namespace [] = ok []
  check_secret_exists namespace (ref ∷ refs) = do
    missing ← secret_missing namespace ref
    rest ← check_secret_exists namespace refs
    ok (list_if missing ref rest)

  unfoldable pub check_user_has_permission :
      String → List String → List SecretReference → Result (List String)
  check_user_has_permission user groups [] = ok []
  check_user_has_permission user groups (ref ∷ refs) = do
    permitted ←
        wrap_err "failed to create SubjectAccessReview"
          (cluster.create_review (secret_review user groups ref))
    rest ← check_user_has_permission user groups refs
    ok (list_if (if permitted then false else true) ref rest)

  -- `checkSecretsExistsAndUserHasPermissions`
  unfoldable pub check_secrets :
      String → String → List String → List SecretReference → Result (List String × List String)
  check_secrets namespace user groups refs = do
    missing ← wrap_err "failed to check secret exists" (check_secret_exists namespace refs)
    forbidden ←
        wrap_err "failed to check user has permission" (check_user_has_permission user groups refs)
    ok (missing, forbidden)

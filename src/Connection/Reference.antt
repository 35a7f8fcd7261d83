-- ===== src/Connection/Reference.antt =====
-- corev1.SecretReference and `secretRefKey`.
use workbenches_operator.Prelude.{String, ◌<>◌, List, map}

pub record SecretReference : Type 0 where
  pub name : String
  pub namespace : String

abbrev pub secret_ref_key : SecretReference → String
secret_ref_key ref = ref.namespace <> ("/" <> ref.name)

abbrev pub keys : List SecretReference → List String
keys refs = map secret_ref_key refs

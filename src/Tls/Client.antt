-- ===== src/Tls/Client.antt =====
-- The calls of the API server that ensure.go makes. The server is not part of the repository: its
-- state is a type, and what it answers is an interface.
use workbenches_operator.Prelude.{String, ◌≡◌, ◌≢◌, Option, List, ap}
use workbenches_operator.Errors.{Result, ok, err, wrap_err, wrap_err-eq-ok}
use workbenches_operator.Json.{Fields}
use workbenches_operator.Dict.{StringMap}
use workbenches_operator.Tls.Owner.{OwnerReference}

-- The objects, with their namespaces and names.
pub data Key : Type 0 where
  service : String → String → Key
  webhook_configuration : String → Key
  cluster_issuer : String → Key
  certificate : String → String → Key

-- What the code reads and writes of an object.
pub record Object : Type 0 where
  pub name : String
  pub uid : String
  -- `none` is a nil map
  pub annotations : Option StringMap
  pub owner_references : List OwnerReference
  pub spec : Fields

pub record Client (S : Type 0) : Type 0 where
  pub get : S → Key → Result Object
  -- a merge patch from an original to an object
  pub patch : S → Key → Object → Object → S × Result (Unit {0})
  pub create : S → Key → Object → S × Result (Unit {0})
  pub delete : S → Key → S × Result (Unit {0})

-- A patch of the live object that succeeds stores the object, and a patch leaves the others alone.
pub record IsLawful {S : Type 0} (client : Client S) : Type 0 where
  pub get-patch :
      (s s' : S) (key : Key) (original object : Object)
      → client.get s key ≡ ok original
      → client.patch s key original object ≡ (s', ok tt)
      → client.get s' key ≡ ok object
  pub get-patch_other :
      (s : S) (key other : Key) (original object : Object)
      → key ≢ other
      → client.get ((client.patch s key original object).0) other ≡ client.get s other

-- The next call, unless there was an error.
abbrev pub and_then : {S A : Type 0} → S × Result (Unit {0}) → (S → S × Result A) → S × Result A
and_then (s, ok _) next = next s
and_then (s, err e) next = (s, err e)

abbrev pub wrap_run : {S A : Type 0} → String → S × Result A → S × Result A
wrap_run text run = (run.0, wrap_err text run.1)

pub wrap_run-eq-ok :
    {S A : Type 0} (text : String) (run : S × Result A) {s : S} {a : A}
    → wrap_run text run ≡ (s, ok a)
    → run ≡ (s, ok a)
wrap_run-eq-ok text (s', r) h =
    let same : s' ≡ _ = ap (λ p. p.0) h in
    let result = wrap_err-eq-ok text r (ap (λ p. p.1) h) in λ i. (same i, result i)

-- ===== src/Connection/Actions/Laws.antt =====
-- Which action each key gets.
use workbenches_operator.Prelude.{
  String, eq_iff, ◌≡◌, refl, none, some, List, [], ◌∷◌, arith, contains, if◌then◌else◌,
}
use workbenches_operator.Dict.{Dict, lookup, insert}
use workbenches_operator.Dict.Laws.{lookup-insert}
use workbenches_operator.Connection.Reference.{SecretReference, secret_ref_key, keys}
use workbenches_operator.Connection.Actions.{
  Action, create, delete, mark_created, mark_deleted, determine_secret_actions,
}

lookup-mark_created :
    (k : String) (old : List String) (refs : List SecretReference) (m : Dict Action)
    → lookup k (mark_created old refs m) ≡ (
        if contains k (keys refs)
        then (if contains k old then lookup k m else some create)
        else lookup k m)
unfolding mark_created
lookup-mark_created k old [] m = refl
lookup-mark_created k old (ref ∷ refs) m = ground (
  arith,
  lookup-mark_created k old refs m,
  lookup-mark_created k old refs (insert (secret_ref_key ref) create m),
  lookup-insert (secret_ref_key ref) k create m,
  eq_iff (secret_ref_key ref) k,
)

lookup-mark_deleted :
    (k : String) (current : List String) (refs : List SecretReference) (m : Dict Action)
    → lookup k (mark_deleted current refs m) ≡ (
        if contains k (keys refs)
        then (if contains k current then lookup k m else some delete)
        else lookup k m)
unfolding mark_deleted
lookup-mark_deleted k current [] m = refl
lookup-mark_deleted k current (ref ∷ refs) m = ground (
  arith,
  lookup-mark_deleted k current refs m,
  lookup-mark_deleted k current refs (insert (secret_ref_key ref) delete m),
  lookup-insert (secret_ref_key ref) k delete m,
  eq_iff (secret_ref_key ref) k,
)

-- A key is created when it is current and not old, deleted when it is old and not current, and has no
-- action otherwise.
pub lookup-determine_secret_actions :
    (old current : List SecretReference) (k : String)
    → lookup k (determine_secret_actions old current) ≡ (
        if contains k (keys current)
        then (if contains k (keys old) then none else some create)
        else if contains k (keys old)
        then some delete
        else none)
unfolding determine_secret_actions lookup
lookup-determine_secret_actions old current k = ground (
  arith,
  lookup-mark_deleted k (keys current) old (mark_created (keys old) current []),
  lookup-mark_created k (keys old) current [],
)
